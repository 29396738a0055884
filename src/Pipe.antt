-- ===== src/Pipe.antt =====
-- kernel/pipe.c of Project4/4b xv6 Kernel Thread. Each call is one pass under `p->lock`; where the C
-- code sleeps, the pass ends with the outcome `sleeps`, and the call goes on from there later.
pub mod Queue
pub mod Close
mod Tests
use ecnu_2020_autumn_linux_l.Base.{
  ℕ, zero, suc, ◌+◌, ◌%◌, Bool, true, false, not, ◌&&◌, ◌||◌, List, [], ◌∷◌, ◌==◌, if◌then◌else◌,
}

-- `struct pipe`; the array `data` is a function that is used below `PIPESIZE` only.
pub record Pipe : Type 0 where
  pub data_at : ℕ → ℕ
  pub nread : ℕ
  pub nwrite : ℕ
  pub readopen : Bool
  pub writeopen : Bool

abbrev pub pipesize : ℕ
pipesize = 512

-- 2 ^ 32
abbrev pub uint_size : ℕ
uint_size = 4294967296

-- The pipe of `pipealloc`, with whatever bytes its page has.
abbrev pub fresh : (ℕ → ℕ) → Pipe
fresh d = record { data_at = d; nread = 0; nwrite = 0; readopen = true; writeopen = true }

-- The pipe, and if its page is freed.
unfoldable pub pipeclose : Bool → Pipe → Pipe × Bool
pipeclose writable p =
    let q : Pipe =
      if writable then record p { writeopen = false } else record p { readopen = false } in
    (q, not q.readopen && not q.writeopen)

abbrev pub is_full : Pipe → Bool
is_full p = p.nwrite == (p.nread + pipesize) % uint_size

abbrev pub is_empty : Pipe → Bool
is_empty p = p.nread == p.nwrite

-- `p->data[p->nwrite++ % PIPESIZE] = c`
abbrev pub push : Pipe → ℕ → Pipe
push p c = record p {
  data_at = λ i. if i == p.nwrite % pipesize then c else p.data_at i;
  nwrite = suc p.nwrite % uint_size;
}

-- How a pass of `pipewrite` ends: with all bytes written, with -1, or asleep with bytes left.
pub data Written : Type 0 where
  written : Pipe → Written
  write_fails : Pipe → List ℕ → Written
  write_sleeps : Pipe → List ℕ → Written

unfoldable pub pipewrite : (killed : Bool) → Pipe → List ℕ → Written
pipewrite killed p [] = written p
pipewrite killed p (c ∷ cs) =
    let rest = pipewrite killed (push p c) cs in
    if is_full p
    then (if not p.readopen || killed then write_fails p (c ∷ cs) else write_sleeps p (c ∷ cs))
    else rest

-- How a pass of `piperead` ends.
pub data Read : Type 0 where
  read : List ℕ → Pipe → Read
  read_fails : Read
  read_sleeps : Read

-- The copying loop, of `n` rounds.
unfoldable pub copy_loop : ℕ → Pipe → List ℕ × Pipe
copy_loop zero p = ([], p)
copy_loop (suc n) p =
    let (cs, q) = copy_loop n (record p { nread = suc p.nread % uint_size }) in
    if is_empty p then ([], p) else (p.data_at (p.nread % pipesize) ∷ cs, q)

unfoldable pub piperead : (killed : Bool) → ℕ → Pipe → Read
unfolding copy_loop
piperead killed n p =
    if is_empty p && p.writeopen
    then (if killed then read_fails else read_sleeps)
    else let (cs, q) = copy_loop n p in read cs q
