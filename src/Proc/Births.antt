-- ===== src/Proc/Births.antt =====
-- What `fork` and `clone` leave of a new process, and of one that could not be made.
use ecnu_2020_autumn_linux_l.Base.{
  ℕ, suc, ◌≡◌, ◌≢◌, refl, ◌∙◌, inl, inr, true, false, Option, none, some, List, [], ◌∷◌, get_elem?,
  set, arith, Bool-cases, Option-cases, get_elem?-set_self, get_elem?-set_ne, length-set,
  lt_of_get_elem?,
}
use ecnu_2020_autumn_linux_l.Proc.Defs.{
  unused, embryo, runnable, bump, Proc, Kernel, Vm, is_unused, find_unused, next_id, allocproc,
}
use ecnu_2020_autumn_linux_l.Proc.Fork.{
  fork, fork_at, clone, clone_at, with_slot, dup_files, inherit_files, thread_sp,
}

-- A free slot that gets a process.
pub find_unused_lem :
    (ps : List Proc) (i : ℕ)
    → find_unused ps ≡ some i
    → (p : Proc) × (get_elem? ps i ≡ some p) × (is_unused p.state ≡ true)
unfolding find_unused
find_unused_lem [] i e = absurd (cc)
find_unused_lem (q ∷ ps) i e = elim (Bool-cases (is_unused q.state)) [
  | inl b ↦
      let out : find_unused (q ∷ ps) ≡ some 0 = rw b refl in
      let at : 0 ≡ i = cc in (q, rw (← at) refl, b)
  | inr b ↦ elim (Option-cases (find_unused ps)) [
    | inl f ↦ absurd (let out : find_unused (q ∷ ps) ≡ none = rw (b, f) refl in cc)
    | inr (j, f) ↦
        let out : find_unused (q ∷ ps) ≡ some (suc j) = rw (b, f) refl in
        let at : suc j ≡ i = cc in let (p, g, h) = find_unused_lem ps j f in (p, rw (← at) g, h)
  ]
]

-- The process of `allocproc` in a free slot.
abbrev newborn : Kernel → ℕ → Proc → Proc
newborn k page p = record p { state = embryo; pid = k.nextpid; kstack = page }

-- The table with it.
abbrev with_newborn : Kernel → ℕ → ℕ → Proc → Kernel
with_newborn k i page p = record k {
  procs = set k.procs i (newborn k page p);
  nextpid = next_id k.nextpid;
}

-- What `with_slot` gets where there are a free slot and a page.
with_slot-newborn :
    (f : ℕ → Proc → Kernel → Option ℕ × Kernel)
    → (vm : Vm) (k : Kernel) (i page : ℕ) (p : Proc) → find_unused k.procs ≡ some i
    → get_elem? k.procs i ≡ some p
    → vm.kalloc ≡ some page
    → with_slot f (allocproc vm k) ≡ f i (newborn k page p) (with_newborn k i page p)
unfolding allocproc
with_slot-newborn f vm k i page p e g h =
    let found : get_elem? (set k.procs i (newborn k page p)) i ≡ some (newborn k page p) =
      get_elem?-set_self k.procs i (newborn k page p) (lt_of_get_elem? k.procs i g) in
    let out : allocproc vm k ≡ (some i, with_newborn k i page p) = rw (e, allocproc, g, h) refl in
    rw (out, with_slot, found) refl

-- The slot of a new process and the other slots, after its last write.
abbrev pub Placed : Kernel → ℕ → Proc → Kernel → Type 0
Placed k i p k' =
    (get_elem? k'.procs i ≡ some p)
    × ((j : ℕ) → i ≢ j → get_elem? k'.procs j ≡ get_elem? k.procs j)
    × (k'.nextpid ≡ next_id k.nextpid)
    × (k'.current ≡ k.current)

slots-Placed :
    (k : Kernel) (i page : ℕ) (p q r : Proc)
    → get_elem? k.procs i ≡ some p
    → (get_elem? (set (set k.procs i q) i r) i ≡ some r)
      × ((j : ℕ) → i ≢ j → get_elem? (set (set k.procs i q) i r) j ≡ get_elem? k.procs j)
slots-Placed k i page p q r e = (
  get_elem?-set_self (set k.procs i q) i r
      (omega (arith, length-set k.procs i q, lt_of_get_elem? k.procs i e)),
  λ j h. get_elem?-set_ne (set k.procs i q) i j r h ∙ get_elem?-set_ne k.procs i j q h,
)

-- The process that `fork` makes of the slot `p`.
abbrev pub forked : Kernel → Proc → ℕ → ℕ → Proc → Proc
forked k parent page d p = record p {
  sz = parent.sz;
  pgdir = d;
  kstack = page;
  state = runnable;
  pid = k.nextpid;
  parent = some k.current;
  tf = record parent.tf { eax = 0 };
  ofile = inherit_files parent.ofile p.ofile;
  cwd = parent.cwd;
}

-- The thread that `clone` leaves in the slot `p` where it fails.
abbrev pub half_made : Kernel → Proc → ℕ → ℕ → Proc → Proc
half_made k parent page stack p = record p {
  sz = parent.sz;
  pgdir = parent.pgdir;
  kstack = page;
  state = embryo;
  pid = k.nextpid;
  parent = some k.current;
  tf = record parent.tf { eax = 0 };
  stack = stack;
}

-- The thread that it makes of it.
abbrev pub cloned : Kernel → Proc → ℕ → (fcn stack : ℕ) → Proc → Proc
cloned k parent page fcn stack p = record p {
  sz = parent.sz;
  pgdir = parent.pgdir;
  kstack = page;
  state = runnable;
  pid = k.nextpid;
  parent = some k.current;
  tf = record { eax = 0; eip = fcn; esp = thread_sp stack };
  ofile = inherit_files parent.ofile p.ofile;
  cwd = parent.cwd;
  stack = stack;
}

module _ (vm : Vm) (k : Kernel) (i page : ℕ) (parent p : Proc)
    (caller : get_elem? k.procs k.current ≡ some parent) (free : find_unused k.procs ≡ some i)
    (slot : get_elem? k.procs i ≡ some p) (room : vm.kalloc ≡ some page) where
  fork-newborn : fork vm k ≡ fork_at vm parent i (newborn k page p) (with_newborn k i page p)
  unfolding fork
  fork-newborn =
      rw (caller, fork) (with_slot-newborn (fork_at vm parent) vm k i page p free slot room)

  clone-newborn :
      (fcn arg stack : ℕ)
      → clone vm fcn arg stack k
        ≡ clone_at vm fcn arg stack parent i (newborn k page p) (with_newborn k i page p)
  unfolding clone
  clone-newborn fcn arg stack =
      rw (caller, clone)
        (with_slot-newborn (clone_at vm fcn arg stack parent) vm k i page p free slot room)

  -- Where a slot is free and memory is left, `fork` returns the next id to the parent; the child has
  -- the copied address space, the parent's registers with 0 as its result, its open files (each
  -- with one more reference) and its directory, is runnable, and keeps the rest of the old slot, the `killed`
  -- flag included; no other slot changes.
  pub fork-Placed :
      (d : ℕ)
      → vm.copyuvm parent.pgdir parent.sz ≡ some d
      → ((fork vm k).0 ≡ some k.nextpid)
        × Placed k i (forked k parent page d p) (fork vm k).1
        × ((fork vm k).1.file_refs ≡ dup_files parent.ofile k.file_refs)
  unfolding fork_at
  fork-Placed d e =
      rw (fork-newborn, fork_at, e)
        (
          refl,
          let (a, b) = slots-Placed k i page p (newborn k page p) (forked k parent page d p) slot in
              (a, b, refl, refl),
          refl,
        )

  -- Where the address space cannot be copied, `fork` fails and the slot is free again, its page given
  -- back; only the process id is used up.
  fork-fails :
      vm.copyuvm parent.pgdir parent.sz ≡ none
      → ((fork vm k).0 ≡ none)
        × Placed k i
            (record p { kstack = 0; pgdir = 0; state = unused; pid = k.nextpid })
            (fork vm k).1
  unfolding fork_at
  fork-fails e =
      rw (fork-newborn, fork_at, e)
        (
          refl,
          let (a, b) =
                slots-Placed k i page p (newborn k page p)
                  (record p { kstack = 0; pgdir = 0; state = unused; pid = k.nextpid }) slot in
              (a, b, refl, refl),
        )

  -- Where the arguments cannot be written to the stack, `clone` fails but does not free the slot: it
  -- stays an EMBRYO that is a thread of the caller, with its kernel stack.
  pub clone-fails :
      (fcn arg stack : ℕ)
      → vm.copyout parent.pgdir (thread_sp stack) (4294967295 ∷ arg ∷ []) ≡ false
      → ((clone vm fcn arg stack k).0 ≡ none)
        × Placed k i (half_made k parent page stack p) (clone vm fcn arg stack k).1
  unfolding clone_at
  clone-fails fcn arg stack e =
      rw (clone-newborn fcn arg stack, clone_at, e)
        (
          refl,
          let (a, b) =
                slots-Placed k i page p (newborn k page p) (half_made k parent page stack p) slot in
              (a, b, refl, refl),
        )

  -- Where a slot is free, memory is left and the arguments can be written, `clone` places the thread.
  pub clone-cloned :
      (fcn arg stack : ℕ)
      → vm.copyout parent.pgdir (thread_sp stack) (4294967295 ∷ arg ∷ []) ≡ true
      → ((clone vm fcn arg stack k).0 ≡ some k.nextpid)
        × Placed k i (cloned k parent page fcn stack p) (clone vm fcn arg stack k).1
        × ((clone vm fcn arg stack k).1.file_refs ≡ dup_files parent.ofile k.file_refs)
        × ((clone vm fcn arg stack k).1.inode_refs ≡ bump k.inode_refs parent.cwd)
  unfolding clone_at
  clone-cloned fcn arg stack e =
      rw (clone-newborn fcn arg stack, clone_at, e)
        (
          refl,
          let (a, b) =
                slots-Placed k i page p (newborn k page p) (cloned k parent page fcn stack p)
                  slot in
              (a, b, refl, refl),
          refl,
          refl,
        )
