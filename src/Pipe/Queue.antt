-- ===== src/Pipe/Queue.antt =====
-- A pipe is a queue of at most 512 bytes, also where its counters wrap around at 2 ^ 32.
use ecnu_2020_autumn_linux_l.Base.{
  ℕ, zero, suc, ◌+◌, ◌%◌, ◌≤◌, ◌<◌, ◌≡◌, ◌≢◌, ◌⊎◌, inl, inr, refl, sym, ap, subst, ◌∙◌, Bool, true,
  false, not, ◌||◌, List, [], ◌∷◌, ◌++◌, ◌==◌, if◌then◌else◌, append-nil, append_assoc, length,
  take, drop, take-length, drop-length, length-append, arith, Bool-cases, eq_of_==, ne_of_==,
  ==_of_ne,
}
use ecnu_2020_autumn_linux_l.Pipe.{
  Pipe, uint_size, is_full, is_empty, push, Written, written, write_fails, write_sleeps, pipewrite,
  Read, read, read_fails, read_sleeps, copy_loop, piperead,
}

-- The bytes stand in the array from the position `r` on.
abbrev IsStored : (ℕ → ℕ) → ℕ → List ℕ → Type 0
IsStored d r [] = Unit
IsStored d r (x ∷ xs) = (d (r % 512) ≡ x) × IsStored d (suc r) xs

-- The pipe holds these bytes, the oldest first.
pub record Holds (p : Pipe) (xs : List ℕ) : Type 0 where
  pub room : length xs ≤ 512
  pub bound : p.nread < 4294967296
  pub count : p.nwrite ≡ (p.nread + length xs) % 4294967296
  pub stored : IsStored p.data_at p.nread xs

IsStored-mod :
    (d : ℕ → ℕ) (r s : ℕ) (xs : List ℕ) → r % 512 ≡ s % 512 → IsStored d r xs → IsStored d s xs
IsStored-mod d r s [] e h = tt
IsStored-mod d r s (x ∷ xs) e (a, b) =
    (ap d (sym e) ∙ a, IsStored-mod d (suc r) (suc s) xs (omega (arith, e)) b)

-- A byte behind the last one.
IsStored-append :
    (d : ℕ → ℕ) (r w c : ℕ) (xs : List ℕ)
    → w % 512 ≡ (r + length xs) % 512
    → length xs < 512
    → IsStored d r xs
    → IsStored (λ i. if i == w % 512 then c else d i) r (xs ++ (c ∷ []))
IsStored-append d r w c [] e l h = (ground arith, tt)
IsStored-append d r w c (x ∷ xs) e l (a, b) =
    (ground arith, IsStored-append d (suc r) w c xs (omega (arith, e)) (omega (arith, l)) b)

Holds-full : (p : Pipe) (xs : List ℕ) → Holds p xs → is_full p ≡ true → length xs ≡ 512
Holds-full p xs h f =
    omega (arith, eq_of_== p.nwrite ((p.nread + 512) % 4294967296) f, h.room, h.bound, h.count)

Holds-push :
    (p : Pipe) (xs : List ℕ) (c : ℕ)
    → Holds p xs
    → is_full p ≡ false
    → Holds (push p c) (xs ++ (c ∷ []))
Holds-push p xs c h f =
    let apart = ne_of_== p.nwrite ((p.nread + 512) % 4294967296) f in
    let small : length xs < 512 = omega (arith, h.room, h.bound, h.count, apart) in
    let len : length (xs ++ (c ∷ [])) ≡ length xs + 1 = length-append xs (c ∷ []) in
    record {
      room = omega arith;
      bound = h.bound;
      count = omega (arith, h.count, h.bound);
      stored =
          IsStored-append p.data_at p.nread p.nwrite c xs (omega (arith, h.count, h.bound, small))
            small h.stored;
    }

Holds-pop :
    (p : Pipe) (x : ℕ) (xs : List ℕ)
    → Holds p (x ∷ xs)
    → Holds (record p { nread = suc p.nread % uint_size }) xs
Holds-pop p x xs h = record {
  room = omega (arith, h.room);
  bound = omega (arith, h.bound);
  count = omega (arith, h.count);
  stored =
      let (_, b) = h.stored in
      IsStored-mod p.data_at (suc p.nread) (suc p.nread % 4294967296) xs (omega arith) b;
}

Holds-empty : (p : Pipe) → Holds p [] → is_empty p ≡ true
Holds-empty p h = ground (arith, h.count, h.bound)

Holds-nonempty : (p : Pipe) (x : ℕ) (xs : List ℕ) → Holds p (x ∷ xs) → is_empty p ≡ false
Holds-nonempty p x xs h =
    ==_of_ne p.nread p.nwrite (λ e. omega (arith, e, h.count, h.bound, h.room))

-- The copying loop takes the oldest bytes.
copy_loop-take :
    (n : ℕ) (p : Pipe) (xs : List ℕ)
    → Holds p xs
    → ((copy_loop n p).0 ≡ take n xs) × Holds (copy_loop n p).1 (drop n xs)
unfolding copy_loop
copy_loop-take zero p xs h = (refl, h)
copy_loop-take (suc n) p [] h = rw (Holds-empty p h, copy_loop) (refl, h)
copy_loop-take (suc n) p (x ∷ xs) h =
    let q : Pipe = record p { nread = suc p.nread % uint_size } in
    let (a, b) = copy_loop-take n q xs (Holds-pop p x xs h) in
    let (c, _) = h.stored in
    rw (Holds-nonempty p x xs h, copy_loop)
      (ap (λ y. y ∷ (copy_loop n q).0) c ∙ ap (λ ys. x ∷ ys) a, b)

-- How a pass of `pipewrite` of `cs` to a pipe that holds `xs` ends.
abbrev pub WriteOutcome : Bool → Bool → List ℕ → List ℕ → Written → Type 0
WriteOutcome killed readopen xs cs (written q) = Holds q (xs ++ cs)
WriteOutcome killed readopen xs cs (write_fails q rest) =
    (done : List ℕ) × (cs ≡ done ++ rest)
    × Holds q (xs ++ done)
    × (length (xs ++ done) ≡ 512)
    × ((not readopen || killed) ≡ true)
WriteOutcome killed readopen xs cs (write_sleeps q rest) =
    (done : List ℕ) × (cs ≡ done ++ rest)
    × Holds q (xs ++ done)
    × (length (xs ++ done) ≡ 512)
    × ((not readopen || killed) ≡ false)

WriteOutcome-step :
    (killed readopen : Bool) (xs : List ℕ) (c : ℕ) (cs : List ℕ) (w : Written)
    → WriteOutcome killed readopen (xs ++ (c ∷ [])) cs w
    → WriteOutcome killed readopen xs (c ∷ cs) w
WriteOutcome-step killed readopen xs c cs (written q) h = rw (← append_assoc xs (c ∷ []) cs) h
WriteOutcome-step killed readopen xs c cs (write_fails q rest) (done, a, b, d, e) = (
  c ∷ done,
  ap (λ ys. c ∷ ys) a,
  rw (← append_assoc xs (c ∷ []) done) b,
  rw (← append_assoc xs (c ∷ []) done) d,
  e,
)
WriteOutcome-step killed readopen xs c cs (write_sleeps q rest) (done, a, b, d, e) = (
  c ∷ done,
  ap (λ ys. c ∷ ys) a,
  rw (← append_assoc xs (c ∷ []) done) b,
  rw (← append_assoc xs (c ∷ []) done) d,
  e,
)

-- On a pipe that holds `xs`, a pass of `pipewrite` appends bytes in order: all of them; or as many as
-- make 512 bytes, and then it returns -1 if the reader is gone or the process is killed, and sleeps
-- with the rest if not.
pub pipewrite-WriteOutcome :
    (killed : Bool) (p : Pipe) (xs cs : List ℕ)
    → Holds p xs
    → WriteOutcome killed p.readopen xs cs (pipewrite killed p cs)
unfolding pipewrite
pipewrite-WriteOutcome killed p xs [] h = rw (append-nil xs) h
pipewrite-WriteOutcome killed p xs (c ∷ cs) h = elim (Bool-cases (is_full p)) [
  | inl f ↦
      let len : length (xs ++ []) ≡ 512 = rw (append-nil xs) (Holds-full p xs h f) in
      let same : Holds p (xs ++ []) = rw (append-nil xs) h in
      elim (Bool-cases (not p.readopen || killed)) [
        | inl b ↦ rw (f, pipewrite, b) ([], refl, same, len, b)
        | inr b ↦ rw (f, pipewrite, b) ([], refl, same, len, b)
      ]
  | inr f ↦
      rw (f, pipewrite)
        (WriteOutcome-step killed p.readopen xs c cs _
          (pipewrite-WriteOutcome killed (push p c) (xs ++ (c ∷ [])) cs (Holds-push p xs c h f)))
]

-- How a pass of `piperead` of `n` bytes from a pipe that holds `xs` ends.
abbrev pub ReadOutcome : Bool → Bool → ℕ → List ℕ → Read → Type 0
ReadOutcome killed writeopen n xs (read ys q) =
    (ys ≡ take n xs) × Holds q (drop n xs) × ((xs ≢ []) ⊎ (writeopen ≡ false))
ReadOutcome killed writeopen n xs read_fails = (xs ≡ []) × (writeopen ≡ true) × (killed ≡ true)
ReadOutcome killed writeopen n xs read_sleeps = (xs ≡ []) × (writeopen ≡ true) × (killed ≡ false)

-- On a pipe that holds `xs`, a pass of `piperead` of `n` bytes takes the first `n` bytes, or all if
-- there are fewer, unless the pipe is empty and its writer is there: then it returns -1 if the
-- process is killed, and sleeps if not.
pub piperead-ReadOutcome :
    (killed : Bool) (n : ℕ) (p : Pipe) (xs : List ℕ)
    → Holds p xs
    → ReadOutcome killed p.writeopen n xs (piperead killed n p)
unfolding piperead
piperead-ReadOutcome killed n p [] h = elim (Bool-cases p.writeopen) [
  | inl o ↦ elim (Bool-cases killed) [
    | inl k ↦ rw (Holds-empty p h, piperead, o, k) (refl, refl, refl)
    | inr k ↦ rw (Holds-empty p h, piperead, o, k) (refl, refl, refl)
  ]
  | inr o ↦
      let (a, b) = copy_loop-take n p [] h in simp (Holds-empty p h, piperead, o) (a, b, inr refl)
]
piperead-ReadOutcome killed n p (x ∷ xs) h =
    let (a, b) = copy_loop-take n p (x ∷ xs) h in
    rw (Holds-nonempty p x xs h, piperead) (a, b, inl (λ e. cc))

-- Bytes for which the pipe has room are all written.
pipewrite-room :
    (killed : Bool) (p : Pipe) (xs cs : List ℕ)
    → Holds p xs
    → length xs + length cs ≤ 512
    → (q : Pipe) × (pipewrite killed p cs ≡ written q) × Holds q (xs ++ cs)
unfolding pipewrite
pipewrite-room killed p xs [] h l = (p, refl, rw (append-nil xs) h)
pipewrite-room killed p xs (c ∷ cs) h l = elim (Bool-cases (is_full p)) [
  | inl f ↦ absurd (omega (arith, Holds-full p xs h f))
  | inr f ↦
      let len : length (xs ++ (c ∷ [])) ≡ length xs + 1 = length-append xs (c ∷ []) in
      let (q, a, b) =
        pipewrite-room killed (push p c) (xs ++ (c ∷ [])) cs (Holds-push p xs c h f)
          (omega arith) in
      (q, rw (f, pipewrite) a, rw (← append_assoc xs (c ∷ []) cs) b)
]

piperead-read :
    (killed : Bool) (n : ℕ) (q : Pipe)
    → is_empty q ≡ false
    → piperead killed n q ≡ read (copy_loop n q).0 (copy_loop n q).1
unfolding piperead
piperead-read killed n q e = rw (e, piperead) refl

piperead-all :
    (killed : Bool) (q : Pipe) (c : ℕ) (cs : List ℕ)
    → Holds q (c ∷ cs)
    → (r : Pipe) × (piperead killed (length (c ∷ cs)) q ≡ read (c ∷ cs) r) × Holds r []
piperead-all killed q c cs b =
    let n = length (c ∷ cs) in
    let r = (copy_loop n q).1 in
    let (d, e) = copy_loop-take n q (c ∷ cs) b in
    let all = d ∙ take-length (c ∷ cs) in
    let out = piperead-read killed n q (Holds-nonempty q c cs b) in
    (r, out ∙ ap (λ ys. read ys r) all, subst (Holds r) (drop-length (c ∷ cs)) e)

-- What is written to an empty pipe, from 1 to 512 bytes and wherever its counters stand, is read
-- back in order by one `piperead`, and leaves the pipe empty.
pub piperead-pipewrite :
    (killed killed' : Bool) (p : Pipe) (c : ℕ) (cs : List ℕ)
    → Holds p []
    → length (c ∷ cs) ≤ 512
    → (q r : Pipe) × (pipewrite killed p (c ∷ cs) ≡ written q)
      × (piperead killed' (length (c ∷ cs)) q ≡ read (c ∷ cs) r)
      × Holds r []
piperead-pipewrite killed killed' p c cs h l =
    let (q, a, b) = pipewrite-room killed p [] (c ∷ cs) h (omega (arith, l)) in
    let (r, d, e) = piperead-all killed' q c cs b in (q, r, a, d, e)
