-- ===== src/Proc/Orphans.antt =====
-- Nobody is the child of a process that has ended.
use ecnu_2020_autumn_linux_l.Base.{
  ℕ, zero, suc, ◌+◌, ◌<◌, ◌≡◌, refl, sym, ap, ◌∙◌, subst, inl, inr, false, ◌&&◌, some, List, ◌==◌,
  get_elem?, set, arith, Bool-cases, Option-cases, get_elem?-set, lt_of_get_elem?, eq_of_==,
  ne_of_==,
}
use ecnu_2020_autumn_linux_l.Proc.Defs.{Proc, Kernel, Vm, is_zombie, is_parent, proc_chan}
use ecnu_2020_autumn_linux_l.Proc.Exit.{exit_loop, exit_round, abandon}
use ecnu_2020_autumn_linux_l.Proc.Slots.{
  Slots, IsKept, IsKeptByExit, Slots-wakeup1, exit_round-globals,
}

-- No slot below `m` has the parent `c`.
abbrev pub Childless : ℕ → List Proc → ℕ → Type 0
Childless c ps m =
    (j : ℕ) (q : Proc) → j < m → get_elem? ps j ≡ some q → is_parent q.parent c ≡ false

abbrev pub SameParent : Proc → Proc → Type 0
SameParent p q = p.parent ≡ q.parent

pub SameParent-kept : IsKept SameParent
SameParent-kept = record { same = λ p. refl; chain = λ p q r e f. e ∙ f }

-- Nothing is said of two processes but that they stand in the same slot.
abbrev Any : Proc → Proc → Type 0
Any p q = Unit

Any-kept : IsKeptByExit Any
Any-kept = record {
  kept = record { same = λ p. tt; chain = λ p q r e f. tt };
  woken = λ c p. tt;
  abandoned = λ vm k parent p. tt;
}

pub Childless-Slots :
    (c : ℕ) (ps qs : List Proc) (m : ℕ)
    → Slots SameParent ps qs
    → Childless c ps m
    → Childless c qs m
Childless-Slots c ps qs m w h j q l e =
    let (p, f, same) = w j q e in ap (λ o. is_parent o c) (sym same) ∙ h j p l f

abandon-parent :
    (vm : Vm) (k : Kernel) (parent p : Proc)
    → (k.initproc == k.current) ≡ false
    → is_parent (abandon vm k parent p).parent k.current ≡ false
abandon-parent vm k parent p apart = elim (Bool-cases (is_parent p.parent k.current)) [
  | inl b ↦ rw b apart
  | inr b ↦ rw b b
]

Childless-set :
    (c : ℕ) (ps : List Proc) (i : ℕ) (p q : Proc)
    → get_elem? ps i ≡ some p
    → is_parent q.parent c ≡ false
    → Childless c ps i
    → Childless c (set ps i q) (suc i)
Childless-set c ps i p q e f h j r l g = elim (Bool-cases (j == i)) [
  | inl b ↦
      let same : q ≡ r = ground (arith, get_elem?-set ps i j q (lt_of_get_elem? ps i e)) in
      rw (← same) f
  | inr b ↦
      h j r (omega (arith, ne_of_== j i b))
        (ground (arith, get_elem?-set ps i j q (lt_of_get_elem? ps i e)))
]

-- A round of the loop takes the child at its slot from the exiting process.
exit_round-Childless :
    (vm : Vm) (parent : Proc) (i : ℕ) (k : Kernel)
    → (k.initproc == k.current) ≡ false
    → Childless k.current k.procs i
    → Childless k.current (exit_round vm parent i k).procs (suc i)
unfolding exit_round
exit_round-Childless vm parent i k apart h = elim (Option-cases (get_elem? k.procs i)) [
  | inl e ↦
      rw (e, exit_round)
        (λ j q l f. elim (Bool-cases (j == i)) [
          | inl b ↦ absurd (
              let at : j ≡ i = eq_of_== j i b in
              let g : get_elem? k.procs i ≡ some q = rw (← at) f in cc)
          | inr b ↦ h j q (omega (arith, ne_of_== j i b)) f
        ])
  | inr (p, e) ↦
      let done = Childless-set k.current k.procs i p _ e (abandon-parent vm k parent p apart) h in
      elim (Bool-cases (is_parent p.parent k.current && is_zombie p.state)) [
        | inl b ↦
            rw (e, exit_round, b)
              (Childless-Slots k.current _ _ (suc i)
                (Slots-wakeup1 SameParent (λ c q. ground arith) (proc_chan k.initproc) _) done)
        | inr b ↦ rw (e, exit_round, b) done
      ]
]

pub exit_loop-Childless :
    (vm : Vm) (parent : Proc) (n i : ℕ) (k : Kernel)
    → (k.initproc == k.current) ≡ false
    → Childless k.current k.procs i
    → Childless k.current (exit_loop vm parent n i k).procs (i + n)
unfolding exit_loop
exit_loop-Childless vm parent zero i k apart h j q l e = h j q (omega arith) e
exit_loop-Childless vm parent (suc n) i k apart h j q l e =
    let k' = exit_round vm parent i k in
    let (_, at, init) = exit_round-globals vm parent i k in
    let apart' : (k'.initproc == k'.current) ≡ false = rw (at, init) apart in
    let once : Childless k'.current k'.procs (suc i) =
      subst (λ c. Childless c k'.procs (suc i)) (sym at)
        (exit_round-Childless vm parent i k apart h) in
    let all = exit_loop-Childless vm parent n (suc i) k' apart' once j q (omega (arith, l)) e in
    subst (λ c. is_parent q.parent c ≡ false) at all
