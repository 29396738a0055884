-- ===== src/Proc/Slots.antt =====
-- Process tables compared slot by slot, and the loops of `exit` and `wakeup1` under a comparison.
use ecnu_2020_autumn_linux_l.Base.{
  ℕ, zero, suc, ◌≡◌, refl, ◌∙◌, inl, inr, ◌&&◌, Option, none, some, List, [], ◌∷◌, ◌==◌, get_elem?,
  set, arith, Bool-cases, Option-cases, get_elem?-set, lt_of_get_elem?, eq_of_==,
}
use ecnu_2020_autumn_linux_l.Proc.Defs.{Chan, Proc, Kernel, Vm, is_zombie, is_parent}
use ecnu_2020_autumn_linux_l.Proc.Exit.{wake, wakeup1, exit_loop, exit_round, abandon, wake_parent}

-- Each slot of the second table stands in the first, with a process that `R` relates to it.
abbrev pub Slots : (Proc → Proc → Type 0) → List Proc → List Proc → Type 0
Slots R ps qs =
    (i : ℕ) (q : Proc) → get_elem? qs i ≡ some q → (p : Proc) × (get_elem? ps i ≡ some p) × R p q

pub Slots-map :
    (R S : Proc → Proc → Type 0)
    → ((p q : Proc) → R p q → S p q)
    → (ps qs : List Proc) → Slots R ps qs
    → Slots S ps qs
Slots-map R S f ps qs w i q e = let (p, g, r) = w i q e in (p, g, f p q r)

-- The comparisons that go through the loops of `exit`.
pub record IsKept (R : Proc → Proc → Type 0) : Type 0 where
  pub same : (p : Proc) → R p p
  pub chain : (p q r : Proc) → R p q → R q r → R p r

pub record IsKeptByExit (R : Proc → Proc → Type 0) : Type 0 where
  pub kept : IsKept R
  pub woken : (c : Chan) (p : Proc) → R p (wake c p)
  pub abandoned : (vm : Vm) (k : Kernel) (parent p : Proc) → R p (abandon vm k parent p)

module _ (R : Proc → Proc → Type 0) (o : IsKept R) where
  pub Slots-refl : (ps : List Proc) → Slots R ps ps
  Slots-refl ps i q e = (q, e, o.same q)

  pub Slots-trans : (ps qs rs : List Proc) → Slots R ps qs → Slots R qs rs → Slots R ps rs
  Slots-trans ps qs rs f g i r e =
      let (q, eq, rq) = g i r e in let (p, ep, rp) = f i q eq in (p, ep, o.chain p q r rp rq)

  pub Slots-set :
      (ps : List Proc) (i : ℕ) (p q : Proc)
      → get_elem? ps i ≡ some p
      → R p q
      → Slots R ps (set ps i q)
  Slots-set ps i p q e h j r f = elim (Bool-cases (j == i)) [
    | inl same ↦
        let at : j ≡ i = eq_of_== j i same in
        let g : q ≡ r = ground (arith, get_elem?-set ps i j q (lt_of_get_elem? ps i e)) in
        (p, rw at e, rw (← g) h)
    | inr apart ↦ (r, ground (arith, get_elem?-set ps i j q (lt_of_get_elem? ps i e)), o.same r)
  ]

module _ (R : Proc → Proc → Type 0) (woken : (c : Chan) (p : Proc) → R p (wake c p)) where
  pub Slots-wakeup1 : (c : Chan) (ps : List Proc) → Slots R ps (wakeup1 c ps)
  unfolding wakeup1
  Slots-wakeup1 c [] i q e = absurd (cc)
  Slots-wakeup1 c (p ∷ ps) zero q e = let f : wake c p ≡ q = cc in (p, refl, rw (← f) (woken c p))
  Slots-wakeup1 c (p ∷ ps) (suc i) q e = Slots-wakeup1 c ps i q e

  pub Slots-wake_parent : (parent : Option ℕ) (ps : List Proc) → Slots R ps (wake_parent parent ps)
  Slots-wake_parent none ps = Slots-wakeup1 _ ps
  Slots-wake_parent (some j) ps = Slots-wakeup1 _ ps

module _ (R : Proc → Proc → Type 0) (o : IsKeptByExit R) where
  exit_round-Slots :
      (vm : Vm) (parent : Proc) (i : ℕ) (k : Kernel)
      → Slots R k.procs (exit_round vm parent i k).procs
  unfolding exit_round
  exit_round-Slots vm parent i k = elim (Option-cases (get_elem? k.procs i)) [
    | inl e ↦ rw (e, exit_round) (Slots-refl R o.kept k.procs)
    | inr (p, e) ↦
        let w = Slots-set R o.kept k.procs i p _ e (o.abandoned vm k parent p) in
        elim (Bool-cases (is_parent p.parent k.current && is_zombie p.state)) [
          | inl b ↦
              rw (e, exit_round, b) (Slots-trans R o.kept _ _ _ w (Slots-wakeup1 R o.woken _ _))
          | inr b ↦ rw (e, exit_round, b) w
        ]
  ]

  pub exit_loop-Slots :
      (vm : Vm) (parent : Proc) (n i : ℕ) (k : Kernel)
      → Slots R k.procs (exit_loop vm parent n i k).procs
  unfolding exit_loop
  exit_loop-Slots vm parent zero i k = Slots-refl R o.kept k.procs
  exit_loop-Slots vm parent (suc n) i k =
      Slots-trans R o.kept _ _ _ (exit_round-Slots vm parent i k)
        (exit_loop-Slots vm parent n (suc i) (exit_round vm parent i k))

pub exit_round-globals :
    (vm : Vm) (parent : Proc) (i : ℕ) (k : Kernel)
    → ((exit_round vm parent i k).nextpid ≡ k.nextpid)
      × ((exit_round vm parent i k).current ≡ k.current)
      × ((exit_round vm parent i k).initproc ≡ k.initproc)
unfolding exit_round
exit_round-globals vm parent i k = (ground arith, ground arith, ground arith)

-- The loop of `exit` changes no global but the table.
pub exit_loop-globals :
    (vm : Vm) (parent : Proc) (n i : ℕ) (k : Kernel)
    → ((exit_loop vm parent n i k).nextpid ≡ k.nextpid)
      × ((exit_loop vm parent n i k).current ≡ k.current)
      × ((exit_loop vm parent n i k).initproc ≡ k.initproc)
unfolding exit_loop
exit_loop-globals vm parent zero i k = (refl, refl, refl)
exit_loop-globals vm parent (suc n) i k =
    let (a, b, c) = exit_round-globals vm parent i k in
    let (d, e, f) = exit_loop-globals vm parent n (suc i) (exit_round vm parent i k) in
    (d ∙ a, e ∙ b, f ∙ c)
