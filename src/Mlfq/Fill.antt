-- ===== src/Mlfq/Fill.antt =====
-- What the loop of the scheduler that fills `tar` leaves in it.
use ecnu_2020_autumn_linux_l.Base.{
  ℕ, suc, ◌+◌, ◌≤◌, ◌<◌, ◌≡◌, inl, inr, refl, sym, ap, subst, ◌∙◌, true, false, ◌&&◌, Option, none,
  some, List, [], ◌∷◌, ◌==◌, get_elem?, length, arith, Bool-cases, eq_of_==, ==_self,
}
use ecnu_2020_autumn_linux_l.Mlfq.{
  Task, Targets, is_better, retarget, fill, Scheduler, no_targets, wants_targets, targets,
}

-- `tar` after the slots below `i` of the table.
pub record IsFilled (table : List Task) (i : ℕ) (tar : Targets) : Type 0 where
  pub held :
      (q k : ℕ) (p : Task)
      → tar q ≡ some (k, p)
      → (get_elem? table k ≡ some p) × (p.runnable ≡ true) × (p.priority ≡ q)
  pub best :
      (k : ℕ) (p : Task)
      → k < i
      → get_elem? table k ≡ some p
      → p.runnable ≡ true
      → (j : ℕ) × (r : Task) × (tar p.priority ≡ some (j, r))
        × (p.wait p.priority ≤ r.wait p.priority)

not_better :
    (p : Task) (t : Option (ℕ × Task))
    → is_better p t ≡ false
    → (j : ℕ) × (r : Task) × (t ≡ some (j, r)) × (p.wait p.priority ≤ r.wait p.priority)
not_better p none e = absurd (cc)
not_better p (some (j, r)) e = (j, r, refl, ground arith)

better :
    (p r : Task) (j : ℕ) (t : Option (ℕ × Task))
    → is_better p t ≡ true
    → t ≡ some (j, r)
    → r.wait p.priority < p.wait p.priority
better p r j t b e =
    let c : is_better p (some (j, r)) ≡ true = ap (is_better p) (sym e) ∙ b in ground arith

module _ (table : List Task) (i : ℕ) (tar : Targets) (p : Task) (h : IsFilled table i tar)
    (here : get_elem? table i ≡ some p) where
  IsFilled-keep :
      ((p.runnable && is_better p (tar p.priority)) ≡ false) → IsFilled table (suc i) tar
  IsFilled-keep b = record {
    held = h.held;
    best = λ k q l e run. elim (Bool-cases (k == i)) [
      | inl same ↦
          let at : k ≡ i = eq_of_== k i same in
          let there : get_elem? table i ≡ some q = subst (λ x. get_elem? table x ≡ some q) at e in
          let now : p ≡ q = cc in
          let ready : p.runnable ≡ true = subst (λ (x : Task). x.runnable ≡ true) (sym now) run in
          let worse : is_better p (tar p.priority) ≡ false = ground arith in
          subst
            (λ (x : Task).
              (j : ℕ) × (r : Task) × (tar x.priority ≡ some (j, r))
              × (x.wait x.priority ≤ r.wait x.priority))
            now (not_better p (tar p.priority) worse)
      | inr apart ↦ h.best k q (ground arith) e run
    ];
  }

  retarget_self : retarget tar i p p.priority ≡ some (i, p)
  retarget_self = rw (==_self p.priority) refl

  retarget-ne : (q : ℕ) → (q == p.priority) ≡ false → retarget tar i p q ≡ tar q
  retarget-ne q b = rw b refl

  IsFilled-retarget :
      p.runnable ≡ true
      → is_better p (tar p.priority) ≡ true
      → IsFilled table (suc i) (retarget tar i p)
  IsFilled-retarget run b = record {
    held = λ q k r e. elim (Bool-cases (q == p.priority)) [
      | inl same ↦
          let at : q ≡ p.priority = eq_of_== q p.priority same in
          let new : ◌≡◌ {A = Option (ℕ × Task)} (some (i, p)) (some (k, r)) =
            sym retarget_self ∙ ap (retarget tar i p) (sym at) ∙ e in
          let slot : i ≡ k = cc in
          let task : p ≡ r = cc in
          (
            subst (λ x. get_elem? table x ≡ some r) slot (here ∙ ap some task),
            ap (λ (x : Task). x.runnable) (sym task) ∙ run,
            ap (λ (x : Task). x.priority) (sym task) ∙ sym at,
          )
      | inr apart ↦ h.held q k r (sym (retarget-ne q apart) ∙ e)
    ];
    best = λ k q l e ready. elim (Bool-cases (k == i)) [
      | inl same ↦
          let at : k ≡ i = eq_of_== k i same in
          let there : get_elem? table i ≡ some q = subst (λ x. get_elem? table x ≡ some q) at e in
          let now : p ≡ q = cc in
          subst
            (λ (x : Task).
              (j : ℕ) × (r : Task) × (retarget tar i p x.priority ≡ some (j, r))
              × (x.wait x.priority ≤ r.wait x.priority))
            now (i, p, retarget_self, omega arith)
      | inr apart ↦
          let (j, r, f, g) = h.best k q (ground arith) e ready in
          elim (Bool-cases (q.priority == p.priority)) [
            | inl same ↦
                let at : q.priority ≡ p.priority = eq_of_== q.priority p.priority same in
                let old : tar p.priority ≡ some (j, r) = ap tar (sym at) ∙ f in
                let less = better p r j (tar p.priority) b old in
                (
                  i,
                  p,
                  ap (retarget tar i p) at ∙ retarget_self,
                  omega (arith, g, less, ap r.wait at, ap p.wait at),
                )
            | inr other ↦ (j, r, retarget-ne q.priority other ∙ f, g)
          ]
    ];
  }

fill_lem :
    (table : List Task) (i : ℕ) (tar : Targets) (ps : List Task)
    → ((d : ℕ) → get_elem? table (i + d) ≡ get_elem? ps d)
    → IsFilled table i tar
    → IsFilled table (i + length ps) (fill tar i ps)
unfolding fill
fill_lem table i tar [] suffix h = subst (λ n. IsFilled table n tar) (omega arith) h
fill_lem table i tar (p ∷ ps) suffix h =
    let here : get_elem? table i ≡ some p = ap (get_elem? table) (omega arith) ∙ suffix 0 in
    let rest : (d : ℕ) → get_elem? table (suc i + d) ≡ get_elem? ps d =
      λ d. ap (get_elem? table) (omega arith) ∙ suffix (suc d) in
    let total : suc i + length ps ≡ i + suc (length ps) = omega arith in
    elim (Bool-cases (p.runnable && is_better p (tar p.priority))) [
      | inl b ↦
          let step = IsFilled-retarget table i tar p h here (ground arith) (ground arith) in
          rw b (
            subst (λ n. IsFilled table n (fill (retarget tar i p) (suc i) ps)) total
              (fill_lem table (suc i) (retarget tar i p) ps rest step))
      | inr b ↦
          let step = IsFilled-keep table i tar p h here b in
          rw b (
            subst (λ n. IsFilled table n (fill tar (suc i) ps)) total
              (fill_lem table (suc i) tar ps rest step))
    ]

IsFilled-none : (table : List Task) → IsFilled table 0 no_targets
IsFilled-none table = record {
  held = λ q k p e. absurd (let f : none ≡ some (k, p) = e in cc);
  best = λ k p l e run. absurd (omega (arith, l));
}

pub targets-IsFilled :
    (s : Scheduler) → wants_targets s ≡ true → IsFilled s.table (length s.table) (targets s)
unfolding targets
targets-IsFilled s w =
    rw (w, targets)
      (subst (λ n. IsFilled s.table n (fill no_targets 0 s.table)) (omega arith)
        (fill_lem s.table 0 no_targets s.table (λ d. ap (get_elem? s.table) (omega arith))
          (IsFilled-none s.table)))
