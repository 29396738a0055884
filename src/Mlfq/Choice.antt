-- ===== src/Mlfq/Choice.antt =====
-- Which process a round of the scheduler chooses.
use ecnu_2020_autumn_linux_l.Base.{
  ℕ, zero, suc, ◌≤◌, ◌<◌, ◌≡◌, ◌⊎◌, inl, inr, refl, sym, ap, subst, ◌∙◌, true, not, ◌&&◌, Option,
  none, some, ◌==◌, ltb, get_elem?, arith, Bool-cases, Option-cases, eq_of_==, lt_of_get_elem?,
}
use ecnu_2020_autumn_linux_l.Mlfq.{
  Task, Targets, take_target, Scheduler, wants_targets, targets, runs, corrupts, round, charge,
  run_next,
}
use ecnu_2020_autumn_linux_l.Mlfq.Fill.{targets-IsFilled}

below_none :
    (n : ℕ) (tar : Targets) (q : ℕ) (t : ℕ × Task)
    → tar n ≡ none
    → tar q ≡ some t
    → q < suc n
    → q < n
below_none n tar q t f e l = elim (Bool-cases (q == n)) [
  | inl same ↦
      absurd (let at : tar n ≡ some t = subst (λ x. tar x ≡ some t) (eq_of_== q n same) e in cc)
  | inr apart ↦ ground arith
]

-- `take_target` takes the highest priority that has a process.
take_target_lem :
    (n : ℕ) (tar : Targets) (proc : Option ℕ) (q : ℕ) (t : ℕ × Task)
    → q < n
    → tar q ≡ some t
    → (m i : ℕ) × (p : Task) × (tar m ≡ some (i, p))
      × (take_target n tar proc ≡ some i)
      × ((q : ℕ) (t : ℕ × Task) → q < n → tar q ≡ some t → q ≤ m)
unfolding take_target
take_target_lem zero tar proc q t l e = absurd (omega arith)
take_target_lem (suc n) tar proc q t l e = elim (Option-cases (tar n)) [
  | inr ((i, p), f) ↦ (n, i, p, f, rw (f, take_target) refl, λ q t l e. omega (arith, l))
  | inl f ↦
      let (m, i, p, g, h, k) = take_target_lem n tar proc q t (below_none n tar q t f e l) e in
      (m, i, p, g, rw (f, take_target) h, λ q t l e. k q t (below_none n tar q t f e l) e)
]

-- The process `p` comes before `q`: by a higher priority, or by as long a wait at the same one.
abbrev pub Before : Task → Task → Type 0
Before p q =
    (q.priority < p.priority)
    ⊎ ((q.priority ≡ p.priority) × (q.wait q.priority ≤ p.wait q.priority))

-- The process that is taken runs, or its demotion writes past its array.
pub round-taken :
    (junk : ℕ) (s : Scheduler) (i : ℕ) (p : Task)
    → take_target 4 (targets s) s.proc ≡ some i
    → get_elem? s.table i ≡ some p
    → (round junk s ≡ corrupts) ⊎ (round junk s ≡ runs i (run_next s i p))
unfolding round
round-taken junk s i p taken get = elim (Bool-cases ((charge p).0 && not (ltb junk 4))) [
  | inl b ↦ inl (rw (taken, round, get) (rw b refl))
  | inr b ↦ inr (rw (taken, round, get) (rw b refl))
]

-- In a round that looks at the table again (after a demotion or a block, at the start, or where a
-- RUNNABLE process has a higher priority than the last), where every process of the table has one of
-- the four priorities and some process is RUNNABLE: the chosen process is RUNNABLE, and comes before
-- every RUNNABLE process of the table, that is, no other has a higher priority, and none of the same
-- priority has waited longer. It runs, or its demotion writes past its array.
pub round-Before :
    (junk : ℕ) (s : Scheduler) (j : ℕ) (r : Task)
    → wants_targets s ≡ true
    → get_elem? s.table j ≡ some r
    → r.runnable ≡ true
    → ((k : ℕ) (q : Task) → get_elem? s.table k ≡ some q → q.priority < 4)
    → (i : ℕ) × (p : Task) × (get_elem? s.table i ≡ some p)
      × (p.runnable ≡ true)
      × ((k : ℕ) (q : Task) → get_elem? s.table k ≡ some q → q.runnable ≡ true → Before p q)
      × ((round junk s ≡ corrupts) ⊎ (round junk s ≡ runs i (run_next s i p)))
round-Before junk s j r w e ready four =
    let h = targets-IsFilled s w in
    let (_, _, slot, _) = h.best j r (lt_of_get_elem? s.table j e) e ready in
    let (m, i, p, f, g, most) =
      take_target_lem 4 (targets s) s.proc r.priority _ (four j r e) slot in
    let (get, run, at) = h.held m i p f in
    (
      i,
      p,
      get,
      run,
      (λ k q there queued.
          let (j', r', slot', wait) = h.best k q (lt_of_get_elem? s.table k there) there queued in
          let le = most q.priority _ (four k q there) slot' in
          elim (Bool-cases (q.priority == m)) [
            | inl same ↦
                let level : q.priority ≡ m = eq_of_== q.priority m same in
                let both : ◌≡◌ {A = Option (ℕ × Task)} (some (i, p)) (some (j', r')) =
                  sym f ∙ ap (targets s) (sym level) ∙ slot' in
                let task : r' ≡ p = cc in
                inr (
                  level ∙ sym at,
                  subst (λ (x : Task). q.wait q.priority ≤ x.wait q.priority) task wait,
                )
            | inr apart ↦ inl (ground arith)
          ]),
      round-taken junk s i p g get,
    )
