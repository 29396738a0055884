-- ===== src/Mlfq/Waiting.antt =====
-- What every round keeps of the priorities and of the ticks of waiting.
use ecnu_2020_autumn_linux_l.Base.{
  ℕ, zero, suc, ◌*◌, ◌%◌, ◌≤◌, ◌<◌, ◌≡◌, inl, inr, sym, subst, false, not, ◌&&◌, some, List, [],
  ◌∷◌, ◌==◌, ltb, if◌then◌else◌, get_elem?, All, All-set, All-get_elem?, arith, Bool-cases,
  Option-cases, eq_of_==,
}
use ecnu_2020_autumn_linux_l.Mlfq.{
  Task, ticks, update, fresh, lower_priority, age, age_all, charge, take_target, Scheduler, targets,
  Round, idles, runs, corrupts, round, run_next,
}

-- The priority is one of the four, and below the highest the process has waited less than ten times
-- the ticks of a turn.
pub record IsTimely (p : Task) : Type 0 where
  pub priority_lt : p.priority < 4
  pub wait_lt : (q : ℕ) → q < 3 → p.wait q < 10 * ticks q

ticks_pos : (q : ℕ) → 0 < 10 * ticks q
ticks_pos zero = omega arith
ticks_pos (suc zero) = omega arith
ticks_pos (suc (suc zero)) = omega arith
ticks_pos (suc (suc (suc q))) = omega arith

abbrev IsShort : (ℕ → ℕ) → Type 0
IsShort wait = (q : ℕ) → q < 3 → wait q < 10 * ticks q

update-IsShort :
    (f : ℕ → ℕ) (i v : ℕ) → IsShort f → (i < 3 → v < 10 * ticks i) → IsShort (update f i v)
update-IsShort f i v h new q l = elim (Bool-cases (q == i)) [
  | inl same ↦
      let at : q ≡ i = eq_of_== q i same in
      rw same (subst (λ n. v < 10 * ticks n) (sym at) (new (subst (λ n. n < 3) at l)))
  | inr apart ↦ rw apart (h q l)
]

-- The wait of `age` before it is tested.
abbrev waited : Task → ℕ
waited p = if p.runnable then suc (p.wait p.priority) else p.wait p.priority

waited_le : (p : Task) → waited p ≤ suc (p.wait p.priority)
waited_le p = ground arith

age-IsTimely : (p : Task) → IsTimely p → IsTimely (age p)
age-IsTimely p h =
    elim (Bool-cases ((waited p == 10 * ticks p.priority) && not (p.priority == 3))) [
      | inl b ↦
          let lower : p.priority < 3 = ground (arith, h.priority_lt) in
          rw b (record {
            priority_lt = omega (arith, lower);
            wait_lt = update-IsShort p.wait p.priority 0 h.wait_lt (λ l. ticks_pos p.priority);
          })
      | inr b ↦ rw b (record {
        priority_lt = h.priority_lt;
        wait_lt = update-IsShort p.wait p.priority (waited p) h.wait_lt (λ l.
            let old = h.wait_lt p.priority l in
            let new = waited_le p in
            let differs : (waited p == 10 * ticks p.priority) ≡ false = ground (arith, b, l) in
            ground (arith, differs, new, old));
      })
    ]

charge-IsTimely : (p : Task) → IsTimely p → IsTimely ((charge p).1)
charge-IsTimely p h =
    elim (Bool-cases ((suc (p.done p.priority) % ticks p.priority == 0) && not (p.priority == 0))) [
      | inl b ↦
          let some_left : lower_priority p.priority < 4 = ground (arith, h.priority_lt, b) in
          rw b (record { priority_lt = some_left; wait_lt = λ q l. ticks_pos q })
      | inr b ↦ rw b (record { priority_lt = h.priority_lt; wait_lt = λ q l. ticks_pos q })
    ]

age_all-IsTimely : (pid : ℕ) (ps : List Task) → All IsTimely ps → All IsTimely (age_all pid ps)
unfolding age_all
age_all-IsTimely pid [] h = tt
age_all-IsTimely pid (p ∷ ps) (h, hs) = elim (Bool-cases (p.pid == pid)) [
  | inl b ↦ rw b (h, age_all-IsTimely pid ps hs)
  | inr b ↦ rw b (age-IsTimely p h, age_all-IsTimely pid ps hs)
]

run_next-IsTimely :
    (s : Scheduler) (i : ℕ) (p : Task)
    → All IsTimely s.table
    → get_elem? s.table i ≡ some p
    → All IsTimely (run_next s i p).table
run_next-IsTimely s i p h e =
    All-set IsTimely (age_all p.pid s.table) i ((charge p).1) (age_all-IsTimely p.pid s.table h)
      (charge-IsTimely p (All-get_elem? IsTimely s.table i p h e))

-- Every process that a round leaves in the table is timely.
pub AllTimely : Round → Type 0
AllTimely (idles s) = All IsTimely s.table
AllTimely (runs i s) = All IsTimely s.table
AllTimely corrupts = Unit

-- A process that `allocproc` has set up is timely, and after a round of a table of timely processes
-- every process of the table is, unless the round writes past an array: a priority keeps to its four
-- values, so that the indices into `ticks`, `wait` and `done` are in range, and a process below the
-- highest priority counts fewer than ten times the ticks of a turn before it is promoted or chosen.
pub round-AllTimely :
    (junk : ℕ) (s : Scheduler)
    → All IsTimely s.table
    → ((p : Task) → IsTimely (fresh p)) × AllTimely (round junk s)
unfolding round AllTimely
round-AllTimely junk s h = (
  (λ p. record { priority_lt = omega arith; wait_lt = λ q l. ticks_pos q }),
  elim (Option-cases (take_target 4 (targets s) s.proc)) [
    | inl e ↦ rw (e, round) h
    | inr (i, e) ↦ elim (Option-cases (get_elem? s.table i)) [
      | inl f ↦ rw (e, round, f) tt
      | inr (p, f) ↦ elim (Bool-cases ((charge p).0 && not (ltb junk 4))) [
        | inl b ↦ rw (e, round, f) (rw b tt)
        | inr b ↦ rw (e, round, f) (rw b (run_next-IsTimely s i p h f))
      ]
    ]
  ],
)
