-- ===== src/Locks/Safety.antt =====
-- Mutual exclusion, no lost update and no lost wake-up for spinlock.c and mutex.c.
use ecnu_2020_autumn_linux_l.Base.{ℕ, ◌+◌, ◌≡◌, ◌⊎◌, inl, inr, true, arith}
use native.Mathlib.Decide.{ℕ_discrete}
use ecnu_2020_autumn_linux_l.Locks.{Kind, System, Reach, critical, active, is_asleep}
use ecnu_2020_autumn_linux_l.Locks.Invariant.{pos_part, neg_part, Reach-Inv}

module _ {k : Kind} {s : System} (r : Reach k s) where
  -- Under either lock, and for any number of threads and any interleaving, two threads are never
  -- between the return of `lock_acquire` and the reset of the flag together.
  pub mutual_exclusion : (i j : ℕ) → critical (s.pc i) ≡ true → critical (s.pc j) ≡ true → i ≡ j
  mutual_exclusion i j p q = (Reach-Inv r).unique i j p q

  -- No increment or decrement is lost: the counter is at all times the number of increments that
  -- were stored less the number of decrements that were.
  pub no_lost_update : pos_part s.mem.val + s.mem.decs ≡ neg_part s.mem.val + s.mem.incs
  no_lost_update = (Reach-Inv r).balanced

  -- No wake-up is lost: while a thread sleeps in FUTEX_WAIT, some thread holds the lock, or one is
  -- about to try the flag or to call FUTEX_WAKE.
  pub no_lost_wakeup :
      (j : ℕ)
      → is_asleep (s.pc j) ≡ true
      → (i : ℕ) × ((critical (s.pc i) ≡ true) ⊎ (active (s.pc i) ≡ true))
  no_lost_wakeup j p = elim (ℕ_discrete s.mem.flag 0) [
    | yes z ↦ let (i, a) = (Reach-Inv r).awake j p z in (i, inr a)
    | no h ↦ let (i, c) = (Reach-Inv r).holder (omega (arith, (Reach-Inv r).flag)) in (i, inl c)
  ]
