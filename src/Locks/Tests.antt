-- ===== src/Locks/Tests.antt =====
-- Two threads under the futex mutex: the second sleeps while the first increments.
use ecnu_2020_autumn_linux_l.Base.{ℕ, ◌+◌, ◌≡◌, ◌⊎◌, true, refl, arith}
use ecnu_2020_autumn_linux_l.Locks.{
  my_mutex_lock, increment, decrement, System, Reach, begin, later, pick, wake, call, mutex_enter,
  mutex_busy, sleep, load, store_inc, mutex_release, critical, active,
}
use ecnu_2020_autumn_linux_l.Locks.Invariant.{pos_part, neg_part}
use ecnu_2020_autumn_linux_l.Locks.Safety.{mutual_exclusion, no_lost_update, no_lost_wakeup}

abbrev Run : Type 0
Run = (s : System) × Reach my_mutex_lock s

abbrev entered : Run
entered = (
  _,
  later
      (later
        (later (later (later begin (pick 0 (call increment))) (pick 1 (call decrement)))
          (pick 0 (mutex_enter refl refl)))
        (pick 1 (mutex_busy refl (omega arith))))
      (pick 1 (sleep refl)),
)

abbrev released : Run
released = (
  _,
  later
      (later (later (later entered.1 (pick 0 load)) (pick 0 store_inc))
        (pick 0 (mutex_release refl)))
      (wake 0 1 decrement refl refl),
)

mutual_exclusion_example : ◌≡◌ {A = ℕ} 0 0
mutual_exclusion_example = mutual_exclusion entered.1 0 0 refl refl

no_lost_update_example :
    pos_part released.0.mem.val + released.0.mem.decs
    ≡ neg_part released.0.mem.val + released.0.mem.incs
no_lost_update_example = no_lost_update released.1

no_lost_wakeup_example :
    (i : ℕ) × ((critical (entered.0.pc i) ≡ true) ⊎ (active (entered.0.pc i) ≡ true))
no_lost_wakeup_example = no_lost_wakeup entered.1 1 refl
