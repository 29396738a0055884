-- ===== src/Mlfq/Tests.antt =====
-- Instances of the theorems on the feedback queue: three processes, the first one running.
use ecnu_2020_autumn_linux_l.Base.{
  ℕ, zero, suc, ◌*◌, All-get_elem?, ◌≤◌, ◌<◌, ◌≡◌, ◌⊎◌, refl, true, false, some, [], ◌∷◌, get_elem?,
  arith,
}
use ecnu_2020_autumn_linux_l.Mlfq.{
  Task, ticks, Scheduler, fresh, wants_targets, round, runs, corrupts, no_targets, run_next,
}
use ecnu_2020_autumn_linux_l.Mlfq.Choice.{Before, round-Before}
use ecnu_2020_autumn_linux_l.Mlfq.Waiting.{IsTimely, AllTimely, round-AllTimely}

abbrev sleeper : Task
sleeper = record {
  pid = 1;
  runnable = false;
  running = false;
  priority = 3;
  wait = λ i. 0;
  done = λ i. 0;
}

abbrev waiter : Task
waiter = record sleeper { pid = 2; runnable = true; priority = 2; wait = λ i. 7 }

abbrev newcomer : Task
newcomer = record waiter { pid = 3; wait = λ i. 0 }

abbrev start : Scheduler
start = record {
  table = sleeper ∷ newcomer ∷ waiter ∷ [];
  proc = some 0;
  tar = no_targets;
  flag = true;
}

four_priorities : (k : ℕ) (q : Task) → get_elem? start.table k ≡ some q → q.priority < 4
four_priorities k q e =
    All-get_elem? (λ p. p.priority < 4) start.table k q
      (omega arith, (omega arith, (omega arith, tt))) e

round-Before_example :
    (i : ℕ) × (p : Task) × (get_elem? start.table i ≡ some p)
    × (p.runnable ≡ true)
    × ((k : ℕ) (q : Task) → get_elem? start.table k ≡ some q → q.runnable ≡ true → Before p q)
    × ((round 0 start ≡ corrupts) ⊎ (round 0 start ≡ runs i (run_next start i p)))
unfolding wants_targets
round-Before_example = round-Before 0 start 1 newcomer refl refl refl four_priorities

turn_long : (q : ℕ) → 7 < 10 * ticks q
turn_long zero = omega arith
turn_long (suc zero) = omega arith
turn_long (suc (suc zero)) = omega arith
turn_long (suc (suc (suc q))) = omega arith

timely : (p : Task) → p.priority < 4 → ((q : ℕ) → p.wait q ≤ 7) → IsTimely p
timely p l h = record { priority_lt = l; wait_lt = λ q b. omega (arith, h q, turn_long q) }

round-AllTimely_example : ((p : Task) → IsTimely (fresh p)) × AllTimely (round 0 start)
round-AllTimely_example = round-AllTimely 0 start (
  timely sleeper (omega arith) (λ q. omega arith),
  (
    timely newcomer (omega arith) (λ q. omega arith),
    (timely waiter (omega arith) (λ q. omega arith), tt),
  ),
)

abbrev asleep : Scheduler
asleep = record start { table = sleeper ∷ [] }
