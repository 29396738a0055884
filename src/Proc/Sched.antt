-- ===== src/Proc/Sched.antt =====
-- `scheduler`, `yield` and `sleep` of kernel/proc.c in Project4/4b xv6 Kernel Thread, and the steps
-- of the process table.
use ecnu_2020_autumn_linux_l.Base.{ℕ, suc, ◌≡◌, Bool, none, some, if◌then◌else◌, get_elem?, set}
use ecnu_2020_autumn_linux_l.Proc.Defs.{
  runnable, running, sleeping, Chan, no_chan, Proc, Kernel, Vm, is_runnable, put,
}
use ecnu_2020_autumn_linux_l.Proc.Fork.{fork, clone}
use ecnu_2020_autumn_linux_l.Proc.Exit.{exit, wakeup}
use ecnu_2020_autumn_linux_l.Proc.Wait.{wait_pass, Waited, fails, reaped, sleeps, panics, kill}

-- A write to the current process.
abbrev pub of_current : (Proc → Proc) → Kernel → Kernel
of_current f k = elim (get_elem? k.procs k.current) [ none ↦ k | some p ↦ put k k.current (f p) ]

-- The body of the loop of `scheduler` at the slot `i`.
unfoldable pub dispatch : ℕ → Kernel → Kernel
dispatch i k = elim (get_elem? k.procs i) [
  | none ↦ k
  | some p ↦
      if is_runnable p.state
      then record k { procs = set k.procs i (record p { state = running }); current = i }
      else k
]

unfoldable pub yield : Kernel → Kernel
yield k = of_current (λ p. record p { state = runnable }) k

-- `sleep` up to its call of `sched`.
unfoldable pub sleep : Chan → Kernel → Kernel
sleep c k = of_current (λ p. record p { chan = c; state = sleeping }) k

-- `sleep` from its call of `sched` on.
unfoldable pub awake : Kernel → Kernel
awake k = of_current (λ p. record p { chan = no_chan }) k

-- The table that a pass of `wait` or `join` leaves.
abbrev pub after : Kernel → Waited → Kernel
after k fails = k
after k (reaped _ _ k') = k'
after k (sleeps k') = k'
after k panics = k

-- The current process runs.
abbrev pub IsRunning : Kernel → Type 0
IsRunning k = (p : Proc) × (get_elem? k.procs k.current ≡ some p) × (p.state ≡ running)

-- The calls that change the table, each made by a process that runs. Each is one step, though
-- `ptable.lock` covers of `fork` and `clone` only `allocproc`, and of `exit` only what follows `iput`.
pub data Step : Kernel → Kernel → Type 0 where
  forks : (vm : Vm) (k : Kernel) → IsRunning k → Step k (fork vm k).1
  clones :
      (vm : Vm) (fcn arg stack : ℕ) (k : Kernel) → IsRunning k → Step k (clone vm fcn arg stack k).1
  exits : (vm : Vm) (k k' : Kernel) → IsRunning k → exit vm k ≡ some k' → Step k k'
  waits : (thread : Bool) (k : Kernel) → IsRunning k → Step k (after k (wait_pass thread k))
  kills : (pid : ℕ) (k k' : Kernel) → IsRunning k → kill pid k ≡ some k' → Step k k'
  wakes : (c : Chan) (k : Kernel) → Step k (wakeup c k)
  yields : (k : Kernel) → IsRunning k → Step k (yield k)
  sleeps_on : (c : Chan) (k : Kernel) → IsRunning k → Step k (sleep c k)
  awakes : (k : Kernel) → IsRunning k → Step k (awake k)
  dispatches : (i : ℕ) (k : Kernel) → Step k (dispatch i k)

pub data Steps : Kernel → Kernel → Type 0 where
  no_step : (k : Kernel) → Steps k k
  one_more : (k l m : Kernel) → Steps k l → Step l m → Steps k m

-- The number of the steps.
abbrev pub steps : {k k' : Kernel} → Steps k k' → ℕ
steps (no_step _) = 0
steps (one_more _ _ _ s _) = suc (steps s)
