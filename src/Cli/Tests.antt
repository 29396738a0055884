-- ===== src/Cli/Tests.antt =====
-- Instances of the theorem on nested calls: two nested pairs where the interrupts are on.
use ecnu_2020_autumn_linux_l.Base.{◌≡◌, true, false, some, List, [], ◌∷◌, arith}
use ecnu_2020_autumn_linux_l.Cli.{Cpu}
use ecnu_2020_autumn_linux_l.Cli.Nesting.{
  Call, pushes, pops, run, no_calls, pair, IsOff, Restores, run-Restores,
}

abbrev interruptible : Cpu
interruptible = record { ncli = 0; intena = false; fl_if = true }

interruptible-IsOff : IsOff interruptible
interruptible-IsOff l = absurd (omega (arith, l))

abbrev nested : List Call
nested = pushes ∷ pushes ∷ pops ∷ pops ∷ []

run-Restores_example : (c' : Cpu) × (run nested interruptible ≡ some c') × Restores interruptible c'
run-Restores_example =
    run-Restores nested interruptible
      (pair (pushes ∷ pops ∷ []) [] (pair [] [] no_calls no_calls) no_calls) interruptible-IsOff
