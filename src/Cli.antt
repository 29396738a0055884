-- ===== src/Cli.antt =====
-- kernel/spinlock.c of Project4/4b xv6 Kernel Thread on one processor: the nesting of `pushcli` and
-- `popcli`, and the lock that is acquired and released under them.
pub mod Nesting
mod Tests
use ecnu_2020_autumn_linux_l.Base.{
  ℕ, zero, suc, ◌+◌, ◌-◌, Bool, true, false, ◌&&◌, Option, none, some, List, [], ◌∷◌, ◌==◌,
  if◌then◌else◌,
}

-- `cpu->ncli`, `cpu->intena`, and the flag FL_IF.
pub record Cpu : Type 0 where
  pub ncli : ℕ
  pub intena : Bool
  pub fl_if : Bool

unfoldable pub pushcli : Cpu → Cpu
pushcli c = record {
  ncli = c.ncli + 1;
  intena = if c.ncli == 0 then c.fl_if else c.intena;
  fl_if = false;
}

-- `none`: the kernel panics.
unfoldable pub popcli : Cpu → Option Cpu
popcli c =
    if c.fl_if
    then none
    else if c.ncli == 0
    then none
    else some (record c { ncli = c.ncli - 1; fl_if = (c.ncli - 1 == 0) && c.intena })

-- `locked`, and the number of the processor that holds the lock.
pub record Spinlock : Type 0 where
  pub locked : Bool
  pub holder : Option ℕ

-- Does the processor `me` hold the lock?
abbrev pub holding : (me : ℕ) → Spinlock → Bool
holding me lk = elim lk.holder [ none ↦ false | some h ↦ lk.locked && (h == me) ]

-- The outcome of `acquire`: the lock, a panic, or the wait for another processor.
pub data Acquiring : Type 0 where
  acquires : Spinlock → Cpu → Acquiring
  panics : Acquiring
  spins : Cpu → Acquiring

unfoldable pub acquire : (me : ℕ) → Spinlock → Cpu → Acquiring
unfolding pushcli
acquire me lk c =
    if holding me lk
    then panics
    else if lk.locked
    then spins (pushcli c)
    else acquires (record { locked = true; holder = some me }) (pushcli c)

unfoldable pub release : (me : ℕ) → Spinlock → Cpu → Option (Spinlock × Cpu)
unfolding popcli
release me lk c = elim (popcli c) [
  | none ↦ none
  | some c' ↦ if holding me lk then some (record { locked = false; holder = none }, c') else none
]
