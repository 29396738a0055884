-- ===== src/Proc/Waiting.antt =====
-- What `wait` and `join` promise to their caller.
use ecnu_2020_autumn_linux_l.Base.{
  ℕ, ◌≡◌, ◌≢◌, ◌⊎◌, Bool, true, false, Option, none, some, get_elem?, eq_of_==,
}
use ecnu_2020_autumn_linux_l.Proc.Defs.{
  Proc, unused, sleeping, zombie, proc_chan, Kernel, is_parent,
}
use ecnu_2020_autumn_linux_l.Proc.Wait.{Waited, fails, reaped, sleeps, panics}

-- A process with an address space of its own for `wait`, one that shares it for `join`.
abbrev pub SharesFor : Bool → Proc → Proc → Type 0
SharesFor true me p = p.pgdir ≡ me.pgdir
SharesFor false me p = p.pgdir ≢ me.pgdir

-- The process `p` is one that the process `me` of the slot `c` waits for.
abbrev pub IsAwaited : Bool → ℕ → Proc → Proc → Type 0
IsAwaited thread c me p = (p.parent ≡ some c) × SharesFor thread me p

pub parent_test : (o : Option ℕ) (c : ℕ) → is_parent o c ≡ true → o ≡ some c
parent_test none c e = cc
parent_test (some d) c e = let at = eq_of_== d c e in cc

-- No process that the caller waits for is a zombie; there is one that it waits for.
abbrev pub NoZombie : Bool → Kernel → Proc → Type 0
NoZombie thread k me =
    (i : ℕ) (p : Proc)
    → get_elem? k.procs i ≡ some p
    → IsAwaited thread k.current me p
    → p.state ≢ zombie

abbrev pub HasAwaited : Bool → Kernel → Proc → Type 0
HasAwaited thread k me =
    (i : ℕ) × (p : Proc) × (get_elem? k.procs i ≡ some p) × IsAwaited thread k.current me p

-- The slot `i` is free and holds nothing of its process; every other slot is as before.
abbrev pub IsFreed : Kernel → ℕ → Kernel → Type 0
IsFreed k i k' =
    ((q : Proc) × (get_elem? k'.procs i ≡ some q)
      × (q.state ≡ unused)
      × (q.pid ≡ 0)
      × (q.kstack ≡ 0)
      × (q.parent ≡ none)
      × (q.killed ≡ false))
    × ((j : ℕ) → i ≢ j → get_elem? k'.procs j ≡ get_elem? k.procs j)

-- The caller sleeps on itself; every other slot is as before.
abbrev pub IsAsleep : Kernel → Kernel → Type 0
IsAsleep k k' =
    ((q : Proc) × (get_elem? k'.procs k.current ≡ some q)
      × (q.state ≡ sleeping)
      × (q.chan ≡ proc_chan k.current))
    × ((j : ℕ) → k.current ≢ j → get_elem? k'.procs j ≡ get_elem? k.procs j)

-- What a pass of `wait` or `join` promises, by its outcome.
abbrev pub Awaits : Bool → Kernel → Proc → Waited → Type 0
Awaits thread k me fails =
    NoZombie thread k me × ((HasAwaited thread k me → ⊥) ⊎ (me.killed ≡ true))
Awaits thread k me (reaped pid stack k') =
    (i : ℕ) × (p : Proc) × (get_elem? k.procs i ≡ some p)
    × IsAwaited thread k.current me p
    × (p.state ≡ zombie)
    × (p.pid ≡ pid)
    × (p.stack ≡ stack)
    × IsFreed k i k'
Awaits thread k me (sleeps k') =
    NoZombie thread k me × HasAwaited thread k me × (me.killed ≡ false) × IsAsleep k k'
Awaits thread k me panics =
    (thread ≡ false)
    × (i : ℕ) × (p : Proc) × (get_elem? k.procs i ≡ some p)
    × IsAwaited thread k.current me p
    × (p.state ≡ zombie)
    × (p.pgdir ≡ 0)
