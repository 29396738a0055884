-- ===== src/Proc/Wait.antt =====
-- `wait`, `join` and `kill` of kernel/proc.c in Project4/4b xv6 Kernel Thread.
use ecnu_2020_autumn_linux_l.Base.{
  ℕ, suc, Bool, true, false, not, ◌&&◌, ◌||◌, Option, none, some, List, [], ◌∷◌, ◌==◌,
  if◌then◌else◌, get_elem?,
}
use ecnu_2020_autumn_linux_l.Proc.Defs.{
  unused, sleeping, runnable, proc_chan, Proc, Kernel, is_zombie, is_sleeping, is_parent, put,
}

-- A child process with its own address space, or a thread.
abbrev pub is_child : Bool → ℕ → Proc → Proc → Bool
is_child thread i me p =
    is_parent p.parent i && (if p.pgdir == me.pgdir then thread else not thread)

-- The first zombie among the children or threads, from the slot `i` on.
unfoldable pub find_zombie : Bool → ℕ → Proc → ℕ → List Proc → Option (ℕ × Proc)
find_zombie thread c me i [] = none
find_zombie thread c me i (p ∷ ps) =
    if is_child thread c me p && is_zombie p.state
    then some (i, p)
    else find_zombie thread c me (suc i) ps

unfoldable pub have_kids : Bool → ℕ → Proc → List Proc → Bool
have_kids thread c me [] = false
have_kids thread c me (p ∷ ps) = is_child thread c me p || have_kids thread c me ps

abbrev pub reap : Proc → Proc
reap p = record p { kstack = 0; state = unused; pid = 0; parent = none; killed = false }

-- The end of a pass of `wait` or `join`: -1, a child's id (and, for `join`, its stack), sleep, or the
-- panic of `freevm` where the child that `wait` found has no page directory.
pub data Waited : Type 0 where
  fails : Waited
  reaped : (pid stack : ℕ) → Kernel → Waited
  sleeps : Kernel → Waited
  panics : Waited

-- One pass of the loop of `wait` (`thread` false) or of `join` (`thread` true).
unfoldable pub wait_pass : Bool → Kernel → Waited
unfolding find_zombie have_kids
wait_pass thread k = elim (get_elem? k.procs k.current) [
  | none ↦ fails
  | some me ↦ elim (find_zombie thread k.current me 0 k.procs) [
    | some (i, p) ↦
        if not thread && (p.pgdir == 0) then panics else reaped p.pid p.stack (put k i (reap p))
    | none ↦
        if not (have_kids thread k.current me k.procs) || me.killed
        then fails
        else sleeps (put k k.current (record me { chan = proc_chan k.current; state = sleeping }))
  ]
]

abbrev pub wait : Kernel → Waited
wait = wait_pass false

abbrev pub join : Kernel → Waited
join = wait_pass true

-- The slot with the id, whatever its state.
unfoldable pub find_pid : ℕ → List Proc → Option ℕ
find_pid pid [] = none
find_pid pid (p ∷ ps) =
    if p.pid == pid then some 0 else elim (find_pid pid ps) [ none ↦ none | some i ↦ some (suc i) ]

abbrev pub mark_killed : Proc → Proc
mark_killed p =
    if is_sleeping p.state
    then record p { killed = true; state = runnable }
    else record p { killed = true }

-- -1 is `none`.
unfoldable pub kill : ℕ → Kernel → Option Kernel
unfolding find_pid
kill pid k = elim (find_pid pid k.procs) [
  | none ↦ none
  | some i ↦ elim (get_elem? k.procs i) [ none ↦ none | some p ↦ some (put k i (mark_killed p)) ]
]
