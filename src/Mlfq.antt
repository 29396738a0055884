-- ===== src/Mlfq.antt =====
-- `scheduler` of kernel/proc.c in Project1/1b xv6 System Call and Project2/2b xv6 Scheduling: a feedback
-- queue of four priorities, one round of its loop at a time, up to the switch to the chosen process.
pub mod Fill
pub mod Choice
pub mod Waiting
pub mod Blocked
mod Tests
use ecnu_2020_autumn_linux_l.Base.{
  ℕ, zero, suc, ◌+◌, ◌*◌, ◌%◌, Bool, true, false, not, ◌&&◌, ◌||◌, Option, none, some, List, [],
  ◌∷◌, ◌==◌, ltb, if◌then◌else◌, get_elem?, set,
}

-- The fields of `struct proc` that the scheduler reads or writes. `runnable` says that the state is
-- RUNNABLE, `running` that it is RUNNING.
pub record Task : Type 0 where
  pub pid : ℕ
  pub runnable : Bool
  pub running : Bool
  pub priority : ℕ
  pub wait : ℕ → ℕ
  pub done : ℕ → ℕ

abbrev pub ticks : ℕ → ℕ
ticks zero = 50
ticks (suc zero) = 32
ticks (suc (suc zero)) = 16
ticks _ = 8

abbrev pub update : (ℕ → ℕ) → ℕ → ℕ → ℕ → ℕ
update f i v j = if j == i then v else f j

-- What `allocproc` sets.
abbrev pub fresh : Task → Task
fresh p = record p { priority = 3; wait = λ i. 0; done = λ i. 0 }

-- `tar`: a slot of the table for each priority, and what stands in it when it is chosen.
abbrev pub Targets : Type 0
Targets = ℕ → Option (ℕ × Task)

-- `tar[p->priority] == NULL || p->wait[p->priority] > tar[p->priority]->wait[p->priority]`
abbrev pub is_better : Task → Option (ℕ × Task) → Bool
is_better p none = true
is_better p (some (_, q)) = ltb (q.wait p.priority) (p.wait p.priority)

abbrev pub retarget : Targets → ℕ → Task → Targets
retarget tar i p = λ q. if q == p.priority then some (i, p) else tar q

-- The loop that fills `tar`, from the slot `i` on.
unfoldable pub fill : Targets → ℕ → List Task → Targets
fill tar i [] = tar
fill tar i (p ∷ ps) =
    fill (if p.runnable && is_better p (tar p.priority) then retarget tar i p else tar) (suc i) ps

-- `for(i = 0; i < n; i++) if(tar[i] != NULL) proc = tar[i];`
unfoldable pub take_target : ℕ → Targets → Option ℕ → Option ℕ
take_target zero tar proc = proc
take_target (suc n) tar proc = elim (tar n) [ some (i, _) ↦ some i | none ↦ take_target n tar proc ]

-- A process that is not chosen, in the loop that counts the waiting.
abbrev pub age : Task → Task
age p =
    let q = p.priority in
    let waited = (if p.runnable then suc (p.wait q) else p.wait q) in
    if (waited == 10 * ticks q) && not (q == 3)
    then record p { wait = update p.wait q 0; priority = suc q }
    else record p { wait = update p.wait q waited }

unfoldable pub age_all : ℕ → List Task → List Task
age_all pid [] = []
age_all pid (p ∷ ps) = (if p.pid == pid then p else age p) ∷ age_all pid ps

-- `priority--` on an `int`, which stands here as its bit pattern: 0 becomes that of -1.
abbrev pub lower_priority : ℕ → ℕ
lower_priority p = (p + 4294967295) % 4294967296

-- The chosen process before the switch: if it is demoted, and the process itself.
abbrev pub charge : Task → Bool × Task
charge p =
    let used = suc (p.done p.priority) in
    let q : Task = record p {
      wait = λ i. 0;
      done = update p.done p.priority used;
      runnable = false;
      running = true;
    } in
    if (used % ticks p.priority == 0) && not (p.priority == 0)
    then (true, record q { priority = lower_priority p.priority })
    else (false, q)

-- Is a RUNNABLE process of a higher priority in the table?
unfoldable pub is_preempted : ℕ → List Task → Bool
is_preempted priority [] = false
is_preempted priority (p ∷ ps) = (p.runnable && ltb priority p.priority) || is_preempted priority ps

-- The table, `proc`, `tar` and `flag`.
pub record Scheduler : Type 0 where
  pub table : List Task
  pub proc : Option ℕ
  pub tar : Targets
  pub flag : Bool

abbrev pub no_targets : Targets
no_targets q = none

-- `flag` before it is tested.
unfoldable pub wants_targets : Scheduler → Bool
unfolding is_preempted
wants_targets s = elim s.proc [
  | none ↦ true
  | some i ↦ elim (get_elem? s.table i) [
    | none ↦ s.flag
    | some p ↦ is_preempted p.priority s.table || s.flag
  ]
]

unfoldable pub targets : Scheduler → Targets
unfolding wants_targets fill
targets s = if wants_targets s then fill no_targets 0 s.table else s.tar

-- How a round ends: with no process, with a process that runs, or with a write past `proc->wait`: in
-- `proc->wait[p->priority] = 0` the pointer `p` is one past the table, and `junk` stands there.
pub data Round : Type 0 where
  idles : Scheduler → Round
  runs : ℕ → Scheduler → Round
  corrupts : Round

-- What the round leaves where it runs the process `p` of the slot `i`.
abbrev pub run_next : Scheduler → ℕ → Task → Scheduler
run_next s i p = record {
  table = set (age_all p.pid s.table) i (charge p).1;
  proc = some i;
  tar = targets s;
  flag = (charge p).0;
}

unfoldable pub round : (junk : ℕ) → Scheduler → Round
unfolding targets take_target age_all
round junk s = elim (take_target 4 (targets s) s.proc) [
  | none ↦ idles (record s { tar = targets s; flag = false })
  | some i ↦ elim (get_elem? s.table i) [
    | none ↦ corrupts
    | some p ↦ if (charge p).0 && not (ltb junk 4) then corrupts else runs i (run_next s i p)
  ]
]
