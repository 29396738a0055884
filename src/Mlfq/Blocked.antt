-- ===== src/Mlfq/Blocked.antt =====
-- What a round of the scheduler does where no process can run.
use ecnu_2020_autumn_linux_l.Base.{
  ℕ, suc, ◌≡◌, ◌⊎◌, refl, ap, ◌∙◌, true, false, Option, some, List, [], ◌∷◌, All, All-get_elem?,
  get_elem?,
}
use ecnu_2020_autumn_linux_l.Mlfq.{
  Task, Targets, fill, take_target, Scheduler, no_targets, wants_targets, targets, runs, corrupts,
  round, run_next,
}
use ecnu_2020_autumn_linux_l.Mlfq.Choice.{round-taken}

abbrev pub IsBlocked : Task → Type 0
IsBlocked p = p.runnable ≡ false

fill-IsBlocked : (tar : Targets) (i : ℕ) (ps : List Task) → All IsBlocked ps → fill tar i ps ≡ tar
unfolding fill
fill-IsBlocked tar i [] h = refl
fill-IsBlocked tar i (p ∷ ps) (h, hs) = rw h (fill-IsBlocked tar (suc i) ps hs)

targets-IsBlocked :
    (s : Scheduler) → wants_targets s ≡ true → All IsBlocked s.table → targets s ≡ no_targets
unfolding targets
targets-IsBlocked s w h = rw w (fill-IsBlocked no_targets 0 s.table h)

take-no_targets : (proc : Option ℕ) → take_target 4 no_targets proc ≡ proc
unfolding take_target
take-no_targets proc = refl

-- Where `proc` points to a process, the table is looked at again and no process of it is RUNNABLE, the
-- scheduler is not idle: it runs the process that `proc` still points to, although that one is blocked
-- too (or writes past its array).
round-IsBlocked :
    (junk : ℕ) (s : Scheduler) (i : ℕ) (p : Task)
    → wants_targets s ≡ true
    → All IsBlocked s.table
    → s.proc ≡ some i
    → get_elem? s.table i ≡ some p
    → (p.runnable ≡ false) × ((round junk s ≡ corrupts) ⊎ (round junk s ≡ runs i (run_next s i p)))
round-IsBlocked junk s i p w h e f =
    let taken : take_target 4 (targets s) s.proc ≡ some i =
      ap (λ t. take_target 4 t s.proc) (targets-IsBlocked s w h) ∙ take-no_targets s.proc ∙ e in
    (All-get_elem? IsBlocked s.table i p h f, round-taken junk s i p taken f)
