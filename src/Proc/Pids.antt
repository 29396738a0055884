-- ===== src/Proc/Pids.antt =====
-- Process ids: no two live processes share one, whatever the calls.
use ecnu_2020_autumn_linux_l.Base.{
  ℕ, ◌+◌, ◌≤◌, ◌&&◌, int_max, ◌≡◌, ◌≢◌, refl, sym, subst, ap, ◌∙◌, inl, inr, Bool, not, ◌||◌, none,
  some, ◌==◌, get_elem?, set, length, arith, Bool-cases, Option-cases,
}
use ecnu_2020_autumn_linux_l.Proc.Defs.{
  zombie, running, Proc, Kernel, Vm, is_unused, is_runnable, put,
}
use ecnu_2020_autumn_linux_l.Proc.Exit.{
  wakeup, exit, exit_loop, turn_zombie, give_up, emptied, panics,
}
use ecnu_2020_autumn_linux_l.Proc.Sched.{
  dispatch, yield, sleep, awake, after, IsRunning, Step, forks, clones, exits, waits, kills, wakes,
  yields, sleeps_on, awakes, dispatches, Steps, steps, no_step, one_more, of_current,
}
use ecnu_2020_autumn_linux_l.Proc.Children.{find_zombie_lem}
use ecnu_2020_autumn_linux_l.Proc.Slots.{
  Slots-refl, Slots-trans, Slots-set, Slots-wakeup1, Slots-wake_parent, exit_loop-Slots,
  exit_loop-globals,
}
use ecnu_2020_autumn_linux_l.Proc.Wait.{
  wait_pass, kill, reap, mark_killed, find_pid, find_zombie, have_kids,
}
use ecnu_2020_autumn_linux_l.Proc.Numbering.{
  Live, Older, Within, Older-kept, Alike, Alike-kept, Within-Alike, Within-set, IsNumbered-Within,
  Numbered, Grown, HasIds, fork-Grown, clone-Grown,
}

-- A step that keeps the ids of the live processes and gives out none.
abbrev Keeps : Kernel → Kernel → Type 0
Keeps k k' = Within k.procs k'.procs × (k'.nextpid ≡ k.nextpid)

Numbered-Keeps : (k k' : Kernel) → Numbered k → Keeps k k' → Grown k.nextpid k'
Numbered-Keeps k k' n (w, f) = (rw f (IsNumbered-Within _ _ _ n w), omega (arith, f))

Live-running : (p : Proc) → p.state ≡ running → Live p
Live-running p e = rw e refl

put-Keeps :
    (k : Kernel) (i : ℕ) (p q : Proc)
    → get_elem? k.procs i ≡ some p
    → Older p q
    → Keeps k (put k i q)
put-Keeps k i p q e o = (Within-set k.procs i p q e o, refl)

-- `exit` neither revives a slot nor gives out an id.
exit-Keeps : (vm : Vm) (k k' : Kernel) → IsRunning k → exit vm k ≡ some k' → Keeps k k'
unfolding exit
exit-Keeps vm k k' (p, f, live) e = elim (Bool-cases (k.current == k.initproc)) [
  | inl b ↦ absurd (let out : exit vm k ≡ none = rw (b, exit) refl in cc)
  | inr b ↦ elim (Bool-cases (panics vm k p)) [
    | inl bad ↦ absurd (let out : exit vm k ≡ none = rw (b, exit, f) (rw bad refl) in cc)
    | inr good ↦
        let me = emptied p in
        let start = give_up k p in
        let done = exit_loop vm me (length k.procs) 0 start in
        let out : exit vm k ≡ turn_zombie done = rw (b, exit, f) (rw good refl) in
        let a = Slots-set Alike Alike-kept.kept k.procs k.current p me f (refl, refl) in
        let b = Slots-wake_parent Alike Alike-kept.woken p.parent (set k.procs k.current me) in
        let c = exit_loop-Slots Alike Alike-kept vm me (length k.procs) 0 start in
        let w =
          Slots-trans Alike Alike-kept.kept _ _ _ (Slots-trans Alike Alike-kept.kept _ _ _ a b) c in
        let (next, at, _) = exit_loop-globals vm me (length k.procs) 0 start in
        elim (Option-cases (get_elem? done.procs done.current)) [
          | inl g ↦ absurd (let stuck : turn_zombie done ≡ none = rw (g, turn_zombie) refl in cc)
          | inr (q, g) ↦
              let (p', h, (alive, id)) = w k.current q (ap (get_elem? done.procs) (sym at) ∙ g) in
              let was : p ≡ p' = cc in
              let dead : Proc = record q { state = zombie } in
              let left : exit vm k ≡ some (put done done.current dead) =
                out ∙ rw (g, turn_zombie) refl in
              let same : put done done.current dead ≡ k' = cc in
              let o : Older q dead = λ l. (
                sym alive ∙ ap (λ (x : Proc). is_unused x.state) (sym was) ∙ Live-running p live,
                refl,
              ) in
              subst (Keeps k) same (
                Slots-trans Older Older-kept _ _ _ (Within-Alike _ _ w)
                    (Within-set done.procs done.current q dead g o),
                next,
              )
        ]
  ]
]

kill-Keeps : (pid : ℕ) (k k' : Kernel) → kill pid k ≡ some k' → Keeps k k'
unfolding kill
kill-Keeps pid k k' e = elim (Option-cases (find_pid pid k.procs)) [
  | inl f ↦ absurd (let out : kill pid k ≡ none = rw (f, kill) refl in cc)
  | inr (i, f) ↦ elim (Option-cases (get_elem? k.procs i)) [
    | inl g ↦ absurd (let out : kill pid k ≡ none = rw (f, kill, g) refl in cc)
    | inr (p, g) ↦
        let out : kill pid k ≡ some (put k i (mark_killed p)) = rw (f, kill, g) refl in
        let same : put k i (mark_killed p) ≡ k' = cc in
        subst (Keeps k) same (put-Keeps k i p (mark_killed p) g (λ l. ground arith))
  ]
]

wait_pass-Keeps :
    (thread : Bool) (k : Kernel) → IsRunning k → Keeps k (after k (wait_pass thread k))
unfolding wait_pass
wait_pass-Keeps thread k (me, e, live) =
    elim (Option-cases (find_zombie thread k.current me 0 k.procs)) [
      | inl f ↦ elim (Bool-cases (not (have_kids thread k.current me k.procs) || me.killed)) [
        | inl b ↦ rw (e, wait_pass, f, b) (Slots-refl Older Older-kept k.procs, refl)
        | inr b ↦
            rw (e, wait_pass, f, b)
              (put-Keeps k k.current me _ e (λ l. (Live-running me live, refl)))
      ]
      | inr ((i, p), f) ↦ elim (Bool-cases (not thread && (p.pgdir == 0))) [
        | inl b ↦ rw (e, wait_pass, f, b) (Slots-refl Older Older-kept k.procs, refl)
        | inr b ↦
            rw (e, wait_pass, f, b)
              (let (d, at, g, _) = find_zombie_lem thread k.current me 0 k.procs i p f in
                let here : get_elem? k.procs i ≡ some p =
                  ap (get_elem? k.procs) (omega (arith, at)) ∙ g in
                put-Keeps k i p (reap p) here (λ l. cc))
      ]
    ]

of_current-Keeps :
    (k : Kernel) (f : Proc → Proc)
    → ((p : Proc) → p.state ≡ running → Older p (f p))
    → IsRunning k
    → Keeps k (of_current f k)
of_current-Keeps k f g (p, e, live) =
    rw (e, of_current) (put-Keeps k k.current p (f p) e (g p live))

dispatch-Keeps : (i : ℕ) (k : Kernel) → Keeps k (dispatch i k)
unfolding dispatch
dispatch-Keeps i k = elim (Option-cases (get_elem? k.procs i)) [
  | inl e ↦ rw (e, dispatch) (Slots-refl Older Older-kept k.procs, refl)
  | inr (p, e) ↦ elim (Bool-cases (is_runnable p.state)) [
    | inl b ↦ rw (e, dispatch, b) (Within-set k.procs i p _ e (λ l. ground arith), refl)
    | inr b ↦ rw (e, dispatch, b) (Slots-refl Older Older-kept k.procs, refl)
  ]
]

Step-Numbered : (k k' : Kernel) → Numbered k → HasIds k → Step k k' → Grown k.nextpid k'
unfolding yield sleep awake wakeup
Step-Numbered k _ n room (forks vm _ r) = fork-Grown vm k n room
Step-Numbered k _ n room (clones vm fcn arg stack _ r) = clone-Grown vm fcn arg stack k n room
Step-Numbered k k' n room (exits vm _ _ r e) = Numbered-Keeps k k' n (exit-Keeps vm k k' r e)
Step-Numbered k _ n room (waits thread _ r) =
    Numbered-Keeps k (after k (wait_pass thread k)) n (wait_pass-Keeps thread k r)
Step-Numbered k k' n room (kills pid _ _ r e) = Numbered-Keeps k k' n (kill-Keeps pid k k' e)
Step-Numbered k _ n room (wakes c _) =
    Numbered-Keeps k (wakeup c k) n
      (Within-Alike _ _ (Slots-wakeup1 Alike Alike-kept.woken c k.procs), refl)
Step-Numbered k _ n room (yields _ r) =
    Numbered-Keeps k (yield k) n (of_current-Keeps k _ (λ p e l. (Live-running p e, refl)) r)
Step-Numbered k _ n room (sleeps_on c _ r) =
    Numbered-Keeps k (sleep c k) n (of_current-Keeps k _ (λ p e l. (Live-running p e, refl)) r)
Step-Numbered k _ n room (awakes _ r) =
    Numbered-Keeps k (awake k) n (of_current-Keeps k _ (λ p e l. (l, refl)) r)
Step-Numbered k _ n room (dispatches i _) = Numbered-Keeps k (dispatch i k) n (dispatch-Keeps i k)

Steps-Numbered :
    (k k' : Kernel) (s : Steps k k')
    → Numbered k
    → k.nextpid + steps s ≤ int_max
    → Numbered k' × (k'.nextpid ≤ k.nextpid + steps s)
Steps-Numbered k k' (no_step _) n l = (n, omega arith)
Steps-Numbered k k' (one_more _ m _ s t) n l =
    let (h, below) = Steps-Numbered k m s n (omega (arith, l)) in
    let (g, next) = Step-Numbered m k' h (omega (arith, l, below)) t in
    (g, omega (arith, below, next))

-- From a table where the ids of the live processes are distinct and below `nextpid`, after any
-- sequence of `fork`, `clone`, `exit`, `wait`, `join`, `kill`, `wakeup`, `yield`, `sleep` and
-- dispatches that is so short that `nextpid` and its number of steps together fit an `int`, no two
-- live processes have the same id.
pub distinct_pids :
    (k k' : Kernel) (s : Steps k k')
    → Numbered k
    → k.nextpid + steps s ≤ int_max
    → (i j : ℕ) (p q : Proc) → get_elem? k'.procs i ≡ some p
    → get_elem? k'.procs j ≡ some q
    → Live p
    → Live q
    → i ≢ j
    → p.pid ≢ q.pid
distinct_pids k k' s n short i j p q e f l m apart same =
    apart ((Steps-Numbered k k' s n short).0.unique i j p q e f l m same)
