-- ===== src/Proc/Leaks.antt =====
-- What a failed `clone` and a `kill` of process 0 leave behind.
use ecnu_2020_autumn_linux_l.Base.{
  ℕ, suc, ◌≡◌, ◌≢◌, ◌⊎◌, refl, ◌∙◌, subst, inl, inr, Bool, true, false, none, some, List, [], ◌∷◌,
  get_elem?, set, arith, Bool-cases, Option-cases, get_elem?-set_self, get_elem?-set_ne,
  lt_of_get_elem?, ==_self,
}
use ecnu_2020_autumn_linux_l.Proc.Defs.{running, Proc, Kernel, Vm, is_unused, put, find_unused}
use ecnu_2020_autumn_linux_l.Proc.Fork.{fork, clone, thread_sp}
use ecnu_2020_autumn_linux_l.Proc.Wait.{
  have_kids, is_child, wait_pass, fails, join, kill, find_pid, mark_killed,
}
use ecnu_2020_autumn_linux_l.Proc.Births.{
  half_made, forked, fork-Placed, clone-fails, find_unused_lem,
}
use ecnu_2020_autumn_linux_l.Proc.Children.{have_kids-get_elem?, wait_pass-Outcome, WaitOutcome}

running-find_unused :
    (k : Kernel) (i : ℕ) (parent : Proc)
    → get_elem? k.procs k.current ≡ some parent
    → parent.state ≡ running
    → find_unused k.procs ≡ some i
    → i ≢ k.current
running-find_unused k i parent caller live free at =
    let (q, g, h) = find_unused_lem k.procs i free in
    let same : q ≡ parent = cc in
    let dead : is_unused parent.state ≡ true = rw (← same) h in absurd (ground arith)

wait_pass-fails :
    (thread : Bool) (k : Kernel) (me : Proc)
    → get_elem? k.procs k.current ≡ some me
    → wait_pass thread k ≡ fails
    → (have_kids thread k.current me k.procs ≡ false) ⊎ (me.killed ≡ true)
wait_pass-fails thread k me e f =
    (subst (WaitOutcome thread k me) f (wait_pass-Outcome thread k me e)).1

-- After a `clone` that failed because the arguments could not be written to the stack, the running
-- caller, if it is not killed, never gets -1 from `join`: the slot left behind counts as a thread.
join-failed_clone :
    (vm : Vm) (fcn arg stack : ℕ) (k : Kernel) (i page : ℕ) (parent : Proc)
    → get_elem? k.procs k.current ≡ some parent
    → parent.state ≡ running
    → parent.killed ≡ false
    → find_unused k.procs ≡ some i
    → vm.kalloc ≡ some page
    → vm.copyout parent.pgdir (thread_sp stack) (4294967295 ∷ arg ∷ []) ≡ false
    → ((clone vm fcn arg stack k).0 ≡ none) × (join (clone vm fcn arg stack k).1 ≢ fails)
join-failed_clone vm fcn arg stack k i page parent caller live alive free room bad =
    let (p, slot, _) = find_unused_lem k.procs i free in
    let (out, (placed, others, _, at)) =
      clone-fails vm k i page parent p caller free slot room fcn arg stack bad in
    let k' = (clone vm fcn arg stack k).1 in
    let me : get_elem? k'.procs k'.current ≡ some parent =
      rw at (others k.current (running-find_unused k i parent caller live free) ∙ caller) in
    let child : is_child true k'.current parent (half_made k parent page stack p) ≡ true =
      rw (at, ==_self k.current, ==_self parent.pgdir) refl in
    let kids = have_kids-get_elem? true k'.current parent k'.procs i _ placed child in
    (
      out,
      λ f. elim (wait_pass-fails true k' parent me f) [ inl a ↦ absurd (cc) | inr b ↦ absurd (cc) ],
    )

find_unused-set :
    (ps : List Proc) (i : ℕ) (q : Proc)
    → find_unused ps ≡ some i
    → is_unused q.state ≡ true
    → find_unused (set ps i q) ≡ some i
unfolding find_unused
find_unused-set [] i q e h = absurd (cc)
find_unused-set (p ∷ ps) i q e h = elim (Bool-cases (is_unused p.state)) [
  | inl b ↦
      let out : find_unused (p ∷ ps) ≡ some 0 = rw b refl in
      let at : 0 ≡ i = cc in rw (← at) (rw h refl)
  | inr b ↦ elim (Option-cases (find_unused ps)) [
    | inl f ↦ absurd (let out : find_unused (p ∷ ps) ≡ none = rw (b, f) refl in cc)
    | inr (j, f) ↦
        let out : find_unused (p ∷ ps) ≡ some (suc j) = rw (b, f) refl in
        let at : suc j ≡ i = cc in rw (← at) (rw (b, find_unused-set ps j q f h) refl)
  ]
]

-- Where the first slot with the id 0 is also the first free slot, a running process that calls
-- `kill(0)` gets 0, and the next child that it forks is killed from its birth.
fork-kill_zero :
    (vm : Vm) (k : Kernel) (i page d : ℕ) (parent : Proc)
    → get_elem? k.procs k.current ≡ some parent
    → parent.state ≡ running
    → find_unused k.procs ≡ some i
    → find_pid 0 k.procs ≡ some i
    → vm.kalloc ≡ some page
    → vm.copyuvm parent.pgdir parent.sz ≡ some d
    → (k' : Kernel) × (child : Proc) × (kill 0 k ≡ some k')
      × ((fork vm k').0 ≡ some k.nextpid)
      × (get_elem? (fork vm k').1.procs i ≡ some child)
      × (child.killed ≡ true)
unfolding kill
fork-kill_zero vm k i page d parent caller live free zero_pid room copied =
    let (p, slot, h) = find_unused_lem k.procs i free in
    let k' : Kernel = put k i (mark_killed p) in
    let done : kill 0 k ≡ some k' = rw (zero_pid, kill, slot) refl in
    let me : get_elem? k'.procs k.current ≡ some parent =
      get_elem?-set_ne k.procs i k.current (mark_killed p)
        (running-find_unused k i parent caller live free)
      ∙ caller in
    let still : is_unused (mark_killed p).state ≡ true = ground arith in
    let free' = find_unused-set k.procs i (mark_killed p) free still in
    let slot' = get_elem?-set_self k.procs i (mark_killed p) (lt_of_get_elem? k.procs i slot) in
    let (out, (placed, _, _, _), _) =
      fork-Placed vm k' i page parent (mark_killed p) me free' slot' room d copied in
    (k', forked k' parent page d (mark_killed p), done, out, placed, ground arith)
