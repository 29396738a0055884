-- ===== src/Proc/Exit.antt =====
-- `wakeup1`, `wakeup` and `exit` of kernel/proc.c in Project4/4b xv6 Kernel Thread.
use ecnu_2020_autumn_linux_l.Base.{
  ℕ, zero, suc, Bool, true, false, not, ◌&&◌, ◌||◌, Option, none, some, List, [], ◌∷◌, ◌==◌,
  if◌then◌else◌, get_elem?, set, length,
}
use ecnu_2020_autumn_linux_l.Proc.Defs.{
  runnable, zombie, Chan, no_chan, proc_chan, Proc, Kernel, Vm, is_zombie, is_sleeping, same_chan,
  is_parent, put, drop_ref,
}

-- Each open file has a reference when it is closed; `fileclose` panics where one has none.
unfoldable pub closes : List ℕ → (ℕ → ℕ) → Bool
closes [] refs = true
closes (f ∷ fs) refs =
    let rest = closes fs (drop_ref refs f) in
    if f == 0 then closes fs refs else not (refs f == 0) && rest

-- `fileclose` of each open file.
unfoldable pub close_files : List ℕ → (ℕ → ℕ) → ℕ → ℕ
close_files [] refs = refs
close_files (f ∷ fs) refs = close_files fs (if f == 0 then refs else drop_ref refs f)

-- One process under `wakeup1(chan)`.
abbrev pub wake : Chan → Proc → Proc
wake c p = if is_sleeping p.state && same_chan p.chan c then record p { state = runnable } else p

unfoldable pub wakeup1 : Chan → List Proc → List Proc
wakeup1 c [] = []
wakeup1 c (p ∷ ps) = wake c p ∷ wakeup1 c ps

unfoldable pub wakeup : Chan → Kernel → Kernel
unfolding wakeup1
wakeup c k = record k { procs = wakeup1 c k.procs }

-- `copyuvm` may fail; the result is stored all the same.
abbrev pub copy_or_null : Vm → Proc → ℕ
copy_or_null vm p = elim (vm.copyuvm p.pgdir p.sz) [ none ↦ 0 | some d ↦ d ]

-- A process in the loop of `exit`, where `parent` is the exiting process.
abbrev pub abandon : Vm → Kernel → Proc → Proc → Proc
abandon vm k parent p =
    if is_parent p.parent k.current
    then record p {
      pgdir = if p.pgdir == parent.pgdir then copy_or_null vm parent else p.pgdir;
      parent = some k.initproc;
    }
    else p

-- One round of the loop of `exit`, at the slot `i`.
unfoldable pub exit_round : Vm → Proc → ℕ → Kernel → Kernel
unfolding wakeup1
exit_round vm parent i k = elim (get_elem? k.procs i) [
  | none ↦ k
  | some p ↦
      let k' = put k i (abandon vm k parent p) in
      if is_parent p.parent k.current && is_zombie p.state
      then record k' { procs = wakeup1 (proc_chan k.initproc) k'.procs }
      else k'
]

-- The loop of `exit` over `n` slots from the slot `i` on.
unfoldable pub exit_loop : Vm → Proc → ℕ → ℕ → Kernel → Kernel
unfolding exit_round
exit_loop vm parent zero i k = k
exit_loop vm parent (suc n) i k = exit_loop vm parent n (suc i) (exit_round vm parent i k)

abbrev pub wake_parent : Option ℕ → List Proc → List Proc
wake_parent none ps = wakeup1 no_chan ps
wake_parent (some j) ps = wakeup1 (proc_chan j) ps

-- `ofile` after every entry is set to 0.
abbrev pub no_files : List ℕ → List ℕ
no_files [] = []
no_files (_ ∷ fs) = 0 ∷ no_files fs

-- `proc` with its files and its directory given up.
abbrev pub emptied : Proc → Proc
emptied p = record p { ofile = no_files p.ofile; cwd = 0 }

-- The process in the slot `c` has a thread, for which the loop of `exit` calls `copyuvm`.
unfoldable pub has_thread : (c pgdir : ℕ) → List Proc → Bool
has_thread c pgdir [] = false
has_thread c pgdir (p ∷ ps) = (is_parent p.parent c && (p.pgdir == pgdir)) || has_thread c pgdir ps

-- A panic of `fileclose`, of `iput`, or of `copyuvm` in the loop. No round of the loop changes what the
-- later ones test, so that it is known before the loop if a round copies.
abbrev pub panics : Vm → Kernel → Proc → Bool
panics vm k p =
    not (closes p.ofile k.file_refs)
    || vm.iput_panics p.cwd
    || (has_thread k.current p.pgdir k.procs && vm.copy_panics p.pgdir p.sz)

-- `exit` up to its loop over the children.
abbrev pub give_up : Kernel → Proc → Kernel
give_up k p = record k {
  procs = wake_parent p.parent (set k.procs k.current (emptied p));
  file_refs = close_files p.ofile k.file_refs;
  inode_refs = drop_ref k.inode_refs p.cwd;
}

abbrev pub turn_zombie : Kernel → Option Kernel
turn_zombie k = elim (get_elem? k.procs k.current) [
  | none ↦ none
  | some q ↦ some (put k k.current (record q { state = zombie }))
]

-- `none`: the kernel panics. Otherwise the table when `sched` is called.
unfoldable pub exit : Vm → Kernel → Option Kernel
unfolding closes close_files has_thread exit_loop wakeup1
exit vm k = if k.current == k.initproc then none else elim (get_elem? k.procs k.current) [
  | none ↦ none
  | some p ↦
      if panics vm k p
      then none
      else turn_zombie (exit_loop vm (emptied p) (length k.procs) 0 (give_up k p))
]
