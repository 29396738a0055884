-- ===== src/Proc/Tests.antt =====
-- Instances of the theorems on the process table: a table of four slots with one running process.
use ecnu_2020_autumn_linux_l.Base.{
  ℕ, zero, suc, ◌≤◌, int_max, ◌+◌, ◌≡◌, ◌≢◌, ◌<◌, ◌∙◌, ap, sym, refl, true, false, none, some, List,
  [], ◌∷◌, get_elem?, arith,
}
use ecnu_2020_autumn_linux_l.Proc.Defs.{
  unused, running, zombie, no_chan, Proc, Kernel, Vm, find_unused, is_unused,
}
use ecnu_2020_autumn_linux_l.Proc.Fork.{fork, dup_files}
use ecnu_2020_autumn_linux_l.Proc.Sched.{Steps, steps, no_step, one_more, forks}
use ecnu_2020_autumn_linux_l.Proc.Pids.{distinct_pids}
use ecnu_2020_autumn_linux_l.Proc.Numbering.{Numbered, Live}
use ecnu_2020_autumn_linux_l.Proc.Births.{fork-Placed, Placed, forked}

abbrev free : Proc
free = record {
  sz = 0;
  pgdir = 0;
  kstack = 0;
  state = unused;
  pid = 0;
  parent = none;
  tf = record { eax = 0; eip = 0; esp = 0 };
  chan = no_chan;
  killed = false;
  ofile = 0 ∷ 0 ∷ 0 ∷ [];
  cwd = 0;
  stack = 0;
}

abbrev init : Proc
init = record free {
  sz = 4096;
  pgdir = 7;
  kstack = 3;
  state = running;
  pid = 1;
  ofile = 5 ∷ 0 ∷ 6 ∷ [];
  cwd = 2;
}

-- A child of init with its own address space that has ended.
abbrev ended : Proc
ended = record free { sz = 4096; pgdir = 8; kstack = 4; state = zombie; pid = 2; parent = some 0 }

-- A child of init that runs, and a thread of it that has ended.
abbrev child : Proc
child = record free { sz = 4096; pgdir = 8; kstack = 4; state = running; pid = 2; parent = some 0 }

abbrev thread : Proc
thread = record child { state = zombie; pid = 3; parent = some 1 }

abbrev machine : List Proc → ℕ → Kernel
machine ps n = record {
  procs = ps;
  nextpid = n;
  initproc = 0;
  current = 0;
  file_refs = λ f. 1;
  inode_refs = λ i. 1;
}

abbrev alone : Kernel
alone = machine (init ∷ free ∷ free ∷ []) 2

abbrev with_child : Kernel
with_child = machine (init ∷ ended ∷ free ∷ []) 3

-- Memory is left and the stack can be written, or not.
abbrev roomy : Vm
roomy = record {
  kalloc = some 9;
  copyuvm = λ a b. some 11;
  copyout = λ a b ws. true;
  copy_panics = λ a b. false;
  iput_panics = λ i. false;
}

abbrev cramped : Vm
cramped = record roomy { copyuvm = λ a b. none; copyout = λ a b ws. false }

abbrev family : Kernel
family = record (machine (init ∷ child ∷ thread ∷ []) 4) { current = 1 }

alone-find_unused : find_unused alone.procs ≡ some 1
unfolding find_unused
alone-find_unused = refl

true_ne_false : true ≢ false
true_ne_false e = cc

alone-Live : (i : ℕ) (p : Proc) → get_elem? alone.procs i ≡ some p → Live p → (i ≡ 0) × (p.pid ≡ 1)
alone-Live zero p e l = let same : init ≡ p = cc in (refl, ap (λ (x : Proc). x.pid) (sym same))
alone-Live (suc zero) p e l =
    absurd
      (let same : free ≡ p = cc in true_ne_false (ap (λ (x : Proc). is_unused x.state) same ∙ l))
alone-Live (suc (suc zero)) p e l =
    absurd
      (let same : free ≡ p = cc in true_ne_false (ap (λ (x : Proc). is_unused x.state) same ∙ l))
alone-Live (suc (suc (suc i))) p e l = absurd (cc)

alone_below : (i : ℕ) (p : Proc) → get_elem? alone.procs i ≡ some p → Live p → p.pid < 2
alone_below i p e l = let (_, a) = alone-Live i p e l in omega (arith, a)

alone_unique :
    (i j : ℕ) (p q : Proc)
    → get_elem? alone.procs i ≡ some p
    → get_elem? alone.procs j ≡ some q
    → Live p
    → Live q
    → i ≡ j
alone_unique i j p q e f l m =
    let (a, _) = alone-Live i p e l in let (b, _) = alone-Live j q f m in a ∙ sym b

alone-Numbered : Numbered alone
alone-Numbered = record {
  below = λ i p e l. alone_below i p e l;
  unique = λ i j p q e f l m same. alone_unique i j p q e f l m;
}

alone-Placed :
    ((fork roomy alone).0 ≡ some 2)
    × Placed alone 1 (forked alone init 9 11 free) (fork roomy alone).1
    × ((fork roomy alone).1.file_refs ≡ dup_files init.ofile alone.file_refs)
alone-Placed = fork-Placed roomy alone 1 9 init free refl alone-find_unused refl refl 11 refl

forked_once : Steps alone (fork roomy alone).1
forked_once = one_more alone alone _ (no_step alone) (forks roomy alone (init, refl, refl))

alone-fork : get_elem? (fork roomy alone).1.procs 0 ≡ some init
alone-fork = let (_, (_, others, _, _), _) = alone-Placed in others 0 (λ e. omega (arith, e))

alone-child : get_elem? (fork roomy alone).1.procs 1 ≡ some (forked alone init 9 11 free)
alone-child = let (_, (born, _, _, _), _) = alone-Placed in born

few_steps : alone.nextpid + steps forked_once ≤ int_max
unfolding forked_once
few_steps = omega arith

distinct_pids_example : init.pid ≢ (forked alone init 9 11 free).pid
distinct_pids_example =
    distinct_pids alone (fork roomy alone).1 forked_once alone-Numbered few_steps 0 1 init
      (forked alone init 9 11 free) alone-fork alone-child refl refl (λ e. omega (arith, e))
