-- ===== src/Threads/Tests.antt =====
-- An instance of the theorem on the stack of a thread: a block at 5000, whose stack page is at 8192.
use ecnu_2020_autumn_linux_l.Base.{
  ◌+◌, ◌%◌, ◌≤◌, ◌≡◌, refl, none, some, true, false, [], ◌==◌, if◌then◌else◌, arith,
}
use ecnu_2020_autumn_linux_l.Strings.{Memory}
use ecnu_2020_autumn_linux_l.Args.{Caller, argint, fetchint}
use ecnu_2020_autumn_linux_l.Proc.Defs.{Kernel, Vm}
use ecnu_2020_autumn_linux_l.Proc.Fork.{clone}
use ecnu_2020_autumn_linux_l.Threads.{thread_stack, sys_clone}
use ecnu_2020_autumn_linux_l.Threads.Stacks.{sys_clone-thread_stack}

abbrev bytes : Memory
bytes a = if a == 4 then 100 else if a == 8 then 200 else if a == 13 then 32 else 0

abbrev caller : Caller
caller = record { sz = 40960; esp = 0 }

abbrev vm : Vm
vm = record {
  kalloc = some 4096;
  copyuvm = λ pgdir sz. none;
  copyout = λ pgdir va words. true;
  copy_panics = λ pgdir sz. false;
  iput_panics = λ i. false;
}

abbrev kernel : Kernel
kernel = record {
  procs = [];
  nextpid = 1;
  initproc = 0;
  current = 0;
  file_refs = λ f. 0;
  inode_refs = λ i. 0;
}

third : argint bytes caller 2 ≡ some (thread_stack 5000)
unfolding argint fetchint thread_stack
third = refl

first : argint bytes caller 0 ≡ some 100
unfolding argint fetchint
first = refl

second : argint bytes caller 1 ≡ some 200
unfolding argint fetchint
second = refl

sys_clone-thread_stack_example :
    (sys_clone bytes caller vm kernel ≡ clone vm 100 200 (thread_stack 5000) kernel)
    × (thread_stack 5000 % 4096 ≡ 0)
    × (5000 ≤ thread_stack 5000)
    × (thread_stack 5000 + 4096 ≤ 5000 + 8192)
sys_clone-thread_stack_example =
    sys_clone-thread_stack bytes caller vm kernel 100 200 5000 (omega arith) (omega arith) first
      (omega arith) second (omega arith) third
