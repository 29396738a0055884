-- ===== src/Threads.antt =====
-- Threads of Project4/4b xv6 Kernel Thread from the program to the process table: `thread_create` of
-- user/ulib.c, and `sys_clone` and `sys_join` of kernel/sysproc.c. The arguments of the system calls are
-- those that Args fetches, and `clone` and `join` those of Proc.
pub mod Stacks
mod Tests
use ecnu_2020_autumn_linux_l.Base.{ℕ, ◌+◌, ◌-◌, ◌%◌, Option, none, some, ◌==◌, ltb, if◌then◌else◌}
use ecnu_2020_autumn_linux_l.Strings.{Memory}
use ecnu_2020_autumn_linux_l.Args.{Caller, word, argptr}
use ecnu_2020_autumn_linux_l.Proc.Defs.{Kernel, Vm, Reply}
use ecnu_2020_autumn_linux_l.Proc.Fork.{clone}
use ecnu_2020_autumn_linux_l.Proc.Wait.{Waited, fails, join}

-- The stack that `thread_create` hands to `clone`, from the block that `malloc(2 * PGSIZE)` returns.
unfoldable pub thread_stack : (block : ℕ) → ℕ
thread_stack block = if block % 4096 == 0 then block else (block + (4096 - block % 4096)) % word

-- The three arguments of `clone`.
pub record CloneArgs : Type 0 where
  pub fcn : ℕ
  pub arg : ℕ
  pub stack : ℕ

-- `sys_clone` before its call of `clone`; `none` is -1.
unfoldable pub clone_args : Memory → Caller → Option CloneArgs
clone_args m p = elim (argptr m p 0 4) [
  | none ↦ none
  | some fcn ↦ elim (argptr m p 1 4) [
    | none ↦ none
    | some arg ↦ elim (argptr m p 2 4) [
      | none ↦ none
      | some stack ↦
          if stack % 4096 == 0
          then if ltb ((p.sz + (word - stack)) % word) 4096
            then none
            else some (record { fcn = fcn; arg = arg; stack = stack })
          else none
    ]
  ]
]

unfoldable pub sys_clone : Memory → Caller → Vm → Kernel → Reply
sys_clone m p vm k = elim (clone_args m p) [
  | none ↦ (none, k)
  | some a ↦ clone vm a.fcn a.arg a.stack k
]

-- One pass of the loop of `join`, if the pointer for the stack is accepted.
unfoldable pub sys_join : Memory → Caller → Kernel → Waited
sys_join m p k = elim (argptr m p 0 4) [ none ↦ fails | some a ↦ join k ]
