-- ===== src/Threads/Stacks.antt =====
-- The stack of a new thread.
use ecnu_2020_autumn_linux_l.Base.{ℕ, ◌+◌, ◌-◌, ◌%◌, ◌≤◌, ◌≡◌, refl, false, some, ltb, arith}
use ecnu_2020_autumn_linux_l.Strings.{Memory}
use ecnu_2020_autumn_linux_l.Args.{Caller, argint, argptr}
use ecnu_2020_autumn_linux_l.Args.Checks.{argptr_iff}
use ecnu_2020_autumn_linux_l.Proc.Defs.{Kernel, Vm}
use ecnu_2020_autumn_linux_l.Proc.Fork.{clone}
use ecnu_2020_autumn_linux_l.Threads.{thread_stack, clone_args, sys_clone}

-- The page of the stack is aligned and lies in the block.
thread_stack-bounds :
    (block : ℕ)
    → block + 8192 ≤ 2147483648
    → (thread_stack block % 4096 ≡ 0)
      × (block ≤ thread_stack block)
      × (thread_stack block + 4096 ≤ block + 8192)
unfolding thread_stack
thread_stack-bounds block l = (ground (arith, l), ground (arith, l), ground (arith, l))

module _ (m : Memory) (p : Caller) (small : p.sz ≤ 2147483648) where
  -- An argument that is in the process with the three bytes after it.
  accepted : (n i : ℕ) → argint m p n ≡ some i → i + 4 ≤ p.sz → argptr m p n 4 ≡ some i
  accepted n i e l = (argptr_iff m p n 4 i (omega arith) small).1 (e, omega (arith, l), l)

  clone_args-some :
      (fcn arg stack : ℕ)
      → argptr m p 0 4 ≡ some fcn
      → argptr m p 1 4 ≡ some arg
      → argptr m p 2 4 ≡ some stack
      → stack % 4096 ≡ 0
      → stack + 4096 ≤ p.sz
      → clone_args m p ≡ some (record { fcn = fcn; arg = arg; stack = stack })
  unfolding clone_args
  clone_args-some fcn arg stack e f g r l =
      let room : ltb ((p.sz + (4294967296 - stack)) % 4294967296) 4096 ≡ false =
        ground (arith, l, small) in
      rw (e, clone_args) (rw (f, g) (rw (r, room) refl))

-- Where the process has at most 2^31 bytes, the block of two pages from `malloc` is in it, and so are the
-- words at the addresses that the first two arguments give, `sys_clone` with the stack that `thread_create`
-- makes of the block is accepted and calls `clone` with that stack, whose page is aligned and lies in the
-- block.
pub sys_clone-thread_stack :
    (m : Memory) (p : Caller) (vm : Vm) (k : Kernel) (fcn arg block : ℕ)
    → p.sz ≤ 2147483648
    → block + 8192 ≤ p.sz
    → argint m p 0 ≡ some fcn
    → fcn + 4 ≤ p.sz
    → argint m p 1 ≡ some arg
    → arg + 4 ≤ p.sz
    → argint m p 2 ≡ some (thread_stack block)
    → (sys_clone m p vm k ≡ clone vm fcn arg (thread_stack block) k)
      × (thread_stack block % 4096 ≡ 0)
      × (block ≤ thread_stack block)
      × (thread_stack block + 4096 ≤ block + 8192)
unfolding sys_clone
sys_clone-thread_stack m p vm k fcn arg block small room e0 l0 e1 l1 e2 =
    let (r, low, high) = thread_stack-bounds block (omega (arith, small, room)) in
    let args =
      clone_args-some m p small fcn arg (thread_stack block) (accepted m p small 0 fcn e0 l0)
        (accepted m p small 1 arg e1 l1)
        (accepted m p small 2 (thread_stack block) e2 (omega (arith, high, room))) r
        (omega (arith, high, room)) in
    (rw (args, sys_clone) refl, r, low, high)
