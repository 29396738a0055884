-- ===== src/Proc/Defs.antt =====
-- kernel/proc.h and `allocproc` of kernel/proc.c in Project4/4b xv6 Kernel Thread.
use ecnu_2020_autumn_linux_l.Base.{
  ℕ, suc, ◌+◌, ◌-◌, ◌%◌, Bool, true, false, Option, none, some, List, [], ◌∷◌, ◌==◌, if◌then◌else◌,
  get_elem?, set,
}

-- `enum procstate`
pub data ProcState : Type 0 where
  unused embryo sleeping runnable running zombie : ProcState

-- What a process sleeps on: a process, or another address of the kernel.
pub data Chan : Type 0 where
  no_chan : Chan
  proc_chan : ℕ → Chan
  other_chan : ℕ → Chan

-- The registers of the trap frame that `proc.c` writes.
pub record Frame : Type 0 where
  pub eax : ℕ
  pub eip : ℕ
  pub esp : ℕ

-- `struct proc`; a null pointer is 0, or `none` for the parent.
pub record Proc : Type 0 where
  pub sz : ℕ
  pub pgdir : ℕ
  pub kstack : ℕ
  pub state : ProcState
  pub pid : ℕ
  pub parent : Option ℕ
  pub tf : Frame
  pub chan : Chan
  pub killed : Bool
  pub ofile : List ℕ
  pub cwd : ℕ
  pub stack : ℕ

-- `ptable.proc`, `nextpid`, `initproc`, the slot of `proc`, and the reference counts of files and
-- inodes.
pub record Kernel : Type 0 where
  pub procs : List Proc
  pub nextpid : ℕ
  pub initproc : ℕ
  pub current : ℕ
  pub file_refs : ℕ → ℕ
  pub inode_refs : ℕ → ℕ

-- What the memory allocator, vm.c and fs.c answer in one call of a function here: `copyuvm` by the page
-- directory and the size, `copyout` by the page directory, the address and the words to write.
-- `copy_panics` says where `copyuvm` panics, since a page is missing, and `iput_panics` where `iput` does.
pub record Vm : Type 0 where
  pub kalloc : Option ℕ
  pub copyuvm : ℕ → ℕ → Option ℕ
  pub copyout : ℕ → ℕ → List ℕ → Bool
  pub copy_panics : ℕ → ℕ → Bool
  pub iput_panics : ℕ → Bool

abbrev pub is_unused : ProcState → Bool
is_unused unused = true
is_unused _ = false

abbrev pub is_zombie : ProcState → Bool
is_zombie zombie = true
is_zombie _ = false

abbrev pub is_sleeping : ProcState → Bool
is_sleeping sleeping = true
is_sleeping _ = false

abbrev pub is_runnable : ProcState → Bool
is_runnable runnable = true
is_runnable _ = false

abbrev pub same_chan : Chan → Chan → Bool
same_chan no_chan no_chan = true
same_chan (proc_chan a) (proc_chan b) = a == b
same_chan (other_chan a) (other_chan b) = a == b
same_chan _ _ = false

abbrev pub is_parent : Option ℕ → ℕ → Bool
is_parent none i = false
is_parent (some j) i = j == i

abbrev pub put : Kernel → ℕ → Proc → Kernel
put k i p = record k { procs = set k.procs i p }

-- The first slot whose state is UNUSED.
unfoldable pub find_unused : List Proc → Option ℕ
find_unused [] = none
find_unused (p ∷ ps) =
    if is_unused p.state
    then some 0
    else elim (find_unused ps) [ none ↦ none | some i ↦ some (suc i) ]

-- `nextpid++` on an `int`, which stands here as its bit pattern.
abbrev pub next_id : ℕ → ℕ
next_id n = (n + 1) % 4294967296

-- The slot and the table. The process id is used up where `kalloc` fails.
unfoldable pub allocproc : Vm → Kernel → Option ℕ × Kernel
unfolding find_unused
allocproc vm k = elim (find_unused k.procs) [
  | none ↦ (none, k)
  | some i ↦ elim (get_elem? k.procs i) [
    | none ↦ (none, k)
    | some p ↦ elim vm.kalloc [
      | none ↦ (
        none,
        record k {
          procs = set k.procs i (record p { state = unused; pid = k.nextpid; kstack = 0 });
          nextpid = next_id k.nextpid;
        },
      )
      | some page ↦ (
        some i,
        record k {
          procs = set k.procs i (record p { state = embryo; pid = k.nextpid; kstack = page });
          nextpid = next_id k.nextpid;
        },
      )
    ]
  ]
]

abbrev pub bump : (ℕ → ℕ) → ℕ → ℕ → ℕ
bump refs f g = if g == f then suc (refs g) else refs g

abbrev pub drop_ref : (ℕ → ℕ) → ℕ → ℕ → ℕ
drop_ref refs f g = if g == f then refs g - 1 else refs g

-- The result of a call: -1 is `none`.
abbrev pub Reply : Type 0
Reply = Option ℕ × Kernel
