-- ===== src/Proc/Fork.antt =====
-- `fork` and `clone` of kernel/proc.c in Project4/4b xv6 Kernel Thread.
use ecnu_2020_autumn_linux_l.Base.{
  ℕ, ◌+◌, ◌%◌, Option, none, some, List, [], ◌∷◌, ◌==◌, if◌then◌else◌, get_elem?, set,
}
use ecnu_2020_autumn_linux_l.Proc.Defs.{
  unused, runnable, Proc, Kernel, Vm, put, allocproc, bump, Reply,
}

-- `filedup` of each open file; 0 is no file.
unfoldable pub dup_files : List ℕ → (ℕ → ℕ) → ℕ → ℕ
dup_files [] refs = refs
dup_files (f ∷ fs) refs = dup_files fs (if f == 0 then refs else bump refs f)

-- `np->ofile` after the loop: the parent's open files, and the old entries elsewhere.
abbrev pub inherit_files : List ℕ → List ℕ → List ℕ
inherit_files (f ∷ fs) (g ∷ gs) = (if f == 0 then g else f) ∷ inherit_files fs gs
inherit_files _ old = old

-- What `fork` and `clone` do once the address space is settled.
abbrev pub finish_child : Kernel → Proc → ℕ → Proc → Kernel
finish_child k parent i child = record k {
  procs = set k.procs i (record child {
    state = runnable;
    parent = some k.current;
    ofile = inherit_files parent.ofile child.ofile;
    cwd = parent.cwd;
  });
  file_refs = dup_files parent.ofile k.file_refs;
  inode_refs = bump k.inode_refs parent.cwd;
}

-- Where `copyuvm` does not panic.
unfoldable pub fork_at : Vm → Proc → ℕ → Proc → Kernel → Reply
fork_at vm parent i np k = elim (vm.copyuvm parent.pgdir parent.sz) [
  | none ↦ (none, put k i (record np { kstack = 0; pgdir = 0; state = unused }))
  | some pgdir ↦ (
    some np.pid,
    finish_child k parent i
        (record np { pgdir = pgdir; sz = parent.sz; tf = record parent.tf { eax = 0 } }),
  )
]

-- What follows `if ((np = allocproc()) == 0) return -1;`.
abbrev pub with_slot : (ℕ → Proc → Kernel → Reply) → Option ℕ × Kernel → Reply
with_slot f (none, k) = (none, k)
with_slot f (some i, k) = elim (get_elem? k.procs i) [ none ↦ (none, k) | some np ↦ f i np k ]

unfoldable pub fork : Vm → Kernel → Reply
unfolding allocproc fork_at
fork vm k = elim (get_elem? k.procs k.current) [
  | none ↦ (none, k)
  | some parent ↦ with_slot (fork_at vm parent) (allocproc vm k)
]

abbrev pub page_size : ℕ
page_size = 4096

-- The stack pointer of the thread, with the wrap-around of `uint`.
abbrev pub thread_sp : (stack : ℕ) → ℕ
thread_sp stack = ((stack + page_size) % 4294967296 + 4294967288) % 4294967296

-- The two words below the top of the stack are the return address and the argument.
unfoldable pub clone_at : Vm → (fcn arg stack : ℕ) → Proc → ℕ → Proc → Kernel → Reply
clone_at vm fcn arg stack parent i np k =
    let sp = thread_sp stack in
    let thread : Proc = record np {
      pgdir = parent.pgdir;
      sz = parent.sz;
      parent = some k.current;
      tf = record parent.tf { eax = 0 };
      stack = stack;
    } in
    if vm.copyout parent.pgdir sp (4294967295 ∷ arg ∷ [])
    then (
      some np.pid,
      finish_child k parent i (record thread { tf = record { eax = 0; eip = fcn; esp = sp } }),
    )
    else (none, put k i thread)

unfoldable pub clone : Vm → (fcn arg stack : ℕ) → Kernel → Reply
unfolding allocproc clone_at
clone vm fcn arg stack k = elim (get_elem? k.procs k.current) [
  | none ↦ (none, k)
  | some parent ↦ with_slot (clone_at vm fcn arg stack parent) (allocproc vm k)
]
