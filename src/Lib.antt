-- ===== src/Lib.antt =====
-- Verification library of the operating-systems lab programs.
--
-- The repository is a series of lab projects. Each is a program of its own; they share no code, so
-- the models share only the helpers of Base.
--
-- * Mem models `Project2/2a Dynamic Memory Allocation/mem.c`: a first, best or worst fit allocator
--   in one region from `mmap`. `State` is its globals, and the list that `_head_` leads to is a
--   list of `Node` (address and `size`). `mem_init`, `mem_alloc` and `mem_free` are one definition
--   each, with one more for each loop. The page size and the answer of `mmap` are parameters, and
--   so are the bytes in front of a pointer that is no block's, or that no memory is mapped there, which
--   is the outcome `faults`. Mem/Tidy says what a valid region is; Mem/Choice and Mem/Alloc are on
--   allocation, Mem/Merge, Mem/Release, Mem/Free and Mem/Restore on `mem_free`. An `int` that overflows,
--   or a negative size, is the outcome `undefined`.
-- * Locks models `Project3/3a Locks and Threads`: spinlock.c, mutex.c (with sys_futex.c and xchg.c)
--   and counter.c, with the threads of `counter_test` in main.c. Threads are numbered by the natural
--   numbers; `Move` is one shared access of one thread, `Step` one of the system, `Reach` any
--   interleaving. FUTEX_WAIT and FUTEX_WAKE are as the manual of futex(2) says, spurious wake-ups
--   included. The pthread mutex is not modelled.
-- * HashTable models list.c and hash.c of the same project, each call on its own, with the lock of a
--   list as a flag: a call that acquires a lock that is taken waits for ever.
-- * Shell models `Project1/1a A Unix Shell/mysh.c`: a line of input becomes a list of actions (print,
--   change directory, run a program, wait). The results of `fork`, of `chdir` and of opening a file
--   are parameters.
-- * Proc models the process table of the kernel in `Project4/4b xv6 Kernel Thread/xv6`
--   (kernel/proc.h, kernel/proc.c). `Kernel` is `ptable` with `nextpid`, `initproc`, the slot of
--   `proc` and the reference counts of files and inodes. Proc/Defs has the table and `allocproc`,
--   Proc/Fork `fork` and `clone`, Proc/Exit `wakeup` and `exit`, Proc/Wait `wait`, `join` and `kill`,
--   Proc/Sched `scheduler`, `yield` and `sleep` and the steps of the table. Each is one step, though
--   `ptable.lock` covers of `fork` and `clone` only `allocproc`, and of `exit` only what follows
--   `iput`: what other processes do in between is not modelled. The answers of kalloc.c, vm.c and
--   `iput` are a parameter `Vm`, the panics of `copyuvm` and `iput` in `exit` included; a panic of
--   `copyuvm` in `fork` is not modelled. `nextpid` is the bit pattern of an `int`. The saved contexts of
--   `swtch`, process names, and more than one processor are not modelled. Proc/Numbering and Proc/Pids
--   are on process ids, Proc/Children and Proc/Waiting on `wait` and `join`, Proc/Births and
--   Proc/Sharing on new processes, Proc/Orphans and Proc/Ending on `exit`.
-- * Mlfq models `scheduler` of kernel/proc.c in `Project1/1b xv6 System Call/xv6`, which
--   `Project2/2b xv6 Scheduling` has too: four priorities, with ageing. `Scheduler` is the table with
--   `proc`, `tar` and `flag`, and `round` is one pass of the outer loop up to `swtch`. Mlfq/Fill and
--   Mlfq/Choice are on which process it takes, Mlfq/Waiting on ageing, Mlfq/Blocked on a table where
--   none can run. A priority is lowered as the bit pattern of an `int`. What stands in the memory behind
--   the table is a parameter.
-- * Pipe models kernel/pipe.c of the kernel of Project4/4b. A call is one pass under the
--   lock of the pipe, whose outcome says if it sleeps; `nread` and `nwrite` count modulo 2^32.
-- * Kalloc models kernel/kalloc.c there, the free list of pages. The address `end` is a parameter, and
--   addresses wrap around at 2^32; the fuel of the loop of `kinit` is a round for each page of the
--   memory and one to stop.
-- * Vm models kernel/vm.c there: `walkpgdir`, `mappages`, `uva2ka`, `allocuvm` and `deallocuvm` on page
--   tables of two levels, with pages from Kalloc. Vm/View is the map from addresses to entries that
--   the tables stand for, Vm/Walk and Vm/Map are on making entries, Vm/Grow on `allocuvm`, and
--   Vm/Rounds on the fuel of the loops over pages.
-- * Layout models the layout of memory in `Project3/3b xv6 VM Layout/xv6`, where the program begins at
--   0x2000 and the stack grows down from USERTOP: `growproc` and `growstack` of kernel/proc.c, the page
--   fault of kernel/trap.c and the argument checks of kernel/syscall.c, with the `allocuvm` and
--   `deallocuvm` of Vm, whose text is the same there. Layout/Gap is on the pages between the heap and
--   the stack, Layout/Stack on a fault that grows the stack, Layout/Regions on the argument checks and
--   Layout/Overlap on an `allocuvm` of a page that is mapped.
-- * File models kernel/file.c of Project4/4b, the table of open files; the sequences of calls of
--   File/Refs say who has a reference, with any writes of the owners to the other fields. The table
--   names pipes and inodes by number; File/Transfers has `fileread` and `filewrite` on the pipe of Pipe
--   and the inode of Fs/Contents that a file stands for, and File/Offsets is on the offset.
-- * Fs models parts of kernel/fs.c there: path names and directories (Fs/Path, Fs/Resolve, Fs/Names,
--   Fs/Link, Fs/Created; `namex` has the panic of `ilock` for an inode without a type, and takes room
--   in the inode cache for granted), the block bitmap (Fs/Bitmap, Fs/Blocks, Fs/Found), the inode cache
--   (Fs/Inodes, Fs/Cached) and the contents of an inode (Fs/Contents: `bmap`, `readi`, `writei`
--   and `itrunc`). A directory is the list of its entries. The contents of a block are an
--   array, of bytes or, in an indirect block, of words. Fs/Contents/Slots numbers the blocks
--   that an inode has, Gain and Map below it are on gaining one, Read on `readi`, Written, Loop
--   and Write on `writei`, and Freed, Runs, Owned and Truncate on `itrunc`.
-- * Bio models kernel/bio.c there, with `iderw` of kernel/ide.c up to the answer of a disk that is
--   present and reports no error: the buffers from the most to the least recently used.
-- * Threads models the way of a thread from `thread_create` of user/ulib.c through `sys_clone` of
--   kernel/sysproc.c to the `clone` of Proc, all of Project4/4b, with the arguments as Args fetches them.
--   The block that `malloc` returns is a parameter.
-- * Args models the argument checks of kernel/syscall.c, Cli the nesting of `pushcli` and `popcli` and
--   the lock of kernel/spinlock.c, and Strings the functions of kernel/string.c, all there.
-- * Defrag models `Project4/4a File Defragmentation/defrag.c`: `main` from the inodes that are read to the
--   image and the inodes that are written. An image is its data blocks by number; that the region of
--   the inodes and the data region are apart is taken from the layout, and a block is a number of whole
--   words. `overflows` says that a block did not fit the array `data`. Defrag/Trees says what an image
--   stores in a tree; Defrag/Room, Defrag/Loops, Defrag/Copy, Defrag/Pointers and Defrag/Files are on the
--   copy of a tree, of the trees of an inode, and of all inodes, and Defrag/Stored on the files by their
--   sizes. Numbers are not negative.
-- * SetOperation models `Project0/0a Get familiar with Linux/set_operation.c`, from the numbers that
--   are read to the list that is printed; `none` is a null pointer that is followed.
--
-- The fuel of `mappages` and of the loops of `allocuvm` and `deallocuvm` is a round for each page of the
-- range and two more, that of `balloc` a round for each block of the bitmap and one to stop, and that of
-- `namex` a round for each byte of the path and one more. The loops of `readi` and `writei` have a round
-- for each byte and one to stop, since a round moves a byte at least.
--
-- The other loops are recursion on a list, such as the lines of input of the shell, or on the number
-- of slots left, and need no fuel.
--
-- Not modelled: the copies of xv6 in Project1/1b, Project2/2b and Project3/3b but for the
-- scheduler and the layout of memory; in Project4/4b `ialloc` and the files of devices, the write
-- of an inode to the disk at the end of `writei` and `itrunc`, kernel page tables and the copying
-- of user memory, `exec`, devices, start-up and user programs, `thread_join` among them; the
-- display mode of the defragmenter; the sort of Project0/0b; printing, timing and test programs.
pub mod Base
pub mod Mem
pub mod Locks
pub mod HashTable
pub mod Shell
pub mod Proc
pub mod Mlfq
pub mod Pipe
pub mod File
pub mod Fs
pub mod Bio
pub mod Vm
pub mod Layout
pub mod Kalloc
pub mod Defrag
pub mod Args
pub mod Threads
pub mod Cli
pub mod Strings
pub mod SetOperation
