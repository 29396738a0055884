-- ===== src/Proc.antt =====
-- The process table of Project4/4b xv6 Kernel Thread (kernel/proc.h, kernel/proc.c). A process is
-- named by its slot. Each function is one pass, as if `ptable.lock` were held throughout; where the
-- C code sleeps and loops, the pass ends with the outcome `sleeps`.
pub mod Defs
pub mod Fork
pub mod Exit
pub mod Wait
pub mod Sched
pub mod Slots
pub mod Numbering
pub mod Pids
pub mod Children
pub mod Waiting
pub mod Births
pub mod Sharing
pub mod Leaks
pub mod Orphans
pub mod Ending
mod Tests
