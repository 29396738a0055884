-- ===== src/File.antt =====
-- kernel/file.c of Project4/4b xv6 Kernel Thread: the table of open files and its reference counts.
pub mod Refs
pub mod Transfers
pub mod Offsets
mod Tests
use ecnu_2020_autumn_linux_l.Base.{
  ℕ, zero, suc, ◌+◌, ◌-◌, Bool, Option, none, some, List, [], ◌∷◌, ◌==◌, ltb, if◌then◌else◌,
  get_elem?, set,
}

pub data FileType : Type 0 where
  fd_none : FileType
  fd_pipe : FileType
  fd_inode : FileType

-- `struct file`, with the numbers of its pipe and of its inode.
pub record OpenFile : Type 0 where
  pub type : FileType
  pub ref : ℕ
  pub readable : Bool
  pub writable : Bool
  pub pipe : ℕ
  pub ip : ℕ
  pub off : ℕ

-- The loop of `filealloc` from the slot `i` on.
unfoldable pub find_file : ℕ → List OpenFile → Option ℕ
find_file i [] = none
find_file i (f ∷ fs) = let rest = find_file (suc i) fs in if f.ref == 0 then some i else rest

abbrev pub with_ref : OpenFile → ℕ → OpenFile
with_ref f n = record f { ref = n }

unfoldable pub filealloc : List OpenFile → Option (ℕ × List OpenFile)
filealloc ftable = elim (find_file 0 ftable) [
  | none ↦ none
  | some i ↦ elim (get_elem? ftable i) [
    | none ↦ none
    | some f ↦ some (i, set ftable i (with_ref f 1))
  ]
]

-- `none`: the kernel panics, or there is no such slot.
unfoldable pub filedup : List OpenFile → ℕ → Option (List OpenFile)
filedup ftable i = elim (get_elem? ftable i) [
  | none ↦ none
  | some f ↦ if ltb f.ref 1 then none else some (set ftable i (with_ref f (f.ref + 1)))
]

-- What `fileclose` does when it has released the lock of the table.
pub data Closing : Type 0 where
  nothing : Closing
  calls_pipeclose : (pipe : ℕ) (writable : Bool) → Closing
  calls_iput : (ip : ℕ) → Closing

abbrev pub closing : OpenFile → Closing
closing ff = elim ff.type [
  | fd_none ↦ nothing
  | fd_pipe ↦ calls_pipeclose ff.pipe ff.writable
  | fd_inode ↦ calls_iput ff.ip
]

unfoldable pub fileclose : List OpenFile → ℕ → Option (List OpenFile × Closing)
fileclose ftable i = elim (get_elem? ftable i) [
  | none ↦ none
  | some f ↦
      if ltb f.ref 1
      then none
      else if ltb 0 (f.ref - 1)
      then some (set ftable i (with_ref f (f.ref - 1)), nothing)
      else some (set ftable i (record f { ref = 0; type = fd_none }), closing f)
]
