-- ===== src/File/Transfers.antt =====
-- `fileread`, `filewrite` and `filestat` of kernel/file.c, with the pipe of Pipe and the inode of
-- Fs/Contents that the file stands for. `n` is not negative; locking the inode has no part here.
use ecnu_2020_autumn_linux_l.Base.{
  ℕ, ◌+◌, ◌%◌, Bool, Option, none, some, List, if◌then◌else◌, length,
}
use ecnu_2020_autumn_linux_l.Pipe.{
  Pipe, pipewrite, piperead, Written, written, write_fails, write_sleeps, Read, read, read_fails,
  read_sleeps,
}
use ecnu_2020_autumn_linux_l.Fs.Contents.{
  Node, Transfer, moves, refuses, panics, copy_out, readi, writei,
}
use ecnu_2020_autumn_linux_l.Fs.Inodes.{Cached}
use ecnu_2020_autumn_linux_l.File.{OpenFile, fd_none, fd_pipe, fd_inode}

-- An open file with what `pipe` and `ip` point to.
pub record Opened : Type 0 where
  pub file : OpenFile
  pub pipe : Pipe
  pub node : Node

-- How a call ends: with what it has read or the number that it has written, with -1, asleep in the pipe
-- (with the bytes that are left to write), or in a panic.
pub data Reading : Type 0 where
  file_reads : List ℕ → Opened → Reading
  read_error : Reading
  sleeps_reading : Reading
  read_panics : Reading

pub data Writing : Type 0 where
  file_writes : ℕ → Opened → Writing
  write_error : Opened → Writing
  sleeps_writing : List ℕ → Opened → Writing
  write_panics : Writing

-- `f->off += r`
abbrev pub advance : Opened → Node → ℕ → Opened
advance o s r = record o { node = s; file = record o.file { off = (o.file.off + r) % 4294967296 } }

abbrev pub of_piperead : Opened → Read → Reading
of_piperead o (read cs p) = file_reads cs (record o { pipe = p })
of_piperead o read_fails = read_error
of_piperead o read_sleeps = sleeps_reading

abbrev pub of_readi : Opened → Transfer (List ℕ) → Reading
of_readi o (moves bytes s) = file_reads bytes (advance o s (length bytes))
of_readi o refuses = read_error
of_readi o panics = read_panics

unfoldable pub fileread : (killed : Bool) → Opened → (n : ℕ) → Reading
fileread killed o n =
    if o.file.readable
    then elim o.file.type [
      | fd_none ↦ read_panics
      | fd_pipe ↦ of_piperead o (piperead killed n o.pipe)
      | fd_inode ↦ of_readi o (readi o.node o.file.off n)
    ]
    else read_error

abbrev pub of_pipewrite : Opened → (n : ℕ) → Written → Writing
of_pipewrite o n (written p) = file_writes n (record o { pipe = p })
of_pipewrite o n (write_fails p cs) = write_error (record o { pipe = p })
of_pipewrite o n (write_sleeps p cs) = sleeps_writing cs (record o { pipe = p })

abbrev pub of_writei : Opened → Transfer ℕ → Writing
of_writei o (moves r s) = file_writes r (advance o s r)
of_writei o refuses = write_error o
of_writei o panics = write_panics

unfoldable pub filewrite : (killed : Bool) → Opened → (ℕ → ℕ) → (n : ℕ) → Writing
filewrite killed o src n =
    if o.file.writable
    then elim o.file.type [
      | fd_none ↦ write_panics
      | fd_pipe ↦ of_pipewrite o n (pipewrite killed o.pipe (copy_out src 0 n))
      | fd_inode ↦ of_writei o (writei o.node src o.file.off n)
    ]
    else write_error o

-- `struct stat`
pub record Stat : Type 0 where
  pub dev : ℕ
  pub ino : ℕ
  pub kind : ℕ
  pub nlink : ℕ
  pub size : ℕ

unfoldable pub stati : Cached → Stat
stati ip = record {
  dev = ip.dev;
  ino = ip.inum;
  kind = ip.copy.kind;
  nlink = ip.copy.nlink;
  size = ip.copy.size;
}

-- `none` is -1; `ip` is the inode of the file, if it has one, as `ilock` has loaded it.
unfoldable pub filestat : OpenFile → (ip : Cached) → Option Stat
filestat f ip = elim f.type [ fd_none ↦ none | fd_pipe ↦ none | fd_inode ↦ some (stati ip) ]
