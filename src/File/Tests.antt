-- ===== src/File/Tests.antt =====
-- Instances of the theorems on open files: two slots, where the first is opened and closed.
use ecnu_2020_autumn_linux_l.Base.{
  ℕ, some, ◌≢◌, get_elem?, ◌≡◌, ◌++◌, refl, true, List, [], ◌∷◌, All-get_elem?, arith,
}
use ecnu_2020_autumn_linux_l.File.{
  OpenFile, fd_pipe, fd_inode, with_ref, filealloc, find_file, fileclose, Closing,
}
use ecnu_2020_autumn_linux_l.File.Refs.{Reach, start, opens, sets, ClosedAt, fileclose-ClosedAt}
use ecnu_2020_autumn_linux_l.Pipe.{fresh}
use ecnu_2020_autumn_linux_l.Fs.Contents.{bmap, direct, write_loop, writei, copy_out}
use ecnu_2020_autumn_linux_l.Fs.Contents.Sample.{small, small-IsFile}
use ecnu_2020_autumn_linux_l.File.Transfers.{
  Opened, file_reads, Writing, file_writes, write_error, sleeps_writing, write_panics, fileread,
  filewrite,
}
use ecnu_2020_autumn_linux_l.File.Offsets.{IsOpen, at_offset, fileread-filewrite}

abbrev spare : OpenFile
spare = record {
  type = fd_pipe;
  ref = 0;
  readable = true;
  writable = true;
  pipe = 3;
  ip = 0;
  off = 0;
}

abbrev opened : List OpenFile
opened = with_ref spare 1 ∷ spare ∷ []

opened-Reach : Reach opened (0 ∷ [])
unfolding filealloc find_file
opened-Reach =
    opens (spare ∷ spare ∷ []) [] 0 opened
      (start (spare ∷ spare ∷ []) (λ i f.
        All-get_elem? (λ (f : OpenFile). f.ref ≡ 0) (spare ∷ spare ∷ []) i f (refl, (refl, tt))))
      refl

-- The slot when it has become a pipe.
abbrev piped : OpenFile
piped = record (with_ref spare 1) { type = fd_pipe; pipe = 7 }

piped-Reach : Reach (piped ∷ spare ∷ []) (0 ∷ [])
piped-Reach = sets opened (0 ∷ []) 0 (with_ref spare 1) piped opened-Reach (omega arith) refl refl

fileclose-ClosedAt_example :
    (next : List OpenFile) × (c : Closing) × (fileclose (piped ∷ spare ∷ []) 0 ≡ some (next, c))
    × ClosedAt next 0 piped 1 c
    × ((j : ℕ) → 0 ≢ j → get_elem? next j ≡ get_elem? (piped ∷ spare ∷ []) j)
fileclose-ClosedAt_example =
    fileclose-ClosedAt (piped ∷ spare ∷ []) (0 ∷ []) 0 piped piped-Reach refl (omega arith)

-- The file of 3 bytes, open at its second byte.
abbrev handle : Opened
handle = record {
  file = record spare { type = fd_inode; off = 1 };
  pipe = fresh (λ i. 0);
  node = small;
}

handle-IsOpen : IsOpen handle
handle-IsOpen = record { type = refl; file = small-IsFile; within_size = omega arith }

-- The file that a write leaves.
abbrev opened_by : Writing → Opened
opened_by (file_writes r o) = o
opened_by (write_error o) = o
opened_by (sleeps_writing cs o) = o
opened_by write_panics = handle

abbrev once : Opened
once = opened_by (filewrite true handle (λ i. i) 3)

first_write : filewrite true handle (λ i. i) 3 ≡ file_writes 3 once
unfolding filewrite writei write_loop bmap direct
first_write = refl

abbrev twice : Opened
twice = opened_by (filewrite true once (λ i. 9) 2)

second_write : filewrite true once (λ i. 9) 2 ≡ file_writes 2 twice
unfolding filewrite writei write_loop bmap direct
second_write = refl

fileread-filewrite_example :
    (o3 : Opened) × (fileread true (at_offset twice 1) 5
      ≡ file_reads (copy_out (λ i. i) 0 3 ++ copy_out (λ i. 9) 0 2) o3)
fileread-filewrite_example =
    fileread-filewrite true handle once twice (λ i. i) (λ i. 9) 3 2 3 2 handle-IsOpen refl refl
      (omega arith) first_write second_write
