-- ===== src/Defrag.antt =====
-- The copying of Project4/4a File Defragmentation/defrag.c: the data blocks of a file and its indirect
-- blocks are written to new places one after the other. An image is its blocks by number, each an array
-- of words of four bytes: `address` of a number is where that block starts.
pub mod Trees
pub mod Room
pub mod Loops
pub mod Copy
pub mod Pointers
pub mod Files
pub mod Stored
mod Tests
use ecnu_2020_autumn_linux_l.Base.{
  ℕ, zero, suc, ◌+◌, ◌-◌, ◌*◌, ◌/◌, ◌%◌, Bool, false, ◌||◌, ltb, Option, none, some, List, [], ◌∷◌,
  ◌==◌, if◌then◌else◌,
}

abbrev pub Block : Type 0
Block = ℕ → ℕ

abbrev pub Image : Type 0
Image = ℕ → Block

-- The output, and the globals `data_pointer`, `inode_pointer` and `block_count`. `overflows` says that a
-- block did not fit the array `data` of 5000 bytes, through which the data blocks are copied.
pub record State : Type 0 where
  pub output : Image
  pub data_pointer : ℕ
  pub inode_pointer : ℕ
  pub block_count : ℕ
  pub overflows : Bool

-- `fwrite` of a whole block.
abbrev pub put_block : Image → ℕ → Block → Image
put_block image number block = λ b. if b == number then block else image b

-- `fwrite` of the word `i` of a block.
abbrev pub put_word : Image → ℕ → ℕ → ℕ → Image
put_word image number i v = put_block image number (λ j. if j == i then v else image number j)

unfoldable pub write_from_data_blocks : (input : Image) → (width from to : ℕ) → State → State
write_from_data_blocks input width from to s = record s {
  output = put_block s.output to (input from);
  data_pointer = s.data_pointer + 1;
  block_count = s.block_count - 1;
  overflows = s.overflows || ltb 5000 (4 * width);
}

-- The function for the blocks of one level, and the pointer that it is given to write to.
abbrev pub Writer : Type 0
Writer = ℕ → ℕ → State → State

abbrev pub pointer : (level data_pointer inode_pointer : ℕ) → ℕ
pointer zero d i = d
pointer (suc _) d i = i

-- The loop over the `n` words of an indirect block from the word `i` on.
unfoldable pub write_loop :
    (input : Image) → Writer → (level : ℕ) → (from to n i : ℕ) → State → State
write_loop input lower level from to zero i s = s
write_loop input lower level from to (suc n) i s =
    let new = pointer level s.data_pointer s.inode_pointer in
    let written : State = record s { output = put_word s.output to i new } in
    let rest = write_loop input lower level from to n (suc i) (lower (input from i) new written) in
    if s.block_count == 0 then s else rest

-- `write_from_indirect_blocks`, `write_from_doubly_indirect_blocks` and
-- `write_from_triply_indirect_blocks` are the levels 1, 2 and 3; `width` is the words of a block.
unfoldable pub write_level : (input : Image) → (width level : ℕ) → Writer
unfolding write_from_data_blocks write_loop
write_level input width zero from to s = write_from_data_blocks input width from to s
write_level input width (suc level) from to s =
    write_loop input (write_level input width level) level from to width 0
      (record s { inode_pointer = s.inode_pointer + 1 })

-- `struct inode`: its links, its size, and its block pointers in their order, each with its level: 0 in
-- `dblocks`, 1 in `iblocks`, 2 for `i2block` and 3 for `i3block`.
pub record Inode : Type 0 where
  pub nlink : ℕ
  pub size : ℕ
  pub pointers : List (ℕ × ℕ)

-- The loops of `main` over the block pointers, which all stop when no block is left.
unfoldable pub write_pointers :
    (input : Image) → (width : ℕ) → List (ℕ × ℕ) → State → List (ℕ × ℕ) × State
write_pointers input width [] s = ([], s)
write_pointers input width ((level, from) ∷ ps) s =
    let new = pointer level s.data_pointer s.inode_pointer in
    let (qs, s') = write_pointers input width ps (write_level input width level from new s) in
    if s.block_count == 0 then ((level, from) ∷ ps, s) else ((level, new) ∷ qs, s')

abbrev pub blocks_of : (block_size size : ℕ) → ℕ
blocks_of block_size size = size / block_size + (if size % block_size == 0 then 0 else 1)

-- The loop of `main` over the inodes. What is written for each is an inode, or nothing where it is free.
unfoldable pub write_inodes :
    (input : Image) → (width block_size : ℕ) → List Inode → State → List (Option Inode) × State
unfolding write_pointers
write_inodes input width block_size [] s = ([], s)
write_inodes input width block_size (i ∷ is) s =
    let skipped = write_inodes input width block_size is s in
    let (ps, s') =
      write_pointers input width i.pointers
        (record s { block_count = blocks_of block_size i.size }) in
    let (rest, s'') = write_inodes input width block_size is s' in
    if i.nlink == 0
    then (none ∷ skipped.0, skipped.1)
    else (some (record i { pointers = ps }) ∷ rest, s'')

unfoldable pub calculate_summary_of_blocks : (block_size : ℕ) → List Inode → ℕ
calculate_summary_of_blocks block_size [] = 0
calculate_summary_of_blocks block_size (i ∷ is) =
    (if i.nlink == 0 then 0 else blocks_of block_size i.size)
    + calculate_summary_of_blocks block_size is

-- The globals when `main` reaches its loop, where `blank` is the output before.
abbrev pub first_state : (blank : Image) (width : ℕ) → List Inode → State
first_state blank width inodes = record {
  output = blank;
  data_pointer = 0;
  inode_pointer = calculate_summary_of_blocks (4 * width) inodes;
  block_count = 0;
  overflows = false;
}

-- The inodes and the image that `main` leaves; a block is `width` words.
unfoldable pub defrag :
    (input blank : Image) → (width : ℕ) → List Inode → List (Option Inode) × State
unfolding write_inodes calculate_summary_of_blocks
defrag input blank width inodes =
    write_inodes input width (4 * width) inodes (first_state blank width inodes)
