-- ===== src/Defrag/Trees.antt =====
-- What an image stores in the tree of blocks below an indirect block, and in the files of its inodes.
use ecnu_2020_autumn_linux_l.Base.{
  ℕ, zero, suc, ◌-◌, Option, none, some, List, [], ◌∷◌, ◌++◌, ◌==◌, if◌then◌else◌,
}
use ecnu_2020_autumn_linux_l.Defrag.{Block, Image, Inode, blocks_of}

-- The data blocks from the word `i` on, while `count` are left, and how many are left then.
unfoldable pub read_loop :
    (lower : ℕ → ℕ → List Block × ℕ) → Block → (n i count : ℕ) → List Block × ℕ
read_loop lower index zero i count = ([], count)
read_loop lower index (suc n) i count =
    let (blocks, count') = lower (index i) count in
    let (rest, count'') = read_loop lower index n (suc i) count' in
    if count == 0 then ([], count) else (blocks ++ rest, count'')

-- The data blocks of the tree of a level below a block.
unfoldable pub read_level : Image → (width level : ℕ) → (number count : ℕ) → List Block × ℕ
unfolding read_loop
read_level image width zero number count = (image number ∷ [], count - 1)
read_level image width (suc level) number count =
    read_loop (read_level image width level) (image number) width 0 count

-- The data blocks of the trees of some block pointers.
unfoldable pub read_pointers : Image → (width : ℕ) → List (ℕ × ℕ) → (count : ℕ) → List Block × ℕ
read_pointers image width [] count = ([], count)
read_pointers image width ((level, number) ∷ ps) count =
    let (blocks, count') = read_level image width level number count in
    let (rest, count'') = read_pointers image width ps count' in
    if count == 0 then ([], count) else (blocks ++ rest, count'')

-- The data of each file, and nothing for a free inode.
unfoldable pub read_files :
    Image → (width block_size : ℕ) → List (Option Inode) → List (Option (List Block))
unfolding read_pointers
read_files image width block_size [] = []
read_files image width block_size (none ∷ is) = none ∷ read_files image width block_size is
read_files image width block_size (some i ∷ is) =
    some (read_pointers image width i.pointers (blocks_of block_size i.size)).0
    ∷ read_files image width block_size is

-- The inodes that are in use.
abbrev pub in_use : List Inode → List (Option Inode)
in_use [] = []
in_use (i ∷ is) = (if i.nlink == 0 then none else some i) ∷ in_use is
