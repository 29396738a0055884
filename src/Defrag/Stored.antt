-- ===== src/Defrag/Stored.antt =====
-- The files of an image by their sizes, and what the defragmented image stores.
use ecnu_2020_autumn_linux_l.Base.{
  ℕ, ◌+◌, ◌-◌, ◌*◌, ◌/◌, ◌≤◌, ◌≡◌, false, Option, none, some, List, [], ◌∷◌,
}
use ecnu_2020_autumn_linux_l.Defrag.{Block, Image, State, Inode}
use ecnu_2020_autumn_linux_l.Defrag.Trees.{read_pointers}

-- The blocks that hold `size` bytes, the last one perhaps in part: the quotient, rounded up.
abbrev pub blocks_to_hold : (block_size size : ℕ) → ℕ
blocks_to_hold block_size size = (size + (block_size - 1)) / block_size

-- The data blocks of each file, as many as hold its size, and nothing for a free inode.
unfoldable pub stored_files : Image → (width : ℕ) → List (Option Inode) → List (Option (List Block))
unfolding read_pointers
stored_files image width [] = []
stored_files image width (none ∷ is) = none ∷ stored_files image width is
stored_files image width (some i ∷ is) =
    some (read_pointers image width i.pointers (blocks_to_hold (4 * width) i.size)).0
    ∷ stored_files image width is

-- Blocks of 5000 bytes at most fit the array through which they are copied.
module _ (input : Image) (width : ℕ) (small : 4 * width ≤ 5000) where
  abbrev Fits : State → Type 0
  Fits s = s.overflows ≡ false
