-- ===== src/Defrag/Tests.antt =====
-- An instance of the theorem on whole images: blocks of two words, a free inode, and two files of 8 and
-- of 12 bytes, the second with an indirect block.
use ecnu_2020_autumn_linux_l.Base.{List, [], ◌∷◌, ◌==◌, if◌then◌else◌}
use ecnu_2020_autumn_linux_l.Defrag.{Image, Inode}

-- Block 5 is the indirect block, with the blocks 2 and 9.
abbrev scattered : Image
scattered b i = if b == 5 then (if i == 0 then 2 else 9) else b

abbrev blank : Image
blank b i = 0

abbrev inodes : List Inode
inodes =
    record { nlink = 1; size = 8; pointers = (0, 7) ∷ [] }
    ∷ record { nlink = 0; size = 0; pointers = [] }
    ∷ record { nlink = 1; size = 12; pointers = (1, 5) ∷ [] }
    ∷ []
