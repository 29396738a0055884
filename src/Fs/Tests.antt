-- ===== src/Fs/Tests.antt =====
-- Instances of the theorems on the file system.
use ecnu_2020_autumn_linux_l.Base.{
  ℕ, ◌≡◌, ◌≢◌, refl, true, false, List, [], ◌∷◌, ◌==◌, if◌then◌else◌, arith,
}
use ecnu_2020_autumn_linux_l.Fs.Path.{Dirent, Inode, namex, namex_loop, dirlookup, found}
use ecnu_2020_autumn_linux_l.Fs.Resolve.{parts}
use ecnu_2020_autumn_linux_l.Fs.Names.{Resolved, namex-Resolved}
use ecnu_2020_autumn_linux_l.Fs.Inodes.{Dinode, Cached, iget}
use ecnu_2020_autumn_linux_l.Fs.Cached.{IsSingle, after, iget-IsSingle}
use ecnu_2020_autumn_linux_l.Fs.Link.{dirlink, links, write_entry, has_empty}
use ecnu_2020_autumn_linux_l.Fs.Created.{with_entries, namex-dirlink}

-- A root directory with one directory `b` (98) in it, which is the inode 5.
abbrev tree : ℕ → Inode
tree i = record {
  has_type = true;
  is_dir = true;
  entries = if i == 1 then record { inum = 5; name = 98 ∷ [] } ∷ [] else [];
}

namex-Resolved_example :
    ((cs : List ℕ)
      → 47 ∷ 47 ∷ 98 ∷ 47 ∷ [] ≡ 47 ∷ cs
      → Resolved tree false 1
          (parts [] (47 ∷ 47 ∷ 98 ∷ 47 ∷ []))
          (namex tree 1 false (47 ∷ 47 ∷ 98 ∷ 47 ∷ [])))
    × (((cs : List ℕ) → 47 ∷ 47 ∷ 98 ∷ 47 ∷ [] ≢ 47 ∷ cs)
        → Resolved tree false 1
            (parts [] (47 ∷ 47 ∷ 98 ∷ 47 ∷ []))
            (namex tree 1 false (47 ∷ 47 ∷ 98 ∷ 47 ∷ [])))
namex-Resolved_example = namex-Resolved tree 1 false (47 ∷ 47 ∷ 98 ∷ 47 ∷ [])

abbrev no_inode : Dinode
no_inode = record { kind = 0; nlink = 0; size = 0; addrs = [] }

abbrev cached : ℕ → ℕ → Cached
cached n r = record { dev = 0; inum = n; refs = r; busy = false; valid = false; copy = no_inode }

abbrev inodes : List Cached
inodes = cached 1 2 ∷ cached 7 0 ∷ cached 7 1 ∷ []

inodes-IsSingle : IsSingle inodes
inodes-IsSingle d n = ground arith

iget-IsSingle_example : IsSingle (after inodes (iget 0 9 inodes))
iget-IsSingle_example = iget-IsSingle 0 9 inodes inodes-IsSingle

-- `/b/c` is created as the inode 7.
abbrev new_entries : List Dirent
new_entries = record { inum = 7; name = 99 ∷ [] } ∷ []

parent_found : namex tree 1 true (47 ∷ 98 ∷ 47 ∷ 99 ∷ []) ≡ found 5 (99 ∷ [])
unfolding namex namex_loop
parent_found = refl

entered : dirlink (tree 5).entries (99 ∷ []) 7 ≡ links new_entries
unfolding dirlink write_entry has_empty dirlookup
entered = refl

namex-dirlink_example :
    namex (with_entries tree 5 new_entries) 1 false (47 ∷ 98 ∷ 47 ∷ 99 ∷ []) ≡ found 7 []
namex-dirlink_example =
    namex-dirlink tree 1 (47 ∷ 98 ∷ 47 ∷ 99 ∷ []) 5 7 (99 ∷ []) new_entries
      (λ e. absurd (omega (arith, e))) (omega arith) parent_found entered
