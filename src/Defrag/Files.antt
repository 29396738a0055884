-- ===== src/Defrag/Files.antt =====
-- The defragmented image stores every file as it was.
use ecnu_2020_autumn_linux_l.Base.{
  ℕ, ◌+◌, ◌*◌, ◌≤◌, ◌≡◌, inl, inr, refl, ap, subst, ◌∙◌, Option, none, some, List, [], ◌∷◌, ◌==◌,
  if◌then◌else◌, arith, Bool-cases,
}
use ecnu_2020_autumn_linux_l.Defrag.{
  Block, Image, State, Inode, write_pointers, write_inodes, blocks_of, calculate_summary_of_blocks,
  defrag, first_state,
}
use ecnu_2020_autumn_linux_l.Defrag.Room.{
  HasRoom, IsOld, IsNew, Onward, IsNew-first, IsNew-then, IsOld-on, IsNew-IsOld,
}
use ecnu_2020_autumn_linux_l.Defrag.Trees.{read_pointers, read_files, in_use}
use ecnu_2020_autumn_linux_l.Defrag.Pointers.{write_pointers-PointerCopies}

module _ (input : Image) (width block_size base : ℕ) where
  -- The copy of the inodes `is`, for which `os` is written.
  record InodeCopies (is : List Inode) (os : List (Option Inode)) (s s' : State) : Type 0 where
    onward : Onward s s'
    keeps : (b : ℕ) → IsOld base s b → s'.output b ≡ s.output b
    same :
        (image : Image)
        → ((b : ℕ) → IsNew s s' b → image b ≡ s'.output b)
        → read_files image width block_size os ≡ read_files input width block_size (in_use is)

  write_inodes-InodeCopies :
      (is : List Inode) (s : State)
      → s.data_pointer + calculate_summary_of_blocks block_size is ≤ base
      → base ≤ s.inode_pointer
      → InodeCopies is
          (write_inodes input width block_size is s).0
          s
          (write_inodes input width block_size is s).1
  unfolding write_inodes calculate_summary_of_blocks read_files
  write_inodes-InodeCopies [] s l k = record {
    onward = record { data_on = omega arith; inode_on = omega arith };
    keeps = λ b old. refl;
    same = λ image agree. refl;
  }
  write_inodes-InodeCopies (i ∷ is) s l k = elim (Bool-cases (i.nlink == 0)) [
    | inl b ↦
        let r = write_inodes-InodeCopies is s (ground (arith, b, l)) k in
        rw b (record {
          onward = r.onward;
          keeps = r.keeps;
          same = λ image agree.
              rw b (ap {B = List (Option (List Block))} (λ fs. none ∷ fs) (r.same image agree));
        })
    | inr b ↦
        let n = blocks_of block_size i.size in
        let s0 : State = record s { block_count = n } in
        let some_room : s.data_pointer + (n + calculate_summary_of_blocks block_size is) ≤ base =
          subst
            (λ c.
              s.data_pointer + ((if c then 0 else n) + calculate_summary_of_blocks block_size is)
              ≤ base)
            b l in
        let room : HasRoom base s0 = record { data_le = omega (arith, some_room); base_le = k } in
        let c = write_pointers-PointerCopies input width base i.pointers s0 room in
        let s1 = (write_pointers input width i.pointers s0).1 in
        let moved = c.advances.total in
        let r =
          write_inodes-InodeCopies is s1 (omega (arith, some_room, moved))
            (omega (arith, k, c.advances.onward.inode_on)) in
        let s2 = (write_inodes input width block_size is s1).1 in
        rw b (record {
          onward = record {
            data_on = omega (arith, c.advances.onward.data_on, r.onward.data_on);
            inode_on = omega (arith, c.advances.onward.inode_on, r.onward.inode_on);
          };
          keeps = λ j old. r.keeps j (IsOld-on base s0 s1 c.advances.onward j old) ∙ c.keeps j old;
          same = λ image agree.
              let file = c.same image (λ j x.
                agree j (IsNew-first s0 s1 s2 r.onward j x)
                ∙ r.keeps j (IsNew-IsOld base s0 s1 room j x)) in
              let rest =
                r.same image (λ j x. agree j (IsNew-then s0 s1 s2 c.advances.onward j x)) in
              rw b (
                ap {B = List (Option (List Block))}
                  (λ (p : List Block × ℕ).
                    some p.0
                    ∷ read_files image width block_size
                        (write_inodes input width block_size is s1).0)
                  file
                ∙ ap {B = List (Option (List Block))}
                    (λ fs. some (read_pointers input width i.pointers n).0 ∷ fs) rest);
        })
  ]

-- The files read back, block for block, by the count of the code.
pub defrag-read_files :
    (input blank : Image) (width : ℕ) (inodes : List Inode)
    → read_files
        (defrag input blank width inodes).1.output
        width
        (4 * width)
        (defrag input blank width inodes).0
      ≡ read_files input width (4 * width) (in_use inodes)
unfolding defrag
defrag-read_files input blank width inodes =
    let total = calculate_summary_of_blocks (4 * width) inodes in
    let start = first_state blank width inodes in
    let c =
      write_inodes-InodeCopies input width (4 * width) total inodes start (omega arith)
        (omega arith) in
    c.same (write_inodes input width (4 * width) inodes start).1.output (λ b x. refl)
