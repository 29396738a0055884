-- ===== src/Defrag/Copy.antt =====
-- The copy of a tree of blocks of any level.
use ecnu_2020_autumn_linux_l.Base.{ℕ, zero, suc, ◌+◌, ◌<◌, inr, arith}
use ecnu_2020_autumn_linux_l.Defrag.{Image, State, pointer, write_loop, write_level}
use ecnu_2020_autumn_linux_l.Defrag.Room.{HasRoom, IsOld-more, old_not_next, IsNew-more}
use ecnu_2020_autumn_linux_l.Defrag.Trees.{read_level}
use ecnu_2020_autumn_linux_l.Defrag.Loops.{Copies, Copies-data, loop-LoopCopies}

-- The copy of a tree of any level, to the places that the pointers name, where there is room for the
-- blocks that are left: the pointers and the count advance together, no block that was written before
-- changes, and the copy stores the data of the original, block for block.
pub write_level-Copies :
    (input : Image) (width level base from : ℕ) (s : State)
    → HasRoom base s
    → 0 < s.block_count
    → Copies input width level base from s
        (write_level input width level from (pointer level s.data_pointer s.inode_pointer) s)
unfolding write_level read_level
write_level-Copies input width zero base from s h l = Copies-data input width base from s h l
write_level-Copies input width (suc level) base from s h l =
    let s0 : State = record s { inode_pointer = s.inode_pointer + 1 } in
    let room : HasRoom base s0 = record {
      data_le = h.data_le;
      base_le = omega (arith, h.base_le);
    } in
    let r =
      loop-LoopCopies input width level base from s.inode_pointer
        (λ from' s'. write_level-Copies input width level base from' s') width 0 s0 room h.base_le
        (omega arith) in
    let s' =
      write_loop input (write_level input width level) level from s.inode_pointer width 0 s0 in
    record {
      advances = record {
        onward = record {
          data_on = r.advances.onward.data_on;
          inode_on = omega (arith, r.advances.onward.inode_on);
        };
        total = r.advances.total;
      };
      keeps = λ b old. r.keeps b (IsOld-more base s b old) (old_not_next base s h l b old);
      same = λ image agree.
          r.same image (λ b x. agree b (IsNew-more s s' b x))
            (agree s.inode_pointer (inr (omega arith, omega (arith, r.advances.onward.inode_on))));
      left = r.left;
    }
