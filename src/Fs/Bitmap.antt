-- ===== src/Fs/Bitmap.antt =====
-- `balloc` and `bfree` of kernel/fs.c. The bit of a block is in the bitmap block `BBLOCK` of its number;
-- a bitmap block has 4096 bits, so the last one has bits for block numbers behind the end too.
use ecnu_2020_autumn_linux_l.Base.{
  ℕ, zero, suc, ◌+◌, Bool, true, false, Option, none, some, ◌==◌, ltb, if◌then◌else◌,
}

abbrev pub bpb : ℕ
bpb = 4096

-- The bitmap, `size` of the super block, and the blocks. The contents of a block are an array: of bytes
-- in a block of data, and of block numbers in an indirect block.
pub record Volume : Type 0 where
  pub size : ℕ
  pub in_use : ℕ → Bool
  pub contents : ℕ → ℕ → ℕ

-- The inner loop of `balloc`, over `n` bits from the block `b` on: the first block that is free.
unfoldable pub scan_bits : ℕ → (ℕ → Bool) → ℕ → Option ℕ
scan_bits zero bits b = none
scan_bits (suc n) bits b = let rest = scan_bits n bits (b + 1) in if bits b then rest else some b

-- The outer loop, from the block `b` on.
unfoldable pub balloc_loop : ℕ → Volume → ℕ → Option ℕ
unfolding scan_bits
balloc_loop zero v b = none
balloc_loop (suc fuel) v b =
    let later : Option ℕ = elim (scan_bits bpb v.in_use b) [
      | some k ↦ some k
      | none ↦ balloc_loop fuel v (b + bpb)
    ] in
    if ltb b v.size then later else none

abbrev pub mark : Volume → ℕ → Bool → Volume
mark v b used = record v { in_use = λ k. if k == b then used else v.in_use k }

-- `none`: it panics. There are fewer rounds than blocks.
unfoldable pub balloc : Volume → Option (ℕ × Volume)
unfolding balloc_loop
balloc v = elim (balloc_loop (suc v.size) v 0) [ none ↦ none | some b ↦ some (b, mark v b true) ]

abbrev pub bzero : Volume → ℕ → Volume
bzero v b = record v { contents = λ k i. if k == b then 0 else v.contents k i }

-- `none`: it panics.
unfoldable pub bfree : Volume → ℕ → Option Volume
bfree v b = if v.in_use b then some (mark (bzero v b) b false) else none
