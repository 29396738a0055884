-- ===== src/Fs/Contents/Write.antt =====
-- `writei`.
use ecnu_2020_autumn_linux_l.Base.{
  ℕ, zero, suc, ◌+◌, ◌-◌, ◌*◌, ◌≤◌, ◌<◌, ◌≡◌, ◌≢◌, ◌⊎◌, refl, sym, ap, subst, ◌∙◌, inl, inr, false,
  ◌&&◌, Option, none, some, ltb, if◌then◌else◌, arith, Bool-cases,
}
use ecnu_2020_autumn_linux_l.Fs.Contents.{
  Node, copy_out, write_loop, writei, Transfer, moves, refuses, panics, bad_range, write_length,
}
use ecnu_2020_autumn_linux_l.Fs.Contents.Slots.{slot, byte, IsNode, KeepsForeign}
use ecnu_2020_autumn_linux_l.Fs.Contents.Read.{IsFile, segment}
use ecnu_2020_autumn_linux_l.Fs.Contents.Written.{within, Written}
use ecnu_2020_autumn_linux_l.Fs.Contents.Loop.{Stopped, LoopOutcome, write_loop-LoopOutcome}

-- What a write of `n` bytes at `off` leaves: a valid inode that reaches to the end of the bytes, with them
-- and all others as before, and the blocks of everything else as before.
pub record Wrote (s s' : Node) (src : ℕ → ℕ) (off n : ℕ) : Type 0 where
  pub file : IsFile s'
  pub size : s'.size ≡ (if ltb s.size (off + n) then off + n else s.size)
  pub bytes : (p : ℕ) → p < 71680 → byte s' p ≡ (if within off n p then src (p - off) else byte s p)
  pub foreign : KeepsForeign s s'

slot_size : (s : Node) (x k : ℕ) → slot (record s { size = x }) k ≡ slot s k
unfolding slot
slot_size s x k = refl

byte_size : (s : Node) (x p : ℕ) → byte (record s { size = x }) p ≡ byte s p
unfolding slot
byte_size s x p = refl

IsNode_size : (s : Node) (x : ℕ) → IsNode s → IsNode (record s { size = x })
unfolding slot
IsNode_size s x h = record {
  zero_used = h.zero_used;
  held = h.held;
  apart = h.apart;
  blank = h.blank;
}

KeepsForeign-size : (s t : Node) (x : ℕ) → KeepsForeign s t → KeepsForeign s (record t { size = x })
unfolding slot
KeepsForeign-size s t x f c g =
    let (h, e) = f c g in (record { nonzero = h.nonzero; used = h.used; no_slot = h.no_slot }, e)

Written_filled :
    (s t : Node) (src : ℕ → ℕ) (off n k : ℕ)
    → IsFile s
    → off ≤ s.size
    → off + n ≤ 71680
    → Written s t src off n
    → (k * 512 < s.size) ⊎ (k * 512 < off + n)
    → slot t k ≢ 0
Written_filled s t src off n k h l o w j = elim (Bool-cases (ltb (k * 512) s.size)) [
  | inl e ↦
      let below : k * 512 < s.size = ground arith in
      let there = h.filled k below in
      λ z. there (sym (w.same_slot k (omega (arith, below, h.bounded)) there) ∙ z)
  | inr e ↦ w.filled k (ground (arith, e, j, l)) (ground (arith, e, j, l)) (ground (arith, e, j, l))
]

-- The size of the inode after the loop.
Wrote-Written :
    (s t : Node) (src : ℕ → ℕ) (off n last : ℕ)
    → IsFile s
    → off ≤ s.size
    → off + n ≤ 71680
    → last ≡ off + n
    → Written s t src off n
    → Wrote s (if ltb 0 n && ltb t.size last then record t { size = last } else t) src off n
Wrote-Written s t src off n last h l o e w = elim (Bool-cases (ltb 0 n && ltb t.size last)) [
  | inl b ↦ rw b (record {
    file = record {
      node = IsNode_size t last w.node;
      filled = λ k j z.
          Written_filled s t src off n k h l o w (inr (omega (arith, j, e)))
            (sym (slot_size t last k) ∙ z);
      bounded = omega (arith, o, e);
    };
    size = ground (arith, b, e, w.same_size);
    bytes = λ p j. byte_size t last p ∙ w.bytes p j;
    foreign = KeepsForeign-size s t last w.foreign;
  })
  | inr b ↦ rw b (record {
    file = record {
      node = w.node;
      filled = λ k j. Written_filled s t src off n k h l o w (inl (omega (arith, j, w.same_size)));
      bounded = omega (arith, w.same_size, h.bounded);
    };
    size = ground (arith, b, e, l, w.same_size);
    bytes = w.bytes;
    foreign = w.foreign;
  })
]

-- What `writei` promises for `n` bytes at `off`.
abbrev pub WriteiOutcome : Node → (ℕ → ℕ) → (off n : ℕ) → Transfer ℕ → Type 0
WriteiOutcome s src off n (moves k s') = (k ≡ n) × Wrote s s' src off n
WriteiOutcome s src off n refuses = ⊥
WriteiOutcome s src off n panics = Stopped s src off n

-- On an inode with all blocks below its size, no block in two slots, free blocks of zeros and a
-- size within the limit, `writei` of bytes that start at the size at most and end within the limit
-- of 71680 bytes returns their number; they are in the inode then, every other byte of it is as
-- before, its size is what the bytes reach to if they reach further, it is valid as it was, and no
-- block that is in use for anything else has changed. It may only panic, and then one block of the
-- volume is free at most, the block of the next byte is missing, and the bytes before it are
-- written.
pub writei-WriteiOutcome :
    (s : Node) (src : ℕ → ℕ) (off n : ℕ)
    → IsFile s
    → off ≤ s.size
    → off + n ≤ 71680
    → WriteiOutcome s src off n (writei s src off n)
unfolding writei
writei-WriteiOutcome s src off n h l o =
    let good : bad_range s off n ≡ false = ground (arith, l, o) in
    let whole : write_length off n ≡ n = ground (arith, o) in
    let loop = write_loop-LoopOutcome (suc n) s src off n h.node o (omega arith) in
    rw good (
      subst
        (λ x. WriteiOutcome s src off n (elim (write_loop (suc x) s src off x) [
          | none ↦ panics
          | some (last, s') ↦
              moves x (if ltb 0 x && ltb s'.size last then record s' { size = last } else s')
        ]))
        (sym whole) (go (write_loop (suc n) s src off n) loop))
  where
    go :
        (r : Option (ℕ × Node))
        → LoopOutcome s src off n r
        → WriteiOutcome s src off n (elim r as (λ x. Transfer ℕ) [
          | none ↦ panics
          | some (last, s') ↦
              moves n (if ltb 0 n && ltb s'.size last then record s' { size = last } else s')
        ])
    go none stopped = stopped
    go (some (last, t)) (e, w) = (refl, Wrote-Written s t src off n last h l o e w)

pub segment-copy_out :
    (s : Node) (src : ℕ → ℕ) (off from n : ℕ)
    → ((p : ℕ) → off + from ≤ p → p < off + from + n → byte s p ≡ src (p - off))
    → segment s (off + from) n ≡ copy_out src from n
unfolding segment copy_out
segment-copy_out s src off from zero h = refl
segment-copy_out s src off from (suc n) h =
    let index : off + from - off ≡ from = omega arith in
    let next : off + from + 1 ≡ off + suc from = omega arith in
    let head : byte s (off + from) ≡ src from =
      h (off + from) (omega arith) (omega arith) ∙ ap src index in
    let tail =
      segment-copy_out s src off (suc from) n
        (λ p l k. h p (omega (arith, l)) (omega (arith, k))) in
    rw (head, next, tail) refl
