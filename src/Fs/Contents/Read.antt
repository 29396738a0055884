-- ===== src/Fs/Contents/Read.antt =====
-- `readi`.
use ecnu_2020_autumn_linux_l.Base.{
  ℕ, zero, suc, ◌+◌, ◌-◌, ◌*◌, ◌/◌, ◌%◌, ◌≤◌, ◌<◌, ◌≡◌, ◌≢◌, refl, sym, ap, ◌∙◌, inl, inr, false,
  some, List, [], ◌∷◌, ◌++◌, ◌==◌, ltb, if◌then◌else◌, arith, Bool-cases, eq_of_==, ==_of_ne,
}
use ecnu_2020_autumn_linux_l.Fs.Contents.{
  Node, chunk, copy_out, read_loop, readi, moves, bad_range, read_length,
}
use ecnu_2020_autumn_linux_l.Fs.Contents.Slots.{slot, byte_at, byte, IsNode}
use ecnu_2020_autumn_linux_l.Fs.Contents.Map.{bmap_present}

-- An inode with all blocks below its size.
pub record IsFile (s : Node) : Type 0 where
  pub node : IsNode s
  pub filled : (k : ℕ) → k * 512 < s.size → slot s k ≢ 0
  pub bounded : s.size ≤ 71680

-- The bytes of the inode at `n` positions from `p` on.
unfoldable pub segment : Node → (p n : ℕ) → List ℕ
segment s p zero = []
segment s p (suc n) = byte s p ∷ segment s (p + 1) n

pub segment_append :
    (s : Node) (p a b : ℕ) → segment s p (a + b) ≡ segment s p a ++ segment s (p + a) b
unfolding segment
segment_append s p zero b =
    let none_here : zero + b ≡ b = omega arith in
    let here : p ≡ p + zero = omega arith in
    ap (segment s p) none_here ∙ ap (λ x. segment s x b) here
segment_append s p (suc a) b =
    let more : suc a + b ≡ suc (a + b) = omega arith in
    let there : p + 1 + a ≡ p + suc a = omega arith in
    ap (segment s p) more
    ∙ ap (λ (x : List ℕ). byte s p ∷ x)
        (segment_append s (p + 1) a b ∙ ap (λ x. segment s (p + 1) a ++ segment s x b) there)

copy_out-segment :
    (s : Node) (k from m : ℕ)
    → slot s k ≢ 0
    → from + m ≤ 512
    → copy_out (s.volume.contents (slot s k)) from m ≡ segment s (k * 512 + from) m
unfolding copy_out segment byte_at
copy_out-segment s k from zero n l = refl
copy_out-segment s k from (suc m) n l =
    let block : (k * 512 + from) / 512 ≡ k = omega (arith, l) in
    let index : (k * 512 + from) % 512 ≡ from = omega (arith, l) in
    let here : s.volume.contents (slot s k) from ≡ byte s (k * 512 + from) =
      rw (block, index, ==_of_ne (slot s k) 0 n) refl in
    let next : k * 512 + suc from ≡ k * 512 + from + 1 = omega arith in
    let rest = copy_out-segment s k (suc from) m n (omega (arith, l)) in rw (here, rest, next) refl

-- The bytes of a round and those of the rounds after it.
round_segment :
    (s : Node) (off left m : ℕ)
    → slot s (off / 512) ≢ 0
    → off % 512 + m ≤ 512
    → m ≤ left
    → copy_out (s.volume.contents (slot s (off / 512))) (off % 512) m
        ++ segment s (off + m) (left - m)
      ≡ segment s off left
round_segment s off left m n l k =
    let here : off / 512 * 512 + off % 512 ≡ off = omega arith in
    let sum : m + (left - m) ≡ left = omega (arith, k) in
    ap (λ (x : List ℕ). x ++ segment s (off + m) (left - m))
      (copy_out-segment s (off / 512) (off % 512) m n l ∙ ap (λ x. segment s x m) here)
    ∙ sym (segment_append s off m (left - m))
    ∙ ap (segment s off) sum

read_loop-segment :
    (fuel : ℕ) (s : Node) (off left : ℕ)
    → IsFile s
    → off + left ≤ s.size
    → left < fuel
    → read_loop fuel s off left ≡ some (segment s off left, s)
unfolding read_loop segment
read_loop-segment zero s off left h l k = absurd (omega (arith, k))
read_loop-segment (suc fuel) s off left h l k = elim (Bool-cases (left == 0)) [
  | inl e ↦ rw (e, read_loop) (ap (λ x. some (segment s off x, s)) (sym (eq_of_== left 0 e)))
  | inr e ↦
      let m : ℕ = chunk left off in
      let positive : 0 < m = ground (arith, e) in
      let fits : m ≤ left = ground arith in
      let inside : off % 512 + m ≤ 512 = ground arith in
      let here : off < s.size = ground (arith, e, l) in
      let there = h.filled (off / 512) (omega (arith, here)) in
      let found = bmap_present s (off / 512) (omega (arith, here, h.bounded)) there in
      let rest =
        read_loop-segment fuel s (off + m) (left - m) h (omega (arith, l, fits))
          (omega (arith, k, positive, fits)) in
      rw (e, read_loop)
        (rw (found, rest)
          (ap (λ (x : List ℕ). some (x, s)) (round_segment s off left m there inside fits)))
]

-- On an inode with all blocks below its size, no block in two slots, free blocks of zeros and a
-- size within the limit, `readi` at an offset up to the size, where the offset and the length are
-- below 2^32 together, returns the bytes of the inode from there on, as many as are asked for or as
-- there are up to the size, and changes nothing; it does not panic.
pub readi-segment :
    (s : Node) (off n : ℕ)
    → IsFile s
    → off ≤ s.size
    → off + n < 4294967296
    → readi s off n ≡ moves (segment s off (if ltb s.size (off + n) then s.size - off else n)) s
unfolding readi
readi-segment s off n h l k =
    let good : bad_range s off n ≡ false = ground (arith, l, k) in
    let whole : (off + n) % 4294967296 ≡ off + n = omega (arith, k) in
    let loop =
      read_loop-segment (suc (read_length s off n)) s off (read_length s off n) h
        (ground (arith, l, k)) (omega arith) in
    rw (good, loop)
      (ap (λ x. moves (segment s off (if ltb s.size x then s.size - off else n)) s) whole)
