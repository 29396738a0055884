-- ===== src/Fs/Blocks.antt =====
-- Which block `balloc` finds.
use ecnu_2020_autumn_linux_l.Base.{
  ℕ, zero, suc, ◌+◌, ◌*◌, ◌/◌, ◌≤◌, ◌<◌, ◌≡◌, ◌≢◌, refl, sym, ap, ◌∙◌, inl, inr, Bool, true, false,
  none, some, ◌==◌, ltb, if◌then◌else◌, arith, Bool-cases, eq_of_==,
}
use ecnu_2020_autumn_linux_l.Fs.Bitmap.{Volume, scan_bits, balloc_loop, balloc, mark, bzero, bfree}

scan_bits-some :
    (n : ℕ) (bits : ℕ → Bool) (b k : ℕ)
    → b ≤ k
    → k < b + n
    → bits k ≡ false
    → ((j : ℕ) → b ≤ j → j < k → bits j ≡ true)
    → scan_bits n bits b ≡ some k
unfolding scan_bits
scan_bits-some zero bits b k l h f t = absurd (omega arith)
scan_bits-some (suc n) bits b k l h f t = elim (Bool-cases (b == k)) [
  | inl e ↦ let same : b ≡ k = eq_of_== b k e in rw same (rw f refl)
  | inr e ↦
      let less : b < k = ground arith in
      rw (t b (omega arith) less) (
        scan_bits-some n bits (b + 1) k (omega (arith, less)) (omega (arith, h)) f
          (λ j p q. t j (omega (arith, p)) q))
]

scan_bits-none :
    (n : ℕ) (bits : ℕ → Bool) (b : ℕ)
    → ((j : ℕ) → b ≤ j → j < b + n → bits j ≡ true)
    → scan_bits n bits b ≡ none
unfolding scan_bits
scan_bits-none zero bits b t = refl
scan_bits-none (suc n) bits b t =
    rw (t b (omega arith) (omega arith))
      (scan_bits-none n bits (b + 1) (λ j p q. t j (omega (arith, p)) (omega (arith, q))))

ltb_of_lt : (a b : ℕ) → a < b → ltb a b ≡ true
ltb_of_lt a b h = ground arith

-- The block `k` is in the bitmap block that is looked at in `m` rounds.
balloc_loop-some :
    (fuel : ℕ) (v : Volume) (b m k : ℕ)
    → m < fuel
    → b + 4096 * m ≤ k
    → k < b + 4096 * m + 4096
    → b + 4096 * m < v.size
    → v.in_use k ≡ false
    → ((j : ℕ) → b ≤ j → j < k → v.in_use j ≡ true)
    → balloc_loop fuel v b ≡ some k
unfolding balloc_loop
balloc_loop-some zero v b m k e l h s f t = absurd (omega arith)
balloc_loop-some (suc fuel) v b zero k e l h s f t =
    let here = scan_bits-some 4096 v.in_use b k (omega (arith, l)) (omega (arith, h)) f t in
    rw (ltb_of_lt b v.size (omega (arith, s)), balloc_loop, here) refl
balloc_loop-some (suc fuel) v b (suc m) k e l h s f t =
    let here = scan_bits-none 4096 v.in_use b (λ j p q. t j p (omega (arith, q, l))) in
    let rest =
      balloc_loop-some fuel v (b + 4096) m k (omega (arith, e)) (omega (arith, l))
        (omega (arith, h)) (omega (arith, s)) f (λ j p q. t j (omega (arith, p)) q) in
    rw (ltb_of_lt b v.size (omega (arith, s)), balloc_loop, here) rest

-- If `k` is the first free block, and the bitmap block of `k` has a bit of some block of the volume,
-- `balloc` returns `k` and marks it, and changes nothing else.
balloc-first :
    (v : Volume) (k : ℕ)
    → v.in_use k ≡ false
    → ((j : ℕ) → j < k → v.in_use j ≡ true)
    → k / 4096 * 4096 < v.size
    → balloc v ≡ some (k, mark v k true)
unfolding balloc
balloc-first v k f t s =
    let found =
      balloc_loop-some (suc v.size) v 0 (k / 4096) k (omega (arith, s)) (omega arith) (omega arith)
        (omega (arith, s)) f (λ j p q. t j q) in
    rw (found, balloc) refl

-- On a volume whose blocks are all in use and whose size is no multiple of 4096, if the bit behind
-- that of the last block is clear, `balloc` does not panic: it returns the number of blocks of the
-- volume, which is no block of it, and marks its bit.
balloc-past_end :
    (v : Volume)
    → v.in_use v.size ≡ false
    → ((j : ℕ) → j < v.size → v.in_use j ≡ true)
    → v.size / 4096 * 4096 ≢ v.size
    → balloc v ≡ some (v.size, mark v v.size true)
balloc-past_end v f t s = balloc-first v v.size f t (omega (arith, s))

freed :
    (v : Volume) (k : ℕ)
    → v.in_use k ≡ false
    → (j : ℕ) → (mark (bzero (mark v k true) k) k false).in_use j ≡ v.in_use j
freed v k f j = elim (Bool-cases (j == k)) [
  | inl e ↦ rw e (sym (ap v.in_use (eq_of_== j k e) ∙ f))
  | inr e ↦ rw e refl
]

-- `bfree` takes back the block that `balloc` has found: it is free again, every other block is as
-- free as it was before, and the block is filled with zeros while the others keep their contents.
bfree-balloc :
    (v : Volume) (k : ℕ)
    → v.in_use k ≡ false
    → ((j : ℕ) → j < k → v.in_use j ≡ true)
    → k / 4096 * 4096 < v.size
    → (v' v'' : Volume) × (balloc v ≡ some (k, v'))
      × (bfree v' k ≡ some v'')
      × ((j : ℕ) → v''.in_use j ≡ v.in_use j)
      × ((j i : ℕ) → v''.contents j i ≡ (if j == k then 0 else v.contents j i))
unfolding bfree
bfree-balloc v k f t s =
    let v' : Volume = mark v k true in
    let marked : v'.in_use k ≡ true = ground arith in
    (
      v',
      mark (bzero v' k) k false,
      balloc-first v k f t s,
      rw marked refl,
      λ j. freed v k f j,
      λ j i. refl,
    )
