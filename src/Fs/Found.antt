-- ===== src/Fs/Found.antt =====
-- The two outcomes of `balloc`.
use ecnu_2020_autumn_linux_l.Base.{
  ℕ, zero, suc, ◌+◌, ◌≤◌, ◌<◌, ◌≡◌, refl, sym, ap, ◌∙◌, inl, inr, Bool, true, false, Option, none,
  some, ◌==◌, eq_of_==, ne_of_==, ltb, arith, Bool-cases,
}
use ecnu_2020_autumn_linux_l.Fs.Bitmap.{Volume, scan_bits, balloc_loop, balloc, mark, bpb}

abbrev ScanOutcome : (bits : ℕ → Bool) → (b last : ℕ) → Option ℕ → Type 0
ScanOutcome bits b last none = (j : ℕ) → b ≤ j → j < last → bits j ≡ true
ScanOutcome bits b last (some k) = bits k ≡ false

scan_bits-ScanOutcome :
    (n : ℕ) (bits : ℕ → Bool) (b : ℕ) → ScanOutcome bits b (b + n) (scan_bits n bits b)
unfolding scan_bits
scan_bits-ScanOutcome zero bits b = λ j l k. absurd (omega arith)
scan_bits-ScanOutcome (suc n) bits b = elim (Bool-cases (bits b)) [
  | inr e ↦ rw e e
  | inl e ↦ rw e (widen (scan_bits n bits (b + 1)) e (scan_bits-ScanOutcome n bits (b + 1)))
]
  where
    widen :
        (r : Option ℕ)
        → bits b ≡ true
        → ScanOutcome bits (b + 1) (b + 1 + n) r
        → ScanOutcome bits b (b + suc n) r
    widen none e h = λ j l k. elim (Bool-cases (b == j)) [
      | inl x ↦ ap bits (sym (eq_of_== b j x)) ∙ e
      | inr x ↦ let n = ne_of_== b j x in h j (ground (arith, l, n)) (omega (arith, k))
    ]
    widen (some i) e h = h

balloc_loop-ScanOutcome :
    (fuel : ℕ) (v : Volume) (b : ℕ)
    → v.size < b + fuel
    → ScanOutcome v.in_use b v.size (balloc_loop fuel v b)
unfolding balloc_loop
balloc_loop-ScanOutcome zero v b h = λ j l k. absurd (omega (arith, h, l, k))
balloc_loop-ScanOutcome (suc fuel) v b h = elim (Bool-cases (ltb b v.size)) [
  | inr e ↦ rw (e, balloc_loop) (λ j l k. absurd (ground (arith, e, l, k)))
  | inl e ↦
      rw (e, balloc_loop)
        (later (scan_bits bpb v.in_use b) (scan_bits-ScanOutcome bpb v.in_use b)
          (balloc_loop fuel v (b + bpb))
          (balloc_loop-ScanOutcome fuel v (b + bpb) (omega (arith, h))))
]
  where
    later :
        (r : Option ℕ)
        → ScanOutcome v.in_use b (b + bpb) r
        → (next : Option ℕ) → ScanOutcome v.in_use (b + bpb) v.size next
        → ScanOutcome v.in_use b v.size
            (elim r as (λ x. Option ℕ) [ none ↦ next | some i ↦ some i ])
    later (some i) f next g = f
    later none f none g = λ j l k. elim (Bool-cases (ltb j (b + bpb))) [
      | inl e ↦ f j l (ground (arith, e))
      | inr e ↦ g j (ground (arith, e)) k
    ]
    later none f (some i) g = g

-- `balloc` marks a block that is free; it panics only if every block of the volume is in use.
abbrev pub BallocOutcome : Volume → Option (ℕ × Volume) → Type 0
BallocOutcome v none = (j : ℕ) → j < v.size → v.in_use j ≡ true
BallocOutcome v (some (b, v')) = (v.in_use b ≡ false) × (v' ≡ mark v b true)

pub balloc-BallocOutcome : (v : Volume) → BallocOutcome v (balloc v)
unfolding balloc
balloc-BallocOutcome v =
    go (balloc_loop (suc v.size) v 0) (balloc_loop-ScanOutcome (suc v.size) v 0 (omega arith))
  where
    go :
        (r : Option ℕ)
        → ScanOutcome v.in_use 0 v.size r
        → BallocOutcome v (elim r as (λ x. Option (ℕ × Volume)) [
          | none ↦ none
          | some b ↦ some (b, mark v b true)
        ])
    go none h = λ j l. h j (omega arith) l
    go (some b) h = (h, refl)
