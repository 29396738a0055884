-- ===== src/Fs/Contents/Loop.antt =====
-- The loop of `writei`.
use ecnu_2020_autumn_linux_l.Base.{
  ℕ, zero, suc, ◌+◌, ◌-◌, ◌*◌, ◌/◌, ◌%◌, ◌≤◌, ◌<◌, ◌≡◌, ◌≢◌, sym, ap, subst, ◌∙◌, inl, inr, false,
  Option, none, some, ◌==◌, arith, Bool-cases, eq_of_==,
}
use ecnu_2020_autumn_linux_l.Fs.Contents.{Node, bmap, chunk, copy_in, write_loop}
use ecnu_2020_autumn_linux_l.Fs.Contents.Slots.{slot, IsNode}
use ecnu_2020_autumn_linux_l.Fs.Contents.Map.{IsFull, BmapOutcome, bmap-BmapOutcome}
use ecnu_2020_autumn_linux_l.Fs.Contents.Written.{
  after, Written, Written_zero, Written-Keeps, Written_append, copy_in-Written,
}

-- Some of the bytes have been written, the block of the next one is missing, and one block of the volume
-- is free at most.
abbrev pub Stopped : Node → (ℕ → ℕ) → (off n : ℕ) → Type 0
Stopped s src off n =
    (i : ℕ) × (t : Node) × (i < n)
    × Written s t src off i
    × IsFull t.volume
    × (slot t ((off + i) / 512) ≡ 0)

abbrev pub LoopOutcome : Node → (ℕ → ℕ) → (off n : ℕ) → Option (ℕ × Node) → Type 0
LoopOutcome s src off n none = Stopped s src off n
LoopOutcome s src off n (some (last, s')) = (last ≡ off + n) × Written s s' src off n

LoopOutcome-append :
    (s t : Node) (src : ℕ → ℕ) (off m left : ℕ) (r : Option (ℕ × Node))
    → m ≤ left
    → off + m ≤ 71680
    → Written s t src off m
    → LoopOutcome t (λ i. src (m + i)) (off + m) (left - m) r
    → LoopOutcome s src off left r
LoopOutcome-append s t src off m left none l o f (i, u, k, g, full, z) =
    let at : off + m + i ≡ off + (m + i) = omega arith in
    (
      m + i,
      u,
      omega (arith, k, l),
      Written_append s t u src off m i o f g,
      full,
      ap (λ x. slot u (x / 512)) (sym at) ∙ z,
    )
LoopOutcome-append s t src off m left (some (last, u)) l o f (e, g) =
    let sum : m + (left - m) ≡ left = omega (arith, l) in
    (
      omega (arith, e, l),
      subst (Written s u src off) sum (Written_append s t u src off m (left - m) o f g),
    )

pub write_loop-LoopOutcome :
    (fuel : ℕ) (s : Node) (src : ℕ → ℕ) (off left : ℕ)
    → IsNode s
    → off + left ≤ 71680
    → left < fuel
    → LoopOutcome s src off left (write_loop fuel s src off left)
unfolding write_loop
write_loop-LoopOutcome zero s src off left h l k = absurd (omega (arith, k))
write_loop-LoopOutcome (suc fuel) s src off left h l k = elim (Bool-cases (left == 0)) [
  | inl e ↦
      let z = eq_of_== left 0 e in
      rw (e, write_loop)
        (omega (arith, z), subst (Written s s src off) (sym z) (Written_zero s src off h))
  | inr e ↦
      let here : off < 71680 = ground (arith, e, l) in
      rw (e, write_loop)
        (step (write_loop-LoopOutcome fuel) e here (bmap s (off / 512))
          (bmap-BmapOutcome s (off / 512) h (omega (arith, here))))
]
  where
    step :
        ((t : Node) (src' : ℕ → ℕ) (off' left' : ℕ)
          → IsNode t
          → off' + left' ≤ 71680
          → left' < fuel
          → LoopOutcome t src' off' left' (write_loop fuel t src' off' left'))
        → (left == 0) ≡ false
        → off < 71680
        → (r : Option (ℕ × Node)) → BmapOutcome s (off / 512) r
        → LoopOutcome s src off left (elim r as (λ x. Option (ℕ × Node)) [
          | none ↦ none
          | some (b, s') ↦
              write_loop fuel
                (record s' { volume = copy_in s'.volume b (off % 512) (chunk left off) src })
                (λ i. src (chunk left off + i))
                (off + chunk left off)
                (left - chunk left off)
        ])
    step rec e here none (full, z) =
        let at : off ≡ off + 0 = omega arith in
        (
          0,
          s,
          ground (arith, e),
          Written_zero s src off h,
          full,
          ap (λ x. slot s (x / 512)) (sym at) ∙ z,
        )
    step rec e here (some (b, s')) (keeps, same, n) =
        let m : ℕ = chunk left off in
        let positive : 0 < m = ground (arith, e) in
        let fits : m ≤ left = ground arith in
        let inside : off % 512 + m ≤ 512 = ground arith in
        let at : off / 512 * 512 + off % 512 ≡ off = omega arith in
        let there : slot s' (off / 512) ≢ 0 = λ z. n (same ∙ z) in
        let t : Node =
          after s' src (off / 512) (off % 512) m keeps.node (omega (arith, here)) there inside in
        let written : Written s' t src off m =
          subst (λ x. Written s' t src x m) at
            (copy_in-Written s' src (off / 512) (off % 512) m keeps.node (omega (arith, here)) there
              inside) in
        subst
          (λ x. LoopOutcome s src off left (
            write_loop fuel
              (record s' { volume = copy_in s'.volume x (off % 512) (chunk left off) src })
              (λ i. src (chunk left off + i)) (off + chunk left off) (left - chunk left off)))
          (sym same)
          (LoopOutcome-append s t src off m left
            (write_loop fuel t (λ i. src (m + i)) (off + m) (left - m)) fits
            (omega (arith, l, fits)) (Written-Keeps s s' t src off m keeps written)
            (rec t (λ i. src (m + i)) (off + m) (left - m) written.node (omega (arith, l, fits))
              (omega (arith, k, positive, fits))))
