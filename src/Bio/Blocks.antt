-- ===== src/Bio/Blocks.antt =====
-- No two buffers hold the same block.
use ecnu_2020_autumn_linux_l.Base.{
  ℕ, ◌+◌, ◌≤◌, ◌≡◌, ◌≢◌, inl, inr, refl, sym, ap, subst, ◌∙◌, Bool, true, false, ◌&&◌, none, some,
  List, [], ◌∷◌, ◌++◌, ◌==◌, if◌then◌else◌, arith, Bool-cases, Option-cases,
}
use ecnu_2020_autumn_linux_l.Bio.Order.{IsRecycled, recycle_last-IsRecycled}
use ecnu_2020_autumn_linux_l.Bio.{
  Buf, no_dev, holds, find_cached, take_busy, update_cached, recycle_last, Got, got, sleeps, panics,
  bget, unlink, brelse,
}

-- How many buffers hold the block.
abbrev pub count : ℕ → ℕ → List Buf → ℕ
count d s [] = 0
count d s (b ∷ bs) = (if holds d s b then 1 else 0) + count d s bs

-- Each block of a device stands in one buffer at most.
abbrev pub IsUnique : List Buf → Type 0
IsUnique bs = (d s : ℕ) → d ≢ no_dev → count d s bs ≤ 1

find_cached-none : (d s : ℕ) (bs : List Buf) → find_cached d s bs ≡ none → count d s bs ≡ 0
unfolding find_cached
find_cached-none d s [] e = refl
find_cached-none d s (b ∷ bs) e = ground (arith, find_cached-none d s bs)

count-update_cached :
    (d s dev sector : ℕ) (bs : List Buf)
    → count d s (update_cached take_busy dev sector bs) ≡ count d s bs
unfolding update_cached
count-update_cached d s dev sector [] = refl
count-update_cached d s dev sector (b ∷ bs) = elim (Bool-cases (holds dev sector b)) [
  | inl h ↦ rw (h, update_cached) refl
  | inr h ↦
      rw (h, update_cached)
        (ap (λ n. (if holds d s b then 1 else 0) + n) (count-update_cached d s dev sector bs))
]

count-append : (d s : ℕ) (bs cs : List Buf) → count d s (bs ++ cs) ≡ count d s bs + count d s cs
count-append d s [] cs = omega arith
count-append d s (b ∷ bs) cs = omega (arith, count-append d s bs cs)

count-IsRecycled :
    (d s dev sector : ℕ) (bs : List Buf) (b : Buf) (cs : List Buf)
    → IsRecycled dev sector bs b cs
    → count d s cs ≤ (if (dev == d) && (sector == s) then 1 else 0) + count d s bs
count-IsRecycled d s dev sector bs b cs h =
    let was = ap (count d s) h.before ∙ count-append d s h.front (h.old ∷ h.behind) in
    let is = ap (count d s) h.after ∙ count-append d s h.front (b ∷ h.behind) in
    let new : (if holds d s b then 1 else 0) ≡ (if (dev == d) && (sector == s) then 1 else 0) =
      ap {B = ℕ} (λ (x : Buf). if holds d s x then 1 else 0) h.made in
    omega (arith, was, is, new)

-- The list that a pass of `bget` leaves.
abbrev pub after : List Buf → Got → List Buf
after bs (got b cs) = cs
after bs sleeps = bs
after bs panics = bs

same_block : (d s dev sector : ℕ) → ((dev == d) && (sector == s)) ≡ true → (dev ≡ d) × (sector ≡ s)
same_block d s dev sector h = (ground arith, ground arith)

-- Where each block of a device is in one buffer at most, that is so after a pass of `bget` too.
bget-IsUnique :
    (dev sector : ℕ) (bs : List Buf) → IsUnique bs → IsUnique (after bs (bget dev sector bs))
unfolding bget
bget-IsUnique dev sector bs u d s real = elim (Option-cases (find_cached dev sector bs)) [
  | inr (c, e) ↦ elim (Bool-cases c.busy) [
    | inl b ↦ rw (e, bget, b) (u d s real)
    | inr b ↦
        let kept = count-update_cached d s dev sector bs in
        rw (e, bget, b) (omega (arith, kept, u d s real))
  ]
  | inl e ↦ elim (Option-cases (recycle_last dev sector bs)) [
    | inl f ↦ rw (e, bget, f) (u d s real)
    | inr ((b, cs), f) ↦
        let h = recycle_last-IsRecycled dev sector bs b cs f in
        let most = count-IsRecycled d s dev sector bs b cs h in
        elim (Bool-cases ((dev == d) && (sector == s))) [
          | inl k ↦
              let (p, q) = same_block d s dev sector k in
              let zero_here : count d s bs ≡ 0 =
                subst (λ x. count x s bs ≡ 0) p
                  (subst (λ y. count dev y bs ≡ 0) q (find_cached-none dev sector bs e)) in
              let bound : count d s cs ≤ 1 + count d s bs =
                subst {A = Bool} (λ x. count d s cs ≤ (if x then 1 else 0) + count d s bs) k most in
              rw (e, bget, f) (omega (arith, bound, zero_here))
          | inr k ↦
              let bound : count d s cs ≤ 0 + count d s bs =
                subst {A = Bool} (λ x. count d s cs ≤ (if x then 1 else 0) + count d s bs) k most in
              rw (e, bget, f) (omega (arith, bound, u d s real))
        ]
  ]
]

count-unlink :
    (d s i : ℕ) (bs : List Buf) (b : Buf) (cs : List Buf)
    → unlink i bs ≡ some (b, cs)
    → count d s bs ≡ (if holds d s b then 1 else 0) + count d s cs
unfolding unlink
count-unlink d s i [] b cs e = absurd (cc)
count-unlink d s i (c ∷ bs) b cs e = elim (Bool-cases (c.slot == i)) [
  | inl h ↦
      let out : unlink i (c ∷ bs) ≡ some (c, bs) = rw h refl in
      let p : c ≡ b = cc in
      let q : bs ≡ cs = cc in
      ap {B = ℕ} (λ (x : Buf). (if holds d s x then 1 else 0) + count d s bs) p
      ∙ ap (λ xs. (if holds d s b then 1 else 0) + count d s xs) q
  | inr h ↦ elim (Option-cases (unlink i bs)) [
    | inl f ↦ absurd (let out : unlink i (c ∷ bs) ≡ none = rw (h, f) refl in cc)
    | inr ((b', ds), f) ↦
        let out : unlink i (c ∷ bs) ≡ some (b', c ∷ ds) = rw (h, f) refl in
        let p : b' ≡ b = cc in
        let q : c ∷ ds ≡ cs = cc in
        let ih = count-unlink d s i bs b' ds f in
        let r : count d s cs ≡ (if holds d s c then 1 else 0) + count d s ds =
          ap (count d s) (sym q) in
        let t : (if holds d s b' then 1 else 0) ≡ (if holds d s b then 1 else 0) =
          ap {B = ℕ} (λ (x : Buf). if holds d s x then 1 else 0) p in
        omega (arith, ih, r, t)
  ]
]

-- `brelse` keeps every block in its buffer.
pub count-brelse :
    (i d s : ℕ) (bs cs : List Buf) → brelse i bs ≡ some cs → count d s cs ≡ count d s bs
unfolding brelse
count-brelse i d s bs cs e = elim (Option-cases (unlink i bs)) [
  | inl f ↦ absurd (let out : brelse i bs ≡ none = rw (f, brelse) refl in cc)
  | inr ((b, rest), f) ↦ elim (Bool-cases b.busy) [
    | inl h ↦
        let out : brelse i bs ≡ some (record b { busy = false } ∷ rest) =
          rw (f, brelse) (rw h refl) in
        let q : record b { busy = false } ∷ rest ≡ cs = cc in
        ap (count d s) (sym q) ∙ sym (count-unlink d s i bs b rest f)
    | inr h ↦ absurd (let out : brelse i bs ≡ none = rw (f, brelse) (rw h refl) in cc)
  ]
]
