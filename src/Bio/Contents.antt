-- ===== src/Bio/Contents.antt =====
-- What `bread` finds in the buffer, and what `bwrite` leaves on the disk.
use ecnu_2020_autumn_linux_l.Base.{
  ℕ, ◌≡◌, refl, sym, ap, subst, ◌∙◌, ◌⊎◌, inl, inr, true, false, some, List, [], ◌∷◌, arith,
  Bool-cases, All,
}
use ecnu_2020_autumn_linux_l.Bio.{
  Buf, holds, find_cached, recycle, Got, got, sleeps, panics, bget, Disk, put_buf, ReadBlock,
  read_block, read_sleeps, read_panics, bread,
}
use ecnu_2020_autumn_linux_l.Bio.Order.{GetOutcome, bget-GetOutcome}

-- No write is pending, and a valid buffer has the contents of its block.
abbrev pub AgreesWith : Disk → Buf → Type 0
AgreesWith disk b = (b.dirty ≡ false) × (b.valid ≡ true → b.contents ≡ disk b.dev b.sector)

abbrev pub IsCoherent : Disk → List Buf → Type 0
IsCoherent disk bs = All (AgreesWith disk) bs

All-find_cached :
    (P : Buf → Type 0) (dev sector : ℕ) (bs : List Buf) (b : Buf)
    → All P bs
    → find_cached dev sector bs ≡ some b
    → P b
unfolding find_cached
All-find_cached P dev sector [] b h e = absurd (cc)
All-find_cached P dev sector (c ∷ bs) b (h, hs) e = elim (Bool-cases (holds dev sector c)) [
  | inl k ↦
      let out : find_cached dev sector (c ∷ bs) ≡ some c = rw k refl in
      let same : c ≡ b = cc in subst P same h
  | inr k ↦
      let out : find_cached dev sector (c ∷ bs) ≡ find_cached dev sector bs = rw k refl in
      All-find_cached P dev sector bs b hs (sym out ∙ e)
]

holds_fields :
    (dev sector : ℕ) (b : Buf) → holds dev sector b ≡ true → (b.dev ≡ dev) × (b.sector ≡ sector)
holds_fields dev sector b h = (ground arith, ground arith)

-- The buffer that `bget` returns agrees with the disk.
bget-AgreesWith :
    (disk : Disk) (dev sector : ℕ) (bs : List Buf) (b : Buf) (cs : List Buf)
    → IsCoherent disk bs
    → bget dev sector bs ≡ got b cs
    → (b.busy ≡ true) × (holds dev sector b ≡ true) × AgreesWith disk b
bget-AgreesWith disk dev sector bs b cs co e =
    let (busy, there, how) = subst (GetOutcome dev sector bs) e (bget-GetOutcome dev sector bs) in
    elim how [
      | inl (c, f, idle, same) ↦
          let agrees = All-find_cached (AgreesWith disk) dev sector bs c co f in
          (busy, there, subst (AgreesWith disk) (sym same) agrees)
      | inr (f, h) ↦
          let fresh : AgreesWith disk (recycle dev sector h.old) = (refl, λ v. cc) in
          (busy, there, subst (AgreesWith disk) (sym h.made) fresh)
    ]

-- What `bread` promises, by its outcome.
abbrev pub ReadOutcome : Disk → ℕ → ℕ → List Buf → ReadBlock → Type 0
ReadOutcome disk dev sector bs (read_block b cs disk') =
    (b.busy ≡ true)
    × (b.dev ≡ dev)
    × (b.sector ≡ sector)
    × (b.contents ≡ disk dev sector)
    × (disk' ≡ disk)
ReadOutcome disk dev sector bs read_sleeps = bget dev sector bs ≡ sleeps
ReadOutcome disk dev sector bs read_panics = bget dev sector bs ≡ panics

Got-cases :
    (g : Got) → ((b : Buf) × (cs : List Buf) × (g ≡ got b cs)) ⊎ ((g ≡ sleeps) ⊎ (g ≡ panics))
Got-cases (got b cs) = inl (b, cs, refl)
Got-cases sleeps = inr (inl refl)
Got-cases panics = inr (inr refl)

-- Where no write is pending and the valid buffers agree with the disk, `bread` returns a busy buffer
-- of the block with the contents that the disk has, and leaves the disk alone; it sleeps or panics
-- only where `bget` does.
pub bread-ReadOutcome :
    (disk : Disk) (dev sector : ℕ) (bs : List Buf)
    → IsCoherent disk bs
    → ReadOutcome disk dev sector bs (bread disk dev sector bs)
unfolding bread
bread-ReadOutcome disk dev sector bs co = elim (Got-cases (bget dev sector bs)) [
  | inr (inl e) ↦ rw (e, bread) e
  | inr (inr e) ↦ rw (e, bread) e
  | inl (b, cs, e) ↦
      let (busy, there, (clean, agrees)) = bget-AgreesWith disk dev sector bs b cs co e in
      let (p, q) = holds_fields dev sector b there in
      let where_b : disk b.dev b.sector ≡ disk dev sector =
        ap (λ d. disk d b.sector) p ∙ ap (disk dev) q in
      elim (Bool-cases b.valid) [
        | inl v ↦
            let out : bread disk dev sector bs ≡ read_block b cs disk = rw (e, bread) (rw v refl) in
            subst (ReadOutcome disk dev sector bs) (sym out) (busy, p, q, agrees v ∙ where_b, refl)
        | inr v ↦
            let c : Buf = record b { valid = true; contents = disk b.dev b.sector } in
            let out : bread disk dev sector bs ≡ read_block c (put_buf c cs) disk =
              rw (e, bread) (simp (v, busy, clean) refl) in
            subst (ReadOutcome disk dev sector bs) (sym out) (busy, p, q, where_b, refl)
      ]
]
