-- ===== src/Bio/Order.antt =====
-- Which buffer `bget` gives up: the least recently used one that is free.
use ecnu_2020_autumn_linux_l.Base.{
  ℕ, ◌≡◌, refl, sym, ap, subst, ◌∙◌, ◌⊎◌, inl, inr, true, false, ◌&&◌, none, some, List, [], ◌∷◌,
  ◌++◌, ◌==◌, arith, Bool-cases, Option-cases, All,
}
use ecnu_2020_autumn_linux_l.Bio.{
  Buf, holds, find_cached, take_busy, recycle, update_cached, recycle_last, Got, got, sleeps,
  panics, bget,
}

-- The buffer `c` is given up for the block: everything behind it is in use.
pub record IsRecycled (dev sector : ℕ) (bs : List Buf) (b : Buf) (cs : List Buf) : Type 0 where
  pub front : List Buf
  pub old : Buf
  pub behind : List Buf
  pub before : bs ≡ front ++ (old ∷ behind)
  pub after : cs ≡ front ++ (b ∷ behind)
  pub free : old.busy ≡ false
  pub used : All (λ c. c.busy ≡ true) behind
  pub made : b ≡ recycle dev sector old

recycle_last-none :
    (dev sector : ℕ) (bs : List Buf)
    → recycle_last dev sector bs ≡ none
    → All (λ c. c.busy ≡ true) bs
unfolding recycle_last
recycle_last-none dev sector [] e = tt
recycle_last-none dev sector (c ∷ bs) e = elim (Option-cases (recycle_last dev sector bs)) [
  | inl f ↦ elim (Bool-cases c.busy) [
    | inl b ↦ (b, recycle_last-none dev sector bs f)
    | inr b ↦ absurd (
        let out : recycle_last dev sector (c ∷ bs)
            ≡ some (recycle dev sector c, recycle dev sector c ∷ bs) =
          rw (f, recycle_last, b) refl in
        cc)
  ]
  | inr ((c', ds), f) ↦ absurd (
      let out : recycle_last dev sector (c ∷ bs) ≡ some (c', c ∷ ds) = rw (f, recycle_last) refl in
      cc)
]

pub recycle_last-IsRecycled :
    (dev sector : ℕ) (bs : List Buf) (b : Buf) (cs : List Buf)
    → recycle_last dev sector bs ≡ some (b, cs)
    → IsRecycled dev sector bs b cs
unfolding recycle_last
recycle_last-IsRecycled dev sector [] b cs e = absurd (cc)
recycle_last-IsRecycled dev sector (c ∷ bs) b cs e =
    elim (Option-cases (recycle_last dev sector bs)) [
      | inl f ↦ elim (Bool-cases c.busy) [
        | inl g ↦
            absurd (
              let out : recycle_last dev sector (c ∷ bs) ≡ none = rw (f, recycle_last, g) refl in
              cc)
        | inr g ↦
            let new = recycle dev sector c in
            let out : recycle_last dev sector (c ∷ bs) ≡ some (new, new ∷ bs) =
              simp (f, recycle_last, g) refl in
            let made : b ≡ new = cc in
            record {
              front = [];
              old = c;
              behind = bs;
              before = refl;
              after = (cc);
              free = g;
              used = recycle_last-none dev sector bs f;
              made = made;
            }
      ]
      | inr ((c', ds), f) ↦
          let out : recycle_last dev sector (c ∷ bs) ≡ some (c', c ∷ ds) =
            rw (f, recycle_last) refl in
          let same : c' ≡ b = cc in
          let list : c ∷ ds ≡ cs = cc in
          let h = recycle_last-IsRecycled dev sector bs c' ds f in
          record {
            front = c ∷ h.front;
            old = h.old;
            behind = h.behind;
            before = ap (λ xs. c ∷ xs) h.before;
            after =
                sym list
                ∙ ap (λ xs. c ∷ xs) h.after
                ∙ ap (λ x. c ∷ (h.front ++ (x ∷ h.behind))) same;
            free = h.free;
            used = h.used;
            made = sym same ∙ h.made;
          }
    ]

-- What a pass of `bget` promises, by its outcome.
abbrev pub GetOutcome : ℕ → ℕ → List Buf → Got → Type 0
GetOutcome dev sector bs (got b cs) =
    (b.busy ≡ true)
    × (holds dev sector b ≡ true)
    × (((c : Buf) × (find_cached dev sector bs ≡ some c) × (c.busy ≡ false) × (b ≡ take_busy c))
        ⊎ ((find_cached dev sector bs ≡ none) × IsRecycled dev sector bs b cs))
GetOutcome dev sector bs sleeps = (c : Buf) × (find_cached dev sector bs ≡ some c) × (c.busy ≡ true)
GetOutcome dev sector bs panics = (find_cached dev sector bs ≡ none) × All (λ c. c.busy ≡ true) bs

find_cached-holds :
    (dev sector : ℕ) (bs : List Buf) (b : Buf)
    → find_cached dev sector bs ≡ some b
    → holds dev sector b ≡ true
unfolding find_cached
find_cached-holds dev sector [] b e = absurd (cc)
find_cached-holds dev sector (c ∷ bs) b e = ground (arith, find_cached-holds dev sector bs b)

holds_self : (dev sector : ℕ) → ((dev == dev) && (sector == sector)) ≡ true
holds_self dev sector = ground arith

-- A pass of `bget` returns a busy buffer of the block: the cached one, if it is there and free, with
-- its contents; or, if the block is not cached, the least recently used free buffer, with the flags
-- B_VALID and B_DIRTY cleared. It sleeps only on a cached buffer that is busy, and panics only if the
-- block is not cached and all buffers are busy.
pub bget-GetOutcome :
    (dev sector : ℕ) (bs : List Buf) → GetOutcome dev sector bs (bget dev sector bs)
unfolding bget
bget-GetOutcome dev sector bs = elim (Option-cases (find_cached dev sector bs)) [
  | inr (c, e) ↦ elim (Bool-cases c.busy) [
    | inl b ↦ rw (e, bget, b) (c, e, b)
    | inr b ↦
        let out : bget dev sector bs ≡ got (take_busy c) (update_cached take_busy dev sector bs) =
          rw (e, bget) (rw b refl) in
        subst (GetOutcome dev sector bs) (sym out)
          (refl, find_cached-holds dev sector bs c e, inl (c, e, b, refl))
  ]
  | inl e ↦ elim (Option-cases (recycle_last dev sector bs)) [
    | inl f ↦ rw (e, bget, f) (e, recycle_last-none dev sector bs f)
    | inr ((b, cs), f) ↦
        let h = recycle_last-IsRecycled dev sector bs b cs f in
        let there : holds dev sector (recycle dev sector h.old) ≡ true = holds_self dev sector in
        rw (e, bget, f)
          (ap (λ (x : Buf). x.busy) h.made, ap (holds dev sector) h.made ∙ there, inr (e, h))
  ]
]
