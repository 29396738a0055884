-- ===== src/Kalloc/Pages.antt =====
-- Which pages the free list holds.
use ecnu_2020_autumn_linux_l.Base.{
  ℕ, zero, suc, ◌+◌, ◌*◌, ◌%◌, ◌≤◌, ◌<◌, ◌≡◌, refl, sym, ap, inl, inr, Bool, true, false, ◌&&◌,
  Option, none, some, List, [], ◌∷◌, ◌==◌, leb, if◌then◌else◌, arith, Bool-cases, eq_of_==, ==_self,
  subst,
}
use ecnu_2020_autumn_linux_l.Kalloc.{kfree, kalloc, add32, round_up, kinit_loop, kinit}

-- How often an address is on the list.
abbrev pub count : ℕ → List ℕ → ℕ
count a [] = 0
count a (x ∷ xs) = (if x == a then 1 else 0) + count a xs

-- A whole page of the memory from `p` on.
abbrev pub is_page : (p a : ℕ) → Bool
is_page p a = (a % 4096 == 0) && leb p a && leb (a + 4096) 16777216

zero_add : (n : ℕ) → 0 + n ≡ n
zero_add n = omega arith

kfree-page :
    (end p : ℕ) (ps : List ℕ)
    → p % 4096 ≡ 0
    → end ≤ p
    → p + 4096 ≤ 16777216
    → kfree end p ps ≡ some (p ∷ ps)
unfolding kfree
kfree-page end p ps m l h = ground arith

is_page-step :
    (p a : ℕ)
    → p % 4096 ≡ 0
    → p + 4096 ≤ 16777216
    → (if p == a then 1 else 0) + (if is_page (p + 4096) a then 1 else 0)
      ≡ (if is_page p a then 1 else 0)
is_page-step p a m h = ground arith

is_page-end : (p a : ℕ) → 16777216 < p + 4096 → is_page p a ≡ false
is_page-end p a h = ground arith

add32_lem : (p : ℕ) → p + 4096 < 4294967296 → add32 p 4096 ≡ p + 4096
add32_lem p w = omega (arith, w)

-- The loop on enough fuel.
kinit_loop_lem :
    (n end p : ℕ) (ps : List ℕ)
    → p % 4096 ≡ 0
    → end ≤ p
    → p + 4096 < 4294967296
    → 16777216 < p + 4096 * (n + 1)
    → (qs : List ℕ) × (kinit_loop (suc n) end p ps ≡ some qs)
      × ((a : ℕ) → count a qs ≡ (if is_page p a then 1 else 0) + count a ps)
unfolding kinit_loop
kinit_loop_lem zero end p ps m l w h =
    let b : leb (add32 p 4096) 16777216 ≡ false = ground (arith, add32_lem p w) in
    (
      ps,
      rw (b, kinit_loop) refl,
      λ a. rw (is_page-end p a (omega (arith, h))) (sym (zero_add (count a ps))),
    )
kinit_loop_lem (suc n) end p ps m l w h = elim (Bool-cases (leb (add32 p 4096) 16777216)) [
  | inl b ↦
      let fits : p + 4096 ≤ 16777216 = ground arith in
      let next = add32_lem p w in
      let (qs, e, c) =
        kinit_loop_lem n end (add32 p 4096) (p ∷ ps) (omega (arith, m, next))
          (omega (arith, l, next)) (omega (arith, fits, next)) (omega (arith, h, next)) in
      (
        qs,
        rw (b, kinit_loop, kfree-page end p ps m l fits) e,
        λ a. omega (
          arith,
          is_page-step p a m fits,
          subst (λ x. count a qs ≡ (if is_page x a then 1 else 0) + count a (p ∷ ps)) next (c a),
        ),
      )
  | inr b ↦
      let over : 16777216 < p + 4096 = ground (arith, add32_lem p w) in
      (ps, rw (b, kinit_loop) refl, λ a. rw (is_page-end p a over) (sym (zero_add (count a ps))))
]

leb_of_le : (a b : ℕ) → a ≤ b → leb a b ≡ true
leb_of_le a b h = ground arith

leb_of_lt : (a b : ℕ) → b < a → leb a b ≡ false
leb_of_lt a b h = ground arith

le_of_leb : (a b : ℕ) → leb a b ≡ true → a ≤ b
le_of_leb a b h = ground arith

lt_of_leb : (a b : ℕ) → leb a b ≡ false → b < a
lt_of_leb a b h = ground arith

-- Rounding up loses no whole page.
is_page-round_up : (end a : ℕ) → end ≤ 4294959104 → is_page (round_up end) a ≡ is_page end a
is_page-round_up end a w = elim (Bool-cases (a % 4096 == 0)) [
  | inr b ↦ rw b refl
  | inl b ↦
      let m : a % 4096 ≡ 0 = eq_of_== (a % 4096) 0 b in
      elim (Bool-cases (leb end a)) [
        | inl c ↦
            let d = leb_of_le (round_up end) a (omega (arith, m, w, le_of_leb end a c)) in
            rw (b, c, d) refl
        | inr c ↦
            let d = leb_of_lt (round_up end) a (omega (arith, w, lt_of_leb end a c)) in
            rw (b, c, d) refl
      ]
]

-- For every `end` that is at least 8 KB below 2^32, `kinit` ends without a panic, and the free list
-- has each whole page of the memory that lies above `end` exactly once, and nothing else.
pub kinit-count :
    (end : ℕ)
    → end ≤ 4294959104
    → (ps : List ℕ) × (kinit end ≡ some ps)
      × ((a : ℕ) → count a ps ≡ (if is_page end a then 1 else 0))
unfolding kinit
kinit-count end w =
    let p = round_up end in
    let (ps, e, c) =
      kinit_loop_lem 4096 end p [] (omega arith) (omega arith) (omega arith) (omega arith) in
    (
      ps,
      e,
      λ a. omega (arith, c a, ap {B = ℕ} (λ b. if b then 1 else 0) (is_page-round_up end a w)),
    )

abbrev pub KallocOutcome : (end : ℕ) → List ℕ → Option ℕ × List ℕ → Type 0
KallocOutcome end ps (none, qs) = (ps ≡ []) × (qs ≡ [])
KallocOutcome end ps (some v, qs) =
    (count v qs ≡ 0)
    × ((a : ℕ) → count a ps ≡ (if v == a then 1 else 0) + count a qs)
    × (kfree end v qs ≡ some ps)

is_page-bounds :
    (end a : ℕ) → is_page end a ≡ true → (a % 4096 ≡ 0) × (end ≤ a) × (a + 4096 ≤ 16777216)
is_page-bounds end a h = (ground arith, ground arith, ground arith)

-- On a free list of whole pages without repetition, a page that `kalloc` returns is not on the list
-- any more, every other page stays as it was, and `kfree` takes the page back without a panic and
-- restores the list; from an empty list `kalloc` returns a null pointer and changes nothing.
kalloc-KallocOutcome :
    (end : ℕ) (ps : List ℕ)
    → ((a : ℕ) → count a ps ≤ (if is_page end a then 1 else 0))
    → KallocOutcome end ps (kalloc ps)
unfolding kalloc
kalloc-KallocOutcome end [] h = (refl, refl)
kalloc-KallocOutcome end (r ∷ ps) h =
    let self = ==_self r in
    let once : 1 + count r ps ≤ (if is_page end r then 1 else 0) =
      subst (λ b. (if b then 1 else 0) + count r ps ≤ (if is_page end r then 1 else 0)) self
        (h r) in
    elim (Bool-cases (is_page end r)) [
      | inl b ↦
          let (m, l, t) = is_page-bounds end r b in
          let last : 1 + count r ps ≤ 1 =
            subst (λ c. 1 + count r ps ≤ (if c then 1 else 0)) b once in
          (omega (arith, last), λ a. refl, kfree-page end r ps m l t)
      | inr b ↦
          let last : 1 + count r ps ≤ 0 =
            subst (λ c. 1 + count r ps ≤ (if c then 1 else 0)) b once in
          absurd (omega (arith, last))
    ]
