-- ===== src/Fs/Contents/Slots.antt =====
-- The blocks that an inode has, direct, indirect and the indirect block itself, as 141 slots, and the
-- contents of the inode.
use ecnu_2020_autumn_linux_l.Base.{
  ℕ, ◌-◌, ◌/◌, ◌%◌, ◌≤◌, ◌<◌, ◌≡◌, ◌≢◌, ◌⊎◌, refl, sym, ap, subst, ◌∙◌, inl, inr, true, false, ◌==◌,
  ltb, if◌then◌else◌, arith, Bool-cases, eq_of_==, ne_of_==, ==_self, ==_of_ne,
}
use ecnu_2020_autumn_linux_l.Fs.Bitmap.{Volume}
use ecnu_2020_autumn_linux_l.Fs.Contents.{Node}

-- The byte or word `i` of the block `b`; one in a block that is missing is 0.
unfoldable pub byte_at : Volume → (b i : ℕ) → ℕ
byte_at v b i = if b == 0 then 0 else v.contents b i

-- The block in a slot: 0 to 139 are the blocks of the file in order, 140 is the indirect block.
unfoldable pub slot : Node → ℕ → ℕ
slot s k =
    if ltb k 12
    then s.addrs k
    else if k == 140
    then s.addrs 12
    else byte_at s.volume (s.addrs 12) (k - 12)

-- The byte of the inode at a position.
abbrev pub byte : Node → ℕ → ℕ
byte s p = byte_at s.volume (slot s (p / 512)) (p % 512)

-- Block 0 is in use, no block is in two slots, the blocks in the slots are in use, and blocks that are
-- free are filled with zeros.
pub record IsNode (s : Node) : Type 0 where
  pub zero_used : s.volume.in_use 0 ≡ true
  pub held : (k : ℕ) → k ≤ 140 → slot s k ≢ 0 → s.volume.in_use (slot s k) ≡ true
  pub apart : (j k : ℕ) → j ≤ 140 → k ≤ 140 → slot s j ≢ 0 → slot s j ≡ slot s k → j ≡ k
  pub blank : (b i : ℕ) → s.volume.in_use b ≡ false → s.volume.contents b i ≡ 0

-- The slot `j` gains the block `b`.
pub record Gains (s s' : Node) (j b : ℕ) : Type 0 where
  pub vacant : slot s j ≡ 0
  pub fresh : s.volume.in_use b ≡ false
  pub slots : (k : ℕ) → k ≤ 140 → slot s' k ≡ (if k == j then b else slot s k)
  pub bits : (c : ℕ) → s'.volume.in_use c ≡ (if c == b then true else s.volume.in_use c)
  pub rest : (c i : ℕ) → c ≢ 0 → c ≢ slot s 140 → s'.volume.contents c i ≡ s.volume.contents c i
  pub same_size : s'.size ≡ s.size

-- A block of something else: it is in use, and in no slot.
pub record IsForeign (s : Node) (c : ℕ) : Type 0 where
  pub nonzero : c ≢ 0
  pub used : s.volume.in_use c ≡ true
  pub no_slot : (k : ℕ) → k ≤ 140 → slot s k ≢ c

-- A block of something else stays so and keeps its contents.
abbrev pub KeepsForeign : Node → Node → Type 0
KeepsForeign s s' =
    (c : ℕ)
    → IsForeign s c
    → IsForeign s' c × ((i : ℕ) → s'.volume.contents c i ≡ s.volume.contents c i)

module _ (s s' : Node) (j b : ℕ) (h : IsNode s) (g : Gains s s' j b) where
  pub fresh_nonzero : b ≢ 0
  fresh_nonzero e =
      absurd (let f = g.fresh in let z = h.zero_used in let m = ap s.volume.in_use e in cc)

  -- A block that is free is in no slot.
  free_apart : (c k : ℕ) → k ≤ 140 → s.volume.in_use c ≡ false → c ≢ slot s k
  free_apart c k l f e = absurd (elim (Bool-cases (slot s k == 0)) [
    | inl z ↦ let m = ap s.volume.in_use (e ∙ eq_of_== (slot s k) 0 z) in let u = h.zero_used in cc
    | inr z ↦ let m = ap s.volume.in_use e in let u = h.held k l (ne_of_== (slot s k) 0 z) in cc
  ])

  free_nonzero : (c : ℕ) → s.volume.in_use c ≡ false → c ≢ 0
  free_nonzero c f e = absurd (let z = h.zero_used in let m = ap s.volume.in_use e in cc)

  used_more : (c : ℕ) → s.volume.in_use c ≡ true → s'.volume.in_use c ≡ true
  used_more c u = g.bits c ∙ elim (Bool-cases (c == b)) [ inl e ↦ rw e refl | inr e ↦ rw e u ]

  bits_b : s'.volume.in_use b ≡ true
  bits_b = g.bits b ∙ rw (==_self b) refl

  -- A slot is the one that gains the block, or as before.
  slots_cases : (k : ℕ) → k ≤ 140 → ((k ≡ j) × (slot s' k ≡ b)) ⊎ ((k ≢ j) × (slot s' k ≡ slot s k))
  slots_cases k l = elim (Bool-cases (k == j)) [
    | inl e ↦ inl (eq_of_== k j e, g.slots k l ∙ rw e refl)
    | inr e ↦ inr (ne_of_== k j e, g.slots k l ∙ rw e refl)
  ]

  Gains_held : (k : ℕ) → k ≤ 140 → slot s' k ≢ 0 → s'.volume.in_use (slot s' k) ≡ true
  Gains_held k l n = elim (slots_cases k l) [
    | inl (_, e) ↦ subst (λ x. s'.volume.in_use x ≡ true) (sym e) bits_b
    | inr (_, e) ↦
        subst (λ x. s'.volume.in_use x ≡ true) (sym e)
          (used_more (slot s k) (h.held k l (λ z. n (e ∙ z))))
  ]

  Gains_apart : (i k : ℕ) → i ≤ 140 → k ≤ 140 → slot s' i ≢ 0 → slot s' i ≡ slot s' k → i ≡ k
  Gains_apart i k l m n e = elim (slots_cases i l) [
    | inl (x, a) ↦ elim (slots_cases k m) [
      | inl (y, c) ↦ x ∙ sym y
      | inr (y, c) ↦ absurd (free_apart b k m g.fresh (sym a ∙ e ∙ c))
    ]
    | inr (x, a) ↦ elim (slots_cases k m) [
      | inl (y, c) ↦ absurd (free_apart b i l g.fresh (sym c ∙ sym e ∙ a))
      | inr (y, c) ↦ h.apart i k l m (λ z. n (a ∙ z)) (sym a ∙ e ∙ c)
    ]
  ]

  was_free : (c : ℕ) → s'.volume.in_use c ≡ false → s.volume.in_use c ≡ false
  was_free c f = elim (Bool-cases (s.volume.in_use c)) [
    | inl u ↦ absurd (let more = used_more c u in cc)
    | inr u ↦ u
  ]

  -- A block that was free has its contents, if it is not in use for them.
  rest_free : (c i : ℕ) → s.volume.in_use c ≡ false → s'.volume.contents c i ≡ 0
  rest_free c i f = g.rest c i (free_nonzero c f) (free_apart c 140 (omega arith) f) ∙ h.blank c i f

  pub IsNode-Gains : IsNode s'
  IsNode-Gains = record {
    zero_used = used_more 0 h.zero_used;
    held = Gains_held;
    apart = Gains_apart;
    blank = λ c i f. rest_free c i (was_free c f);
  }

  -- The contents of the inode stay as they are.
  pub byte-Gains : (p : ℕ) → p < 71680 → byte s' p ≡ byte s p
  unfolding byte_at
  byte-Gains p l =
      let last : p / 512 ≤ 139 = omega arith in
      elim (slots_cases (p / 512) (omega (arith, last))) [
        | inl (x, a) ↦
            let none_yet : slot s (p / 512) ≡ 0 = ap (slot s) x ∙ g.vacant in
            rw (a, none_yet) (rw (==_of_ne b 0 fresh_nonzero, rest_free b (p % 512) g.fresh) refl)
        | inr (x, a) ↦ elim (Bool-cases (slot s (p / 512) == 0)) [
          | inl z ↦ rw a (rw z refl)
          | inr z ↦
              let n = ne_of_== (slot s (p / 512)) 0 z in
              rw a (
                rw z (
                  g.rest (slot s (p / 512)) (p % 512) n (λ e. absurd (
                    let same = h.apart (p / 512) 140 (omega (arith, last)) (omega arith) n e in
                    omega (arith, last, same)))))
        ]
      ]

  pub KeepsForeign-Gains : KeepsForeign s s'
  KeepsForeign-Gains c f = (
    record {
      nonzero = f.nonzero;
      used = used_more c f.used;
      no_slot = λ k l e. elim (slots_cases k l) [
        | inl (_, a) ↦
            let same = ap s.volume.in_use (sym a ∙ e) in
            let fresh = g.fresh in let used = f.used in absurd (cc)
        | inr (_, a) ↦ f.no_slot k l (sym a ∙ e)
      ];
    },
    λ i. g.rest c i f.nonzero (λ e. f.no_slot 140 (omega arith) (sym e)),
  )
