-- ===== src/Fs/Contents/Written.antt =====
-- What writing into an inode leaves, and that writing into one of its blocks leaves it.
use ecnu_2020_autumn_linux_l.Base.{
  ℕ, ◌+◌, ◌-◌, ◌*◌, ◌/◌, ◌%◌, ◌≤◌, ◌<◌, ◌≡◌, ◌≢◌, refl, sym, ap, subst, ◌∙◌, inl, inr, Bool, true,
  false, ◌&&◌, ◌||◌, ◌==◌, ltb, leb, if◌then◌else◌, arith, Bool-cases, eq_of_==, ne_of_==, ==_self,
  ==_of_ne,
}
use ecnu_2020_autumn_linux_l.Fs.Bitmap.{Volume}
use ecnu_2020_autumn_linux_l.Fs.Contents.{Node, copy_in}
use ecnu_2020_autumn_linux_l.Fs.Contents.Slots.{slot, byte_at, byte, IsNode, KeepsForeign}
use ecnu_2020_autumn_linux_l.Fs.Contents.Gain.{Keeps, KeepsForeign-trans}

-- A position is among the `n` from `off` on.
abbrev pub within : (off n p : ℕ) → Bool
within off n p = leb off p && ltb p (off + n)

-- The `n` bytes from `off` on are those of `src`, and all others as before; the blocks that were there
-- have stayed, and there is one for each byte written.
pub record Written (s s' : Node) (src : ℕ → ℕ) (off n : ℕ) : Type 0 where
  pub node : IsNode s'
  pub same_size : s'.size ≡ s.size
  pub bytes : (p : ℕ) → p < 71680 → byte s' p ≡ (if within off n p then src (p - off) else byte s p)
  pub same_slot : (k : ℕ) → k ≤ 140 → slot s k ≢ 0 → slot s' k ≡ slot s k
  pub filled : (k : ℕ) → 0 < n → off < k * 512 + 512 → k * 512 < off + n → slot s' k ≢ 0
  pub foreign : KeepsForeign s s'

-- Bytes of a block that is not the indirect block.
slot-copy_in :
    (s : Node) (b from m : ℕ) (src : ℕ → ℕ) (j : ℕ)
    → (slot s 140 == b) ≡ false
    → slot (record s { volume = copy_in s.volume b from m src }) j ≡ slot s j
unfolding slot byte_at
slot-copy_in s b from m src j e = elim (Bool-cases (ltb j 12)) [
  | inl f ↦ rw f refl
  | inr f ↦ elim (Bool-cases (j == 140)) [ inl g ↦ rw (f, g) refl | inr g ↦ rw (f, g, e) refl ]
]

byte_at_same :
    (v : Volume) (b from m : ℕ) (src : ℕ → ℕ) (i : ℕ)
    → byte_at (copy_in v b from m src) b i
      ≡ (if b == 0 then 0 else if within from m i then src (i - from) else v.contents b i)
unfolding byte_at
byte_at_same v b from m src i = rw (==_self b) refl

byte_at_other :
    (v : Volume) (b c from m : ℕ) (src : ℕ → ℕ) (i : ℕ)
    → (c == b) ≡ false
    → byte_at (copy_in v b from m src) c i ≡ byte_at v c i
unfolding byte_at
byte_at_other v b c from m src i e = rw e refl

byte_at_nonzero : (v : Volume) (b i : ℕ) → b ≢ 0 → byte_at v b i ≡ v.contents b i
unfolding byte_at
byte_at_nonzero v b i n = rw (==_of_ne b 0 n) refl

module _ (s : Node) (src : ℕ → ℕ) (k from m : ℕ) (h : IsNode s) (l : k < 140) (n : slot s k ≢ 0)
    (inside : from + m ≤ 512) where
  abbrev pub after : Node
  after = record s { volume = copy_in s.volume (slot s k) from m src }

  not_root : (slot s 140 == slot s k) ≡ false
  not_root = ==_of_ne (slot s 140) (slot s k) (λ e.
      let same = h.apart k 140 (omega (arith, l)) (omega arith) n (sym e) in
      absurd (omega (arith, l, same)))

  slot-after : (j : ℕ) → slot after j ≡ slot s j
  slot-after j = slot-copy_in s (slot s k) from m src j not_root

  IsNode-after : IsNode after
  IsNode-after = record {
    zero_used = h.zero_used;
    held = λ j o z.
        subst (λ x. s.volume.in_use x ≡ true) (sym (slot-after j))
          (h.held j o (λ y. z (slot-after j ∙ y)));
    apart = λ i j o q z e.
        h.apart i j o q (λ y. z (slot-after i ∙ y)) (sym (slot-after i) ∙ e ∙ slot-after j);
    blank = λ b i f. elim (Bool-cases (b == slot s k)) [
      | inl e ↦
          let same = ap s.volume.in_use (eq_of_== b (slot s k) e) in
          let used = h.held k (omega (arith, l)) n in absurd (cc)
      | inr e ↦ rw e (h.blank b i f)
    ];
  }

  KeepsForeign-after : KeepsForeign s after
  KeepsForeign-after c f = (
    record {
      nonzero = f.nonzero;
      used = f.used;
      no_slot = λ j o e. f.no_slot j o (sym (slot-after j) ∙ e);
    },
    λ i. rw (==_of_ne c (slot s k) (λ e. f.no_slot k (omega (arith, l)) (sym e))) refl,
  )

  byte_here :
      (p : ℕ)
      → p / 512 ≡ k
      → byte_at after.volume (slot s (p / 512)) (p % 512)
        ≡ (if within (k * 512 + from) m p then src (p - (k * 512 + from)) else byte s p)
  byte_here p e =
      let test : within from m (p % 512) ≡ within (k * 512 + from) m p = ground (arith, e) in
      let index : p % 512 - from ≡ p - (k * 512 + from) = omega (arith, e) in
      let old : byte s p ≡ s.volume.contents (slot s k) (p % 512) =
        ap (λ x. byte_at s.volume (slot s x) (p % 512)) e
        ∙ byte_at_nonzero s.volume (slot s k) (p % 512) n in
      ap (λ x. byte_at after.volume (slot s x) (p % 512)) e
      ∙ byte_at_same s.volume (slot s k) from m src (p % 512)
      ∙ rw (==_of_ne (slot s k) 0 n, old, test, index) refl

  byte-after :
      (p : ℕ)
      → p < 71680
      → byte after p
        ≡ (if within (k * 512 + from) m p then src (p - (k * 512 + from)) else byte s p)
  byte-after p o =
      ap (λ x. byte_at after.volume x (p % 512)) (slot-after (p / 512))
      ∙ elim (Bool-cases (slot s (p / 512) == slot s k)) [
        | inl e ↦ byte_here p (
            sym (
              h.apart k (p / 512) (omega (arith, l)) (omega (arith, o)) n
                (sym (eq_of_== (slot s (p / 512)) (slot s k) e))))
        | inr e ↦
            let other : p / 512 ≢ k =
              λ f. ne_of_== (slot s (p / 512)) (slot s k) e (ap (slot s) f) in
            let out : within (k * 512 + from) m p ≡ false = ground (arith, inside, other) in
            byte_at_other s.volume (slot s k) (slot s (p / 512)) from m src (p % 512) e
            ∙ rw out refl
      ]

  -- The bytes `from` to `from + m` of the block `k`, which is there, are written.
  pub copy_in-Written : Written s after src (k * 512 + from) m
  copy_in-Written = record {
    node = IsNode-after;
    same_size = refl;
    bytes = byte-after;
    same_slot = λ j o z. slot-after j;
    filled = λ j r o q.
        let same : j ≡ k = omega (arith, o, q, inside) in
        λ z. n (ap (slot s) (sym same) ∙ sym (slot-after j) ∙ z);
    foreign = KeepsForeign-after;
  }

-- Nothing is written.
pub Written_zero : (s : Node) (src : ℕ → ℕ) (off : ℕ) → IsNode s → Written s s src off 0
Written_zero s src off h = record {
  node = h;
  same_size = refl;
  bytes = λ p l. let out : within off 0 p ≡ false = ground arith in rw out refl;
  same_slot = λ k l n. refl;
  filled = λ k r l o. absurd (omega (arith, r));
  foreign = λ c f. (f, λ i. refl);
}

pub Written-Keeps :
    (s t u : Node) (src : ℕ → ℕ) (off n : ℕ)
    → Keeps s t
    → Written t u src off n
    → Written s u src off n
Written-Keeps s t u src off n f g = record {
  node = g.node;
  same_size = g.same_size ∙ f.same_size;
  bytes = λ p l.
      g.bytes p l ∙ ap {B = ℕ} (λ x. if within off n p then src (p - off) else x) (f.same_byte p l);
  same_slot = λ k l z. g.same_slot k l (λ y. z (sym (f.same_slot k l z) ∙ y)) ∙ f.same_slot k l z;
  filled = g.filled;
  foreign = KeepsForeign-trans s t u f.foreign g.foreign;
}

pub Written_append :
    (s t u : Node) (src : ℕ → ℕ) (off m n : ℕ)
    → off + m ≤ 71680
    → Written s t src off m
    → Written t u (λ i. src (m + i)) (off + m) n
    → Written s u src off (m + n)
Written_append s t u src off m n o f g = record {
  node = g.node;
  same_size = g.same_size ∙ f.same_size;
  bytes = λ p l. g.bytes p l ∙ elim (Bool-cases (ltb p (off + m))) [
    | inl e ↦
        let later : within (off + m) n p ≡ false = ground (arith, e) in
        let both : within off m p ≡ within off (m + n) p = ground (arith, e) in
        rw (later, f.bytes p l, both) refl
    | inr e ↦
        let now : within off m p ≡ false = ground (arith, e) in
        let both : within (off + m) n p ≡ within off (m + n) p = ground (arith, e) in
        let index : m + (p - (off + m)) ≡ p - off = ground (arith, e) in
        rw (f.bytes p l, now, both, index) refl
  ];
  same_slot = λ k l z. g.same_slot k l (λ y. z (sym (f.same_slot k l z) ∙ y)) ∙ f.same_slot k l z;
  filled = λ k r l j. elim (Bool-cases ((m == 0) || leb (off + m) (k * 512))) [
    | inl e ↦
        g.filled k (ground (arith, e, r, l, j)) (ground (arith, e, r, l, j))
          (ground (arith, e, r, l, j))
    | inr e ↦
        let there = f.filled k (ground (arith, e)) (ground (arith, e, l)) (ground (arith, e, l)) in
        λ z. there (sym (g.same_slot k (ground (arith, e, o)) there) ∙ z)
  ];
  foreign = KeepsForeign-trans s t u f.foreign g.foreign;
}
