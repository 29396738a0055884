-- ===== src/Fs/Contents/Gain.antt =====
-- An inode gains a block: a direct one, the indirect one, or one that a word of the indirect block names.
use ecnu_2020_autumn_linux_l.Base.{
  ℕ, ◌+◌, ◌-◌, ◌≤◌, ◌<◌, ◌≡◌, ◌≢◌, refl, sym, ap, subst, ◌∙◌, inl, inr, true, false, ◌==◌, ltb,
  arith, Bool-cases, eq_of_==, ==_self, ==_of_ne,
}
use ecnu_2020_autumn_linux_l.Fs.Bitmap.{mark}
use ecnu_2020_autumn_linux_l.Fs.Contents.{Node, set_addr, set_word}
use ecnu_2020_autumn_linux_l.Fs.Contents.Slots.{
  KeepsForeign, KeepsForeign-Gains, slot, byte_at, byte, IsNode, Gains, IsNode-Gains, byte-Gains,
}

-- An inode that may have gained blocks, and has kept its contents.
pub record Keeps (s s' : Node) : Type 0 where
  pub node : IsNode s'
  pub same_size : s'.size ≡ s.size
  pub same_byte : (p : ℕ) → p < 71680 → byte s' p ≡ byte s p
  pub same_slot : (k : ℕ) → k ≤ 140 → slot s k ≢ 0 → slot s' k ≡ slot s k
  pub foreign : KeepsForeign s s'

pub Keeps-refl : (s : Node) → IsNode s → Keeps s s
Keeps-refl s h = record {
  node = h;
  same_size = refl;
  same_byte = λ p l. refl;
  same_slot = λ k l n. refl;
  foreign = λ c f. (f, λ i. refl);
}

pub KeepsForeign-trans : (s t u : Node) → KeepsForeign s t → KeepsForeign t u → KeepsForeign s u
KeepsForeign-trans s t u f g c h = let (k, e) = f c h in let (l, e') = g c k in (l, λ i. e' i ∙ e i)

pub Keeps-trans : (s t u : Node) → Keeps s t → Keeps t u → Keeps s u
Keeps-trans s t u f g = record {
  node = g.node;
  same_size = g.same_size ∙ f.same_size;
  same_byte = λ p l. g.same_byte p l ∙ f.same_byte p l;
  same_slot = λ k l n. g.same_slot k l (λ z. n (sym (f.same_slot k l n) ∙ z)) ∙ f.same_slot k l n;
  foreign = KeepsForeign-trans s t u f.foreign g.foreign;
}

pub Keeps-Gains : (s s' : Node) (j b : ℕ) → IsNode s → Gains s s' j b → Keeps s s'
Keeps-Gains s s' j b h g = record {
  node = IsNode-Gains s s' j b h g;
  same_size = g.same_size;
  same_byte = λ p l. byte-Gains s s' j b h g p l;
  same_slot = λ k l n. elim (Bool-cases (k == j)) [
    | inl e ↦ absurd (n (ap (slot s) (eq_of_== k j e) ∙ g.vacant))
    | inr e ↦ g.slots k l ∙ rw e refl
  ];
  foreign = KeepsForeign-Gains s s' j b h g;
}

-- A direct slot is set.
pub Gains-direct :
    (s : Node) (b i : ℕ)
    → IsNode s
    → i < 12
    → slot s i ≡ 0
    → s.volume.in_use b ≡ false
    → Gains s (set_addr (record s { volume = mark s.volume b true }) i b) i b
unfolding slot byte_at
Gains-direct s b i h l z f = record {
  vacant = z;
  fresh = f;
  slots = λ c m. elim (Bool-cases (ltb c 12)) [
    | inl e ↦ rw e refl
    | inr e ↦
        let other : (c == i) ≡ false = ground (arith, e, l) in
        let root : (12 == i) ≡ false = ground (arith, l) in rw (e, other, root) refl
  ];
  bits = λ c. refl;
  rest = λ c x n o. refl;
  same_size = refl;
}

-- The indirect block is set, whose words are 0.
pub Gains-root :
    (s : Node) (b : ℕ)
    → IsNode s
    → s.addrs 12 ≡ 0
    → s.volume.in_use b ≡ false
    → Gains s (set_addr (record s { volume = mark s.volume b true }) 12 b) 140 b
unfolding slot byte_at
Gains-root s b h z f = record {
  vacant = z;
  fresh = f;
  slots = λ c m. elim (Bool-cases (ltb c 12)) [
    | inl e ↦
        let other : (c == 140) ≡ false = ground (arith, e) in
        let low : (c == 12) ≡ false = ground (arith, e) in rw (e, other, low) refl
    | inr e ↦ elim (Bool-cases (c == 140)) [
      | inl g ↦ rw (e, g) refl
      | inr g ↦ elim (Bool-cases (b == 0)) [
        | inl y ↦ rw (e, g, z) (rw y refl)
        | inr y ↦ rw (e, g, z) (rw (y, h.blank b (c - 12) f) refl)
      ]
    ]
  ];
  bits = λ c. refl;
  rest = λ c x n o. refl;
  same_size = refl;
}

pub Gains-set_word :
    (s : Node) (b i : ℕ)
    → IsNode s
    → i < 128
    → s.addrs 12 ≢ 0
    → s.volume.contents (s.addrs 12) i ≡ 0
    → s.volume.in_use b ≡ false
    → Gains s (record s { volume = set_word (mark s.volume b true) (s.addrs 12) i b }) (12 + i) b
unfolding slot byte_at
Gains-set_word s b i h l n z f = record {
  vacant =
      let low : ltb (12 + i) 12 ≡ false = ground arith in
      let last : (12 + i == 140) ≡ false = ground (arith, l) in
      let at : i ≡ 12 + i - 12 = omega arith in
      rw (low, last, ==_of_ne (s.addrs 12) 0 n)
        (subst (λ x. s.volume.contents (s.addrs 12) x ≡ 0) at z);
  fresh = f;
  slots = λ c m. elim (Bool-cases (ltb c 12)) [
    | inl e ↦ let other : (c == 12 + i) ≡ false = ground (arith, e) in rw (e, other) refl
    | inr e ↦ elim (Bool-cases (c == 140)) [
      | inl g ↦ let other : (c == 12 + i) ≡ false = ground (arith, g, l) in rw (e, g, other) refl
      | inr g ↦
          let same : (c - 12 == i) ≡ (c == 12 + i) = ground (arith, e) in
          rw (e, g, ==_of_ne (s.addrs 12) 0 n) (rw (==_self (s.addrs 12), same) refl)
    ]
  ];
  bits = λ c. refl;
  rest =
      λ c x k o. let other : (c == s.addrs 12) ≡ false = ==_of_ne c (s.addrs 12) o in rw other refl;
  same_size = refl;
}
