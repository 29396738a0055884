-- ===== src/Fs/Contents/Sample.antt =====
-- A volume of 20 blocks, and a file of 3 bytes in block 5.
use ecnu_2020_autumn_linux_l.Base.{
  ℕ, ◌+◌, ◌≤◌, ◌≡◌, ◌≢◌, refl, sym, ap, subst, ◌∙◌, inl, inr, true, false, ◌==◌, ltb, if◌then◌else◌,
  arith, Bool-cases, eq_of_==,
}
use ecnu_2020_autumn_linux_l.Fs.Contents.{Node}
use ecnu_2020_autumn_linux_l.Fs.Contents.Slots.{slot, byte_at}
use ecnu_2020_autumn_linux_l.Fs.Contents.Read.{IsFile}

abbrev pub small : Node
small = record {
  volume = record {
    size = 20;
    in_use = λ b. ltb b 6;
    contents = λ b i. if b == 5 then 60 + i else 0;
  };
  addrs = λ k. if k == 0 then 5 else 0;
  size = 3;
}

small_slot : (k : ℕ) → k ≤ 140 → slot small k ≡ (if k == 0 then 5 else 0)
unfolding slot byte_at
small_slot k l = elim (Bool-cases (ltb k 12)) [
  | inl e ↦ rw e refl
  | inr e ↦
      let z : (k == 0) ≡ false = ground (arith, e) in
      elim (Bool-cases (k == 140)) [ inl g ↦ rw (e, g, z) refl | inr g ↦ rw (e, g, z) refl ]
]

small_slot_zero : (k : ℕ) → k ≤ 140 → slot small k ≢ 0 → k ≡ 0
small_slot_zero k l n = elim (Bool-cases (k == 0)) [
  | inl e ↦ eq_of_== k 0 e
  | inr e ↦ absurd (n (small_slot k l ∙ rw e refl))
]

pub small-IsFile : IsFile small
small-IsFile = record {
  node = record {
    zero_used = refl;
    held = λ k l n.
        subst (λ x. ltb x 6 ≡ true)
          (sym (ap (slot small) (small_slot_zero k l n) ∙ small_slot 0 (omega arith))) refl;
    apart = λ j k l m n e. small_slot_zero j l n ∙ sym (small_slot_zero k m (λ z. n (e ∙ z)));
    blank = λ b i f. ground (arith, f);
  };
  filled = λ k l.
      let z : 0 ≡ k = omega (arith, l) in
      λ n. absurd (
        let five = small_slot 0 (omega arith) in
        let none_there = ap (slot small) z ∙ n in ground (arith, five, none_there));
  bounded = omega arith;
}
