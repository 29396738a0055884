-- ===== src/Fs/Contents/Owned.antt =====
-- The blocks that an inode has, as the loops of `itrunc` free them.
use ecnu_2020_autumn_linux_l.Base.{
  ℕ, ◌+◌, ◌-◌, ◌≤◌, ◌<◌, ◌≡◌, ◌≢◌, refl, sym, ap, subst, ◌∙◌, inl, inr, Bool, true, false, ◌||◌,
  some, ◌==◌, ltb, if◌then◌else◌, arith, Bool-cases, eq_of_==, ne_of_==, ==_self, ==_of_ne,
}
use ecnu_2020_autumn_linux_l.Fs.Bitmap.{Volume, mark, bzero, bfree}
use ecnu_2020_autumn_linux_l.Fs.Contents.{Node, trunc_words, trunc_root}
use ecnu_2020_autumn_linux_l.Fs.Contents.Slots.{slot, IsNode}
use ecnu_2020_autumn_linux_l.Fs.Contents.Map.{slot_direct, slot_root, slot_missing, slot_word}
use ecnu_2020_autumn_linux_l.Fs.Contents.Freed.{
  among, among_hit, among_miss, Freed, free_run, free_run-Freed,
}
use ecnu_2020_autumn_linux_l.Fs.Contents.Runs.{trunc_words-free_run}

-- The blocks for which `P` holds are freed, and no others.
pub record Frees (P : ℕ → Bool) (v v' : Volume) : Type 0 where
  pub bits : (c : ℕ) → v'.in_use c ≡ (if P c then false else v.in_use c)
  pub data_of : (c i : ℕ) → v'.contents c i ≡ (if P c then 0 else v.contents c i)

if_or_or :
    {A : Type 0} (b c d : Bool) (x y : A)
    → (if b then x else if c then x else if d then x else y) ≡ (if b || (c || d) then x else y)
if_or_or true c d x y = refl
if_or_or false true d x y = refl
if_or_or false false true x y = refl
if_or_or false false false x y = refl

trunc_root-some :
    (v v2 : Volume) (a : ℕ)
    → trunc_words 128 v a 0 ≡ some v2
    → v2.in_use a ≡ true
    → trunc_root v a ≡ some (mark (bzero v2 a) a false)
unfolding trunc_root bfree
trunc_root-some v v2 a e u = rw (e, trunc_root) (rw u refl)

module _ (s : Node) (h : IsNode s) where
  abbrev pub in_direct : ℕ → Bool
  in_direct c = among s.addrs 0 12 c

  direct_slot : (k : ℕ) → k < 12 → slot s k ≡ s.addrs k
  direct_slot k l = slot_direct s k (ground (arith, l))

  -- A block in another slot is not among the direct ones.
  in_direct-slot : (k : ℕ) → 12 ≤ k → k ≤ 140 → in_direct (slot s k) ≡ false
  in_direct-slot k l m = among_miss s.addrs 0 12 (slot s k) (λ i _ j e.
      elim (Bool-cases (slot s k == 0)) [
        | inl z ↦ eq_of_== (slot s k) 0 z
        | inr z ↦
            let n = ne_of_== (slot s k) 0 z in
            let below : i < 12 = omega (arith, j) in
            let same = h.apart k i m (omega (arith, below)) n (sym (direct_slot i below ∙ e)) in
            absurd (omega (arith, same, l, below))
      ])

  pub in_direct_miss : (c : ℕ) → c ≢ 0 → ((k : ℕ) → k ≤ 140 → slot s k ≢ c) → in_direct c ≡ false
  in_direct_miss c n f =
      among_miss s.addrs 0 12 c
        (λ i _ j e. absurd (f i (omega (arith, j)) (direct_slot i (omega (arith, j)) ∙ e)))

  in_direct_hit : (k : ℕ) → k < 12 → slot s k ≢ 0 → in_direct (slot s k) ≡ true
  in_direct_hit k l n =
      let at = direct_slot k l in
      ap in_direct at ∙ among_hit s.addrs 0 12 k (omega arith) (omega (arith, l)) (λ z. n (at ∙ z))

  pub in_direct_zero : in_direct 0 ≡ false
  in_direct_zero = among_miss s.addrs 0 12 0 (λ k l m e. refl)

  pub run_direct :
      (v' : Volume) × (free_run s.addrs 0 12 s.volume ≡ some v') × Freed s.addrs 0 12 s.volume v'
  run_direct =
      free_run-Freed s.addrs 0 12 s.volume
        (λ k l m n.
          let at = direct_slot k (omega (arith, m)) in
          subst (λ x. s.volume.in_use x ≡ true) at
            (h.held k (omega (arith, m)) (λ z. n (sym at ∙ z))))
        (λ k i l m p q n e.
          let at = direct_slot k (omega (arith, m)) in
          let to = direct_slot i (omega (arith, q)) in
          h.apart k i (omega (arith, m)) (omega (arith, q)) (λ z. n (sym at ∙ z)) (at ∙ e ∙ sym to))

  -- The words of the indirect block.
  module _ (v1 : Volume) (f : Freed s.addrs 0 12 s.volume v1) (root : s.addrs 12 ≢ 0) where
    abbrev pub root_block : ℕ
    root_block = s.addrs 12

    abbrev pub words : ℕ → ℕ
    words = s.volume.contents (s.addrs 12)

    abbrev pub in_words : ℕ → Bool
    in_words c = among words 0 128 c

    root_slot : slot s 140 ≡ root_block
    root_slot = slot_root s

    word_slot : (k : ℕ) → k < 128 → slot s (12 + k) ≡ words k
    word_slot k l = slot_word s k l root

    in_direct_root : in_direct root_block ≡ false
    in_direct_root = ap in_direct (sym root_slot) ∙ in_direct-slot 140 (omega arith) (omega arith)

    same_words : (k : ℕ) → v1.contents root_block k ≡ words k
    same_words k = f.data_of root_block k ∙ rw in_direct_root refl

    word_other : (k : ℕ) → k < 128 → words k ≢ root_block
    word_other k l e =
        let at = word_slot k l in
        let same =
          h.apart 140 (12 + k) (omega arith) (omega (arith, l)) (λ z. root (sym root_slot ∙ z))
            (root_slot ∙ sym e ∙ sym at) in
        absurd (omega (arith, l, same))

    in_words_root : in_words root_block ≡ false
    in_words_root =
        among_miss words 0 128 root_block (λ k l m e. absurd (word_other k (omega (arith, m)) e))

    word_used : (k : ℕ) → k < 128 → words k ≢ 0 → v1.in_use (words k) ≡ true
    word_used k l n =
        let at = word_slot k l in
        let out : in_direct (words k) ≡ false =
          ap in_direct (sym at) ∙ in_direct-slot (12 + k) (omega arith) (omega (arith, l)) in
        f.bits (words k)
        ∙ rw out (
            subst (λ x. s.volume.in_use x ≡ true) at
              (h.held (12 + k) (omega (arith, l)) (λ z. n (sym at ∙ z))))

    word_apart : (k i : ℕ) → k < 128 → i < 128 → words k ≢ 0 → words k ≡ words i → k ≡ i
    word_apart k i l m n e =
        let at = word_slot k l in
        let same =
          h.apart (12 + k) (12 + i) (omega (arith, l)) (omega (arith, m)) (λ z. n (sym at ∙ z))
            (at ∙ e ∙ sym (word_slot i m)) in
        omega (arith, same)

    abbrev pub in_file : ℕ → Bool
    in_file c = (c == root_block) || (in_words c || in_direct c)

    root_used : v1.in_use root_block ≡ true
    root_used =
        f.bits root_block
        ∙ rw in_direct_root (
            subst (λ x. s.volume.in_use x ≡ true) root_slot
              (h.held 140 (omega arith) (λ z. root (sym root_slot ∙ z))))

    run_words :
        (v2 : Volume) × (trunc_words 128 v1 root_block 0 ≡ some v2) × Freed words 0 128 v1 v2
    run_words =
        let (v2, e, g) =
          free_run-Freed words 0 128 v1 (λ k l m n. word_used k (omega (arith, m)) n)
            (λ k i l m p q n e. word_apart k i (omega (arith, m)) (omega (arith, q)) n e) in
        (
          v2,
          trunc_words-free_run 128 v1 root_block 0 words (λ k l. same_words k)
                (λ k l m. word_other k (omega (arith, m)))
              ∙ e,
          g,
        )

    Frees-run_words :
        (v2 : Volume)
        → Freed words 0 128 v1 v2
        → Frees in_file s.volume (mark (bzero v2 root_block) root_block false)
    Frees-run_words v2 g = record {
      bits = λ c.
          ap (λ (x : Bool). if c == root_block then false else x)
            (g.bits c ∙ ap (λ (x : Bool). if in_words c then false else x) (f.bits c))
          ∙ if_or_or (c == root_block) (in_words c) (in_direct c) false (s.volume.in_use c);
      data_of = λ c i.
          ap {B = ℕ} (λ (x : ℕ). if c == root_block then 0 else x)
            (g.data_of c i ∙ ap {B = ℕ} (λ (x : ℕ). if in_words c then 0 else x) (f.data_of c i))
          ∙ if_or_or {A = ℕ} (c == root_block) (in_words c) (in_direct c) 0 (s.volume.contents c i);
    }

    pub trunc_root-Frees :
        (v' : Volume) × (trunc_root v1 root_block ≡ some v') × Frees in_file s.volume v'
    trunc_root-Frees =
        let (v2, e, g) = run_words in
        (
          mark (bzero v2 root_block) root_block false,
          trunc_root-some v1 v2 root_block e (g.bits root_block ∙ rw in_words_root root_used),
          Frees-run_words v2 g,
        )

    pub in_file_hit : (k : ℕ) → k ≤ 140 → slot s k ≢ 0 → in_file (slot s k) ≡ true
    in_file_hit k l n = elim (Bool-cases (ltb k 12)) [
      | inl e ↦ let d = in_direct_hit k (ground (arith, e)) n in rw d (ground arith)
      | inr e ↦ elim (Bool-cases (k == 140)) [
        | inl g ↦
            let same : slot s k ≡ root_block = ap (slot s) (eq_of_== k 140 g) ∙ root_slot in
            ap in_file same ∙ rw (==_self root_block) refl
        | inr g ↦
            let at : 12 + (k - 12) ≡ k = ground (arith, e) in
            let small : k - 12 < 128 = ground (arith, e, g, l) in
            let same : slot s k ≡ words (k - 12) =
              ap (slot s) (sym at) ∙ word_slot (k - 12) small in
            let hit =
              among_hit words 0 128 (k - 12) (omega arith) (omega (arith, small))
                (λ z. n (same ∙ z)) in
            ap in_file same ∙ rw hit (ground arith)
      ]
    ]

    pub in_file_miss : (c : ℕ) → c ≢ 0 → ((k : ℕ) → k ≤ 140 → slot s k ≢ c) → in_file c ≡ false
    in_file_miss c n o =
        let first : (c == root_block) ≡ false =
          ==_of_ne c root_block (λ e. o 140 (omega arith) (root_slot ∙ sym e)) in
        let second = among_miss words 0 128 c (λ k l m e.
          absurd (o (12 + k) (omega (arith, m)) (word_slot k (omega (arith, m)) ∙ e))) in
        rw (first, second, in_direct_miss c n o) refl

    pub in_file_zero : in_file 0 ≡ false
    in_file_zero =
        let first : (0 == root_block) ≡ false = ==_of_ne 0 root_block (λ e. root (sym e)) in
        rw (first, among_miss words 0 128 0 (λ k l m e. refl), in_direct_zero) refl

  -- An inode without an indirect block has direct blocks alone.
  pub in_direct_slots :
      s.addrs 12 ≡ 0 → (k : ℕ) → k ≤ 140 → slot s k ≢ 0 → in_direct (slot s k) ≡ true
  in_direct_slots z k l n = elim (Bool-cases (ltb k 12)) [
    | inl e ↦ in_direct_hit k (ground (arith, e)) n
    | inr e ↦ elim (Bool-cases (k == 140)) [
      | inl g ↦ absurd (n (ap (slot s) (eq_of_== k 140 g) ∙ slot_root s ∙ z))
      | inr g ↦ absurd (n (slot_missing s k e (ground (arith, l, g)) z))
    ]
  ]
