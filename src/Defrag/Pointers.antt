-- ===== src/Defrag/Pointers.antt =====
-- The copy of the trees of the block pointers of an inode.
use ecnu_2020_autumn_linux_l.Base.{
  ℕ, ◌≡◌, inl, inr, refl, sym, ap, subst, ◌∙◌, false, List, [], ◌∷◌, ◌++◌, ◌==◌, arith, Bool-cases,
}
use ecnu_2020_autumn_linux_l.Defrag.{Block, Image, State, pointer, write_level, write_pointers}
use ecnu_2020_autumn_linux_l.Defrag.Room.{
  HasRoom, IsOld, IsNew, Advances, IsNew-first, IsNew-then, Advances-trans, IsOld-on, IsNew-IsOld,
  HasRoom-on,
}
use ecnu_2020_autumn_linux_l.Defrag.Trees.{read_level, read_pointers}
use ecnu_2020_autumn_linux_l.Defrag.Copy.{write_level-Copies}

module _ (input : Image) (width base : ℕ) where
  -- The copy of the trees of the pointers `ps`, which `qs` then name.
  pub record PointerCopies (ps qs : List (ℕ × ℕ)) (s s' : State) : Type 0 where
    pub advances : Advances s s'
    pub keeps : (b : ℕ) → IsOld base s b → s'.output b ≡ s.output b
    pub same :
        (image : Image)
        → ((b : ℕ) → IsNew s s' b → image b ≡ s'.output b)
        → read_pointers image width qs s.block_count ≡ read_pointers input width ps s.block_count

  read_pointers-cons :
      (image : Image) (level number : ℕ) (ps : List (ℕ × ℕ)) (count : ℕ) (p : List Block × ℕ)
      → (count == 0) ≡ false
      → read_level image width level number count ≡ p
      → read_pointers image width ((level, number) ∷ ps) count
        ≡ (p.0 ++ (read_pointers image width ps p.1).0, (read_pointers image width ps p.1).1)
  unfolding read_pointers
  read_pointers-cons image level number ps count p b e = rw (b, e) refl

  pub write_pointers-PointerCopies :
      (ps : List (ℕ × ℕ)) (s : State)
      → HasRoom base s
      → PointerCopies ps (write_pointers input width ps s).0 s (write_pointers input width ps s).1
  unfolding write_pointers read_pointers
  write_pointers-PointerCopies [] s h = record {
    advances = record {
      onward = record { data_on = omega arith; inode_on = omega arith };
      total = refl;
    };
    keeps = λ b old. refl;
    same = λ image agree. refl;
  }
  write_pointers-PointerCopies ((level, from) ∷ ps) s h = elim (Bool-cases (s.block_count == 0)) [
    | inl b ↦ rw b (record {
      advances = record {
        onward = record { data_on = omega arith; inode_on = omega arith };
        total = refl;
      };
      keeps = λ k old. refl;
      same = λ image agree. rw b refl;
    })
    | inr b ↦
        let new = pointer level s.data_pointer s.inode_pointer in
        let s1 = write_level input width level from new s in
        let c = write_level-Copies input width level base from s h (ground arith) in
        let s' = (write_pointers input width ps s1).1 in
        let r = write_pointers-PointerCopies ps s1 (HasRoom-on base s s1 h c.advances) in
        rw b (record {
          advances = Advances-trans s s1 s' c.advances r.advances;
          keeps = λ k old. r.keeps k (IsOld-on base s s1 c.advances.onward k old) ∙ c.keeps k old;
          same = λ image agree.
              let p = read_level input width level from s.block_count in
              let tree = c.same image (λ k x.
                agree k (IsNew-first s s1 s' r.advances.onward k x)
                ∙ r.keeps k (IsNew-IsOld base s s1 h k x)) in
              let tail0 =
                r.same image (λ k x. agree k (IsNew-then s s1 s' c.advances.onward k x)) in
              let tail =
                subst
                  (λ m.
                    read_pointers image width (write_pointers input width ps s1).0 m
                    ≡ read_pointers input width ps m)
                  (sym c.left) tail0 in
              read_pointers-cons image level new (write_pointers input width ps s1).0 s.block_count
                p b tree
              ∙ ap (λ (q : List Block × ℕ). (p.0 ++ q.0, q.1)) tail
              ∙ sym (read_pointers-cons input level from ps s.block_count p b refl);
        })
  ]
