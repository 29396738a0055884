-- ===== src/Defrag/Loops.antt =====
-- The copy of a tree of blocks stores the same data.
use ecnu_2020_autumn_linux_l.Base.{
  ℕ, zero, suc, ◌-◌, ◌≤◌, ◌<◌, ◌≡◌, ◌≢◌, inl, inr, refl, sym, ap, subst, ◌∙◌, false, List, [], ◌∷◌,
  ◌++◌, ◌==◌, arith, Bool-cases, ==_self, ==_of_ne,
}
use ecnu_2020_autumn_linux_l.Defrag.{
  Block, Image, State, put_word, write_from_data_blocks, pointer, write_loop, write_level,
}
use ecnu_2020_autumn_linux_l.Defrag.Room.{
  HasRoom, IsOld, IsNew, Advances, old_apart, IsNew-first, IsNew-then, Advances-trans, IsOld-on,
  IsNew-IsOld, new_apart, HasRoom-on,
}
use ecnu_2020_autumn_linux_l.Defrag.Trees.{read_loop, read_level}

-- The copy of the tree of a level below `from`, which leads from `s` to `s'`.
pub record Copies (input : Image) (width level base from : ℕ) (s s' : State) : Type 0 where
  pub advances : Advances s s'
  pub keeps : (b : ℕ) → IsOld base s b → s'.output b ≡ s.output b
  pub same :
      (image : Image)
      → ((b : ℕ) → IsNew s s' b → image b ≡ s'.output b)
      → read_level image width level (pointer level s.data_pointer s.inode_pointer) s.block_count
        ≡ read_level input width level from s.block_count
  pub left : (read_level input width level from s.block_count).1 ≡ s'.block_count

pub Copies-data :
    (input : Image) (width base from : ℕ) (s : State)
    → HasRoom base s
    → 0 < s.block_count
    → Copies input width 0 base from s (write_from_data_blocks input width from s.data_pointer s)
unfolding write_from_data_blocks read_level
Copies-data input width base from s h l = record {
  advances = record {
    onward = record { data_on = omega arith; inode_on = omega arith };
    total = omega (arith, l);
  };
  keeps = λ b old. rw (==_of_ne b s.data_pointer (old_apart base s h l b old)) refl;
  same = λ image agree.
      let here : image s.data_pointer ≡ input from =
        agree s.data_pointer (inl (omega arith, omega arith)) ∙ rw (==_self s.data_pointer) refl in
      ap (λ (x : Block). (x ∷ [], s.block_count - 1)) here;
  left = refl;
}

read_loop-suc :
    (lower : ℕ → ℕ → List Block × ℕ) (index : Block) (n i count : ℕ) (p : List Block × ℕ)
    → (count == 0) ≡ false
    → lower (index i) count ≡ p
    → read_loop lower index (suc n) i count
      ≡ (p.0 ++ (read_loop lower index n (suc i) p.1).0, (read_loop lower index n (suc i) p.1).1)
unfolding read_loop
read_loop-suc lower index n i count p b e = rw (b, e) refl

module _ (input : Image) (width level base from to : ℕ) where
  -- The copy by the loop from the word `i` on, where the indirect block itself goes to `to`.
  pub record LoopCopies (n i : ℕ) (s s' : State) : Type 0 where
    pub advances : Advances s s'
    pub keeps : (b : ℕ) → IsOld base s b → b ≢ to → s'.output b ≡ s.output b
    pub before : (j : ℕ) → j < i → s'.output to j ≡ s.output to j
    pub same :
        (image : Image)
        → ((b : ℕ) → IsNew s s' b → image b ≡ s'.output b)
        → image to ≡ s'.output to
        → read_loop (read_level image width level) (image to) n i s.block_count
          ≡ read_loop (read_level input width level) (input from) n i s.block_count
    pub left :
        (read_loop (read_level input width level) (input from) n i s.block_count).1 ≡ s'.block_count

  -- One word of the indirect block and the tree below it, and then the rest of the loop.
  module _ (n i : ℕ) (s s2 s' : State) (h : HasRoom base s)
      (some_left : (s.block_count == 0) ≡ false) (l : base ≤ to) (k : to < s.inode_pointer)
      (c : Copies input width level base
        (input from i)
        (record s {
          output = put_word s.output to i (pointer level s.data_pointer s.inode_pointer);
        })
        s2)
      (r : LoopCopies n (suc i) s2 s') where
    Advances-step : Advances s s2
    Advances-step = record {
      onward = record {
        data_on = c.advances.onward.data_on;
        inode_on = c.advances.onward.inode_on;
      };
      total = c.advances.total;
    }

    step-word : s'.output to i ≡ pointer level s.data_pointer s.inode_pointer
    step-word =
        r.before i (omega arith)
        ∙ ap (λ (x : Block). x i) (c.keeps to (inr (l, k)))
        ∙ rw (==_self to) (rw (==_self i) refl)

    step-keeps : (b : ℕ) → IsOld base s b → b ≢ to → s'.output b ≡ s.output b
    step-keeps b old ne =
        r.keeps b (IsOld-on base s s2 Advances-step.onward b old) ne
        ∙ c.keeps b old
        ∙ rw (==_of_ne b to ne) refl

    step-before : (j : ℕ) → j < i → s'.output to j ≡ s.output to j
    step-before j lt =
        let other : (j == i) ≡ false = ground (arith, lt) in
        r.before j (omega (arith, lt))
        ∙ ap (λ (x : Block). x j) (c.keeps to (inr (l, k)))
        ∙ rw (==_self to) (rw other refl)

    step-tree :
        (image : Image)
        → ((b : ℕ) → IsNew s s' b → image b ≡ s'.output b)
        → image to ≡ s'.output to
        → read_level image width level (image to i) s.block_count
          ≡ read_level input width level (input from i) s.block_count
    step-tree image agree at =
        let word = ap (λ (x : Block). x i) at ∙ step-word in
        let here = c.same image (λ b x.
          agree b (IsNew-first s s2 s' r.advances.onward b x)
          ∙ r.keeps b (IsNew-IsOld base s s2 h b x)
              (new_apart base to s s2 h Advances-step l k b x)) in
        ap (λ v. read_level image width level v s.block_count) word ∙ here

    step-same :
        (image : Image)
        → ((b : ℕ) → IsNew s s' b → image b ≡ s'.output b)
        → image to ≡ s'.output to
        → read_loop (read_level image width level) (image to) (suc n) i s.block_count
          ≡ read_loop (read_level input width level) (input from) (suc n) i s.block_count
    step-same image agree at =
        let p = read_level input width level (input from i) s.block_count in
        let tail0 =
          r.same image (λ b x. agree b (IsNew-then s s2 s' Advances-step.onward b x)) at in
        let tail =
          subst
            (λ m.
              read_loop (read_level image width level) (image to) n (suc i) m
              ≡ read_loop (read_level input width level) (input from) n (suc i) m)
            (sym c.left) tail0 in
        read_loop-suc (read_level image width level) (image to) n i s.block_count p some_left
          (step-tree image agree at)
        ∙ ap (λ (q : List Block × ℕ). (p.0 ++ q.0, q.1)) tail
        ∙ sym (
            read_loop-suc (read_level input width level) (input from) n i s.block_count p some_left
              refl)

    step-left :
        (read_loop (read_level input width level) (input from) (suc n) i s.block_count).1
        ≡ s'.block_count
    step-left =
        let p = read_level input width level (input from i) s.block_count in
        ap (λ (q : List Block × ℕ). q.1)
          (read_loop-suc (read_level input width level) (input from) n i s.block_count p some_left
            refl)
        ∙ subst
            (λ m.
              (read_loop (read_level input width level) (input from) n (suc i) m).1
              ≡ s'.block_count)
            (sym c.left) r.left

    step-LoopCopies : LoopCopies (suc n) i s s'
    step-LoopCopies = record {
      advances = Advances-trans s s2 s' Advances-step r.advances;
      keeps = step-keeps;
      before = step-before;
      same = step-same;
      left = step-left;
    }

  -- The loop copies, where the function for the level below does.
  pub loop-LoopCopies :
      ((from : ℕ) (s : State)
        → HasRoom base s
        → 0 < s.block_count
        → Copies input width level base from s
            (write_level input width level from (pointer level s.data_pointer s.inode_pointer) s))
      → (n i : ℕ) (s : State) → HasRoom base s
      → base ≤ to
      → to < s.inode_pointer
      → LoopCopies n i s (write_loop input (write_level input width level) level from to n i s)
  unfolding write_loop read_loop
  loop-LoopCopies ih zero i s h l k = record {
    advances = record {
      onward = record { data_on = omega arith; inode_on = omega arith };
      total = refl;
    };
    keeps = λ b old ne. refl;
    before = λ j lt. refl;
    same = λ image agree at. refl;
    left = refl;
  }
  loop-LoopCopies ih (suc n) i s h l k = elim (Bool-cases (s.block_count == 0)) [
    | inl b ↦ rw b (record {
      advances = record {
        onward = record { data_on = omega arith; inode_on = omega arith };
        total = refl;
      };
      keeps = λ b old ne. refl;
      before = λ j lt. refl;
      same = λ image agree at. rw b refl;
      left = rw b refl;
    })
    | inr b ↦
        let s1 : State = record s {
          output = put_word s.output to i (pointer level s.data_pointer s.inode_pointer);
        } in
        let room : HasRoom base s1 = record { data_le = h.data_le; base_le = h.base_le } in
        let c = ih (input from i) s1 room (ground arith) in
        let s2 =
          write_level input width level (input from i)
            (pointer level s.data_pointer s.inode_pointer) s1 in
        let room2 = HasRoom-on base s1 s2 room c.advances in
        let r =
          loop-LoopCopies ih n (suc i) s2 room2 l (omega (arith, k, c.advances.onward.inode_on)) in
        rw b (step-LoopCopies n i s s2 _ h b l k c r)
  ]
