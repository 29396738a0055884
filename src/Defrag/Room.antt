-- ===== src/Defrag/Room.antt =====
-- The places that a copy has written, and those it writes next.
use ecnu_2020_autumn_linux_l.Base.{ℕ, ◌+◌, ◌≤◌, ◌<◌, ◌≡◌, ◌≢◌, ◌⊎◌, inl, inr, ◌∙◌, arith}
use ecnu_2020_autumn_linux_l.Defrag.{State}

-- The blocks for data end where those for indirect blocks begin, at `base`.
pub record HasRoom (base : ℕ) (s : State) : Type 0 where
  pub data_le : s.data_pointer + s.block_count ≤ base
  pub base_le : base ≤ s.inode_pointer

-- A block that `s` has written before, and one that is written between `s` and `s'`.
abbrev pub IsOld : (base : ℕ) → State → ℕ → Type 0
IsOld base s b = (b < s.data_pointer) ⊎ ((base ≤ b) × (b < s.inode_pointer))

abbrev pub IsNew : State → State → ℕ → Type 0
IsNew s s' b =
    ((s.data_pointer ≤ b) × (b < s'.data_pointer))
    ⊎ ((s.inode_pointer ≤ b) × (b < s'.inode_pointer))

-- The pointers only move on, and the count of blocks goes down as the one for data goes up.
pub record Onward (s s' : State) : Type 0 where
  pub data_on : s.data_pointer ≤ s'.data_pointer
  pub inode_on : s.inode_pointer ≤ s'.inode_pointer

pub record Advances (s s' : State) : Type 0 where
  pub onward : Onward s s'
  pub total : s'.data_pointer + s'.block_count ≡ s.data_pointer + s.block_count

pub old_apart :
    (base : ℕ) (s : State)
    → HasRoom base s
    → 0 < s.block_count
    → (b : ℕ) → IsOld base s b
    → b ≢ s.data_pointer
old_apart base s h pos b (inl l) e = omega (arith, l, e)
old_apart base s h pos b (inr (l, k)) e = let d = h.data_le in omega (arith, l, e, d, pos)

pub IsNew-first : (s s' s'' : State) → Onward s' s'' → (b : ℕ) → IsNew s s' b → IsNew s s'' b
IsNew-first s s' s'' a b (inl (l, k)) = inl (l, omega (arith, k, a.data_on))
IsNew-first s s' s'' a b (inr (l, k)) = inr (l, omega (arith, k, a.inode_on))

pub IsNew-then : (s s' s'' : State) → Onward s s' → (b : ℕ) → IsNew s' s'' b → IsNew s s'' b
IsNew-then s s' s'' a b (inl (l, k)) = inl (omega (arith, l, a.data_on), k)
IsNew-then s s' s'' a b (inr (l, k)) = inr (omega (arith, l, a.inode_on), k)

pub Advances-trans : (s s' s'' : State) → Advances s s' → Advances s' s'' → Advances s s''
Advances-trans s s' s'' a b = record {
  onward = record {
    data_on = omega (arith, a.onward.data_on, b.onward.data_on);
    inode_on = omega (arith, a.onward.inode_on, b.onward.inode_on);
  };
  total = b.total ∙ a.total;
}

module _ (base : ℕ) where
  -- What is old stays old, and what is new is old afterwards and is not `to`.
  pub IsOld-on : (s s' : State) → Onward s s' → (b : ℕ) → IsOld base s b → IsOld base s' b
  IsOld-on s s' a b (inl l) = inl (omega (arith, l, a.data_on))
  IsOld-on s s' a b (inr (l, k)) = inr (l, omega (arith, k, a.inode_on))

  pub IsNew-IsOld : (s s' : State) → HasRoom base s → (b : ℕ) → IsNew s s' b → IsOld base s' b
  IsNew-IsOld s s' h b (inl (l, k)) = inl k
  IsNew-IsOld s s' h b (inr (l, k)) = inr (omega (arith, l, h.base_le), k)

  pub new_apart :
      (to : ℕ) (s s' : State)
      → HasRoom base s
      → Advances s s'
      → base ≤ to
      → to < s.inode_pointer
      → (b : ℕ) → IsNew s s' b
      → b ≢ to
  new_apart to s s' h a l k b (inl (m, n)) e =
      let t = a.total in let d = h.data_le in omega (arith, l, m, n, e, t, d)
  new_apart to s s' h a l k b (inr (m, n)) e = omega (arith, k, m, e)

  pub HasRoom-on : (s s' : State) → HasRoom base s → Advances s s' → HasRoom base s'
  HasRoom-on s s' h a = record {
    data_le = omega (arith, h.data_le, a.total);
    base_le = omega (arith, h.base_le, a.onward.inode_on);
  }

-- The state after the number of the indirect block is taken.
abbrev pub next_inode : State → State
next_inode s = record s { inode_pointer = s.inode_pointer + 1 }

pub IsOld-more : (base : ℕ) (s : State) (b : ℕ) → IsOld base s b → IsOld base (next_inode s) b
IsOld-more base s b (inl l) = inl l
IsOld-more base s b (inr (l, k)) = inr (l, omega (arith, k))

pub old_not_next :
    (base : ℕ) (s : State)
    → HasRoom base s
    → 0 < s.block_count
    → (b : ℕ) → IsOld base s b
    → b ≢ s.inode_pointer
old_not_next base s h pos b (inl l) e =
    let d = h.data_le in let i = h.base_le in omega (arith, l, e, d, i)
old_not_next base s h pos b (inr (l, k)) e = omega (arith, k, e)

pub IsNew-more : (s s' : State) (b : ℕ) → IsNew (next_inode s) s' b → IsNew s s' b
IsNew-more s s' b (inl x) = inl x
IsNew-more s s' b (inr (l, k)) = inr (omega (arith, l), k)
