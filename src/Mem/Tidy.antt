-- ===== src/Mem/Tidy.antt =====
-- The well-formedness of the region of mem.c: the blocks fill it without gap or overlap, and no two
-- free blocks are neighbours. The blocks in use are the abstract view of the region.
use ecnu_2020_autumn_linux_l.Base.{
  ℕ, ◌+◌, ◌-◌, ◌≤◌, ◌≡◌, ◌⊎◌, inl, inr, List, [], ◌∷◌, arith, ◌==◌, if◌then◌else◌,
}
use ecnu_2020_autumn_linux_l.Mem.{
  Node, node_size, State, region_end, Outcome, returns, next_addr, carve, place,
}

abbrev pub head_size : List Node → ℕ
head_size [] = 0
head_size (n ∷ _) = n.size

-- A block ends where the next one begins; a free one records its length, and its successor is used.
abbrev pub IsTidy : ℕ → List Node → Type 0
IsTidy end [] = Unit {0}
IsTidy end (n ∷ ns) =
    (n.addr + node_size ≤ next_addr end ns)
    × ((n.size ≡ 0) ⊎ ((n.addr + node_size + n.size ≡ next_addr end ns) × (head_size ns ≡ 0)))
    × IsTidy end ns

pub record IsValid (s : State) : Type 0 where
  pub tidy : IsTidy (region_end s) s.nodes
  pub starts : next_addr (region_end s) s.nodes ≡ s.base

-- The state that a call leaves is valid, if it returns.
abbrev pub Keeps : {A : Type 0} → Outcome A → Type 0
Keeps (returns s _) = IsValid s
Keeps _ = Unit {0}

-- The blocks in use, as the caller sees them: the pointer and the number of bytes behind it.
abbrev pub taken : ℕ → List Node → List (ℕ × ℕ)
taken end [] = []
taken end (n ∷ ns) =
    if n.size == 0
    then (n.addr + node_size, next_addr end ns - n.addr - node_size) ∷ taken end ns
    else taken end ns

abbrev pub In : Node → List Node → Type 0
In n [] = ⊥
In n (m ∷ ms) = (n ≡ m) ⊎ In n ms

pub In-le :
    (end : ℕ) (n : Node) (ns : List Node) → IsTidy end ns → In n ns → next_addr end ns ≤ n.addr
In-le end n [] t i = absurd i
In-le end n (m ∷ ms) t (inl e) = ground arith
In-le end n (m ∷ ms) t (inr i) = ground (arith, In-le end n ms t.2 i)

pub next_addr-place :
    (end size t : ℕ) (ns : List Node) → next_addr end (place size t ns) ≡ next_addr end ns
unfolding place
next_addr-place end size t [] = ground arith
next_addr-place end size t (n ∷ ns) = ground arith

head_size-place :
    (size t : ℕ) (ns : List Node)
    → (head_size (place size t ns) ≡ 0) ⊎ (head_size (place size t ns) ≡ head_size ns)
unfolding place
head_size-place size t [] = ground arith
head_size-place size t (n ∷ ns) = ground arith

carve-IsTidy :
    (end size : ℕ) (n : Node) (ns : List Node) → IsTidy end (n ∷ ns) → IsTidy end (carve size n ns)
unfolding carve
carve-IsTidy end size n ns t = ground arith

pub place-IsTidy : (end size t : ℕ) (ns : List Node) → IsTidy end ns → IsTidy end (place size t ns)
unfolding place
place-IsTidy end size t [] h = h
place-IsTidy end size t (n ∷ ns) h = ground (
  arith,
  carve-IsTidy end size n ns h,
  place-IsTidy end size t ns h.2,
  next_addr-place end size t ns,
  head_size-place size t ns,
)
