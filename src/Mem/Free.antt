-- ===== src/Mem/Free.antt =====
-- What `mem_free` does to the region.
use ecnu_2020_autumn_linux_l.Base.{
  Option, ℕ, ◌+◌, ◌<◌, ◌≡◌, ◌≢◌, ◌⊎◌, inl, inr, sym, ◌∙◌, List, [], ◌∷◌, none, some, arith,
  Option-cases, List-cases, ◌==◌, Bool-cases, subst, ℤ, pos, minus_one,
}
use native.Mathlib.Decide.{ℕ_discrete}
use ecnu_2020_autumn_linux_l.Mem.{
  Node, node_size, State, region_end, Outcome, returns, faults, no_error, e_bad_pointer, e_no_space,
  mem_free, mem_alloc, alloc_aligned, find_first, choose, place, Style, align8, free_from,
  free_nodes, header_size, bad_pointer,
}
use ecnu_2020_autumn_linux_l.Mem.Alloc.{mem_alloc_of_nil, mem_alloc_of_cons}
use ecnu_2020_autumn_linux_l.Mem.Choice.{choose-Chosen}
use ecnu_2020_autumn_linux_l.Mem.Restore.{free_nodes-place, header_size-place}
use ecnu_2020_autumn_linux_l.Mem.Merge.{free_nodes-IsTidy}
use ecnu_2020_autumn_linux_l.Mem.Release.{Released, free_nodes-Released}
use ecnu_2020_autumn_linux_l.Mem.Tidy.{IsTidy, IsValid, Keeps, In, In-le}

module _ (end : ℕ) where
  -- The loop finds the block at `ptr` where there is one.
  free_from-none :
      (ptr : ℕ) (pre n : Node) (rest : List Node)
      → free_from end ptr pre rest ≡ none
      → In n rest
      → n.addr + node_size ≢ ptr
  unfolding free_from
  free_from-none ptr pre n [] e i = absurd i
  free_from-none ptr pre n (late ∷ rest) e (inl same) = ground arith
  free_from-none ptr pre n (late ∷ rest) e (inr i) = ground (arith, free_from-none ptr late n rest)

  free_nodes-none :
      (ptr : ℕ) (n : Node) (ns : List Node)
      → free_nodes end ptr ns ≡ none
      → In n ns
      → n.addr + node_size ≢ ptr
  unfolding free_nodes
  free_nodes-none ptr n [] e i = absurd i
  free_nodes-none ptr n (late ∷ rest) e (inl same) = ground arith
  free_nodes-none ptr n (late ∷ rest) e (inr i) = ground (arith, free_from-none ptr late n rest)

  header_size-In :
      (raw : ℕ → Option ℕ) (n : Node) (ns : List Node)
      → IsTidy end ns
      → In n ns
      → header_size raw (n.addr + node_size) ns ≡ some n.size
  unfolding header_size
  header_size-In raw n [] t i = absurd i
  header_size-In raw n (m ∷ ms) t (inl same) = ground arith
  header_size-In raw n (m ∷ ms) t (inr i) =
      ground (arith, In-le end n ms t.2 i, header_size-In raw n ms t.2 i)

-- No block begins where the header is read outside of the list.
header_size-none :
    (raw : ℕ → Option ℕ) (ptr : ℕ) (ns : List Node)
    → header_size raw ptr ns ≡ none
    → (raw ptr ≡ none) × ((n : Node) → In n ns → n.addr + node_size ≢ ptr)
unfolding header_size
header_size-none raw ptr [] e = (e, λ n i. absurd i)
header_size-none raw ptr (m ∷ ms) e = elim (Bool-cases (m.addr + node_size == ptr)) [
  | inl b ↦ absurd (ground arith)
  | inr b ↦
      let (unmapped, apart) = header_size-none raw ptr ms (ground arith) in
      (unmapped, λ n i. elim i [ inl same ↦ ground arith | inr later ↦ apart n later ])
]

-- What a caller of `mem_free` gets.
pub data Freed (raw : ℕ → Option ℕ) (s : State) (ptr : ℕ) : Outcome ℤ → Type 0 where
  nothing : ptr ≡ 0 → Freed raw s ptr (returns (record s { m_error = no_error }) (pos 0))
  refused :
      ((n : Node) → In n s.nodes → n.size ≡ 0 → n.addr + node_size ≢ ptr)
      → Freed raw s ptr (returns (record s { m_error = e_bad_pointer }) minus_one)
  faulted :
      raw ptr ≡ none
      → ((n : Node) → In n s.nodes → n.addr + node_size ≢ ptr)
      → Freed raw s ptr faults
  freed :
      {ms : List Node}
      → ptr ≢ 0
      → Released (region_end s) ptr s.nodes ms
      → Freed raw s ptr (returns (record s { m_error = no_error; nodes = ms }) (pos 0))

module _ (raw : ℕ → Option ℕ) (s : State) (ptr : ℕ) where
  mem_free_of_bad :
      ptr ≢ 0
      → {z : ℕ} → header_size raw ptr s.nodes ≡ some z
      → (z ≢ 0) ⊎ (free_nodes (region_end s) ptr s.nodes ≡ none)
      → mem_free raw s ptr ≡ bad_pointer s
  unfolding mem_free
  mem_free_of_bad h e c = ground arith

  mem_free_of_none :
      ptr ≢ 0
      → header_size raw ptr s.nodes ≡ none
      → (mem_free raw s ptr ≡ faults) ⊎ ((s.nodes ≡ []) × (mem_free raw s ptr ≡ bad_pointer s))
  unfolding mem_free
  mem_free_of_none h e = elim (List-cases s.nodes) [
    | inl nil ↦ inr (nil, ground arith)
    | inr (m, ms, cons) ↦ inl (ground arith)
  ]

  mem_free_of_some :
      {ms : List Node}
      → ptr ≢ 0
      → header_size raw ptr s.nodes ≡ some 0
      → free_nodes (region_end s) ptr s.nodes ≡ some ms
      → mem_free raw s ptr ≡ returns (record s { m_error = no_error; nodes = ms }) (pos 0)
  unfolding mem_free free_nodes
  mem_free_of_some h z e = ground arith

  mem_free_of_null :
      ptr ≡ 0 → mem_free raw s ptr ≡ returns (record s { m_error = no_error }) (pos 0)
  unfolding mem_free
  mem_free_of_null h = ground arith

-- On a valid region `mem_free` returns, for every pointer, unless no block begins at the pointer and
-- no memory is mapped sixteen bytes in front of it: there it may fault. On a null pointer
-- nothing happens. If no block in use begins at the pointer it may report E_BAD_POINTER and leaves
-- the region alone. Otherwise the block is no longer in use and every other block in use keeps its
-- place and length; only a block of no bytes may stay.
pub mem_free-Freed :
    (raw : ℕ → Option ℕ) (s : State) (ptr : ℕ) → IsValid s → Freed raw s ptr (mem_free raw s ptr)
unfolding bad_pointer
mem_free-Freed raw s ptr v = elim (ℕ_discrete ptr 0) [
  | yes z ↦ rw (mem_free_of_null raw s ptr z) (nothing z)
  | no h ↦ elim (Option-cases (header_size raw ptr s.nodes)) [
    | inl e ↦
        let (unmapped, apart) = header_size-none raw ptr s.nodes e in
        elim (mem_free_of_none raw s ptr h e) [
          | inl f ↦ rw f (faulted unmapped apart)
          | inr (_, f) ↦ rw f (refused λ n i _. apart n i)
        ]
    | inr (size, z) ↦ elim (ℕ_discrete size 0) [
      | no used ↦ rw (mem_free_of_bad raw s ptr h z (inl used)) (
          refused λ n i free at.
            let read = header_size-In (region_end s) raw n s.nodes v.tidy i in
            let read' : header_size raw ptr s.nodes ≡ some n.size =
              subst (λ x. header_size raw x s.nodes ≡ some n.size) at read in
            used (cc))
      | yes zero_size ↦ elim (Option-cases (free_nodes (region_end s) ptr s.nodes)) [
        | inl e ↦
            rw (mem_free_of_bad raw s ptr h z (inr e))
              (refused λ n i _. free_nodes-none (region_end s) ptr n s.nodes e i)
        | inr (ms, e) ↦
            let z' : header_size raw ptr s.nodes ≡ some 0 = cc in
            rw (mem_free_of_some raw s ptr h z' e)
              (freed h (free_nodes-Released (region_end s) raw ptr s.nodes v.tidy z' e))
      ]
    ]
  ]
]

-- Whatever the pointer, `mem_free` keeps the region valid where it returns: the blocks fill it without gap or
-- overlap, and after the merges no two free blocks are neighbours.
pub mem_free-IsValid :
    (raw : ℕ → Option ℕ) (s : State) (ptr : ℕ) → IsValid s → Keeps (mem_free raw s ptr)
unfolding bad_pointer
mem_free-IsValid raw s ptr v = elim (ℕ_discrete ptr 0) [
  | yes z ↦ rw (mem_free_of_null raw s ptr z) (record { tidy = v.tidy; starts = v.starts })
  | no h ↦ elim (Option-cases (header_size raw ptr s.nodes)) [
    | inl e ↦ elim (mem_free_of_none raw s ptr h e) [
      | inl f ↦ rw f tt
      | inr (_, f) ↦ rw f (record { tidy = v.tidy; starts = v.starts })
    ]
    | inr (size, z) ↦ elim (ℕ_discrete size 0) [
      | no used ↦
          rw (mem_free_of_bad raw s ptr h z (inl used))
            (record { tidy = v.tidy; starts = v.starts })
      | yes zero_size ↦ elim (Option-cases (free_nodes (region_end s) ptr s.nodes)) [
        | inl e ↦
            rw (mem_free_of_bad raw s ptr h z (inr e)) (record { tidy = v.tidy; starts = v.starts })
        | inr (ms, e) ↦
            let z' : header_size raw ptr s.nodes ≡ some 0 = cc in
            let (tidy, first) = free_nodes-IsTidy (region_end s) raw ptr s.nodes v.tidy z' e in
            rw (mem_free_of_some raw s ptr h z' e)
              (record { tidy = tidy; starts = first ∙ v.starts })
      ]
    ]
  ]
]

alloc_aligned_of_some :
    (s : State) (size : ℕ) (style : Style) {first : Node} {rest : List Node}
    → find_first size s.nodes ≡ some (first, rest)
    → alloc_aligned s size style
      ≡ returns
          (record s {
            m_error = no_error;
            nodes = place size (choose size style first rest).addr s.nodes;
          })
          (some ((choose size style first rest).addr + node_size))
unfolding alloc_aligned
alloc_aligned_of_some s size style f = rw (f, alloc_aligned)

alloc_aligned_of_none :
    (s : State) (size : ℕ) (style : Style)
    → find_first size s.nodes ≡ none
    → alloc_aligned s size style ≡ returns (record s { m_error = e_no_space }) none
unfolding alloc_aligned
alloc_aligned_of_none s size style f = rw (f, alloc_aligned)

returns-injective :
    {s t : State} {p q : ℕ} → returns s (some p) ≡ returns t (some q) → (t ≡ s) × (q ≡ p)
returns-injective e = (cc, cc)

mem_free-alloc_aligned :
    (raw : ℕ → Option ℕ) (s : State) (size : ℕ) (style : Style) {s' : State} {p : ℕ}
    → IsValid s
    → 0 < size
    → alloc_aligned s size style ≡ returns s' (some p)
    → mem_free raw s' p ≡ returns (record s { m_error = no_error }) (pos 0)
mem_free-alloc_aligned raw s size style v h e = elim (Option-cases (find_first size s.nodes)) [
  | inl f ↦ absurd (cc (alloc_aligned_of_none s size style f))
  | inr ((first, rest), f) ↦
      let t : Node = choose size style first rest in
      let c = choose-Chosen style size s.nodes f in
      let (state, ptr) = returns-injective (sym (alloc_aligned_of_some s size style f) ∙ e) in
      rw (state, ptr)
        (mem_free_of_some raw (record s { m_error = no_error; nodes = place size t.addr s.nodes })
          (t.addr + node_size) (omega arith)
          (header_size-place (region_end s) size h t c.room raw s.nodes v.tidy c.within)
          (free_nodes-place (region_end s) size h t c.room s.nodes v.tidy c.within))
]

-- Freeing what `mem_alloc` has just returned restores the region node for node: on a valid region,
-- for a size that rounds up to a positive number, and whatever the style was.
pub mem_free-mem_alloc :
    (raw : ℕ → Option ℕ) (s : State) (size : ℤ) (style : Style) (n : ℕ) {s' : State} {p : ℕ}
    → IsValid s
    → align8 size ≡ some n
    → 0 < n
    → mem_alloc s size style ≡ returns s' (some p)
    → mem_free raw s' p ≡ returns (record s { m_error = no_error }) (pos 0)
mem_free-mem_alloc raw s size style n v a h e = elim (List-cases s.nodes) [
  | inl nil ↦ absurd (cc (mem_alloc_of_nil s size style nil))
  | inr (m, ms, cons) ↦
      mem_free-alloc_aligned raw s n style v h (sym (mem_alloc_of_cons s size style cons a) ∙ e)
]
