-- ===== src/Mem/Merge.antt =====
-- The merges of `mem_free` keep the region tidy.
use ecnu_2020_autumn_linux_l.Base.{
  Option, ℕ, ◌+◌, ◌≡◌, inl, inr, List, [], ◌∷◌, some, arith, ◌==◌, Bool-cases, Option-cases,
}
use ecnu_2020_autumn_linux_l.Mem.{
  Node, node, node_size, next_addr, reclaimed, merge_next, merge_both, free_from, free_nodes,
  header_size,
}
use ecnu_2020_autumn_linux_l.Mem.Tidy.{IsTidy, head_size}

module _ (end : ℕ) where
  pub merge_next-IsTidy :
      (late : Node) (rest : List Node)
      → late.addr + node_size + late.size ≡ next_addr end rest
      → IsTidy end rest
      → IsTidy end (merge_next late rest) × (next_addr end (merge_next late rest) ≡ late.addr)
  unfolding merge_next
  merge_next-IsTidy late [] e t = ground arith
  merge_next-IsTidy late (n ∷ ns) e t = ground arith

  merge_both-IsTidy :
      (pre late : Node) (rest : List Node)
      → IsTidy end (pre ∷ late ∷ rest)
      → late.size ≡ 0
      → IsTidy end (merge_both pre (reclaimed end late rest) rest)
        × (next_addr end (merge_both pre (reclaimed end late rest) rest) ≡ pre.addr)
  unfolding merge_both
  merge_both-IsTidy pre late rest t z = ground (
    arith,
    merge_next-IsTidy (reclaimed end late rest) rest,
    merge_next-IsTidy (node pre.addr (pre.size + ((reclaimed end late rest).size + node_size)))
        rest,
  )

  head_size-merge_both :
      (pre late : Node) (rest : List Node) → pre.size ≡ 0 → head_size (merge_both pre late rest) ≡ 0
  unfolding merge_both
  head_size-merge_both pre late rest z = ground arith

  pub free_from-IsTidy :
      (raw : ℕ → Option ℕ) (ptr : ℕ) (pre : Node) (rest : List Node) {ms : List Node}
      → IsTidy end (pre ∷ rest)
      → header_size raw ptr rest ≡ some 0
      → free_from end ptr pre rest ≡ some ms
      → IsTidy end ms × (next_addr end ms ≡ pre.addr) × (pre.size ≡ 0 → head_size ms ≡ 0)
  unfolding free_from header_size
  free_from-IsTidy raw ptr pre [] t z e = ground arith
  free_from-IsTidy raw ptr pre (late ∷ rest) {ms} t z e =
      elim (Bool-cases (late.addr + node_size == ptr)) [
        | inl hit ↦ ground (
          arith,
          merge_both-IsTidy pre late rest,
          head_size-merge_both pre (reclaimed end late rest) rest,
        )
        | inr miss ↦ elim (Option-cases (free_from end ptr late rest)) [
          | inl f ↦ ground arith
          | inr (ns, f) ↦ ground (arith, free_from-IsTidy raw ptr late rest {ms = ns} t.2)
        ]
      ]

  pub free_nodes-IsTidy :
      (raw : ℕ → Option ℕ) (ptr : ℕ) (ns : List Node) {ms : List Node}
      → IsTidy end ns
      → header_size raw ptr ns ≡ some 0
      → free_nodes end ptr ns ≡ some ms
      → IsTidy end ms × (next_addr end ms ≡ next_addr end ns)
  unfolding free_nodes header_size
  free_nodes-IsTidy raw ptr [] t z e = ground arith
  free_nodes-IsTidy raw ptr (late ∷ rest) {ms} t z e = ground (
    arith,
    merge_next-IsTidy (reclaimed end late rest) rest,
    free_from-IsTidy raw ptr late rest {ms = ms},
  )
