-- ===== src/Mem/Restore.antt =====
-- `mem_free` undoes `mem_alloc`: the region comes back node for node.
use ecnu_2020_autumn_linux_l.Base.{
  Option, ℕ, ◌+◌, ◌≤◌, ◌<◌, ◌≡◌, inl, inr, List, [], ◌∷◌, some, arith, ==_self, ==_of_ne,
}
use ecnu_2020_autumn_linux_l.Mem.{
  Node, node_size, next_addr, merge_next, carve, place, free_from, free_nodes, merge_both,
  header_size,
}
use ecnu_2020_autumn_linux_l.Mem.Tidy.{IsTidy, In, In-le}

module _ (end size : ℕ) (p : 0 < size) (t : Node) (room : size ≤ t.size) where
  merge_carve :
      (n : Node) (ns : List Node)
      → size ≤ n.size
      → IsTidy end (n ∷ ns)
      → free_nodes end (n.addr + node_size) (carve size n ns) ≡ some (n ∷ ns)
  unfolding free_nodes carve merge_next
  merge_carve n [] h tidy = ground arith
  merge_carve n (m ∷ ms) h tidy = ground arith

  free_from-carve :
      (pre n : Node) (ns : List Node)
      → pre.size ≡ 0
      → size ≤ n.size
      → IsTidy end (n ∷ ns)
      → free_from end (n.addr + node_size) pre (carve size n ns) ≡ some (pre ∷ n ∷ ns)
  unfolding free_from carve merge_both merge_next
  free_from-carve pre n [] z h tidy = ground arith
  free_from-carve pre n (m ∷ ms) z h tidy = ground arith

  free_from-place :
      (pre : Node) (ns : List Node)
      → IsTidy end (pre ∷ ns)
      → In t ns
      → free_from end (t.addr + node_size) pre (place size t.addr ns) ≡ some (pre ∷ ns)
  unfolding place free_from
  free_from-place pre [] tidy i = absurd i
  free_from-place pre (n ∷ ns) tidy (inl e) =
      let fits : size ≤ n.size = ground arith in
      rw (e, ==_self) (free_from-carve pre n ns (omega arith) fits tidy.2)
  free_from-place pre (n ∷ ns) tidy (inr i) =
      let above : next_addr end ns ≤ t.addr = In-le end t ns tidy.2.2 i in
      rw (
        ==_of_ne n.addr t.addr (omega arith),
        ==_of_ne (n.addr + node_size) (t.addr + node_size) (omega arith),
        free_from-place n ns tidy.2 i,
      )

  pub free_nodes-place :
      (ns : List Node)
      → IsTidy end ns
      → In t ns
      → free_nodes end (t.addr + node_size) (place size t.addr ns) ≡ some ns
  unfolding place free_nodes
  free_nodes-place [] tidy i = absurd i
  free_nodes-place (n ∷ ns) tidy (inl e) =
      let fits : size ≤ n.size = ground arith in rw (e, ==_self) (merge_carve n ns fits tidy)
  free_nodes-place (n ∷ ns) tidy (inr i) =
      let above : next_addr end ns ≤ t.addr = In-le end t ns tidy.2 i in
      rw
        (
          ==_of_ne n.addr t.addr (omega arith),
          ==_of_ne (n.addr + node_size) (t.addr + node_size) (omega arith),
        )
        (free_from-place n ns tidy i)

  pub header_size-place :
      (raw : ℕ → Option ℕ) (ns : List Node)
      → IsTidy end ns
      → In t ns
      → header_size raw (t.addr + node_size) (place size t.addr ns) ≡ some 0
  unfolding place header_size carve
  header_size-place raw [] tidy i = absurd i
  header_size-place raw (n ∷ ns) tidy (inl e) = ground arith
  header_size-place raw (n ∷ ns) tidy (inr i) =
      ground (arith, In-le end t ns tidy.2 i, header_size-place raw ns)
