-- ===== src/Mem/Release.antt =====
-- What `mem_free` does to the blocks in use.
use ecnu_2020_autumn_linux_l.Base.{
  Option, ℕ, ◌+◌, ◌-◌, ◌≡◌, ◌≢◌, ◌⊎◌, inl, inr, sym, subst, List, [], ◌∷◌, some, arith, ◌==◌,
  Bool-cases, Option-cases,
}
use ecnu_2020_autumn_linux_l.Mem.{
  Node, node, node_size, next_addr, reclaimed, merge_next, merge_both, free_from, free_nodes,
  header_size,
}
use ecnu_2020_autumn_linux_l.Mem.Alloc.{IsInsert, there, here_of_eq, IsInsert-cons}
use ecnu_2020_autumn_linux_l.Mem.Merge.{merge_next-IsTidy, free_from-IsTidy}
use ecnu_2020_autumn_linux_l.Mem.Tidy.{IsTidy, taken}

-- What freeing the block at `ptr` makes of the blocks in use: it is gone and the others are the
-- same; or it had no byte, and the region is left as it was.
abbrev pub Released : ℕ → ℕ → List Node → List Node → Type 0
Released end ptr ns ms =
    ((len : ℕ) × IsInsert (ptr, len) (taken end ms) (taken end ns))
    ⊎ (((xs : List (ℕ × ℕ)) × IsInsert (ptr, 0) xs (taken end ns)) × (ms ≡ ns))

module _ (end : ℕ) where
  taken-merge_next :
      (late : Node) (rest : List Node)
      → late.size ≢ 0
      → taken end (merge_next late rest) ≡ taken end rest
  unfolding merge_next
  taken-merge_next late [] h = ground arith
  taken-merge_next late (n ∷ ns) h = ground arith

  merge_next-reclaimed :
      (late : Node) (rest : List Node)
      → late.size ≡ 0
      → IsTidy end (late ∷ rest)
      → (taken end (merge_next (reclaimed end late rest) rest) ≡ taken end rest)
        ⊎ ((merge_next (reclaimed end late rest) rest ≡ late ∷ rest)
            × (next_addr end rest - late.addr - node_size ≡ 0))
  unfolding merge_next
  merge_next-reclaimed late [] z t = ground arith
  merge_next-reclaimed late (n ∷ ns) z t = ground arith

  Released-here :
      (late : Node) (rest : List Node)
      → late.size ≡ 0
      → IsTidy end (late ∷ rest)
      → Released end
          (late.addr + node_size)
          (late ∷ rest)
          (merge_next (reclaimed end late rest) rest)
  Released-here late rest z t = elim (merge_next-reclaimed late rest z t) [
    | inl e ↦ inl ((reclaimed end late rest).size, here_of_eq _ _ _ (ground arith))
    | inr (e, empty) ↦ inr ((taken end rest, here_of_eq _ _ _ (ground arith)), e)
  ]

  Has-cons :
      (ptr : ℕ) (n : Node) (ns : List Node) (xs : List (ℕ × ℕ))
      → IsInsert (ptr, 0) xs (taken end ns)
      → (ys : List (ℕ × ℕ)) × IsInsert (ptr, 0) ys (taken end (n ∷ ns))
  Has-cons ptr n ns xs i = elim (Bool-cases (n.size == 0)) [
    | inl used ↦
        ((n.addr + node_size, next_addr end ns - n.addr - node_size) ∷ xs, rw used (there i))
    | inr idle ↦ (xs, rw idle i)
  ]

  Released-cons :
      (ptr : ℕ) (n : Node) (ns ms : List Node)
      → next_addr end ms ≡ next_addr end ns
      → Released end ptr ns ms
      → Released end ptr (n ∷ ns) (n ∷ ms)
  Released-cons ptr n ns ms e (inl (len, i)) = inl (len, IsInsert-cons end _ n ms ns e i)
  Released-cons ptr n ns ms e (inr ((xs, i), same)) = inr (Has-cons ptr n ns xs i, rw same)

  Released-both :
      (pre late : Node) (rest : List Node)
      → late.size ≡ 0
      → IsTidy end (pre ∷ late ∷ rest)
      → Released end
          (late.addr + node_size)
          (pre ∷ late ∷ rest)
          (merge_both pre (reclaimed end late rest) rest)
  unfolding merge_both
  Released-both pre late rest z t = elim (Bool-cases (pre.size == 0)) [
    | inl used ↦
        let e : merge_both pre (reclaimed end late rest) rest
            ≡ pre ∷ merge_next (reclaimed end late rest) rest =
          rw used in
        let (_, starts) =
          merge_next-IsTidy end (reclaimed end late rest) rest (omega arith) t.2.2 in
        subst (Released end (late.addr + node_size) (pre ∷ late ∷ rest)) (sym e)
          (Released-cons _ pre (late ∷ rest) _ starts (Released-here late rest z t.2))
    | inr idle ↦
        let whole : Node =
          node pre.addr (pre.size + ((reclaimed end late rest).size + node_size)) in
        let e : merge_both pre (reclaimed end late rest) rest ≡ merge_next whole rest = rw idle in
        subst (Released end (late.addr + node_size) (pre ∷ late ∷ rest)) (sym e) (
          inl (
            (reclaimed end late rest).size,
            here_of_eq _ _ _ (ground (arith, taken-merge_next whole rest)),
          ))
  ]

  free_from-Released :
      (raw : ℕ → Option ℕ) (ptr : ℕ) (pre : Node) (rest : List Node) {ms : List Node}
      → IsTidy end (pre ∷ rest)
      → header_size raw ptr rest ≡ some 0
      → free_from end ptr pre rest ≡ some ms
      → Released end ptr (pre ∷ rest) ms
  unfolding free_from header_size
  free_from-Released raw ptr pre [] t z e = cc
  free_from-Released raw ptr pre (late ∷ rest) {ms} t z e =
      elim (Bool-cases (late.addr + node_size == ptr)) [
        | inl hit ↦
            let done : ms ≡ merge_both pre (reclaimed end late rest) rest = ground arith in
            let at : late.addr + node_size ≡ ptr = ground arith in
            rw (done, ← at) (Released-both pre late rest (ground arith) t)
        | inr miss ↦ elim (Option-cases (free_from end ptr late rest)) [
          | inl f ↦ absurd (ground arith)
          | inr (ns, f) ↦
              let done : ms ≡ pre ∷ ns = ground arith in
              let (_, starts, _) = free_from-IsTidy end raw ptr late rest t.2 (ground arith) f in
              rw done (
                Released-cons ptr pre (late ∷ rest) ns starts
                  (free_from-Released raw ptr late rest t.2 (ground arith) f))
        ]
      ]

  pub free_nodes-Released :
      (raw : ℕ → Option ℕ) (ptr : ℕ) (ns : List Node) {ms : List Node}
      → IsTidy end ns
      → header_size raw ptr ns ≡ some 0
      → free_nodes end ptr ns ≡ some ms
      → Released end ptr ns ms
  unfolding free_nodes header_size
  free_nodes-Released raw ptr [] t z e = cc
  free_nodes-Released raw ptr (late ∷ rest) {ms} t z e =
      elim (Bool-cases (late.addr + node_size == ptr)) [
        | inl hit ↦
            let done : ms ≡ merge_next (reclaimed end late rest) rest = ground arith in
            let at : late.addr + node_size ≡ ptr = ground arith in
            rw (done, ← at) (Released-here late rest (ground arith) t)
        | inr miss ↦ free_from-Released raw ptr late rest t (ground arith) (ground arith)
      ]
