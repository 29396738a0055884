-- ===== src/Mem/Alloc.antt =====
-- What `mem_init` and `mem_alloc` do to the region.
use ecnu_2020_autumn_linux_l.Base.{
  ℕ, ◌+◌, ◌-◌, ◌≤◌, ◌<◌, ◌≡◌, ◌≢◌, refl, pos, negsuc, minus_one, int_max, ◌⊎◌, ◌%◌, inl, inr, List,
  [], ◌∷◌, Option, none, some, false, arith, All, ◌==◌, Bool-cases, Option-cases, List-cases, ltb,
  sym, if◌then◌else◌, ==_self, ap, subst, ◌∙◌,
}
use ecnu_2020_autumn_linux_l.Mem.{
  Node, node, node_size, State, region_end, mem_init, round_page, Outcome, returns, undefined,
  Style, e_no_space, no_error, e_bad_args, m_firstfit, mem_alloc, next_addr, carve, place, align8,
  alloc_aligned, find_first, choose, ℤ,
}
use ecnu_2020_autumn_linux_l.Mem.Tidy.{
  IsTidy, IsValid, Keeps, taken, In, In-le, place-IsTidy, next_addr-place,
}
use ecnu_2020_autumn_linux_l.Mem.Choice.{Chosen, choose-Chosen, find_first-none}

-- The second list is the first with one more block somewhere.
pub data IsInsert (c : ℕ × ℕ) : List (ℕ × ℕ) → List (ℕ × ℕ) → Type 0 where
  here : {xs : List (ℕ × ℕ)} → IsInsert c xs (c ∷ xs)
  there : {x : ℕ × ℕ} {xs ys : List (ℕ × ℕ)} → IsInsert c xs ys → IsInsert c (x ∷ xs) (x ∷ ys)

pub here_of_eq : (c : ℕ × ℕ) (xs ys : List (ℕ × ℕ)) → ys ≡ c ∷ xs → IsInsert c xs ys
here_of_eq c xs ys e = subst (IsInsert c xs) (sym e) here

-- Insertion behind a node that both lists begin with.
pub IsInsert-cons :
    (end : ℕ) (c : ℕ × ℕ) (n : Node) (ns ms : List Node)
    → next_addr end ns ≡ next_addr end ms
    → IsInsert c (taken end ns) (taken end ms)
    → IsInsert c (taken end (n ∷ ns)) (taken end (n ∷ ms))
IsInsert-cons end c n ns ms e i = elim (Bool-cases (n.size == 0)) [
  | inl used ↦ rw (used, e) (there i)
  | inr empty ↦ rw empty i
]

-- In `ms` the block at `t` is in use, which was not in `ns`, with at least `size` bytes and at most
-- a header more; the other blocks in use are the same.
pub record Grant (end size t : ℕ) (ns ms : List Node) : Type 0 where
  pub len : ℕ
  pub enough : size ≤ len
  pub tight : len ≤ size + node_size
  pub inserted : IsInsert (t + node_size, len) (taken end ns) (taken end ms)

module _ (end size : ℕ) (p : 0 < size) where
  carve-Grant :
      (n : Node) (ns : List Node)
      → size ≤ n.size
      → IsTidy end (n ∷ ns)
      → Grant end size n.addr (n ∷ ns) (carve size n ns)
  unfolding carve
  carve-Grant n ns h tidy = record {
    len = if ltb node_size (n.size - size) then size else n.size;
    enough = ground arith;
    tight = ground arith;
    inserted = here_of_eq _ _ _ (ground arith);
  }

  place-Grant :
      (t : Node) (ns : List Node)
      → size ≤ t.size
      → IsTidy end ns
      → In t ns
      → Grant end size t.addr ns (place size t.addr ns)
  unfolding place
  place-Grant t [] h tidy i = absurd i
  place-Grant t (n ∷ ns) h tidy (inl e) =
      subst
        (λ (a : ℕ).
          Grant end size a (n ∷ ns) (if n.addr == a then carve size n ns else n ∷ place size a ns))
        (ap (λ (m : Node). m.addr) (sym e))
        (subst (Grant end size n.addr (n ∷ ns)) (rw ==_self) (carve-Grant n ns (ground arith) tidy))
  place-Grant t (n ∷ ns) h tidy (inr i) =
      let g = place-Grant t ns h tidy.2 i in
      let apart : (n.addr == t.addr) ≡ false = ground (arith, In-le end t ns tidy.2 i) in
      record {
        len = g.len;
        enough = g.enough;
        tight = g.tight;
        inserted = rw apart (
            IsInsert-cons end _ n ns (place size t.addr ns)
              (sym (next_addr-place end size t.addr ns)) g.inserted);
      }

-- What a caller of `mem_alloc` gets for a request of `size` bytes, after rounding.
pub data Allocated (s : State) (size : ℕ) (style : Style) : Outcome (Option ℕ) → Type 0 where
  refused :
      All (λ n. n.size < size) s.nodes
      → Allocated s size style (returns (record s { m_error = e_no_space }) none)
  granted :
      {t : Node} {ms : List Node}
      → Chosen style size t s.nodes
      → Grant (region_end s) size t.addr s.nodes ms
      → Allocated s size style
          (returns (record s { m_error = no_error; nodes = ms }) (some (t.addr + node_size)))

alloc_aligned-Allocated :
    (s : State) (size : ℕ) (style : Style)
    → 0 < size
    → IsValid s
    → Allocated s size style (alloc_aligned s size style)
unfolding alloc_aligned
alloc_aligned-Allocated s size style p v = elim (Option-cases (find_first size s.nodes)) [
  | inl e ↦ rw (e, alloc_aligned) (refused (find_first-none size s.nodes e))
  | inr ((first, rest), e) ↦
      let c = choose-Chosen style size s.nodes e in
      rw (e, alloc_aligned)
        (granted c (place-Grant (region_end s) size p _ s.nodes c.room v.tidy c.within))
]

pub mem_alloc_of_nil :
    (s : State) (size : ℤ) (style : Style)
    → s.nodes ≡ []
    → mem_alloc s size style ≡ returns (record s { m_error = e_no_space }) none
unfolding mem_alloc
mem_alloc_of_nil s size style e = ground arith

pub mem_alloc_of_cons :
    (s : State) (size : ℤ) (style : Style) {n : ℕ} {m : Node} {ms : List Node}
    → s.nodes ≡ m ∷ ms
    → align8 size ≡ some n
    → mem_alloc s size style ≡ alloc_aligned s n style
unfolding mem_alloc
mem_alloc_of_cons s size style e a = ground arith

mem_alloc_of_undefined :
    (s : State) (size : ℤ) (style : Style) {m : Node} {ms : List Node}
    → s.nodes ≡ m ∷ ms
    → align8 size ≡ none
    → mem_alloc s size style ≡ undefined
unfolding mem_alloc
mem_alloc_of_undefined s size style e a = ground arith

-- On a valid region, and for a size that rounds up to the positive `n`, `mem_alloc` always
-- returns. Either no free block has `n` bytes, and it reports E_NO_SPACE and leaves the region
-- alone; or it returns a pointer into a free block that is large enough and that its style asks
-- for (the smallest that fits, the largest, the first), and then that block is in use with at least
-- `n` and at most `n + 16` bytes while every other block in use keeps its place and length.
pub mem_alloc-Allocated :
    (s : State) (size : ℤ) (style : Style) (n : ℕ)
    → IsValid s
    → align8 size ≡ some n
    → 0 < n
    → Allocated s n style (mem_alloc s size style)
mem_alloc-Allocated s size style n v e p = elim (List-cases s.nodes) [
  | inl nil ↦
      rw (mem_alloc_of_nil s size style nil) (refused (subst (All (λ m. m.size < n)) (sym nil) tt))
  | inr (m, ms, cons) ↦
      rw (mem_alloc_of_cons s size style cons e) (alloc_aligned-Allocated s n style p v)
]

alloc_aligned-IsValid :
    (s : State) (size : ℕ) (style : Style) → IsValid s → Keeps (alloc_aligned s size style)
unfolding alloc_aligned
alloc_aligned-IsValid s size style v = elim (Option-cases (find_first size s.nodes)) [
  | inl e ↦ rw (e, alloc_aligned) (record { tidy = v.tidy; starts = v.starts })
  | inr ((first, rest), e) ↦
      rw (e, alloc_aligned)
        (record {
          tidy = place-IsTidy (region_end s) size _ s.nodes v.tidy;
          starts = next_addr-place (region_end s) size _ s.nodes ∙ v.starts;
        })
]

-- Whatever its arguments, `mem_alloc` keeps the region valid where its behaviour is defined: the
-- blocks fill it without gap or overlap, and no two free blocks are neighbours.
pub mem_alloc-IsValid :
    (s : State) (size : ℤ) (style : Style) → IsValid s → Keeps (mem_alloc s size style)
mem_alloc-IsValid s size style v = elim (List-cases s.nodes) [
  | inl nil ↦ rw (mem_alloc_of_nil s size style nil) (record { tidy = v.tidy; starts = v.starts })
  | inr (m, ms, cons) ↦ elim (Option-cases (align8 size)) [
    | inl e ↦ rw (mem_alloc_of_undefined s size style cons e) tt
    | inr (n, e) ↦ rw (mem_alloc_of_cons s size style cons e) (alloc_aligned-IsValid s n style v)
  ]
]

round_page-le : (page n : ℕ) → 0 < page → n ≤ round_page page n
unfolding round_page
round_page-le page n h = ground arith

-- In a program that has not called it with success, for a size above a header whose round-up to
-- pages is an `int`, and if the mapping succeeds, `mem_init` returns 0, and the region is valid and
-- one free block of all its bytes but the header.
mem_init-IsValid :
    (page : ℕ) (mmap : ℕ → Option ℕ) (s : State) (n head : ℕ)
    → 0 < page
    → node_size < n
    → s.once ≢ 1
    → round_page page n ≤ int_max
    → mmap (round_page page n) ≡ some head
    → (s' : State) × (mem_init page mmap s (pos n) ≡ returns s' (pos 0))
      × IsValid s'
      × (taken (region_end s') s'.nodes ≡ [])
      × (s'.nodes ≡ node head (round_page page n - node_size) ∷ [])
unfolding mem_init
mem_init-IsValid page mmap s n head h big fresh fits e =
    let room = round_page-le page n h in
    (
      record {
        m_error = no_error;
        once = 1;
        base = head;
        sum_size = round_page page n;
        nodes = node head (round_page page n - node_size) ∷ [];
      },
      ground arith,
      record { tidy = ground arith; starts = refl },
      ground arith,
      refl,
    )

-- `mem_init` refuses a region of at most 0 bytes, and every call after the first success.
mem_init-refuses :
    (page : ℕ) (mmap : ℕ → Option ℕ) (s : State) (size : ℤ)
    → (size ≡ pos 0) ⊎ ((k : ℕ) × (size ≡ negsuc k)) ⊎ (s.once ≡ 1)
    → mem_init page mmap s size ≡ returns (record s { m_error = e_bad_args }) minus_one
unfolding mem_init
mem_init-refuses page mmap s (pos n) c = ground arith
mem_init-refuses page mmap s (negsuc n) c = refl

-- A rounded size is the least multiple of 8 that is not below the request.
align8_bounds :
    (n r : ℕ) → align8 (pos n) ≡ some r → (n ≤ r) × (r < n + 8) × (r % 8 ≡ 0) × (r ≤ int_max)
unfolding align8
align8_bounds n r e = ground arith

-- A first-fit request of 0 bytes on a region whose first block is in use is answered with the
-- pointer to that block: two callers share its bytes, and the region does not change.
mem_alloc_zero :
    (s : State) (n : Node) (ns : List Node)
    → s.nodes ≡ n ∷ ns
    → n.size ≡ 0
    → mem_alloc s (pos 0) m_firstfit
      ≡ returns (record s { m_error = no_error }) (some (n.addr + node_size))
unfolding mem_alloc alloc_aligned find_first choose place carve align8
mem_alloc_zero s n ns e z = ground arith
