-- ===== src/Mem/Choice.antt =====
-- Which block the search loops of `mem_alloc` choose.
use ecnu_2020_autumn_linux_l.Base.{
  ℕ, ◌≤◌, ◌<◌, ◌≡◌, ◌⊎◌, refl, inl, inr, List, [], ◌∷◌, none, some, arith, All,
}
use ecnu_2020_autumn_linux_l.Mem.{
  Node, Style, m_bestfit, m_worstfit, m_firstfit, find_first, best_loop, worst_loop, choose,
}
use ecnu_2020_autumn_linux_l.Mem.Tidy.{In}

-- `first` is the first node of `ns` with room for `size`, and `rest` what stands behind it.
abbrev pub IsFirst : ℕ → List Node → Node → List Node → Type 0
IsFirst size [] first rest = ⊥
IsFirst size (n ∷ ns) first rest =
    ((size ≤ n.size) × (first ≡ n) × (rest ≡ ns)) ⊎ ((n.size < size) × IsFirst size ns first rest)

pub find_first-IsFirst :
    (size : ℕ) (ns : List Node) {first : Node} {rest : List Node}
    → find_first size ns ≡ some (first, rest)
    → IsFirst size ns first rest
unfolding find_first
find_first-IsFirst size [] e = ground arith
find_first-IsFirst size (n ∷ ns) {first} {rest} e =
    ground (arith, find_first-IsFirst size ns {first = first} {rest = rest})

pub find_first-none :
    (size : ℕ) (ns : List Node) → find_first size ns ≡ none → All (λ n. n.size < size) ns
unfolding find_first
find_first-none size [] e = tt
find_first-none size (n ∷ ns) e = ground (arith, find_first-none size ns)

-- What each style promises of the target, among all nodes of the region.
abbrev pub Fits : Style → ℕ → Node → List Node → Type 0
Fits m_bestfit size t ns = All (λ n. size ≤ n.size → t.size ≤ n.size) ns
Fits m_worstfit size t ns = All (λ n. n.size ≤ t.size) ns
Fits m_firstfit size t ns = (rest : List Node) × IsFirst size ns t rest

-- The state of the second loop: the target is large enough and no worse than what it replaced.
record Best (size : ℕ) (first t : Node) (ns : List Node) : Type 0 where
  room : size ≤ t.size
  better : t.size ≤ first.size
  least : All (λ n. size ≤ n.size → t.size ≤ n.size) ns
  from : (t ≡ first) ⊎ In t ns

best_loop-Best :
    (size : ℕ) (ns : List Node) (t : Node) → size ≤ t.size → Best size t (best_loop size ns t) ns
unfolding best_loop
best_loop-Best size [] t h = ground arith
best_loop-Best size (n ∷ ns) t h =
    ground (arith, best_loop-Best size ns t, best_loop-Best size ns n)

record Worst (first t : Node) (ns : List Node) : Type 0 where
  better : first.size ≤ t.size
  most : All (λ n. n.size ≤ t.size) ns
  from : (t ≡ first) ⊎ In t ns

worst_loop-Worst : (ns : List Node) (t : Node) → Worst t (worst_loop ns t) ns
unfolding worst_loop
worst_loop-Worst [] t = ground arith
worst_loop-Worst (n ∷ ns) t = ground (arith, worst_loop-Worst ns t, worst_loop-Worst ns n)

-- The target after both loops.
pub record Chosen (style : Style) (size : ℕ) (t : Node) (ns : List Node) : Type 0 where
  pub room : size ≤ t.size
  pub within : In t ns
  pub fits : Fits style size t ns

Chosen-cons :
    (style : Style) (size : ℕ) (t n : Node) (ns : List Node)
    → n.size < size
    → Chosen style size t ns
    → Chosen style size t (n ∷ ns)
Chosen-cons m_bestfit size t n ns h c = record {
  room = c.room;
  within = inr c.within;
  fits = (λ g. absurd (omega arith), c.fits);
}
Chosen-cons m_worstfit size t n ns h c = record {
  room = c.room;
  within = inr c.within;
  fits = (omega (arith, c.room), c.fits);
}
Chosen-cons m_firstfit size t n ns h c = record {
  room = c.room;
  within = inr c.within;
  fits = (c.fits.0, inr (h, c.fits.1));
}

Chosen-here :
    (style : Style) (size : ℕ) (n : Node) (ns : List Node)
    → size ≤ n.size
    → Chosen style size (choose size style n ns) (n ∷ ns)
unfolding choose
Chosen-here m_bestfit size n ns h =
    let b = best_loop-Best size ns n h in
    record { room = b.room; within = b.from; fits = (λ _. b.better, b.least) }
Chosen-here m_worstfit size n ns h =
    let b = worst_loop-Worst ns n in
    record { room = omega (arith, b.better); within = b.from; fits = (b.better, b.most) }
Chosen-here m_firstfit size n ns h = record {
  room = h;
  within = inl refl;
  fits = (ns, inl (h, refl, refl));
}

-- The search of `mem_alloc` finds a node of the list that is large enough and meets its style.
pub choose-Chosen :
    (style : Style) (size : ℕ) (ns : List Node) {first : Node} {rest : List Node}
    → find_first size ns ≡ some (first, rest)
    → Chosen style size (choose size style first rest) ns
choose-Chosen style size ns {first} {rest} e = go ns (find_first-IsFirst size ns e)
  where
    go :
        (ms : List Node)
        → IsFirst size ms first rest
        → Chosen style size (choose size style first rest) ms
    go [] i = absurd i
    go (m ∷ ms) (inl (h, p, q)) = rw (p, q) (Chosen-here style size m ms h)
    go (m ∷ ms) (inr (h, i)) = Chosen-cons style size _ m ms h (go ms i)
