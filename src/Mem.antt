-- ===== src/Mem.antt =====
-- mem.c of Project2/2a Dynamic Memory Allocation: the globals, `mem_init`, `mem_alloc` and
-- `mem_free`. The headers that `_head_` leads to are a list in the order of their `next` fields; a
-- header is its address and its `size` field, which is 0 in a block that is in use.
pub mod Tidy
pub mod Choice
pub mod Alloc
pub mod Merge
pub mod Release
pub mod Free
pub mod Restore
mod Tests
use ecnu_2020_autumn_linux_l.Base.{
  ℕ, ◌+◌, ◌-◌, ◌%◌, ◌&&◌, ◌||◌, Option, none, some, List, [], ◌∷◌, ltb, leb, ◌==◌, if◌then◌else◌, ℤ,
  pos, negsuc, minus_one, int_max,
}

-- `node`
pub record Node : Type 0 where
  pub addr : ℕ
  pub size : ℕ

abbrev pub node : ℕ → ℕ → Node
node a n = record { addr = a; size = n }

abbrev pub node_size : ℕ
node_size = 16

-- The values of `m_error`.
pub data Error : Type 0 where
  no_error e_no_space e_corrupt_freespace e_padding_overwritten e_bad_args e_bad_pointer : Error

pub data Style : Type 0 where
  m_bestfit m_worstfit m_firstfit : Style

-- The globals. `_head_` is null exactly if `nodes` is empty, and `_head_ + sumSize` is `region_end`.
pub record State : Type 0 where
  pub m_error : Error
  pub once : ℕ
  pub base : ℕ
  pub sum_size : ℕ
  pub nodes : List Node

abbrev pub region_end : State → ℕ
region_end s = s.base + s.sum_size

-- `undefined`: the C code overflows an `int`, or goes on with a negative size. `faults`: it reads an
-- address that is not mapped.
pub data Outcome (A : Type 0) : Type 0 where
  returns : State → A → Outcome A
  exits : ℕ → Outcome A
  undefined : Outcome A
  faults : Outcome A

-- the globals before the first call
abbrev pub initial : State
initial = record { m_error = no_error; once = 0; base = 0; sum_size = 0; nodes = [] }

pub round_page : ℕ → ℕ → ℕ
round_page page n = if n % page == 0 then n else n + (page - n % page)

-- `mmap` is the answer of the system: the address, or `none` for MAP_FAILED.
pub mem_init : (page : ℕ) (mmap : ℕ → Option ℕ) → State → ℤ → Outcome ℤ
unfolding round_page
mem_init page mmap s (negsuc _) = returns (record s { m_error = e_bad_args }) minus_one
mem_init page mmap s (pos n) =
    if (n == 0) || (s.once == 1)
    then returns (record s { m_error = e_bad_args }) minus_one
    else let sum_size = round_page page n in
      if ltb int_max sum_size then undefined else elim (mmap sum_size) [
        | none ↦ exits 1
        | some head ↦
            returns
              (record {
                m_error = no_error;
                once = 1;
                base = head;
                sum_size = sum_size;
                nodes = node head (sum_size - node_size) ∷ [];
              })
              (pos 0)
      ]

-- `size` rounded up to a multiple of 8 as C computes it, where `%` takes the sign of its left
-- operand: -3 becomes 8. `none`: the result is negative or no `int`.
pub align8 : ℤ → Option ℕ
align8 (pos n) =
    let r = (if n % 8 == 0 then n else n + (8 - n % 8)) in if leb r int_max then some r else none
align8 (negsuc n) =
    let k = n + 1 in
    if k % 8 == 0 then none else if leb k (8 + k % 8) then some (8 + k % 8 - k) else none

-- The first loop: the first node that is large enough, and the nodes behind it.
pub find_first : ℕ → List Node → Option (Node × List Node)
find_first size [] = none
find_first size (n ∷ ns) = if leb size n.size then some (n, ns) else find_first size ns

pub best_loop : ℕ → List Node → Node → Node
best_loop size [] target = target
best_loop size (n ∷ ns) target =
    best_loop size ns (if leb size n.size && ltb n.size target.size then n else target)

pub worst_loop : List Node → Node → Node
worst_loop [] target = target
worst_loop (n ∷ ns) target = worst_loop ns (if ltb target.size n.size then n else target)

pub choose : ℕ → Style → Node → List Node → Node
unfolding best_loop worst_loop
choose size m_bestfit target rest = best_loop size rest target
choose size m_worstfit target rest = worst_loop rest target
choose size m_firstfit target rest = target

-- What becomes of the target: it is split where more than a header is left, and taken.
pub carve : ℕ → Node → List Node → List Node
carve size n ns =
    if ltb node_size (n.size - size)
    then node n.addr 0 ∷ node (n.addr + size + node_size) (n.size - (size + node_size)) ∷ ns
    else node n.addr 0 ∷ ns

-- The writes through `target`, which is found again by its address.
pub place : ℕ → ℕ → List Node → List Node
unfolding carve
place size target [] = []
place size target (n ∷ ns) = if n.addr == target then carve size n ns else n ∷ place size target ns

pub alloc_aligned : State → ℕ → Style → Outcome (Option ℕ)
unfolding find_first choose place
alloc_aligned s size style = elim (find_first size s.nodes) [
  | none ↦ returns (record s { m_error = e_no_space }) none
  | some (first, rest) ↦
      let target = choose size style first rest in
      returns (record s { m_error = no_error; nodes = place size target.addr s.nodes })
        (some (target.addr + node_size))
]

pub mem_alloc : State → ℤ → Style → Outcome (Option ℕ)
unfolding alloc_aligned align8
mem_alloc s size style = elim s.nodes [
  | [] ↦ returns (record s { m_error = e_no_space }) none
  | _ ∷ _ ↦ elim (align8 size) [ none ↦ undefined | some n ↦ alloc_aligned s n style ]
]

-- The address behind a block: `late->next`, or the end of the region.
abbrev pub next_addr : ℕ → List Node → ℕ
next_addr end [] = end
next_addr end (n ∷ _) = n.addr

-- `late->size` as `mem_free` sets it.
abbrev pub reclaimed : ℕ → Node → List Node → Node
reclaimed end n ns = node n.addr (next_addr end ns - n.addr - node_size)

pub merge_next : Node → List Node → List Node
merge_next late [] = late ∷ []
merge_next late (n ∷ ns) =
    if n.size == 0 then late ∷ n ∷ ns else node late.addr (late.size + (n.size + node_size)) ∷ ns

pub merge_both : Node → Node → List Node → List Node
unfolding merge_next
merge_both pre late rest =
    if pre.size == 0
    then pre ∷ merge_next late rest
    else merge_next (node pre.addr (pre.size + (late.size + node_size))) rest

-- The loop, behind the node `pre`: the list from `pre` on, or `none` if no block begins at `ptr`.
pub free_from : ℕ → ℕ → Node → List Node → Option (List Node)
unfolding merge_both
free_from end ptr pre [] = none
free_from end ptr pre (late ∷ rest) =
    if late.addr + node_size == ptr
    then some (merge_both pre (reclaimed end late rest) rest)
    else elim (free_from end ptr late rest) [ none ↦ none | some ns ↦ some (pre ∷ ns) ]

pub free_nodes : ℕ → ℕ → List Node → Option (List Node)
unfolding free_from merge_next
free_nodes end ptr [] = none
free_nodes end ptr (late ∷ rest) =
    if late.addr + node_size == ptr
    then some (merge_next (reclaimed end late rest) rest)
    else free_from end ptr late rest

-- `hptr->size`: of a header, or whatever bytes lie in front of `ptr`.
pub header_size : (raw : ℕ → Option ℕ) → ℕ → List Node → Option ℕ
header_size raw ptr [] = raw ptr
header_size raw ptr (n ∷ ns) =
    if n.addr + node_size == ptr then some n.size else header_size raw ptr ns

pub bad_pointer : State → Outcome ℤ
bad_pointer s = returns (record s { m_error = e_bad_pointer }) minus_one

-- The part of `mem_free` behind the read of `hptr->size`.
abbrev pub release : State → ℕ → Option ℕ → Outcome ℤ
release s ptr none = faults
release s ptr (some size) =
    if size == 0
    then elim (free_nodes (region_end s) ptr s.nodes) [
      | none ↦ bad_pointer s
      | some ns ↦ returns (record s { m_error = no_error; nodes = ns }) (pos 0)
    ]
    else bad_pointer s

-- `raw` gives the `int` sixteen bytes in front of an address that is no block's, or `none` where no
-- memory is mapped there.
pub mem_free : (raw : ℕ → Option ℕ) → State → ℕ → Outcome ℤ
unfolding header_size free_nodes bad_pointer
mem_free raw s ptr =
    if ptr == 0
    then returns (record s { m_error = no_error }) (pos 0)
    else elim s.nodes [ [] ↦ bad_pointer s | _ ∷ _ ↦ release s ptr (header_size raw ptr s.nodes) ]
