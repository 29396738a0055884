-- ===== src/Vm/Walk.antt =====
-- What `walkpgdir` does to a page directory when it may create a page table.
use ecnu_2020_autumn_linux_l.Base.{
  ℕ, ◌+◌, ◌≤◌, ◌≡◌, ◌≢◌, ◌⊎◌, refl, sym, ap, subst, ◌∙◌, inl, inr, true, false, Option, none, some,
  List, [], ◌∷◌, ◌==◌, if◌then◌else◌, arith, Bool-cases, List-cases, eq_of_==, ==_self, ==_of_ne,
  ne_of_==,
}
use ecnu_2020_autumn_linux_l.Kalloc.{kalloc}
use ecnu_2020_autumn_linux_l.Kalloc.Pages.{count}
use ecnu_2020_autumn_linux_l.Vm.{
  Entry, empty, Memory, pdx, ptx, put, clear, table_entry, walkpgdir, create_table,
}
use ecnu_2020_autumn_linux_l.Vm.View.{view, IsTree}

count-head : (a p : ℕ) (ps : List ℕ) → count a (p ∷ ps) ≡ 0 → ((p == a) ≡ false) × (count a ps ≡ 0)
count-head a p ps e = elim (Bool-cases (p == a)) [
  | inl b ↦ absurd (ground arith)
  | inr b ↦ (b, ground arith)
]

-- The row of a page directory that gains the table `p` at the index `d`.
abbrev Gains : (m m' : Memory) (pgdir d p : ℕ) → Type 0
Gains m m' pgdir d p =
    (i : ℕ)
    → ((i ≡ d) × (m'.page pgdir i ≡ table_entry p)) ⊎ ((i ≢ d) × (m'.page pgdir i ≡ m.page pgdir i))

-- The free list has the page `p` first, and `m'` is a memory where it is a table of the directory.
module _ (m m' : Memory) (pgdir d p : ℕ) (h : IsTree m pgdir) (f : m.free ≡ p ∷ m'.free)
    (absent : (m.page pgdir d).present ≡ false) (row : Gains m m' pgdir d p) where
  p_ne : ((p == pgdir) ≡ false) × (count pgdir m'.free ≡ 0)
  p_ne = count-head pgdir p m'.free (subst (λ fs. count pgdir fs ≡ 0) f h.spare_root)

  fresh :
      (i : ℕ)
      → (m.page pgdir i).present ≡ true
      → ((p == (m.page pgdir i).addr) ≡ false) × (count (m.page pgdir i).addr m'.free ≡ 0)
  fresh i q =
      count-head (m.page pgdir i).addr p m'.free
        (subst (λ fs. count (m.page pgdir i).addr fs ≡ 0) f (h.spare i q))

  once : (a : ℕ) → (if p == a then 1 else 0) + count a m'.free ≤ 1
  once a = subst (λ fs. count a fs ≤ 1) f (h.single a)

  addr_of : (i : ℕ) {e : Entry} → m'.page pgdir i ≡ e → (m'.page pgdir i).addr ≡ e.addr
  addr_of i r = ap (λ (x : Entry). x.addr) r

  was :
      (i : ℕ)
      → m'.page pgdir i ≡ m.page pgdir i
      → (m'.page pgdir i).present ≡ true
      → (m.page pgdir i).present ≡ true
  was i r q = ap (λ (x : Entry). x.present) (sym r) ∙ q

  apart_new : (i : ℕ) → (m.page pgdir i).present ≡ true → p ≢ (m.page pgdir i).addr
  apart_new i q = ne_of_== p (m.page pgdir i).addr ((fresh i q).0)

  new_spare : count p m'.free ≡ 0
  new_spare = let l = once p in let s = ==_self p in ground (arith, l, s)

  IsTree-Gains : IsTree m' pgdir
  IsTree-Gains = record {
    root = λ i q e. elim (row i) [
      | inl (at, r) ↦ ne_of_== p pgdir (p_ne.0) (sym (addr_of i r) ∙ e)
      | inr (_, r) ↦ h.root i (was i r q) (sym (addr_of i r) ∙ e)
    ];
    apart = λ i j q q' e. elim (row i) [
      | inl (at, r) ↦ elim (row j) [
        | inl (at', _) ↦ at ∙ sym at'
        | inr (_, r') ↦ absurd (apart_new j (was j r' q') (sym (addr_of i r) ∙ e ∙ addr_of j r'))
      ]
      | inr (_, r) ↦ elim (row j) [
        | inl (_, r') ↦
            absurd (apart_new i (was i r q) (sym (sym (addr_of i r) ∙ e ∙ addr_of j r')))
        | inr (_, r') ↦ h.apart i j (was i r q) (was j r' q') (sym (addr_of i r) ∙ e ∙ addr_of j r')
      ]
    ];
    spare = λ i q. elim (row i) [
      | inl (_, r) ↦ subst (λ x. count x m'.free ≡ 0) (sym (addr_of i r)) new_spare
      | inr (_, r) ↦ subst (λ x. count x m'.free ≡ 0) (sym (addr_of i r)) ((fresh i (was i r q)).1)
    ];
    spare_root = p_ne.1;
    single = λ a. let l = once a in ground (arith, l);
  }

  view-Gains :
      ((j : ℕ) → m'.page p j ≡ empty)
      → ((i j : ℕ)
          → (m.page pgdir i).present ≡ true
          → m'.page (m.page pgdir i).addr j ≡ m.page (m.page pgdir i).addr j)
      → (b : ℕ) → view m' pgdir b ≡ view m pgdir b
  view-Gains none_yet others b = elim (row (pdx b)) [
    | inl (at, r) ↦
        let gone : (m.page pgdir (pdx b)).present ≡ false =
          subst (λ i. (m.page pgdir i).present ≡ false) (sym at) absent in
        rw r (rw gone (none_yet (ptx b)))
    | inr (_, r) ↦ elim (Bool-cases (m.page pgdir (pdx b)).present) [
      | inl q ↦ rw r (rw q (others (pdx b) (ptx b) q))
      | inr q ↦ rw r (rw q refl)
    ]
  ]

-- The memory with a new table, the first page `p` of the free list.
abbrev created : (m : Memory) (pgdir va p : ℕ) (ps : List ℕ) → Memory
created m pgdir va p ps = put (clear (record m { free = ps }) p) pgdir (pdx va) (table_entry p)

module _ (m : Memory) (pgdir va p : ℕ) (ps : List ℕ) (h : IsTree m pgdir) (f : m.free ≡ p ∷ ps)
    (absent : (m.page pgdir (pdx va)).present ≡ false) where
  p_not_root : (p == pgdir) ≡ false
  p_not_root = (count-head pgdir p ps (subst (λ fs. count pgdir fs ≡ 0) f h.spare_root)).0

  created-Gains : Gains m (created m pgdir va p ps) pgdir (pdx va) p
  created-Gains i = elim (Bool-cases (i == pdx va)) [
    | inl b ↦ inl (eq_of_== i (pdx va) b, rw (==_self pgdir) (rw b refl))
    | inr b ↦
        let not_new : (pgdir == p) ≡ false = ground (arith, p_not_root) in
        inr (ne_of_== i (pdx va) b, rw (==_self pgdir) (rw b (rw not_new refl)))
  ]

  created-empty : (j : ℕ) → (created m pgdir va p ps).page p j ≡ empty
  created-empty j = rw p_not_root (rw (==_self p) refl)

  created-others :
      (i j : ℕ)
      → (m.page pgdir i).present ≡ true
      → (created m pgdir va p ps).page (m.page pgdir i).addr j ≡ m.page (m.page pgdir i).addr j
  created-others i j q =
      let not_root = ==_of_ne (m.page pgdir i).addr pgdir (h.root i q) in
      let free = subst (λ fs. count (m.page pgdir i).addr fs ≡ 0) f (h.spare i q) in
      let other = (count-head (m.page pgdir i).addr p ps free).0 in
      let not_new : ((m.page pgdir i).addr == p) ≡ false = ground (arith, other) in
      rw not_root (rw not_new refl)

create_table-nil :
    (m : Memory) (pgdir va : ℕ)
    → m.free ≡ []
    → create_table m pgdir va ≡ (none, record m { free = [] })
unfolding create_table kalloc
create_table-nil m pgdir va e = rw (ap kalloc e, create_table) (rw (ap kalloc e) refl)

create_table-cons :
    (m : Memory) (pgdir va p : ℕ) (ps : List ℕ)
    → m.free ≡ p ∷ ps
    → create_table m pgdir va ≡ (some (p, ptx va), created m pgdir va p ps)
unfolding create_table kalloc
create_table-cons m pgdir va p ps e = rw (ap kalloc e, create_table) (rw (ap kalloc e) refl)

-- What `walkpgdir` returns where it may create a table: a null pointer, if it needs a page and none is
-- free, or the entry of `va` in a table of the directory, with every page mapped as before.
pub data WalkOutcome (m : Memory) (pgdir va : ℕ) : Option (ℕ × ℕ) × Memory → Type 0 where
  no_page :
      (m' : Memory)
      → m.free ≡ []
      → (m.page pgdir (pdx va)).present ≡ false
      → ((b : ℕ) → view m' pgdir b ≡ view m pgdir b)
      → WalkOutcome m pgdir va (none, m')
  has_table :
      (table : ℕ) (m' : Memory)
      → IsTree m' pgdir
      → (m'.page pgdir (pdx va)).present ≡ true
      → (m'.page pgdir (pdx va)).addr ≡ table
      → ((b : ℕ) → view m' pgdir b ≡ view m pgdir b)
      → WalkOutcome m pgdir va (some (table, ptx va), m')

pub walkpgdir-WalkOutcome :
    (m : Memory) (pgdir va : ℕ)
    → IsTree m pgdir
    → WalkOutcome m pgdir va (walkpgdir m pgdir va true)
unfolding walkpgdir create_table
walkpgdir-WalkOutcome m pgdir va h = elim (Bool-cases (m.page pgdir (pdx va)).present) [
  | inl q ↦ rw q (has_table (m.page pgdir (pdx va)).addr m h q refl (λ b. refl))
  | inr q ↦ elim (List-cases m.free) [
    | inl e ↦ rw q (
        subst (WalkOutcome m pgdir va) (sym (create_table-nil m pgdir va e))
          (no_page (record m { free = [] }) e q (λ b. refl)))
    | inr (p, ps, e) ↦
        let row = created-Gains m pgdir va p ps h e q in
        let m' = created m pgdir va p ps in
        let entry : m'.page pgdir (pdx va) ≡ table_entry p =
          rw (==_self pgdir) (rw (==_self (pdx va)) refl) in
        rw q (
          subst (WalkOutcome m pgdir va) (sym (create_table-cons m pgdir va p ps e)) (
            has_table p m' (IsTree-Gains m m' pgdir (pdx va) p h e q row)
              (ap (λ (x : Entry). x.present) entry) (ap (λ (x : Entry). x.addr) entry)
              (view-Gains m m' pgdir (pdx va) p h e q row (created-empty m pgdir va p ps h e q)
                (created-others m pgdir va p ps h e q))))
  ]
]

pub walkpgdir-nil :
    (m : Memory) (pgdir va : ℕ)
    → m.free ≡ []
    → (m.page pgdir (pdx va)).present ≡ false
    → walkpgdir m pgdir va true ≡ (none, record m { free = [] })
unfolding walkpgdir
walkpgdir-nil m pgdir va e q = rw q (create_table-nil m pgdir va e)
