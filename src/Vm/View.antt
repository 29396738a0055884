-- ===== src/Vm/View.antt =====
-- What a page directory and its tables map: an entry for each page of the addresses.
use ecnu_2020_autumn_linux_l.Base.{
  ℕ, ◌≤◌, ◌<◌, ◌≡◌, ◌≢◌, refl, sym, ap, subst, ◌∙◌, inl, inr, true, false, ◌&&◌, ◌==◌,
  if◌then◌else◌, arith, Bool-cases, eq_of_==, ==_self, ==_of_ne, ne_of_==,
}
use ecnu_2020_autumn_linux_l.Kalloc.Pages.{count}
use ecnu_2020_autumn_linux_l.Vm.{Entry, empty, Memory, pdx, ptx, put, round_down}

-- The entry of the page of `va`: an empty one where there is no page table.
abbrev pub view : Memory → (pgdir va : ℕ) → Entry
view m pgdir va =
    let pde = m.page pgdir (pdx va) in if pde.present then m.page pde.addr (ptx va) else empty

-- The tables of a page directory are pages of their own, apart from the directory and the free pages.
pub record IsTree (m : Memory) (pgdir : ℕ) : Type 0 where
  pub root : (i : ℕ) → (m.page pgdir i).present ≡ true → (m.page pgdir i).addr ≢ pgdir
  pub apart :
      (i j : ℕ)
      → (m.page pgdir i).present ≡ true
      → (m.page pgdir j).present ≡ true
      → (m.page pgdir i).addr ≡ (m.page pgdir j).addr
      → i ≡ j
  pub spare : (i : ℕ) → (m.page pgdir i).present ≡ true → count (m.page pgdir i).addr m.free ≡ 0
  pub spare_root : count pgdir m.free ≡ 0
  pub single : (a : ℕ) → count a m.free ≤ 1

-- Two addresses below 2^32 have the same entry where they are on the same page.
pub same_page :
    (a b : ℕ)
    → a < 4294967296
    → b < 4294967296
    → ((pdx a == pdx b) && (ptx a == ptx b)) ≡ (round_down a == round_down b)
same_page a b l k = ground arith

-- The same directory and the same free pages.
IsTree-row :
    (m m' : Memory) (pgdir : ℕ)
    → ((i : ℕ) → m.page pgdir i ≡ m'.page pgdir i)
    → m.free ≡ m'.free
    → IsTree m pgdir
    → IsTree m' pgdir
IsTree-row m m' pgdir row free h =
    let here : (i : ℕ) → (m'.page pgdir i).present ≡ true → (m.page pgdir i).present ≡ true =
      λ i p. ap (λ (x : Entry). x.present) (row i) ∙ p in
    let to : (i : ℕ) → (m.page pgdir i).addr ≡ (m'.page pgdir i).addr =
      λ i. ap (λ (x : Entry). x.addr) (row i) in
    record {
      root = λ i p e. h.root i (here i p) (to i ∙ e);
      apart = λ i j p q e. h.apart i j (here i p) (here j q) (to i ∙ e ∙ sym (to j));
      spare = λ i p.
          subst (λ x. count x m'.free ≡ 0) (to i)
            (subst (λ fs. count (m.page pgdir i).addr fs ≡ 0) free (h.spare i (here i p)));
      spare_root = subst (λ fs. count pgdir fs ≡ 0) free h.spare_root;
      single = λ a. subst (λ fs. count a fs ≤ 1) free (h.single a);
    }

module _ (m : Memory) (pgdir table va : ℕ) (e : Entry) (h : IsTree m pgdir)
    (p : (m.page pgdir (pdx va)).present ≡ true) (t : (m.page pgdir (pdx va)).addr ≡ table) where
  not_root : (pgdir == table) ≡ false
  not_root = ==_of_ne pgdir table (λ f. h.root (pdx va) p (t ∙ sym f))

  put-row : (i : ℕ) → (put m table (ptx va) e).page pgdir i ≡ m.page pgdir i
  put-row i = rw not_root refl

  pub IsTree-put : IsTree (put m table (ptx va) e) pgdir
  IsTree-put = IsTree-row m (put m table (ptx va) e) pgdir (λ i. sym (put-row i)) refl h

  not_table :
      (i : ℕ)
      → (i == pdx va) ≡ false
      → (m.page pgdir i).present ≡ true
      → ((m.page pgdir i).addr == table) ≡ false
  not_table i b q =
      ==_of_ne (m.page pgdir i).addr table
        (λ f. ne_of_== i (pdx va) b (h.apart i (pdx va) q p (f ∙ sym t)))

  -- An entry of a table is set.
  pub view-put :
      (b : ℕ)
      → view (put m table (ptx va) e) pgdir b
        ≡ (if (pdx b == pdx va) && (ptx b == ptx va) then e else view m pgdir b)
  view-put b = elim (Bool-cases (pdx b == pdx va)) [
    | inl same ↦
        let at : pdx va ≡ pdx b = sym (eq_of_== (pdx b) (pdx va) same) in
        let p' : (m.page pgdir (pdx b)).present ≡ true =
          subst (λ i. (m.page pgdir i).present ≡ true) at p in
        let t' : ((m.page pgdir (pdx b)).addr == table) ≡ true =
          subst (λ i. ((m.page pgdir i).addr == table) ≡ true) at (rw t (==_self table)) in
        rw not_root (rw (same, p') (rw t' refl))
    | inr other ↦ elim (Bool-cases (m.page pgdir (pdx b)).present) [
      | inl q ↦ rw not_root (rw (other, q) (rw (not_table (pdx b) other q) refl))
      | inr q ↦ rw not_root (rw (other, q) refl)
    ]
  ]
