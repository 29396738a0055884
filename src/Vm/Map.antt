-- ===== src/Vm/Map.antt =====
-- `mappages` on one page, as every call for user memory has it.
use ecnu_2020_autumn_linux_l.Base.{
  ℕ, suc, ◌+◌, ◌-◌, ◌%◌, ◌<◌, ◌≡◌, refl, sym, ap, subst, ◌∙◌, inl, inr, Bool, true, false, none,
  some, [], ◌==◌, if◌then◌else◌, arith, Bool-cases, ==_self,
}
use ecnu_2020_autumn_linux_l.Vm.{
  Entry, Memory, pdx, ptx, put, round_down, Perm, user_perm, page_entry, walkpgdir, Mapping, maps,
  fails, remaps, mappages, mappages_loop, translate, uva2ka, at, Slot,
}
use ecnu_2020_autumn_linux_l.Vm.View.{view, IsTree, view-put, IsTree-put, same_page}
use ecnu_2020_autumn_linux_l.Vm.Walk.{WalkOutcome, no_page, has_table, walkpgdir-WalkOutcome}

-- What mapping the page of `la` does: it panics where that page is mapped, fails where it needs a page
-- table and none is free, and else sets the entry of that page and of no other.
pub data MapOutcome (m : Memory) (pgdir la : ℕ) (e : Entry) : Mapping → Type 0 where
  was_mapped : (view m pgdir la).present ≡ true → MapOutcome m pgdir la e remaps
  no_table :
      (m' : Memory)
      → m.free ≡ []
      → (m.page pgdir (pdx la)).present ≡ false
      → ((b : ℕ) → view m' pgdir b ≡ view m pgdir b)
      → MapOutcome m pgdir la e (fails m')
  mapped :
      (m' : Memory)
      → IsTree m' pgdir
      → (view m pgdir la).present ≡ false
      → ((b : ℕ)
          → b < 4294967296
          → view m' pgdir b ≡ (if round_down b == round_down la then e else view m pgdir b))
      → MapOutcome m pgdir la e (maps m')

module _ (fuel : ℕ) (m m' : Memory) (pgdir la pa : ℕ) (perm : Perm) where
  pub mappages_loop-none :
      (last : ℕ)
      → walkpgdir m pgdir la true ≡ (none, m')
      → mappages_loop (suc fuel) m pgdir la last pa perm ≡ fails m'
  unfolding mappages_loop
  mappages_loop-none last e = rw (e, mappages_loop) (rw e refl)

  mappages_loop-some :
      (table i : ℕ)
      → walkpgdir m pgdir la true ≡ (some (table, i), m')
      → mappages_loop (suc fuel) m pgdir la la pa perm
        ≡ (if (m'.page table i).present then remaps else maps (put m' table i (page_entry pa perm)))
  unfolding mappages_loop
  mappages_loop-some table i e = rw (e, mappages_loop) (rw e (rw (==_self la) refl))

-- One round of the loop, at its last page.
loop_at :
    (fuel : ℕ) (m : Memory) (pgdir la pa : ℕ) (perm : Perm) (w : Slot × Memory)
    → IsTree m pgdir
    → la < 4294967296
    → walkpgdir m pgdir la true ≡ w
    → WalkOutcome m pgdir la w
    → MapOutcome m pgdir la (page_entry pa perm) (mappages_loop (suc fuel) m pgdir la la pa perm)
loop_at fuel m pgdir la pa perm _ h l e (no_page m' f q same) =
    subst (MapOutcome m pgdir la (page_entry pa perm))
      (sym (mappages_loop-none fuel m m' pgdir la pa perm la e)) (no_table m' f q same)
loop_at fuel m pgdir la pa perm _ h l e (has_table table m' tree p t same) =
    subst (MapOutcome m pgdir la (page_entry pa perm))
      (sym (mappages_loop-some fuel m m' pgdir la pa perm table (ptx la) e))
      (let here : view m pgdir la ≡ m'.page table (ptx la) =
          sym (same la) ∙ rw p (ap (λ x. m'.page x (ptx la)) t) in
        elim (Bool-cases (m'.page table (ptx la)).present) [
          | inl q ↦ rw q (was_mapped (ap (λ (x : Entry). x.present) here ∙ q))
          | inr q ↦ rw q (
              mapped (put m' table (ptx la) (page_entry pa perm))
                (IsTree-put m' pgdir table la (page_entry pa perm) tree p t)
                (ap (λ (x : Entry). x.present) here ∙ q)
                (λ b k.
                  view-put m' pgdir table la (page_entry pa perm) tree p t b
                  ∙ ap {B = Entry} (λ (x : Bool). if x then page_entry pa perm else view m' pgdir b)
                      (same_page b la k l)
                  ∙ ap
                      (λ (x : Entry).
                        if round_down b == round_down la then page_entry pa perm else x)
                      (same b)))
        ])

-- On a valid page directory, mapping one page from its first address on ends, and panics where that
-- page is mapped already; returns -1 with every page mapped as before where it needs a page table and no
-- page is free; and else sets the entry of that page, with every other page mapped as before and the
-- directory still valid.
pub mappages-MapOutcome :
    (m : Memory) (pgdir la pa : ℕ) (perm : Perm)
    → IsTree m pgdir
    → la % 4096 ≡ 0
    → la < 4294967296
    → MapOutcome m pgdir la (page_entry pa perm) (mappages m pgdir la 4096 pa perm)
unfolding mappages
mappages-MapOutcome m pgdir la pa perm h r l =
    let last : round_down ((la + 4096 + (4294967296 - 1)) % 4294967296) ≡ la =
      omega (arith, r, l) in
    let first : round_down la ≡ la = omega (arith, r) in
    subst
      (λ x. MapOutcome m pgdir la (page_entry pa perm) (
        mappages_loop 3 m pgdir x (round_down ((la + 4096 + (4294967296 - 1)) % 4294967296)) pa
          perm))
      (sym first)
      (subst
        (λ x. MapOutcome m pgdir la (page_entry pa perm) (mappages_loop 3 m pgdir la x pa perm))
        (sym last)
        (loop_at 2 m pgdir la pa perm (walkpgdir m pgdir la true) h l refl
          (walkpgdir-WalkOutcome m pgdir la h)))

uva2ka-present :
    (m : Memory) (pgdir b : ℕ)
    → (view m pgdir b).present ≡ true
    → uva2ka m pgdir b ≡ translate (view m pgdir b)
unfolding uva2ka walkpgdir
uva2ka-present m pgdir b e = elim (Bool-cases (m.page pgdir (pdx b)).present) [
  | inl q ↦ rw (q, uva2ka) refl
  | inr q ↦ absurd (let gone : (view m pgdir b).present ≡ false = rw q refl in cc)
]

-- After a page has been mapped for the user, `uva2ka` translates every address on it to the physical
-- page.
uva2ka-mappages :
    (m m' : Memory) (pgdir la pa b : ℕ)
    → IsTree m pgdir
    → la % 4096 ≡ 0
    → la < 4294967296
    → mappages m pgdir la 4096 pa user_perm ≡ maps m'
    → b < 4294967296
    → round_down b ≡ la
    → uva2ka m' pgdir b ≡ at pa
uva2ka-mappages m m' pgdir la pa b h r l e k f =
    go (mappages m pgdir la 4096 pa user_perm) e (mappages-MapOutcome m pgdir la pa user_perm h r l)
  where
    go :
        (o : Mapping)
        → o ≡ maps m'
        → MapOutcome m pgdir la (page_entry pa user_perm) o
        → uva2ka m' pgdir b ≡ at pa
    go _ g (was_mapped _) = absurd (cc)
    go _ g (no_table _ _ _ _) = absurd (cc)
    go _ g (mapped m'' tree _ v) =
        let same : m'' ≡ m' = cc in
        let hit : (round_down b == round_down la) ≡ true = ground (arith, f, r) in
        let entry : view m' pgdir b ≡ page_entry pa user_perm =
          subst (λ x. view x pgdir b ≡ page_entry pa user_perm) same (v b k ∙ rw hit refl) in
        uva2ka-present m' pgdir b (ap (λ (x : Entry). x.present) entry) ∙ ap translate entry
