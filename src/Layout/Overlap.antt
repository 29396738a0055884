-- ===== src/Layout/Overlap.antt =====
-- `allocuvm` of a page that is mapped already.
use ecnu_2020_autumn_linux_l.Base.{
  ℕ, suc, ◌+◌, ◌/◌, ◌%◌, ◌≤◌, ◌<◌, ◌≡◌, refl, ap, subst, true, false, List, ◌∷◌, ltb, arith,
}
use ecnu_2020_autumn_linux_l.Kalloc.{kalloc, round_up}
use ecnu_2020_autumn_linux_l.Vm.{
  Memory, usertop, user_perm, Mapping, remaps, page_entry, mappages, allocuvm, allocuvm_loop,
  panicked,
}
use ecnu_2020_autumn_linux_l.Vm.View.{view, IsTree}
use ecnu_2020_autumn_linux_l.Vm.Map.{MapOutcome, was_mapped, no_table, mapped, mappages-MapOutcome}
use ecnu_2020_autumn_linux_l.Kalloc.Pages.{count}

-- A page leaves the free list.
pub IsTree-taken :
    (m : Memory) (pgdir mem : ℕ) (ps : List ℕ)
    → m.free ≡ mem ∷ ps
    → IsTree m pgdir
    → IsTree (record m { free = ps }) pgdir
IsTree-taken m pgdir mem ps f h =
    let less : (a : ℕ) → count a ps ≤ count a m.free =
      λ a. let same = ap (count a) f in omega (arith, same) in
    record {
      root = h.root;
      apart = h.apart;
      spare = λ i p. omega (arith, h.spare i p, less (m.page pgdir i).addr);
      spare_root = omega (arith, h.spare_root, less pgdir);
      single = λ a. omega (arith, h.single a, less a);
    }

mappages-remaps :
    (m : Memory) (pgdir la pa : ℕ)
    → IsTree m pgdir
    → la % 4096 ≡ 0
    → la < 4294967296
    → (view m pgdir la).present ≡ true
    → mappages m pgdir la 4096 pa user_perm ≡ remaps
mappages-remaps m pgdir la pa h r l p =
    go (mappages m pgdir la 4096 pa user_perm) (mappages-MapOutcome m pgdir la pa user_perm h r l)
  where
    go : (o : Mapping) → MapOutcome m pgdir la (page_entry pa user_perm) o → o ≡ remaps
    go _ (was_mapped _) = refl
    go _ (no_table _ _ q _) =
        absurd (let gone : (view m pgdir la).present ≡ false = rw q refl in cc)
    go _ (mapped _ _ q _) = absurd (cc)

allocuvm_loop-remaps :
    (fuel end : ℕ) (m : Memory) (pgdir a oldsz newsz mem : ℕ) (ps : List ℕ)
    → a < newsz
    → m.free ≡ mem ∷ ps
    → mappages (record m { free = ps }) pgdir a 4096 mem user_perm ≡ remaps
    → allocuvm_loop (suc fuel) end m pgdir a oldsz newsz ≡ panicked
unfolding allocuvm_loop kalloc
allocuvm_loop-remaps fuel end m pgdir a oldsz newsz mem ps l f e =
    let b : ltb a newsz ≡ true = ground arith in
    rw b (rw (ap kalloc f, allocuvm_loop) (rw (ap kalloc f) (rw e refl)))

-- On a valid page directory that maps the page of an aligned address, with the page below USERTOP,
-- `allocuvm` for that page panics if a page is free.
pub allocuvm-remap :
    (end : ℕ) (m : Memory) (pgdir la mem : ℕ) (ps : List ℕ)
    → IsTree m pgdir
    → la % 4096 ≡ 0
    → la + 4096 ≤ usertop
    → m.free ≡ mem ∷ ps
    → (view m pgdir la).present ≡ true
    → allocuvm end m pgdir la (la + 4096) ≡ panicked
unfolding allocuvm
allocuvm-remap end m pgdir la mem ps h r l f p =
    let small : ltb usertop (la + 4096) ≡ false = ground arith in
    let up : ltb (la + 4096) la ≡ false = ground arith in
    let start : la ≡ round_up la = omega (arith, r) in
    let fuel : suc ((la + 4096) / 4096 + 1) ≡ (la + 4096) / 4096 + 2 = omega arith in
    let panics =
      allocuvm_loop-remaps ((la + 4096) / 4096 + 1) end m pgdir la la (la + 4096) mem ps
        (omega arith) f
        (mappages-remaps (record m { free = ps }) pgdir la mem (IsTree-taken m pgdir mem ps f h) r
          (omega (arith, l)) p) in
    rw (small, up)
      (subst (λ n. allocuvm_loop n end m pgdir (round_up la) la (la + 4096) ≡ panicked) fuel
        (subst
          (λ x.
            allocuvm_loop (suc ((la + 4096) / 4096 + 1)) end m pgdir x la (la + 4096) ≡ panicked)
          start panics))
