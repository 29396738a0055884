-- ===== src/Vm/Grow.antt =====
-- `allocuvm` where a page for the memory of the process is free and none for its page table.
use ecnu_2020_autumn_linux_l.Base.{
  ℕ, suc, ◌+◌, ◌/◌, ◌-◌, ◌%◌, ◌≤◌, ◌<◌, ◌≡◌, refl, sym, ap, subst, ◌∙◌, true, false, List, [], ◌∷◌,
  ltb, arith,
}
use ecnu_2020_autumn_linux_l.Kalloc.{kalloc, round_up}
use ecnu_2020_autumn_linux_l.Vm.{
  round_down, empty, Memory, pdx, usertop, user_perm, fails, mappages, mappages_loop, allocuvm,
  allocuvm_loop, ended,
}
use ecnu_2020_autumn_linux_l.Vm.View.{view}
use ecnu_2020_autumn_linux_l.Vm.Walk.{walkpgdir-nil}
use ecnu_2020_autumn_linux_l.Vm.Map.{mappages_loop-none}

-- No page is free for the table.
mappages-no_table :
    (m : Memory) (pgdir la pa : ℕ)
    → m.free ≡ []
    → (m.page pgdir (pdx la)).present ≡ false
    → la % 4096 ≡ 0
    → mappages m pgdir la 4096 pa user_perm ≡ fails (record m { free = [] })
unfolding mappages
mappages-no_table m pgdir la pa f q r =
    let first : la ≡ round_down la = omega (arith, r) in
    subst
      (λ x.
        mappages_loop 3 m pgdir x (round_down ((la + 4096 + (4294967296 - 1)) % 4294967296)) pa
          user_perm
        ≡ fails (record m { free = [] }))
      first
      (mappages_loop-none 2 m (record m { free = [] }) pgdir la pa user_perm _
        (walkpgdir-nil m pgdir la f q))

module _ (fuel end : ℕ) (m : Memory) (pgdir a oldsz newsz : ℕ) where
  allocuvm_loop-stop :
      newsz ≤ a → allocuvm_loop (suc fuel) end m pgdir a oldsz newsz ≡ ended (newsz, m)
  unfolding allocuvm_loop
  allocuvm_loop-stop l = let b : ltb a newsz ≡ false = ground arith in rw b refl

  allocuvm_loop-page :
      (m' : Memory) (mem : ℕ) (ps : List ℕ)
      → a < newsz
      → m.free ≡ mem ∷ ps
      → mappages (record m { free = ps }) pgdir a 4096 mem user_perm ≡ fails m'
      → allocuvm_loop (suc fuel) end m pgdir a oldsz newsz
        ≡ allocuvm_loop fuel end m' pgdir (a + 4096) oldsz newsz
  unfolding allocuvm_loop kalloc
  allocuvm_loop-page m' mem ps l f e =
      let b : ltb a newsz ≡ true = ground arith in
      rw b (rw (ap kalloc f, allocuvm_loop) (rw (ap kalloc f) (rw e refl)))

-- Where the last free page goes to the memory of the process and the page directory has no table for
-- it yet, `allocuvm` succeeds and returns the new size, but the new page is not mapped and is lost: it
-- is neither mapped nor free.
allocuvm_unmapped :
    (end : ℕ) (m : Memory) (pgdir oldsz mem : ℕ)
    → oldsz % 4096 ≡ 0
    → oldsz + 4096 ≤ usertop
    → m.free ≡ mem ∷ []
    → (m.page pgdir (pdx oldsz)).present ≡ false
    → (m' : Memory) × (allocuvm end m pgdir oldsz (oldsz + 4096) ≡ ended (oldsz + 4096, m'))
      × (m'.free ≡ [])
      × (view m' pgdir oldsz ≡ empty)
unfolding allocuvm
allocuvm_unmapped end m pgdir oldsz mem r l f q =
    let m' : Memory = record m { free = [] } in
    let start : round_up oldsz ≡ oldsz = omega (arith, r) in
    let fuel : (oldsz + 4096) / 4096 + 2 ≡ suc (suc ((oldsz + 4096) / 4096)) = omega arith in
    let small : ltb usertop (oldsz + 4096) ≡ false = ground arith in
    let grows : ltb (oldsz + 4096) oldsz ≡ false = ground arith in
    let page =
      allocuvm_loop-page (suc ((oldsz + 4096) / 4096)) end m pgdir oldsz oldsz (oldsz + 4096) m' mem
        [] (omega arith) f (mappages-no_table m' pgdir oldsz mem refl q r) in
    let stop =
      allocuvm_loop-stop ((oldsz + 4096) / 4096) end m' pgdir (oldsz + 4096) oldsz (oldsz + 4096)
        (omega arith) in
    (
      m',
      rw (small, grows)
          (subst
            (λ n.
              allocuvm_loop n end m pgdir (round_up oldsz) oldsz (oldsz + 4096)
              ≡ ended (oldsz + 4096, m'))
            (sym fuel)
            (subst
              (λ x.
                allocuvm_loop (suc (suc ((oldsz + 4096) / 4096))) end m pgdir x oldsz (oldsz + 4096)
                ≡ ended (oldsz + 4096, m'))
              (sym start) (page ∙ stop))),
      refl,
      rw q refl,
    )
