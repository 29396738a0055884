-- ===== src/Vm/Rounds.antt =====
-- The loops over pages have enough fuel.
use ecnu_2020_autumn_linux_l.Base.{
  ℕ, zero, suc, ◌+◌, ◌*◌, ◌/◌, ◌%◌, ◌≤◌, ◌<◌, ◌≡◌, inl, inr, true, false, ◌==◌, ltb, leb, ==_self,
  arith, Bool-cases, Option-cases, subst,
}
use ecnu_2020_autumn_linux_l.Kalloc.{kalloc, kfree, round_up}
use ecnu_2020_autumn_linux_l.Vm.{
  Memory, Perm, usertop, user_perm, round_down, walkpgdir, empty, put, mappages, mappages_loop,
  memory_of, Run, Run-cases, ended, panicked, out_of_fuel, deallocuvm_loop, deallocuvm,
  allocuvm_loop, allocuvm,
}

-- A result or a panic.
abbrev pub Ends : {A : Type 0} → Run A → Type 0
Ends (ended _) = Unit {0}
Ends panicked = Unit {0}
Ends out_of_fuel = ⊥

-- The first round of `mappages` is the last one where it maps one page.
mappages_loop-Ends :
    (fuel : ℕ) (m : Memory) (pgdir a pa : ℕ) (perm : Perm)
    → Ends (memory_of (mappages_loop (suc fuel) m pgdir a a pa perm))
unfolding mappages_loop
mappages_loop-Ends fuel m pgdir a pa perm = elim (Option-cases (walkpgdir m pgdir a true).0) [
  | inl w ↦ rw (w, mappages_loop) tt
  | inr ((table, i), w) ↦ elim (Bool-cases ((walkpgdir m pgdir a true).1.page table i).present) [
    | inl b ↦ rw (w, mappages_loop, b) tt
    | inr b ↦ rw (w, mappages_loop, b) (rw (==_self a) tt)
  ]
]

mappages-Ends :
    (m : Memory) (pgdir a pa : ℕ) (perm : Perm)
    → a % 4096 ≡ 0
    → a + 4096 < 4294967296
    → Ends (memory_of (mappages m pgdir a 4096 pa perm))
unfolding mappages
mappages-Ends m pgdir a pa perm r l =
    let first : a ≡ round_down a = omega (arith, r) in
    let last : a ≡ round_down ((a + 4096 + 4294967295) % 4294967296) = omega (arith, r, l) in
    subst
      (λ x. Ends (
        memory_of
          (mappages_loop 3 m pgdir x (round_down ((a + 4096 + 4294967295) % 4294967296)) pa perm)))
      first
      (subst (λ x. Ends (memory_of (mappages_loop 3 m pgdir a x pa perm))) last
        (mappages_loop-Ends 2 m pgdir a pa perm))

deallocuvm_loop-Ends :
    (fuel end : ℕ) (m : Memory) (pgdir a oldsz : ℕ)
    → oldsz ≤ a + 4096 * fuel
    → Ends (deallocuvm_loop (suc fuel) end m pgdir a oldsz)
unfolding deallocuvm_loop
deallocuvm_loop-Ends zero end m pgdir a oldsz l =
    let b : ltb a oldsz ≡ false = ground arith in rw b tt
deallocuvm_loop-Ends (suc fuel) end m pgdir a oldsz l = elim (Bool-cases (ltb a oldsz)) [
  | inr b ↦ rw b tt
  | inl b ↦
      let next = λ (m' : Memory).
        deallocuvm_loop-Ends fuel end m' pgdir (a + 4096) oldsz (omega (arith, l)) in
      elim (Option-cases (walkpgdir m pgdir a false).0) [
        | inl w ↦ rw (b, w, deallocuvm_loop) (next m)
        | inr ((table, i), w) ↦ elim (Bool-cases (m.page table i).present) [
          | inr c ↦ rw (b, w, deallocuvm_loop, c) (next m)
          | inl c ↦ elim (Bool-cases ((m.page table i).addr == 0)) [
            | inl d ↦ rw (b, w, deallocuvm_loop, c, d) tt
            | inr d ↦ elim (Option-cases (kfree end (m.page table i).addr m.free)) [
              | inl e ↦ rw (b, w, deallocuvm_loop, c, d, e) tt
              | inr (free, e) ↦
                  rw (b, w, deallocuvm_loop, c, d, e)
                    (next (put (record m { free = free }) table i empty))
            ]
          ]
        ]
      ]
]

pub deallocuvm-Ends :
    (end : ℕ) (m : Memory) (pgdir oldsz newsz : ℕ) → Ends (deallocuvm end m pgdir oldsz newsz)
unfolding deallocuvm
deallocuvm-Ends end m pgdir oldsz newsz = elim (Bool-cases (leb oldsz newsz)) [
  | inl b ↦ rw b tt
  | inr b ↦
      let fuel : suc (oldsz / 4096 + 1) ≡ oldsz / 4096 + 2 = omega arith in
      let loop =
        subst (λ n. Ends (deallocuvm_loop n end m pgdir (round_up newsz) oldsz)) fuel
          (deallocuvm_loop-Ends (oldsz / 4096 + 1) end m pgdir (round_up newsz) oldsz
            (omega arith)) in
      rw b (shrunk (deallocuvm_loop (oldsz / 4096 + 2) end m pgdir (round_up newsz) oldsz) loop)
]
  where
    shrunk :
        (r : Run Memory)
        → Ends r
        → Ends (elim r as (λ x. Run (ℕ × Memory)) [
          | ended x ↦ ended (newsz, x)
          | panicked ↦ panicked
          | out_of_fuel ↦ out_of_fuel
        ])
    shrunk (ended x) h = tt
    shrunk panicked h = tt
    shrunk out_of_fuel h = h

not_exhausted : {A : Type 0} (r : Run A) → Ends r → r ≡ out_of_fuel → ⊥
not_exhausted (ended x) h e = cc
not_exhausted panicked h e = cc
not_exhausted out_of_fuel h e = h

allocuvm_loop-Ends :
    (fuel end : ℕ) (m : Memory) (pgdir a oldsz newsz : ℕ)
    → a % 4096 ≡ 0
    → newsz ≤ usertop
    → newsz ≤ a + 4096 * fuel
    → Ends (allocuvm_loop (suc fuel) end m pgdir a oldsz newsz)
unfolding allocuvm_loop
allocuvm_loop-Ends zero end m pgdir a oldsz newsz r k l =
    let b : ltb a newsz ≡ false = ground arith in rw b tt
allocuvm_loop-Ends (suc fuel) end m pgdir a oldsz newsz r k l = elim (Bool-cases (ltb a newsz)) [
  | inr b ↦ rw b tt
  | inl b ↦ elim (Option-cases (kalloc m.free).0) [
    | inl e ↦ elim (Run-cases (deallocuvm end m pgdir newsz oldsz)) [
      | inl d ↦ rw (b, e, d, allocuvm_loop) tt
      | inr (inl d) ↦ absurd (
          not_exhausted (deallocuvm end m pgdir newsz oldsz)
            (deallocuvm-Ends end m pgdir newsz oldsz) d)
      | inr (inr (x, d)) ↦ rw (b, e, d, allocuvm_loop) tt
    ]
    | inr (mem, e) ↦
        let m1 : Memory = record m { free = (kalloc m.free).1 } in
        let below : a < newsz = ground arith in
        elim (Run-cases (memory_of (mappages m1 pgdir a 4096 mem user_perm))) [
          | inl d ↦ rw (b, e, d, allocuvm_loop) tt
          | inr (inl d) ↦ absurd (
              not_exhausted (memory_of (mappages m1 pgdir a 4096 mem user_perm))
                (mappages-Ends m1 pgdir a mem user_perm r (omega (arith, below, k))) d)
          | inr (inr (m', d)) ↦
              rw (b, e, d, allocuvm_loop)
                (allocuvm_loop-Ends fuel end m' pgdir (a + 4096) oldsz newsz (omega (arith, r)) k
                  (omega (arith, l)))
        ]
  ]
]

pub allocuvm-Ends :
    (end : ℕ) (m : Memory) (pgdir oldsz newsz : ℕ) → Ends (allocuvm end m pgdir oldsz newsz)
unfolding allocuvm
allocuvm-Ends end m pgdir oldsz newsz = elim (Bool-cases (ltb usertop newsz)) [
  | inl b ↦ rw b tt
  | inr b ↦ elim (Bool-cases (ltb newsz oldsz)) [
    | inl c ↦ rw (b, c) tt
    | inr c ↦
        let low : newsz ≤ usertop = ground arith in
        let up : oldsz ≤ newsz = ground arith in
        let fuel : suc (newsz / 4096 + 1) ≡ newsz / 4096 + 2 = omega arith in
        rw (b, c)
          (subst (λ n. Ends (allocuvm_loop n end m pgdir (round_up oldsz) oldsz newsz)) fuel
            (allocuvm_loop-Ends (newsz / 4096 + 1) end m pgdir (round_up oldsz) oldsz newsz
              (omega arith) low (omega (arith, low, up))))
  ]
]
