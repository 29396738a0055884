-- ===== src/Layout/Gap.antt =====
-- The five pages that stay between the heap and the stack.
use ecnu_2020_autumn_linux_l.Base.{
  ℕ, zero, suc, ◌+◌, ◌*◌, ◌/◌, ◌%◌, ◌≤◌, ◌<◌, ◌≡◌, ◌⊎◌, inl, inr, refl, subst, false, ◌==◌, ltb,
  leb, ℤ, pos, negsuc, arith, Bool-cases, Option-cases, ne_of_==,
}
use ecnu_2020_autumn_linux_l.Kalloc.{kalloc, round_up}
use ecnu_2020_autumn_linux_l.Vm.{
  Memory, usertop, allocuvm, allocuvm_loop, deallocuvm, deallocuvm_loop, memory_of, mappages,
  user_perm, Run, Run-cases, ended, panicked, out_of_fuel,
}
use ecnu_2020_autumn_linux_l.Vm.Rounds.{Ends, allocuvm-Ends, deallocuvm-Ends}
use ecnu_2020_autumn_linux_l.Layout.{
  Process, Growth, grows, refuses, panics, stuck, Fault, resumes, kills, fault_panics, fault_stuck,
  minus, plus, resize, restack, growproc, growstack, page_fault, stack_base, next_page,
}

-- The values of an `int`.
abbrev pub IsInt : ℤ → Type 0
IsInt (pos k) = k < 2147483648
IsInt (negsuc k) = k < 2147483648

-- The new size that `allocuvm` returns is 0, or the one that was asked for, or the old one if that is
-- larger.
abbrev Sized : (oldsz newsz : ℕ) → Run (ℕ × Memory) → Type 0
Sized oldsz newsz panicked = Unit {0}
Sized oldsz newsz out_of_fuel = Unit {0}
Sized oldsz newsz (ended (r, m)) =
    (r ≡ 0) ⊎ (((r ≡ newsz) × (newsz ≤ usertop)) ⊎ ((r ≡ oldsz) × (newsz < oldsz)))

allocuvm_loop-Sized :
    (fuel end : ℕ) (m : Memory) (pgdir a oldsz newsz : ℕ)
    → newsz ≤ usertop
    → Sized oldsz newsz (allocuvm_loop fuel end m pgdir a oldsz newsz)
unfolding allocuvm_loop
allocuvm_loop-Sized zero end m pgdir a oldsz newsz l = tt
allocuvm_loop-Sized (suc fuel) end m pgdir a oldsz newsz l = elim (Bool-cases (ltb a newsz)) [
  | inr b ↦ rw b (inr (inl (refl, l)))
  | inl b ↦ elim (Option-cases (kalloc m.free).0) [
    | inl e ↦ elim (Run-cases (deallocuvm end m pgdir newsz oldsz)) [
      | inl d ↦ rw (b, e, d, allocuvm_loop) tt
      | inr (inl d) ↦ rw (b, e, d, allocuvm_loop) tt
      | inr (inr (x, d)) ↦ rw (b, e, d, allocuvm_loop) (inl refl)
    ]
    | inr (mem, e) ↦
        elim (Run-cases (
          memory_of
            (mappages (record m { free = (kalloc m.free).1 }) pgdir a 4096 mem user_perm))) [
              | inl d ↦ rw (b, e, d, allocuvm_loop) tt
              | inr (inl d) ↦ rw (b, e, d, allocuvm_loop) tt
              | inr (inr (m', d)) ↦
                  rw (b, e, d, allocuvm_loop)
                    (allocuvm_loop-Sized fuel end m' pgdir (a + 4096) oldsz newsz l)
            ]
  ]
]

allocuvm-Sized :
    (end : ℕ) (m : Memory) (pgdir oldsz newsz : ℕ)
    → Sized oldsz newsz (allocuvm end m pgdir oldsz newsz)
unfolding allocuvm
allocuvm-Sized end m pgdir oldsz newsz = elim (Bool-cases (ltb usertop newsz)) [
  | inl b ↦ rw b (inl refl)
  | inr b ↦ elim (Bool-cases (ltb newsz oldsz)) [
    | inl c ↦ rw (b, c) (inr (inr (refl, ground arith)))
    | inr c ↦ rw (b, c) (allocuvm_loop-Sized _ end m pgdir _ oldsz newsz (ground arith))
  ]
]

-- Five pages at least lie between the heap and the stack, and the stack is below USERTOP.
abbrev pub HasGap : Process → Type 0
HasGap p = p.sz + 20480 + 4096 * p.size_of_stack ≤ usertop

-- A process that is left is as `P` says, and no loop runs out of fuel.
abbrev pub AllGrowth : (Process → Type 0) → Growth → Type 0
AllGrowth P (grows q) = P q
AllGrowth P (refuses q) = P q
AllGrowth P panics = Unit {0}
AllGrowth P stuck = ⊥

abbrev pub AllFault : (Process → Type 0) → Fault → Type 0
AllFault P (resumes q) = P q
AllFault P (kills q) = P q
AllFault P fault_panics = Unit {0}
AllFault P fault_stuck = ⊥

deallocuvm-size :
    (end : ℕ) (m : Memory) (pgdir oldsz newsz sz : ℕ) (m' : Memory)
    → deallocuvm end m pgdir oldsz newsz ≡ ended (sz, m')
    → (sz ≡ oldsz) ⊎ ((sz ≡ newsz) × (newsz < oldsz))
unfolding deallocuvm
deallocuvm-size end m pgdir oldsz newsz sz m' = elim (Bool-cases (leb oldsz newsz)) [
  | inl b ↦ rw b (λ e. inl (cc))
  | inr b ↦ rw b (λ e. inr (
    shrunk (deallocuvm_loop (oldsz / 4096 + 2) end m pgdir (round_up newsz) oldsz) e,
    ground arith,
  ))
]
  where
    shrunk :
        (r : Run Memory)
        → elim r as (λ x. Run (ℕ × Memory)) [
          | ended x ↦ ended (newsz, x)
          | panicked ↦ panicked
          | out_of_fuel ↦ out_of_fuel
        ]
          ≡ ended (sz, m')
        → sz ≡ newsz
    shrunk panicked e = absurd (cc)
    shrunk out_of_fuel e = absurd (cc)
    shrunk (ended x) e = cc

room_pos :
    (p : Process) (k sz : ℕ)
    → HasGap p
    → k < 2147483648
    → ltb (stack_base p) ((plus p.sz (pos k) + 5 * 4096) % 4294967296) ≡ false
    → sz ≡ plus p.sz (pos k)
    → sz + 20480 + 4096 * p.size_of_stack ≤ usertop
room_pos p k sz h l b f = ground (arith, h, l, f)

restack-HasGap :
    (p : Process) (r : Run (ℕ × Memory))
    → Ends r
    → HasGap p
    → p.sz + 20480 + 4096 * (p.size_of_stack + 1) ≤ usertop
    → AllGrowth HasGap (restack p r)
unfolding restack
restack-HasGap p panicked ends h f = tt
restack-HasGap p out_of_fuel ends h f = ends
restack-HasGap p (ended (sz, m)) ends h f = elim (Bool-cases (sz == 0)) [
  | inl b ↦ rw b h
  | inr b ↦ rw b f
]

resize-HasGap :
    (p : Process) (r : Run (ℕ × Memory))
    → Ends r
    → HasGap p
    → ((sz : ℕ) (m : Memory)
        → r ≡ ended (sz, m)
        → (sz ≡ 0) ⊎ (sz + 20480 + 4096 * p.size_of_stack ≤ usertop))
    → AllGrowth HasGap (resize p r)
unfolding resize
resize-HasGap p panicked ends h f = tt
resize-HasGap p out_of_fuel ends h f = ends
resize-HasGap p (ended (sz, m)) ends h f = elim (Bool-cases (sz == 0)) [
  | inl b ↦ rw b h
  | inr b ↦ rw b (elim (f sz m refl) [ inl z ↦ absurd (ne_of_== sz 0 b z) | inr l ↦ l ])
]

growproc-HasGap :
    (end : ℕ) (p : Process) (n : ℤ) → HasGap p → IsInt n → AllGrowth HasGap (growproc end p n)
unfolding growproc
growproc-HasGap end p (pos k) h l =
    elim (Bool-cases (ltb (stack_base p) ((plus p.sz (pos k) + 5 * 4096) % 4294967296))) [
      | inl b ↦ rw b h
      | inr b ↦ elim (Bool-cases (k == 0)) [
        | inl c ↦ rw (b, c) h
        | inr c ↦
            rw (b, c)
              (resize-HasGap p _ (allocuvm-Ends end p.memory p.pgdir p.sz (plus p.sz (pos k))) h
                (λ sz m e.
                  elim (subst (Sized p.sz (plus p.sz (pos k))) e
                    (allocuvm-Sized end p.memory p.pgdir p.sz (plus p.sz (pos k)))) [
                      | inl z ↦ inl z
                      | inr (inl (f, _)) ↦ inr (room_pos p k sz h l b f)
                      | inr (inr (f, _)) ↦ inr (omega (arith, h, f))
                    ]))
      ]
    ]
growproc-HasGap end p (negsuc k) h l =
    elim (Bool-cases (ltb (stack_base p) ((plus p.sz (negsuc k) + 5 * 4096) % 4294967296))) [
      | inl b ↦ rw b h
      | inr b ↦ rw b (
          resize-HasGap p _ (deallocuvm-Ends end p.memory p.pgdir p.sz (plus p.sz (negsuc k))) h
            (λ sz m e.
              elim (deallocuvm-size end p.memory p.pgdir p.sz (plus p.sz (negsuc k)) sz m e) [
                | inl f ↦ inr (omega (arith, h, f))
                | inr (f, g) ↦ inr (omega (arith, h, f, g))
              ]))
    ]

growstack-HasGap : (end : ℕ) (p : Process) → HasGap p → AllGrowth HasGap (growstack end p)
unfolding growstack
growstack-HasGap end p h = elim (Bool-cases (ltb (minus (next_page p) p.sz) (5 * 4096))) [
  | inl b ↦ rw b h
  | inr b ↦ rw b (
      restack-HasGap p (allocuvm end p.memory p.pgdir (next_page p) (stack_base p))
        (allocuvm-Ends end p.memory p.pgdir (next_page p) (stack_base p)) h (ground (arith, h)))
]

-- Whatever the size, as an `int`, that the program asks for and whatever address it touches,
-- `growproc` and the page fault leave five pages between the heap and the stack at least, and the
-- stack below USERTOP, in every process that goes on, is refused or is killed, where that was so
-- before; no loop over pages runs out of fuel.
pub step-HasGap :
    (end : ℕ) (p : Process) (n : ℤ) (address : ℕ)
    → HasGap p
    → IsInt n
    → AllGrowth HasGap (growproc end p n) × AllFault HasGap (page_fault end p address)
unfolding page_fault
step-HasGap end p n address h l = (
  growproc-HasGap end p n h l,
  elim (Bool-cases (leb (next_page p) address)) [
    | inr b ↦ rw b h
    | inl b ↦ rw b (fault (growstack end p) (growstack-HasGap end p h))
  ],
)
  where
    fault :
        (g : Growth)
        → AllGrowth HasGap g
        → AllFault HasGap (elim g [
          | grows q ↦ resumes q
          | refuses q ↦ kills q
          | panics ↦ fault_panics
          | stuck ↦ fault_stuck
        ])
    fault (grows q) k = k
    fault (refuses q) k = k
    fault panics k = tt
    fault stuck k = k
