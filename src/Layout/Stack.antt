-- ===== src/Layout/Stack.antt =====
-- A page fault that grows the stack.
use ecnu_2020_autumn_linux_l.Base.{
  ℕ, suc, ◌+◌, ◌*◌, ◌/◌, ◌%◌, ◌≤◌, ◌<◌, ◌≡◌, refl, ap, subst, true, false, List, ◌∷◌, ◌==◌, ltb,
  leb, if◌then◌else◌, arith, ==_of_ne,
}
use ecnu_2020_autumn_linux_l.Kalloc.{kalloc, round_up}
use ecnu_2020_autumn_linux_l.Vm.{
  Memory, usertop, round_down, user_perm, Mapping, maps, page_entry, mappages, allocuvm,
  allocuvm_loop, ended,
}
use ecnu_2020_autumn_linux_l.Vm.View.{view, IsTree}
use ecnu_2020_autumn_linux_l.Vm.Map.{MapOutcome, was_mapped, no_table, mapped, mappages-MapOutcome}
use ecnu_2020_autumn_linux_l.Layout.{
  Process, next_page, stack_base, minus, growstack, restack, page_fault, resumes,
}
use ecnu_2020_autumn_linux_l.Layout.Overlap.{IsTree-taken}

-- The page of `la` is mapped to `mem` for the user, and every other page as before.
abbrev pub GainsPage : (m m' : Memory) (pgdir la mem : ℕ) → Type 0
GainsPage m m' pgdir la mem =
    IsTree m' pgdir
    × ((b : ℕ)
        → b < 4294967296
        → view m' pgdir b
          ≡ (if round_down b == round_down la then page_entry mem user_perm else view m pgdir b))

mappages-GainsPage :
    (m : Memory) (pgdir la mem q : ℕ) (ps : List ℕ)
    → IsTree m pgdir
    → m.free ≡ q ∷ ps
    → la % 4096 ≡ 0
    → la < 4294967296
    → (view m pgdir la).present ≡ false
    → (m' : Memory) × (mappages m pgdir la 4096 mem user_perm ≡ maps m')
      × GainsPage m m' pgdir la mem
mappages-GainsPage m pgdir la mem q ps h f r l p =
    go (mappages m pgdir la 4096 mem user_perm) refl
      (mappages-MapOutcome m pgdir la mem user_perm h r l)
  where
    go :
        (o : Mapping)
        → mappages m pgdir la 4096 mem user_perm ≡ o
        → MapOutcome m pgdir la (page_entry mem user_perm) o
        → (m' : Memory) × (mappages m pgdir la 4096 mem user_perm ≡ maps m')
          × GainsPage m m' pgdir la mem
    go _ e (was_mapped x) = absurd (cc)
    go _ e (no_table _ z _ _) = absurd (cc)
    go _ e (mapped m' tree _ v) = (m', e, (tree, v))

allocuvm_loop-maps :
    (fuel end : ℕ) (m m' : Memory) (pgdir a oldsz newsz mem : ℕ) (ps : List ℕ)
    → a < newsz
    → newsz ≤ a + 4096
    → m.free ≡ mem ∷ ps
    → mappages (record m { free = ps }) pgdir a 4096 mem user_perm ≡ maps m'
    → allocuvm_loop (suc (suc fuel)) end m pgdir a oldsz newsz ≡ ended (newsz, m')
unfolding allocuvm_loop kalloc
allocuvm_loop-maps fuel end m m' pgdir a oldsz newsz mem ps l k f e =
    let b : ltb a newsz ≡ true = ground arith in
    let c : ltb (a + 4096) newsz ≡ false = ground arith in
    rw b (rw (ap kalloc f, allocuvm_loop) (rw (ap kalloc f) (rw e (rw c refl))))

allocuvm-GainsPage :
    (end : ℕ) (m : Memory) (pgdir la mem q : ℕ) (ps : List ℕ)
    → IsTree m pgdir
    → m.free ≡ mem ∷ q ∷ ps
    → la % 4096 ≡ 0
    → la + 4096 ≤ usertop
    → (view m pgdir la).present ≡ false
    → (m' : Memory) × (allocuvm end m pgdir la (la + 4096) ≡ ended (la + 4096, m'))
      × GainsPage m m' pgdir la mem
unfolding allocuvm
allocuvm-GainsPage end m pgdir la mem q ps h f r l p =
    let small : ltb usertop (la + 4096) ≡ false = ground arith in
    let up : ltb (la + 4096) la ≡ false = ground arith in
    let start : la ≡ round_up la = omega (arith, r) in
    let fuel : suc (suc ((la + 4096) / 4096)) ≡ (la + 4096) / 4096 + 2 = omega arith in
    let (m', e, gains) =
      mappages-GainsPage (record m { free = q ∷ ps }) pgdir la mem q ps
        (IsTree-taken m pgdir mem (q ∷ ps) f h) refl r (omega (arith, l)) p in
    let loop =
      allocuvm_loop-maps ((la + 4096) / 4096) end m m' pgdir la la (la + 4096) mem (q ∷ ps)
        (omega arith) (omega arith) f e in
    (
      m',
      rw (small, up)
          (subst
            (λ n. allocuvm_loop n end m pgdir (round_up la) la (la + 4096) ≡ ended (la + 4096, m'))
            fuel
            (subst
              (λ x.
                allocuvm_loop (suc (suc ((la + 4096) / 4096))) end m pgdir x la (la + 4096)
                ≡ ended (la + 4096, m'))
              start loop)),
      gains,
    )

-- Where five pages stay between the heap and a stack of one page more, the page below the stack is not
-- mapped, the page directory is valid and two pages are free, a page fault at that page or above lets
-- the process go on with a stack of one page more: the page below the stack is mapped for the user to
-- the first free page, every other page as before, and the directory is still valid.
pub page_fault-GainsPage :
    (end : ℕ) (p : Process) (address mem q : ℕ) (ps : List ℕ)
    → p.sz + 20480 + 4096 * (p.size_of_stack + 1) ≤ usertop
    → next_page p ≤ address
    → IsTree p.memory p.pgdir
    → p.memory.free ≡ mem ∷ q ∷ ps
    → (view p.memory p.pgdir (next_page p)).present ≡ false
    → (m' : Memory) × (page_fault end p address
        ≡ resumes (record p { memory = m'; size_of_stack = p.size_of_stack + 1 }))
      × GainsPage p.memory m' p.pgdir (next_page p) mem
unfolding page_fault growstack restack
page_fault-GainsPage end p address mem q ps room low h f v =
    let below : leb (next_page p) address ≡ true = ground (arith, low) in
    let gap : ltb (minus (next_page p) p.sz) (5 * 4096) ≡ false = ground (arith, room) in
    let aligned : next_page p % 4096 ≡ 0 = ground (arith, room) in
    let base : next_page p + 4096 ≡ stack_base p = ground (arith, room) in
    let (m', e, gains) =
      allocuvm-GainsPage end p.memory p.pgdir (next_page p) mem q ps h f aligned
        (ground (arith, room)) v in
    let e' : allocuvm end p.memory p.pgdir (next_page p) (stack_base p)
        ≡ ended (next_page p + 4096, m') =
      subst (λ x. allocuvm end p.memory p.pgdir (next_page p) x ≡ ended (next_page p + 4096, m'))
        base e in
    let some_size : (next_page p + 4096 == 0) ≡ false =
      ==_of_ne (next_page p + 4096) 0 (λ z. absurd (omega (arith, z))) in
    (m', rw below (rw gap (rw e' (rw some_size refl))), gains)
