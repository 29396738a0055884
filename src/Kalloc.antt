-- ===== src/Kalloc.antt =====
-- kernel/kalloc.c of Project4/4b xv6 Kernel Thread: the free list of physical pages, each page its
-- address. The address `end` of the first byte behind the kernel is a parameter.
pub mod Pages
mod Tests
use ecnu_2020_autumn_linux_l.Base.{
  ℕ, zero, suc, ◌+◌, ◌-◌, ◌/◌, ◌%◌, Bool, not, ◌||◌, Option, none, some, List, [], ◌∷◌, ◌==◌, ltb,
  leb, if◌then◌else◌,
}

abbrev pub pgsize : ℕ
pgsize = 4096

abbrev pub phystop : ℕ
phystop = 16777216

-- `none`: the kernel panics.
unfoldable pub kfree : (end : ℕ) → ℕ → List ℕ → Option (List ℕ)
kfree end v freelist =
    if not (v % pgsize == 0) || ltb v end || leb phystop v then none else some (v ∷ freelist)

unfoldable pub kalloc : List ℕ → Option ℕ × List ℕ
kalloc [] = (none, [])
kalloc (r ∷ freelist) = (some r, freelist)

-- The sum of two words of 32 bits.
abbrev pub add32 : ℕ → ℕ → ℕ
add32 a b = (a + b) % 4294967296

-- PGROUNDUP
abbrev pub round_up : ℕ → ℕ
round_up a = add32 a 4095 - add32 a 4095 % 4096

-- The loop of `kinit` from the address `p` on; without fuel, or after a panic, `none`.
unfoldable pub kinit_loop : ℕ → (end : ℕ) → ℕ → List ℕ → Option (List ℕ)
unfolding kfree
kinit_loop zero end p freelist = none
kinit_loop (suc fuel) end p freelist =
    let next : Option (List ℕ) = elim (kfree end p freelist) [
      | none ↦ none
      | some freelist' ↦ kinit_loop fuel end (add32 p pgsize) freelist'
    ] in
    if leb (add32 p pgsize) phystop then next else some freelist

-- One round for each page of the memory, and one to stop.
unfoldable pub kinit : (end : ℕ) → Option (List ℕ)
unfolding kinit_loop
kinit end = kinit_loop 4097 end (round_up end) []
