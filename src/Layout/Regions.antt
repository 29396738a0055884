-- ===== src/Layout/Regions.antt =====
-- Which blocks of memory the argument checks let a system call use.
use ecnu_2020_autumn_linux_l.Base.{
  ℕ, ◌+◌, ◌*◌, ◌%◌, ◌≤◌, ◌<◌, ◌≡◌, ◌⊎◌, ◌↔◌, ◌&&◌, ◌||◌, inl, inr, refl, Bool, false, some, ltb,
  leb, arith, Bool-cases,
}
use ecnu_2020_autumn_linux_l.Strings.{Memory as Bytes}
use ecnu_2020_autumn_linux_l.Args.{word_at}
use ecnu_2020_autumn_linux_l.Vm.{usertop}
use ecnu_2020_autumn_linux_l.Layout.{Process, stack_base, fetchint, check_block}
use ecnu_2020_autumn_linux_l.Layout.Gap.{HasGap}

-- A block with its bytes in the program and the heap, or in the stack.
abbrev pub InRegion : Process → (i size : ℕ) → Type 0
InRegion p i size =
    (8192 ≤ i)
    × (i < usertop)
    × (((i < p.sz) × (i + size ≤ p.sz))
        ⊎ ((usertop ≤ i + 4096 * p.size_of_stack) × (i + size ≤ usertop)))

abbrev outside : Process → (i size : ℕ) → Bool
outside p i size = leb usertop i || (ltb usertop ((i + size) % 4294967296) || ltb i 8192)

abbrev between : Process → (i size : ℕ) → Bool
between p i size = (leb p.sz i || ltb p.sz ((i + size) % 4294967296)) && ltb i (stack_base p)

InRegion-tests :
    (p : Process) (i size : ℕ)
    → HasGap p
    → size < 2147483648
    → outside p i size ≡ false
    → between p i size ≡ false
    → InRegion p i size
InRegion-tests p i size h l b c = ground (arith, h, l, b, c)

outside-InRegion :
    (p : Process) (i size : ℕ) → HasGap p → InRegion p i size → outside p i size ≡ false
outside-InRegion p i size h r = ground (arith, h, r)

between-InRegion :
    (p : Process) (i size : ℕ) → HasGap p → InRegion p i size → between p i size ≡ false
between-InRegion p i size h r = ground (arith, h, r)

check_block-InRegion :
    (p : Process) (i size : ℕ)
    → HasGap p
    → size < 2147483648
    → (check_block p i size ≡ some i) ↔ InRegion p i size
unfolding check_block
check_block-InRegion p i size h l = (
  elim (Bool-cases (outside p i size)) [
    | inl b ↦ rw b (λ e. absurd (cc))
    | inr b ↦ elim (Bool-cases (between p i size)) [
      | inl c ↦ rw (b, c) (λ e. absurd (cc))
      | inr c ↦ λ e. InRegion-tests p i size h l b c
    ]
  ],
  λ r. rw (outside-InRegion p i size h r) (rw (between-InRegion p i size h r) refl),
)

fetchint-InRegion :
    (m : Bytes) (p : Process) (addr : ℕ)
    → HasGap p
    → (fetchint m p addr ≡ some (word_at m addr)) ↔ InRegion p addr 4
unfolding fetchint
fetchint-InRegion m p addr h = (
  elim (Bool-cases (between p addr 4)) [
    | inl b ↦ rw b (λ e. absurd (cc))
    | inr b ↦ elim (Bool-cases (outside p addr 4)) [
      | inl c ↦ rw (b, c) (λ e. absurd (cc))
      | inr c ↦ λ e. InRegion-tests p addr 4 h (omega arith) c b
    ]
  ],
  λ r. rw (between-InRegion p addr 4 h r) (rw (outside-InRegion p addr 4 h r) refl),
)

-- In a process with the gap, `argptr` accepts a block of a size that is not negative exactly if its
-- bytes are in the program and the heap, that is from 0x2000 to the size of the process, or in the
-- stack; and `fetchint` reads the word at an address exactly if its four bytes are.
pub check_block-fetchint :
    (m : Bytes) (p : Process) (i size : ℕ)
    → HasGap p
    → size < 2147483648
    → ((check_block p i size ≡ some i) ↔ InRegion p i size)
      × ((fetchint m p i ≡ some (word_at m i)) ↔ InRegion p i 4)
check_block-fetchint m p i size h l = (check_block-InRegion p i size h l, fetchint-InRegion m p i h)
