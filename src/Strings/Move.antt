-- ===== src/Strings/Move.antt =====
-- `memmove` where the regions overlap.
use ecnu_2020_autumn_linux_l.Base.{
  ℕ, zero, suc, ◌+◌, ◌-◌, ◌≤◌, ◌≡◌, ◌⊎◌, inl, inr, false, ◌&&◌, ltb, leb, if◌then◌else◌, arith,
  Bool-cases,
}
use ecnu_2020_autumn_linux_l.Strings.{Memory, store, copy_down, copy_up, memmove}

-- The memory after all the bytes are copied at once.
abbrev pub moved : Memory → (dst src n : ℕ) → Memory
moved m dst src n a = if leb dst a && ltb a (dst + n) then m (src + (a - dst)) else m a

copy_down_lem :
    (m : Memory) (dst src n : ℕ)
    → src ≤ dst
    → (a : ℕ) → copy_down m dst src n a ≡ moved m dst src n a
unfolding copy_down
copy_down_lem m dst src zero h a = ground arith
copy_down_lem m dst src (suc n) h a =
    ground (arith, copy_down_lem (store m (dst + n) (m (src + n))) dst src n h a)

copy_up_lem :
    (m : Memory) (dst src n : ℕ)
    → (dst ≤ src) ⊎ (src + n ≤ dst)
    → (a : ℕ) → copy_up m dst src n a ≡ moved m dst src n a
unfolding copy_up
copy_up_lem m dst src zero h a = ground arith
copy_up_lem m dst src (suc n) h a =
    let m' = store m dst (m src) in
    let next : (dst + 1 ≤ src + 1) ⊎ (src + 1 + n ≤ dst + 1) = elim h [
      | inl l ↦ inl (omega (arith, l))
      | inr r ↦ inr (omega (arith, r))
    ] in
    let rest = copy_up_lem m' (dst + 1) (src + 1) n next a in
    elim h [ inl l ↦ ground (arith, rest, l) | inr r ↦ ground (arith, rest, r) ]

apart : (dst src n : ℕ) → (ltb src dst && ltb dst (src + n)) ≡ false → (dst ≤ src) ⊎ (src + n ≤ dst)
apart dst src n b = elim (Bool-cases (ltb src dst)) [
  | inl c ↦ inr (ground arith)
  | inr c ↦ inl (ground arith)
]

-- Whether and however the two regions overlap, `memmove` has the effect of copying all bytes at once:
-- each byte of the destination becomes what its source byte was before the call, and no other byte
-- changes.
pub memmove-moved :
    (m : Memory) (dst src n : ℕ) (a : ℕ) → memmove m dst src n a ≡ moved m dst src n a
unfolding memmove
memmove-moved m dst src n a = elim (Bool-cases (ltb src dst && ltb dst (src + n))) [
  | inl b ↦ let l : src ≤ dst = ground arith in rw (b, memmove) (copy_down_lem m dst src n l a)
  | inr b ↦
      let l : (dst ≤ src) ⊎ (src + n ≤ dst) = apart dst src n b in
      rw (b, memmove) (copy_up_lem m dst src n l a)
]
