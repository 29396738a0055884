-- ===== src/Strings.antt =====
-- kernel/string.c of Project4/4b xv6 Kernel Thread. The memory is a function from addresses to bytes,
-- and no object reaches over the end of the address space.
pub mod Move
pub mod Compare
pub mod Copy
mod Tests
use ecnu_2020_autumn_linux_l.Base.{
  ℕ, zero, suc, ◌+◌, ◌-◌, ◌%◌, Bool, true, false, not, ◌&&◌, ◌||◌, List, [], ◌∷◌, ◌==◌, ltb, leb,
  if◌then◌else◌, ℤ, pos, negsuc,
}

abbrev pub Memory : Type 0
Memory = ℕ → ℕ

-- `*a = v`
abbrev pub store : Memory → ℕ → ℕ → Memory
store m a v = λ b. if b == a then v else m b

-- The difference of two bytes as an `int`.
abbrev pub byte_diff : ℕ → ℕ → ℤ
byte_diff a b = if leb b a then pos (a - b) else negsuc (b - a - 1)

unfoldable pub memset : Memory → (dst c n : ℕ) → Memory
memset m dst c zero = m
memset m dst c (suc n) = memset (store m dst (c % 256)) (dst + 1) c n

unfoldable pub memcmp : Memory → (v1 v2 n : ℕ) → ℤ
memcmp m s1 s2 zero = pos 0
memcmp m s1 s2 (suc n) =
    let rest = memcmp m (s1 + 1) (s2 + 1) n in
    if m s1 == m s2 then rest else byte_diff (m s1) (m s2)

-- `while(n-- > 0) *--d = *--s;`, where the pointers stand at `dst + n` and `src + n`.
unfoldable pub copy_down : Memory → (dst src n : ℕ) → Memory
copy_down m dst src zero = m
copy_down m dst src (suc n) = copy_down (store m (dst + n) (m (src + n))) dst src n

-- `while(n-- > 0) *d++ = *s++;`
unfoldable pub copy_up : Memory → (dst src n : ℕ) → Memory
copy_up m dst src zero = m
copy_up m dst src (suc n) = copy_up (store m dst (m src)) (dst + 1) (src + 1) n

unfoldable pub memmove : Memory → (dst src n : ℕ) → Memory
unfolding copy_down copy_up
memmove m dst src n =
    if ltb src dst && ltb dst (src + n) then copy_down m dst src n else copy_up m dst src n

unfoldable pub strncmp : Memory → (p q n : ℕ) → ℤ
strncmp m p q zero = pos 0
strncmp m p q (suc n) =
    let rest = strncmp m (p + 1) (q + 1) n in
    if not (m p == 0) && (m p == m q) then rest else byte_diff (m p) (m q)

-- `while(n-- > 0) *s++ = 0;`
unfoldable pub zero_fill : Memory → (s n : ℕ) → Memory
zero_fill m s zero = m
zero_fill m s (suc n) = zero_fill (store m s 0) (s + 1) n

unfoldable pub strncpy : Memory → (s t n : ℕ) → Memory
unfolding zero_fill
strncpy m s t zero = m
strncpy m s t (suc n) =
    let m' = store m s (m t) in
    let rest = strncpy m' (s + 1) (t + 1) n in if m t == 0 then zero_fill m' (s + 1) n else rest

-- The loop of `safestrcpy` and its last write, with `n` for `n - 1`.
unfoldable pub safe_loop : Memory → (s t n : ℕ) → Memory
safe_loop m s t zero = store m s 0
safe_loop m s t (suc n) =
    let m' = store m s (m t) in
    let rest = safe_loop m' (s + 1) (t + 1) n in if m t == 0 then store m' (s + 1) 0 else rest

unfoldable pub safestrcpy : Memory → (s t : ℕ) → ℤ → Memory
unfolding safe_loop
safestrcpy m s t (negsuc _) = m
safestrcpy m s t (pos zero) = m
safestrcpy m s t (pos (suc n)) = safe_loop m s t n
