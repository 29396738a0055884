-- ===== src/Args.antt =====
-- kernel/syscall.c of Project4/4b xv6 Kernel Thread: how the kernel fetches the arguments of a system
-- call from the memory of the process. Addresses and arguments are 32-bit words.
pub mod Checks
use ecnu_2020_autumn_linux_l.Base.{
  ℕ, zero, suc, ◌+◌, ◌-◌, ◌*◌, ◌%◌, Bool, ◌||◌, Option, none, some, ◌==◌, ltb, leb, if◌then◌else◌,
}
use ecnu_2020_autumn_linux_l.Strings.{Memory}

-- The size and the user stack pointer of the process.
pub record Caller : Type 0 where
  pub sz : ℕ
  pub esp : ℕ

abbrev pub word : ℕ
word = 4294967296

-- `*(int*)(addr)`
abbrev pub word_at : Memory → ℕ → ℕ
word_at m a = m a + 256 * m (a + 1) + 65536 * m (a + 2) + 16777216 * m (a + 3)

-- `none`: -1.
unfoldable pub fetchint : Memory → Caller → (addr : ℕ) → Option ℕ
fetchint m p addr =
    if leb p.sz addr || ltb p.sz ((addr + 4) % word) then none else some (word_at m addr)

-- The loop of `fetchstr` at `s`, which is `length` bytes from the start and `n` from the end.
unfoldable pub fetchstr_loop : Memory → (s length n : ℕ) → Option ℕ
fetchstr_loop m s length zero = none
fetchstr_loop m s length (suc n) =
    let rest = fetchstr_loop m (suc s) (suc length) n in if m s == 0 then some length else rest

-- The length of the string; the pointer is `addr`.
unfoldable pub fetchstr : Memory → Caller → (addr : ℕ) → Option ℕ
unfolding fetchstr_loop
fetchstr m p addr = if leb p.sz addr then none else fetchstr_loop m addr 0 (p.sz - addr)

unfoldable pub argint : Memory → Caller → (n : ℕ) → Option ℕ
unfolding fetchint
argint m p n = fetchint m p ((p.esp + 4 + 4 * n) % word)

-- The pointer; `size` is the word of an `int`.
unfoldable pub argptr : Memory → Caller → (n size : ℕ) → Option ℕ
argptr m p n size = elim (argint m p n) [
  | none ↦ none
  | some i ↦ if leb p.sz i || ltb p.sz ((i + size) % word) then none else some i
]

-- The pointer and the length of the string.
unfoldable pub argstr : Memory → Caller → (n : ℕ) → Option (ℕ × ℕ)
argstr m p n = elim (argint m p n) [
  | none ↦ none
  | some addr ↦ elim (fetchstr m p addr) [ none ↦ none | some length ↦ some (addr, length) ]
]
