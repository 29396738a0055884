-- ===== src/Args/Checks.antt =====
-- Which pointers and strings a system call accepts.
use ecnu_2020_autumn_linux_l.Base.{
  ℕ, zero, suc, ◌+◌, ◌-◌, ◌%◌, ◌≤◌, ◌<◌, ◌≡◌, ◌≢◌, ◌⊎◌, ◌↔◌, inl, inr, refl, sym, ap, subst, ◌∙◌,
  false, ◌||◌, Option, none, some, ◌==◌, ltb, leb, if◌then◌else◌, arith, Bool-cases, Option-cases,
  eq_of_==, ne_of_==,
}
use ecnu_2020_autumn_linux_l.Strings.{Memory}
use ecnu_2020_autumn_linux_l.Args.{Caller, word, fetchstr, fetchstr_loop, argint, argptr, argstr}

-- What `argstr` accepts and refuses.
pub data StringOutcome (m : Memory) (p : Caller) (arg : Option ℕ) : Option (ℕ × ℕ) → Type 0 where
  no_arg : arg ≡ none → StringOutcome m p arg none
  bad_pointer : (addr : ℕ) → arg ≡ some addr → p.sz ≤ addr → StringOutcome m p arg none
  endless :
      (addr : ℕ)
      → arg ≡ some addr
      → ((a : ℕ) → addr ≤ a → a < p.sz → m a ≢ 0)
      → StringOutcome m p arg none
  text :
      (addr length : ℕ)
      → arg ≡ some addr
      → addr + length < p.sz
      → m (addr + length) ≡ 0
      → ((d : ℕ) → d < length → m (addr + d) ≢ 0)
      → StringOutcome m p arg (some (addr, length))

-- One more byte that is not zero, in front of `n` others.
before :
    (m : Memory) (s n : ℕ)
    → (m s == 0) ≡ false
    → ((d : ℕ) → d < n → m (suc s + d) ≢ 0)
    → (d : ℕ) → d < suc n
    → m (s + d) ≢ 0
before m s n b h zero l e = ne_of_== (m s) 0 b (subst (λ a. m a ≡ 0) (omega arith) e)
before m s n b h (suc d) l e = h d (omega (arith, l)) (subst (λ a. m a ≡ 0) (omega arith) e)

-- The loop stops at the first zero byte.
fetchstr_loop_lem :
    (m : Memory) (s length n : ℕ)
    → ((fetchstr_loop m s length n ≡ none) × ((d : ℕ) → d < n → m (s + d) ≢ 0))
      ⊎ ((k : ℕ) × (fetchstr_loop m s length n ≡ some (length + k))
          × (k < n)
          × (m (s + k) ≡ 0)
          × ((d : ℕ) → d < k → m (s + d) ≢ 0))
unfolding fetchstr_loop
fetchstr_loop_lem m s length zero = inl (refl, λ d l. absurd (omega (arith, l)))
fetchstr_loop_lem m s length (suc n) = elim (Bool-cases (m s == 0)) [
  | inl b ↦ inr (
    0,
    rw b (ap some (omega arith)),
    omega arith,
    subst (λ a. m a ≡ 0) (omega arith) (eq_of_== (m s) 0 b),
    λ d l. absurd (omega (arith, l)),
  )
  | inr b ↦ elim (fetchstr_loop_lem m (suc s) (suc length) n) [
    | inl (e, h) ↦ inl (rw b e, before m s n b h)
    | inr (k, e, l, z, h) ↦ inr (
      suc k,
      rw b (e ∙ ap some (omega arith)),
      omega (arith, l),
      subst (λ a. m a ≡ 0) (omega arith) z,
      before m s k b h,
    )
  ]
]

-- The string argument `n` of a system call: it is refused where the argument itself cannot be read,
-- where it points outside of the process, or where no byte from there to the end of the process is 0;
-- else the length is that of the text before the first zero byte, which is in the process too.
argstr-StringOutcome :
    (m : Memory) (p : Caller) (n : ℕ) → StringOutcome m p (argint m p n) (argstr m p n)
unfolding argstr fetchstr
argstr-StringOutcome m p n = elim (Option-cases (argint m p n)) [
  | inl e ↦ rw (e, argstr) (no_arg refl)
  | inr (addr, e) ↦ elim (Bool-cases (leb p.sz addr)) [
    | inl b ↦
        let g : fetchstr m p addr ≡ none = rw (b, fetchstr) refl in
        rw (e, argstr) (rw g (bad_pointer addr refl (ground arith)))
    | inr b ↦
        let inside : addr < p.sz = ground arith in
        elim (fetchstr_loop_lem m addr 0 (p.sz - addr)) [
          | inl (f, h) ↦
              let g : fetchstr m p addr ≡ none = rw (b, fetchstr) f in
              rw (e, argstr)
                (rw g (
                  endless addr refl (λ a l k z.
                    h (a - addr) (omega (arith, l, k))
                      (subst (λ x. m x ≡ 0) (omega (arith, l)) z))))
          | inr (k, f, l, z, h) ↦
              let g : fetchstr m p addr ≡ some k = rw (b, fetchstr) (f ∙ ap some (omega arith)) in
              rw (e, argstr) (rw g (text addr k refl (omega (arith, l, inside)) z h))
        ]
  ]
]

argptr-some :
    (m : Memory) (p : Caller) (n size i : ℕ)
    → argint m p n ≡ some i
    → argptr m p n size ≡ (if leb p.sz i || ltb p.sz ((i + size) % word) then none else some i)
unfolding argptr
argptr-some m p n size i e = rw (e, argptr) refl

argptr-from :
    (m : Memory) (p : Caller) (n size i : ℕ) → argptr m p n size ≡ some i → argint m p n ≡ some i
unfolding argptr
argptr-from m p n size i e = elim (Option-cases (argint m p n)) [
  | inl f ↦ absurd (let g : argptr m p n size ≡ none = rw (f, argptr) refl in cc)
  | inr (j, f) ↦ elim (Bool-cases (leb p.sz j || ltb p.sz ((j + size) % word))) [
    | inl b ↦ absurd (let g : argptr m p n size ≡ none = rw (f, argptr) (rw b refl) in cc)
    | inr b ↦ (let g : argptr m p n size ≡ some j = rw (f, argptr) (rw b refl) in cc)
  ]
]

-- Where the size is not negative as an `int` and the process has at most 2^31 bytes, the pointer
-- argument `n` is accepted just where it can be read and the whole block is in the process.
pub argptr_iff :
    (m : Memory) (p : Caller) (n size i : ℕ)
    → size < 2147483648
    → p.sz ≤ 2147483648
    → (argptr m p n size ≡ some i) ↔ ((argint m p n ≡ some i) × (i < p.sz) × (i + size ≤ p.sz))
argptr_iff m p n size i l k = (
  (λ e.
      let arg = argptr-from m p n size i e in
      let checks = sym (argptr-some m p n size i arg) ∙ e in
      (arg, ground (arith, checks, l, k), ground (arith, checks, l, k))),
  (λ h.
      let (arg, inside, all) = h in
      argptr-some m p n size i arg ∙ ground (arith, inside, all, l, k)),
)

-- A negative size `-k`, where the pointer is at `k` or above: the block is accepted.
argptr_negative :
    (m : Memory) (p : Caller) (n k i : ℕ)
    → argint m p n ≡ some i
    → i < p.sz
    → p.sz ≤ 2147483648
    → 0 < k
    → k ≤ i
    → argptr m p n (word - k) ≡ some i
argptr_negative m p n k i e l h pos le =
    argptr-some m p n (word - k) i e ∙ ground (arith, l, h, pos, le)
