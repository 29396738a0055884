-- ===== src/Strings/Copy.antt =====
-- `safestrcpy` copies a text and ends it.
use ecnu_2020_autumn_linux_l.Base.{
  ℕ, zero, suc, ◌+◌, ◌≤◌, ◌<◌, ◌≡◌, ◌≢◌, ◌⊎◌, inl, inr, refl, ap, sym, ◌∙◌, true, false, [], ◌∷◌,
  ◌==◌, arith, Bool-cases, pos,
}
use ecnu_2020_autumn_linux_l.Strings.{Memory, store, safe_loop, safestrcpy}
use ecnu_2020_autumn_linux_l.Strings.Compare.{text}

-- The memory is the same but for the `n` bytes from `s` on.
abbrev pub Within : Memory → Memory → (s n : ℕ) → Type 0
Within m m' s n = (a : ℕ) → (a < s) ⊎ (s + n ≤ a) → m' a ≡ m a

safe_loop-Within : (m : Memory) (s t n : ℕ) → Within m (safe_loop m s t n) s (suc n)
unfolding safe_loop
safe_loop-Within m s t zero a (inl l) = ground arith
safe_loop-Within m s t zero a (inr l) = ground arith
safe_loop-Within m s t (suc n) a (inl l) =
    ground (arith, safe_loop-Within (store m s (m t)) (s + 1) (t + 1) n a (inl (omega (arith, l))))
safe_loop-Within m s t (suc n) a (inr l) =
    ground (arith, safe_loop-Within (store m s (m t)) (s + 1) (t + 1) n a (inr (omega (arith, l))))

-- A text does not change with bytes elsewhere.
text-Within :
    (m m' : Memory) (t n : ℕ)
    → ((a : ℕ) → t ≤ a → a < t + n → m' a ≡ m a)
    → text m' t n ≡ text m t n
text-Within m m' t zero h = refl
text-Within m m' t (suc n) h =
    let here = h t (omega arith) (omega arith) in
    let rest = text-Within m m' (t + 1) n (λ a l k. h a (omega (arith, l)) (omega (arith, k))) in
    rw (here, rest) refl

text_nul : (m : Memory) (p n : ℕ) → (m p == 0) ≡ true → text m p (suc n) ≡ []
text_nul m p n b = rw b refl

text_cons : (m : Memory) (p n : ℕ) → (m p == 0) ≡ false → text m p (suc n) ≡ m p ∷ text m (p + 1) n
text_cons m p n b = rw b refl

store_self : (m : Memory) (a v : ℕ) → store m a v a ≡ v
store_self m a v = ground arith

store_ne : (m : Memory) (a v b : ℕ) → b ≢ a → store m a v b ≡ m b
store_ne m a v b h = ground arith

safe_loop-text :
    (m : Memory) (s t n : ℕ)
    → (s + suc n ≤ t) ⊎ (t + n ≤ s)
    → text (safe_loop m s t n) s (suc n) ≡ text m t n
unfolding safe_loop
safe_loop-text m s t zero h = ground arith
safe_loop-text m s t (suc n) h =
    let m' : Memory = store m s (m t) in
    let here : m' s ≡ m t = store_self m s (m t) in
    elim (Bool-cases (m t == 0)) [
      | inl b ↦
          let m'' : Memory = store m' (s + 1) 0 in
          let out : safe_loop m s t (suc n) ≡ m'' = rw b refl in
          let first : m'' s ≡ m t = store_ne m' (s + 1) 0 s (λ e. omega (arith, e)) ∙ here in
          let end : (m'' s == 0) ≡ true = ap (λ x. x == 0) first ∙ b in
          ap (λ x. text x s (suc (suc n))) out ∙ text_nul m'' s (suc n) end ∙ sym (text_nul m t n b)
      | inr b ↦
          let rest : Memory = safe_loop m' (s + 1) (t + 1) n in
          let out : safe_loop m s t (suc n) ≡ rest = rw b refl in
          let next : (s + 1 + suc n ≤ t + 1) ⊎ (t + 1 + n ≤ s + 1) = elim h [
            | inl l ↦ inl (omega (arith, l))
            | inr r ↦ inr (omega (arith, r))
          ] in
          let first : rest s ≡ m t =
            safe_loop-Within m' (s + 1) (t + 1) n s (inl (omega arith)) ∙ here in
          let on : (rest s == 0) ≡ false = ap (λ x. x == 0) first ∙ b in
          let kept : text m' (t + 1) n ≡ text m (t + 1) n = text-Within m m' (t + 1) n (λ a l k.
            store_ne m s (m t) a
              (λ e. elim h [ inl p ↦ omega (arith, e, l, p) | inr p ↦ omega (arith, e, k, p) ])) in
          let tail : text rest (s + 1) (suc n) ≡ text m (t + 1) n =
            safe_loop-text m' (s + 1) (t + 1) n next ∙ kept in
          ap (λ x. text x s (suc (suc n))) out
          ∙ text_cons rest s (suc n) on
          ∙ ap (λ x. x ∷ text rest (s + 1) (suc n)) first
          ∙ ap (λ xs. m t ∷ xs) tail
          ∙ sym (text_cons m t n b)
    ]

-- For a buffer of `n + 1` bytes that does not overlap the text, `safestrcpy` leaves in it the first
-- `n` bytes of the text, or all if there are fewer, ended by a NUL inside the buffer, and writes
-- nowhere else.
safestrcpy-text :
    (m : Memory) (s t n : ℕ)
    → (s + suc n ≤ t) ⊎ (t + n ≤ s)
    → (text (safestrcpy m s t (pos (suc n))) s (suc n) ≡ text m t n)
      × Within m (safestrcpy m s t (pos (suc n))) s (suc n)
unfolding safestrcpy
safestrcpy-text m s t n h = (safe_loop-text m s t n h, safe_loop-Within m s t n)
