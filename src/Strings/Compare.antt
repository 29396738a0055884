-- ===== src/Strings/Compare.antt =====
-- `strncmp` as a comparison of texts.
use ecnu_2020_autumn_linux_l.Base.{
  ℕ, zero, suc, ◌+◌, ◌≡◌, ◌↔◌, refl, List, [], ◌∷◌, ◌==◌, if◌then◌else◌, arith, pos,
}
use ecnu_2020_autumn_linux_l.Strings.{Memory, byte_diff, strncmp}

-- The text at `p`: the bytes up to a NUL, and at most `n`.
abbrev pub text : Memory → (p n : ℕ) → List ℕ
text m p zero = []
text m p (suc n) = let rest = text m (p + 1) n in if m p == 0 then [] else m p ∷ rest

byte_diff-zero : (a b : ℕ) → byte_diff a b ≡ pos 0 → a ≡ b
byte_diff-zero a b e = ground arith

byte_diff_self : (a : ℕ) → byte_diff a a ≡ pos 0
byte_diff_self a = ground arith

strncmp-text : (m : Memory) (p q n : ℕ) → strncmp m p q n ≡ pos 0 → text m p n ≡ text m q n
unfolding strncmp
strncmp-text m p q zero e = refl
strncmp-text m p q (suc n) e =
    let same = byte_diff-zero (m p) (m q) in
    let rest = strncmp-text m (p + 1) (q + 1) n in ground (arith, same, rest)

text-strncmp : (m : Memory) (p q n : ℕ) → text m p n ≡ text m q n → strncmp m p q n ≡ pos 0
unfolding strncmp
text-strncmp m p q zero e = refl
text-strncmp m p q (suc n) e =
    ground (arith, byte_diff_self (m p), text-strncmp m (p + 1) (q + 1) n)

-- `strncmp` returns 0 exactly if the two texts, each cut at its NUL or after `n` bytes, are the same.
strncmp_iff : (m : Memory) (p q n : ℕ) → (strncmp m p q n ≡ pos 0) ↔ (text m p n ≡ text m q n)
strncmp_iff m p q n = (strncmp-text m p q n, text-strncmp m p q n)
