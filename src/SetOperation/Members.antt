-- ===== src/SetOperation/Members.antt =====
-- Membership in the result of set_operation.c.
use ecnu_2020_autumn_linux_l.Base.{
  ◌≡◌, ◌⊎◌, inl, inr, refl, sym, ap, ◌∙◌, ℤ, pos, negsuc, Bool, true, false, not, ◌&&◌, ◌||◌, some,
  List, [], ◌∷◌, ◌++◌, if◌then◌else◌, arith, eq_of_==, ==_self, Bool-cases,
}
use ecnu_2020_autumn_linux_l.SetOperation.{same_int, check_loop, check, set_operation}
use ecnu_2020_autumn_linux_l.SetOperation.Difference.{without, set_operation-without}

eq_of_same_int : (x y : ℤ) → same_int x y ≡ true → x ≡ y
eq_of_same_int (pos a) (pos b) e = ap pos (eq_of_== a b e)
eq_of_same_int (negsuc a) (negsuc b) e = ap negsuc (eq_of_== a b e)
eq_of_same_int (pos a) (negsuc b) e = absurd (cc)
eq_of_same_int (negsuc a) (pos b) e = absurd (cc)

check_loop-or : (s : Bool) (x : ℤ) (ps : List ℤ) → check_loop s x ps ≡ (s || check_loop false x ps)
unfolding check_loop
check_loop-or true x [] = refl
check_loop-or false x [] = refl
check_loop-or s x (p ∷ ps) =
    let a = check_loop-or (if same_int p x then true else s) x ps in
    let b = check_loop-or (if same_int p x then true else false) x ps in ground (arith, a, b)

check_cons : (x p : ℤ) (ps : List ℤ) → check x (p ∷ ps) ≡ (same_int p x || check x ps)
unfolding check check_loop
check_cons x p ps = check_loop-or (if same_int p x then true else false) x ps ∙ ground arith

check_nil : (x : ℤ) → check x [] ≡ false
unfolding check check_loop
check_nil x = refl

check-append : (x : ℤ) (xs ys : List ℤ) → check x (xs ++ ys) ≡ (check x xs || check x ys)
check-append x [] ys = rw (check_nil x) refl
check-append x (p ∷ xs) ys =
    ground (arith, check_cons x p (xs ++ ys), check_cons x p xs, check-append x xs ys)

check-without :
    (x : ℤ) (xs ys : List ℤ) → check x (without xs ys) ≡ (check x xs && not (check x ys))
check-without x [] ys = rw (check_nil x) refl
check-without x (p ∷ xs) ys =
    let rest = check-without x xs ys in
    let head = check_cons x p xs in
    let kept = check_cons x p (without xs ys) in
    let agree : same_int p x ≡ true → check p ys ≡ check x ys =
      λ e. ap (λ y. check y ys) (eq_of_same_int p x e) in
    ground (arith, rest, head, kept, agree)

set_operation-check :
    (xs ys : List ℤ)
    → (zs : List ℤ) × (set_operation xs ys ≡ some zs)
      × ((x : ℤ) → check x zs ≡ (if check x xs then not (check x ys) else check x ys))
set_operation-check xs ys = (
  without xs ys ++ without ys xs,
  set_operation-without xs ys,
  λ x. ground (
    arith,
    check-append x (without xs ys) (without ys xs),
    check-without x xs ys,
    check-without x ys xs,
  ),
)

-- The number stands on the list.
abbrev pub In : ℤ → List ℤ → Type 0
In x [] = ⊥
In x (y ∷ ys) = (x ≡ y) ⊎ In x ys

same_int_self : (x : ℤ) → same_int x x ≡ true
same_int_self (pos a) = ==_self a
same_int_self (negsuc a) = ==_self a

check-In : (x : ℤ) (xs : List ℤ) → check x xs ≡ true → In x xs
check-In x [] e = absurd (cc (check_nil x))
check-In x (y ∷ ys) e = elim (Bool-cases (same_int y x)) [
  | inl b ↦ inl (sym (eq_of_same_int y x b))
  | inr b ↦ inr (check-In x ys (ground (arith, check_cons x y ys)))
]

In-check : (x : ℤ) (xs : List ℤ) → In x xs → check x xs ≡ true
In-check x [] h = absurd h
In-check x (y ∷ ys) (inl same) =
    let hit : same_int y x ≡ true = rw same (same_int_self y) in
    ground (arith, check_cons x y ys, hit)
In-check x (y ∷ ys) (inr h) = ground (arith, check_cons x y ys, In-check x ys h)

not_In : (x : ℤ) (xs : List ℤ) → check x xs ≡ false → ¬ In x xs
not_In x xs e h = cc (In-check x xs h)

check_not : (x : ℤ) (xs : List ℤ) → ¬ In x xs → check x xs ≡ false
check_not x xs h = elim (Bool-cases (check x xs)) [
  | inl b ↦ absurd (h (check-In x xs b))
  | inr b ↦ b
]

-- The number stands on one of the lists and not on the other.
abbrev pub InOne : ℤ → List ℤ → List ℤ → Type 0
InOne x xs ys = (In x xs × ¬ In x ys) ⊎ (In x ys × ¬ In x xs)

check-InOne :
    (x : ℤ) (xs ys : List ℤ)
    → (if check x xs then not (check x ys) else check x ys) ≡ true
    → InOne x xs ys
check-InOne x xs ys e = elim (Bool-cases (check x xs)) [
  | inl b ↦ inl (check-In x xs b, not_In x ys (ground arith))
  | inr b ↦ inr (check-In x ys (ground arith), not_In x xs b)
]

InOne-check :
    (x : ℤ) (xs ys : List ℤ)
    → InOne x xs ys
    → (if check x xs then not (check x ys) else check x ys) ≡ true
InOne-check x xs ys (inl (h, k)) = ground (arith, In-check x xs h, check_not x ys k)
InOne-check x xs ys (inr (h, k)) = ground (arith, In-check x ys h, check_not x xs k)

-- For all lists A and B the program prints a list, without following a null pointer, and a number
-- stands on it exactly if it stands on one of A and B and not on the other.
pub set_operation-InOne :
    (xs ys : List ℤ)
    → (zs : List ℤ) × (set_operation xs ys ≡ some zs)
      × ((x : ℤ) → (In x zs → InOne x xs ys) × (InOne x xs ys → In x zs))
set_operation-InOne xs ys =
    let (zs, e, c) = set_operation-check xs ys in
    (
      zs,
      e,
      λ x. (
        (λ h. check-InOne x xs ys (sym (c x) ∙ In-check x zs h)),
        (λ h. check-In x zs (c x ∙ InOne-check x xs ys h)),
      ),
    )
