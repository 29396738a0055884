-- ===== src/SetOperation/Difference.antt =====
-- The list that set_operation.c prints is the symmetric difference.
use ecnu_2020_autumn_linux_l.Base.{
  ◌≡◌, refl, sym, ap, ◌∙◌, inl, inr, ℤ, true, false, some, List, [], ◌∷◌, ◌++◌, if◌then◌else◌,
  append-nil, append_assoc, length, Bool-cases,
}
use ecnu_2020_autumn_linux_l.SetOperation.{
  check, append_loop, remove_loop, link, union_lists, set_operation,
}

-- The numbers of `xs` that are not in `ys`, in order.
abbrev pub without : List ℤ → List ℤ → List ℤ
without [] ys = []
without (x ∷ xs) ys = let rest = without xs ys in if check x ys then rest else x ∷ rest

append_loop-append : (head xs : List ℤ) → append_loop true head xs ≡ head ++ xs
unfolding append_loop
append_loop-append head [] = sym (append-nil head)
append_loop-append head (x ∷ xs) =
    append_loop-append (head ++ (x ∷ [])) xs ∙ append_assoc head (x ∷ []) xs

append_loop_lem : (xs : List ℤ) → append_loop false [] xs ≡ xs
unfolding append_loop
append_loop_lem [] = refl
append_loop_lem (x ∷ xs) = append_loop-append (x ∷ []) xs

remove_loop-kept :
    (other kept rest : List ℤ)
    → remove_loop (length rest) other true kept rest ≡ some (kept ++ without rest other)
unfolding remove_loop
remove_loop-kept other kept [] = refl
remove_loop-kept other kept (x ∷ rest) = elim (Bool-cases (check x other)) [
  | inl b ↦ rw (b, remove_loop) (remove_loop-kept other kept rest)
  | inr b ↦
      rw (b, remove_loop)
        (remove_loop-kept other (kept ++ (x ∷ [])) rest
          ∙ ap some (append_assoc kept (x ∷ []) (without rest other)))
]

-- The loop removes what is in the other list, without following a null pointer.
remove_loop_lem :
    (other rest : List ℤ)
    → remove_loop (length rest) other false [] rest ≡ some (without rest other)
unfolding remove_loop
remove_loop_lem other [] = refl
remove_loop_lem other (x ∷ rest) = elim (Bool-cases (check x other)) [
  | inl b ↦ rw (b, remove_loop) (remove_loop_lem other rest)
  | inr b ↦ rw (b, remove_loop) (remove_loop-kept other (x ∷ []) rest)
]

link-append : (p : ℤ) (ps qs : List ℤ) → link p ps qs ≡ p ∷ (ps ++ qs)
unfolding link
link-append p [] qs = refl
link-append p (q ∷ ps) qs = ap (λ zs. p ∷ zs) (link-append q ps qs)

union_lists-append : (xs ys : List ℤ) → union_lists xs ys ≡ xs ++ ys
unfolding union_lists
union_lists-append [] ys = refl
union_lists-append (x ∷ xs) [] = sym (append-nil (x ∷ xs))
union_lists-append (x ∷ xs) (y ∷ ys) = link-append x xs (y ∷ ys)

-- For all lists A and B the program ends without following a null pointer, and prints the numbers of
-- A that are not in B and then the numbers of B that are not in A, each in order and as often as
-- it was read.
pub set_operation-without :
    (xs ys : List ℤ) → set_operation xs ys ≡ some (without xs ys ++ without ys xs)
unfolding set_operation
set_operation-without xs ys =
    rw (append_loop_lem xs, append_loop_lem ys, set_operation, remove_loop_lem ys xs)
      (rw (append_loop_lem xs, append_loop_lem xs, append_loop_lem ys, remove_loop_lem xs ys)
        (ap some (union_lists-append (without xs ys) (without ys xs))))
