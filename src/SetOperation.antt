-- ===== src/SetOperation.antt =====
-- set_operation.c of Project0/0a Get familiar with Linux: two lists of integers are read, and
-- (A - B) union (B - A) is computed by relinking their nodes. The pair of pointers `p2` and `p1` into a
-- list is the nodes up to `p2` and the nodes from `p1` on.
pub mod Difference
pub mod Members
mod Tests
use ecnu_2020_autumn_linux_l.Base.{
  ℕ, zero, suc, ℤ, pos, negsuc, Bool, true, false, Option, none, some, List, [], ◌∷◌, ◌++◌, ◌==◌,
  if◌then◌else◌, length,
}

abbrev pub same_int : ℤ → ℤ → Bool
same_int (pos a) (pos b) = a == b
same_int (negsuc a) (negsuc b) = a == b
same_int _ _ = false

unfoldable pub check_loop : Bool → ℤ → List ℤ → Bool
check_loop sign num [] = sign
check_loop sign num (p ∷ ps) = check_loop (if same_int p num then true else sign) num ps

unfoldable pub check : ℤ → List ℤ → Bool
unfolding check_loop
check num head = check_loop false num head

-- The loops that append a node for each number: `sign` says that there is a head.
unfoldable pub append_loop : (sign : Bool) → List ℤ → List ℤ → List ℤ
append_loop sign head [] = head
append_loop false head (x ∷ xs) = append_loop true (x ∷ []) xs
append_loop true head (x ∷ xs) = append_loop true (head ++ (x ∷ [])) xs

-- One round of the loops that remove: `sign`, and the nodes up to `p2`, where `p1` has the number `x`.
abbrev pub remove_round : Bool → Bool → List ℤ → ℤ → Bool × List ℤ
remove_round true false kept x = (false, [])
remove_round true true kept x = (true, kept)
remove_round false false kept x = (true, x ∷ [])
remove_round false true kept x = (true, kept ++ (x ∷ []))

-- `none`: a null pointer is followed.
unfoldable pub remove_loop : ℕ → (other : List ℤ) → Bool → (kept rest : List ℤ) → Option (List ℤ)
unfolding check
remove_loop zero other sign kept rest = some (kept ++ rest)
remove_loop (suc n) other sign kept [] = none
remove_loop (suc n) other sign kept (x ∷ rest) =
    let (sign', kept') = remove_round (check x other) sign kept x in
    remove_loop n other sign' kept' rest

-- `p1` walks to the last node, which gets `B_head` as its next one.
unfoldable pub link : ℤ → List ℤ → List ℤ → List ℤ
link p1 [] tail = p1 ∷ tail
link p1 (q ∷ rest) tail = p1 ∷ link q rest tail

unfoldable pub union_lists : List ℤ → List ℤ → List ℤ
unfolding link
union_lists [] bs = bs
union_lists (a ∷ as') [] = a ∷ as'
union_lists (a ∷ as') (b ∷ bs) = link a as' (b ∷ bs)

-- `main`, from the numbers that `scanf` reads to the list that is printed.
unfoldable pub set_operation : List ℤ → List ℤ → Option (List ℤ)
unfolding append_loop remove_loop union_lists
set_operation as_read bs_read =
    let a = append_loop false [] as_read in
    let b = append_loop false [] bs_read in
    let a2 = append_loop false [] a in
    elim (remove_loop (length as_read) b false [] a) [
      | none ↦ none
      | some a' ↦ elim (remove_loop (length bs_read) a2 false [] b) [
        | none ↦ none
        | some b' ↦ some (union_lists a' b')
      ]
    ]
