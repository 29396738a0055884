-- ===== src/SetOperation/Tests.antt =====
-- Instances of the theorems on set_operation.c.
use ecnu_2020_autumn_linux_l.Base.{◌≡◌, ℤ, pos, negsuc, some, List, [], ◌∷◌}
use ecnu_2020_autumn_linux_l.SetOperation.{set_operation}
use ecnu_2020_autumn_linux_l.SetOperation.Members.{In, InOne, set_operation-InOne}

abbrev first_list : List ℤ
first_list = pos 1 ∷ pos 2 ∷ negsuc 2 ∷ pos 1 ∷ []

abbrev second_list : List ℤ
second_list = pos 2 ∷ pos 4 ∷ []

set_operation-InOne_example :
    (zs : List ℤ) × (set_operation first_list second_list ≡ some zs)
    × ((x : ℤ)
        → (In x zs → InOne x first_list second_list) × (InOne x first_list second_list → In x zs))
set_operation-InOne_example = set_operation-InOne first_list second_list
