-- ===== src/Kalloc/Tests.antt =====
-- Instances of the theorems on the page allocator: a kernel that ends two pages below the top.
use ecnu_2020_autumn_linux_l.Base.{ℕ, ◌≡◌, some, List, if◌then◌else◌, arith}
use ecnu_2020_autumn_linux_l.Kalloc.{kinit}
use ecnu_2020_autumn_linux_l.Kalloc.Pages.{count, is_page, kinit-count}

kinit-count_example :
    (ps : List ℕ) × (kinit 16769025 ≡ some ps)
    × ((a : ℕ) → count a ps ≡ (if is_page 16769025 a then 1 else 0))
kinit-count_example = kinit-count 16769025 (omega arith)
