-- ===== src/Vm/Tests.antt =====
-- Instances of the theorems on page tables: a directory at 4096 that is empty, with one or two free
-- pages.
use ecnu_2020_autumn_linux_l.Base.{refl, [], ◌∷◌, arith}
use ecnu_2020_autumn_linux_l.Vm.{Memory, empty, page_entry, user_perm, mappages}
use ecnu_2020_autumn_linux_l.Vm.View.{IsTree}
use ecnu_2020_autumn_linux_l.Vm.Map.{MapOutcome, mappages-MapOutcome}

abbrev vacant : Memory
vacant = record { free = 8192 ∷ 12288 ∷ []; page = λ t i. empty }

vacant-IsTree : IsTree vacant 4096
vacant-IsTree = record {
  root = λ i p. absurd (cc);
  apart = λ i j p. absurd (cc);
  spare = λ i p. absurd (cc);
  spare_root = refl;
  single = λ a. ground arith;
}

mappages-MapOutcome_example :
    MapOutcome vacant 4096 8192
      (page_entry 16384 user_perm)
      (mappages vacant 4096 8192 4096 16384 user_perm)
mappages-MapOutcome_example =
    mappages-MapOutcome vacant 4096 8192 16384 user_perm vacant-IsTree refl (omega arith)

abbrev last_page : Memory
last_page = record vacant { free = 8192 ∷ [] }
