-- ===== src/Layout/Tests.antt =====
-- Instances of the theorems on the layout of 3b: a process of four pages with one stack page, and a page
-- directory that maps the last page below USERTOP.
use ecnu_2020_autumn_linux_l.Base.{
  ℕ, ◌≡◌, ◌≢◌, ◌↔◌, refl, sym, subst, ◌∙◌, inl, inr, Bool-cases, eq_of_==, true, false, ◌&&◌, some,
  [], ◌∷◌, ◌==◌, if◌then◌else◌, pos, arith,
}
use ecnu_2020_autumn_linux_l.Strings.{Memory as Bytes}
use ecnu_2020_autumn_linux_l.Args.{word_at}
use ecnu_2020_autumn_linux_l.Kalloc.Pages.{count}
use ecnu_2020_autumn_linux_l.Vm.{
  Memory, empty, table_entry, page_entry, user_perm, allocuvm, panicked,
}
use ecnu_2020_autumn_linux_l.Vm.View.{IsTree}
use ecnu_2020_autumn_linux_l.Layout.{
  Process, next_page, resumes, growproc, page_fault, check_block, fetchint,
}
use ecnu_2020_autumn_linux_l.Layout.Gap.{HasGap, AllGrowth, AllFault, step-HasGap}
use ecnu_2020_autumn_linux_l.Layout.Regions.{InRegion, check_block-fetchint}
use ecnu_2020_autumn_linux_l.Layout.Overlap.{allocuvm-remap}
use ecnu_2020_autumn_linux_l.Layout.Stack.{GainsPage, page_fault-GainsPage}

abbrev mapped_last : Memory
mapped_last = record {
  free = 12288 ∷ [];
  page = λ t i.
      if (t == 4096) && (i == 0)
      then table_entry 8192
      else if (t == 8192) && (i == 159)
      then page_entry 16384 user_perm
      else empty;
}

row : (i : ℕ) → (mapped_last.page 4096 i).present ≡ true → i ≡ 0
row i p = elim (Bool-cases (i == 0)) [
  | inl e ↦ eq_of_== i 0 e
  | inr e ↦ absurd (let f : (mapped_last.page 4096 i).present ≡ false = rw e refl in cc)
]

mapped_last-IsTree : IsTree mapped_last 4096
mapped_last-IsTree = record {
  root = λ i p.
      subst (λ k. (mapped_last.page 4096 k).addr ≢ 4096) (sym (row i p))
        (λ e. absurd (omega (arith, e)));
  apart = λ i j p q e. row i p ∙ sym (row j q);
  spare = λ i p.
      subst (λ k. count (mapped_last.page 4096 k).addr mapped_last.free ≡ 0) (sym (row i p)) refl;
  spare_root = refl;
  single = λ a. ground arith;
}

abbrev process : Process
process = record { memory = mapped_last; pgdir = 4096; sz = 16384; size_of_stack = 1 }

step-HasGap_example :
    AllGrowth HasGap (growproc 0 process (pos 4096)) × AllFault HasGap (page_fault 0 process 650000)
step-HasGap_example = step-HasGap 0 process (pos 4096) 650000 (omega arith) (omega arith)

abbrev bytes : Bytes
bytes a = a

check_block-fetchint_example :
    ((check_block process 651264 100 ≡ some 651264) ↔ InRegion process 651264 100)
    × ((fetchint bytes process 651264 ≡ some (word_at bytes 651264)) ↔ InRegion process 651264 4)
check_block-fetchint_example =
    check_block-fetchint bytes process 651264 100 (omega arith) (omega arith)

allocuvm-remap_example : allocuvm 0 mapped_last 4096 651264 655360 ≡ panicked
allocuvm-remap_example =
    allocuvm-remap 0 mapped_last 4096 651264 12288 [] mapped_last-IsTree refl (omega arith) refl
      refl

-- The same process with two more free pages.
abbrev roomy : Process
roomy = record process { memory = record mapped_last { free = 12288 ∷ 20480 ∷ [] } }

roomy-IsTree : IsTree roomy.memory 4096
roomy-IsTree = record {
  root = mapped_last-IsTree.root;
  apart = mapped_last-IsTree.apart;
  spare = λ i p.
      subst (λ k. count (mapped_last.page 4096 k).addr roomy.memory.free ≡ 0) (sym (row i p)) refl;
  spare_root = refl;
  single = λ a. ground arith;
}

page_fault-GainsPage_example :
    (m' : Memory) × (page_fault 0 roomy 650000
      ≡ resumes (record roomy { memory = m'; size_of_stack = 2 }))
    × GainsPage roomy.memory m' 4096 (next_page roomy) 12288
page_fault-GainsPage_example =
    page_fault-GainsPage 0 roomy 650000 12288 20480 [] (omega arith) (omega arith) roomy-IsTree refl
      refl
