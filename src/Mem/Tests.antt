-- ===== src/Mem/Tests.antt =====
-- The allocator on a region of one page at address 8192, and the theorems there.
use ecnu_2020_autumn_linux_l.Base.{◌≡◌, refl, List, [], ◌∷◌, some, arith, pos, negsuc, minus_one}
use ecnu_2020_autumn_linux_l.Mem.{
  Node, node, State, returns, no_error, e_bad_pointer, m_bestfit, m_worstfit, m_firstfit, mem_init,
  mem_alloc, mem_free, align8, initial,
}
use ecnu_2020_autumn_linux_l.Mem.Tidy.{IsValid, Keeps}
use ecnu_2020_autumn_linux_l.Mem.Alloc.{Allocated, mem_alloc-Allocated, mem_alloc-IsValid}
use ecnu_2020_autumn_linux_l.Mem.Free.{Freed, mem_free-Freed, mem_free-IsValid, mem_free-mem_alloc}

abbrev region : List Node → State
region ns = record { m_error = no_error; once = 1; base = 8192; sum_size = 4096; nodes = ns }

-- A block of 24 bytes is in use, the rest is free.
abbrev one_used : State
one_used = region (node 8192 0 ∷ node 8232 4040 ∷ [])

one_used-IsValid : IsValid one_used
one_used-IsValid = record { tidy = ground arith; starts = refl }

init_run :
    mem_init 4096 (λ _. some 8192) initial (pos 100)
    ≡ returns (region (node 8192 4080 ∷ [])) (pos 0)
unfolding mem_init
init_run = refl

alloc_run :
    mem_alloc (region (node 8192 4080 ∷ [])) (pos 20) m_bestfit ≡ returns one_used (some 8208)
unfolding mem_alloc
alloc_run = refl

free_run : mem_free (λ _. some 1) one_used 8208 ≡ returns (region (node 8192 4080 ∷ [])) (pos 0)
unfolding mem_free
free_run = refl

free_twice :
    mem_free (λ _. some 0) (region (node 8192 4080 ∷ [])) 8208
    ≡ returns (record (region (node 8192 4080 ∷ [])) { m_error = e_bad_pointer }) minus_one
unfolding mem_free
free_twice = refl

align_negative : align8 (negsuc 2) ≡ some 8
unfolding align8
align_negative = refl

mem_alloc-Allocated_example :
    Allocated one_used 104 m_worstfit (mem_alloc one_used (pos 100) m_worstfit)
unfolding align8
mem_alloc-Allocated_example =
    mem_alloc-Allocated one_used (pos 100) m_worstfit 104 one_used-IsValid refl (omega arith)

mem_alloc-IsValid_example : Keeps (mem_alloc one_used (pos 100) m_firstfit)
mem_alloc-IsValid_example = mem_alloc-IsValid one_used (pos 100) m_firstfit one_used-IsValid

mem_free-Freed_example : Freed (λ _. some 1) one_used 8208 (mem_free (λ _. some 1) one_used 8208)
mem_free-Freed_example = mem_free-Freed (λ _. some 1) one_used 8208 one_used-IsValid

mem_free-IsValid_example : Keeps (mem_free (λ _. some 1) one_used 8208)
mem_free-IsValid_example = mem_free-IsValid (λ _. some 1) one_used 8208 one_used-IsValid

mem_free-mem_alloc_example :
    mem_free (λ _. some 1) one_used 8208 ≡ returns (region (node 8192 4080 ∷ [])) (pos 0)
unfolding align8 mem_alloc
mem_free-mem_alloc_example =
    mem_free-mem_alloc (λ _. some 1) (region (node 8192 4080 ∷ [])) (pos 20) m_firstfit 24
      (record { tidy = ground arith; starts = refl }) refl (omega arith) refl
