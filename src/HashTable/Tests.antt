-- ===== src/HashTable/Tests.antt =====
-- A table of three lists, and the theorems there.
use ecnu_2020_autumn_linux_l.Base.{
  ℕ, ◌+◌, ◌-◌, ◌≡◌, ◌⊎◌, refl, true, false, some, List, [], ◌∷◌, ◌==◌, if◌then◌else◌, arith,
  get_elem?, zero, suc,
}
use ecnu_2020_autumn_linux_l.HashTable.{
  Chain, returns, list_init, Hash, hash_insert, hash_delete, hash_total_size,
}
use ecnu_2020_autumn_linux_l.HashTable.Laws.{IsReady, occurrences, hash_insert_lem, hash_delete_lem}

abbrev chain : List ℕ → Chain
chain vs = record { head = vs; locked = false }

abbrev table : Hash
table = record { base = chain (3 ∷ []) ∷ chain (7 ∷ 4 ∷ []) ∷ chain [] ∷ []; size = 3 }

table-IsReady : IsReady table
table-IsReady = record { positive = omega arith; room = omega arith; free = free }
  where
    free : (i : ℕ) (l : Chain) → get_elem? table.base i ≡ some l → l.locked ≡ false
    free zero l e = ground arith
    free (suc zero) l e = ground arith
    free (suc (suc zero)) l e = ground arith
    free (suc (suc (suc i))) l e = absurd (cc)

-- The comparison in `list_init` leaves the head alone.
init_keeps_head : list_init (record { head = 1 ∷ []; locked = true }) ≡ chain (1 ∷ [])
unfolding list_init
init_keeps_head = refl

total_size_run : hash_total_size table ≡ 3
unfolding hash_total_size
total_size_run = refl

hash_insert_lem_example :
    (h' : Hash) × (hash_insert true table 4 ≡ returns h')
    × IsReady h'
    × ((j : ℕ) → occurrences h' j ≡ occurrences table j + (if 4 == j then 1 else 0))
hash_insert_lem_example = hash_insert_lem table 4 table-IsReady

hash_delete_lem_example :
    (h' : Hash) × (hash_delete table 7 ≡ returns h')
    × ((j : ℕ) → occurrences h' j ≡ occurrences table j - (if 7 == j then 1 else 0))
    × ((get_elem? table.base 1 ≡ some (chain [])) × (h' ≡ table)
        ⊎ ((l : Chain) × (get_elem? h'.base 1 ≡ some l) × (l.locked ≡ true)))
hash_delete_lem_example = hash_delete_lem table 7 table-IsReady
