-- ===== src/HashTable/Buckets.antt =====
-- The single list: what `unlink` and `find` do, and the lock that `list_delete` keeps.
use ecnu_2020_autumn_linux_l.Base.{
  ℕ, ◌+◌, ◌-◌, ◌≡◌, ◌≢◌, ◌⊎◌, inl, refl, Bool, true, false, List, [], ◌∷◌, ◌==◌, if◌then◌else◌,
  arith,
}
use ecnu_2020_autumn_linux_l.HashTable.{
  Chain, returns, blocks, list_insert, list_delete, list_lookup, unlink, find,
}

-- How often a value stands in a list.
unfoldable pub count : ℕ → List ℕ → ℕ
count k [] = 0
count k (v ∷ vs) = (if v == k then 1 else 0) + count k vs

pub count-unlink :
    (key k : ℕ) (vs : List ℕ) → count k (unlink key vs) ≡ count k vs - (if key == k then 1 else 0)
unfolding count unlink
count-unlink key k [] = ground arith
count-unlink key k (v ∷ vs) = ground (arith, count-unlink key k vs)

-- `find` returns a node with the value exactly if there is one.
abbrev pub StartsWith : ℕ → List ℕ → Type 0
StartsWith key [] = ⊥
StartsWith key (v ∷ _) = v ≡ key

pub find_lem :
    (key : ℕ) (vs : List ℕ)
    → ((count key vs ≡ 0) × (find key vs ≡ []))
      ⊎ ((count key vs ≢ 0) × StartsWith key (find key vs))
unfolding count find
find_lem key [] = inl (refl, refl)
find_lem key (v ∷ vs) = ground (arith, find_lem key vs)

-- On a list with a node whose lock is free, `list_delete` unlinks the first node with the value
-- and returns with the lock taken: every later insertion, lookup and, while a node is left,
-- deletion waits for ever.
list_delete_keeps_lock :
    (room : Bool) (v : ℕ) (vs : List ℕ) (key next : ℕ)
    → let l : Chain = record { head = unlink key (v ∷ vs); locked = true } in
      (list_delete (record { head = v ∷ vs; locked = false }) key ≡ returns l)
      × (list_insert room l next ≡ blocks)
      × (list_lookup l next ≡ blocks)
      × ((unlink key (v ∷ vs) ≡ []) ⊎ (list_delete l next ≡ blocks))
unfolding list_delete list_insert list_lookup
list_delete_keeps_lock room v vs key next = (refl, refl, refl, ground arith)
