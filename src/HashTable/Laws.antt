-- ===== src/HashTable/Laws.antt =====
-- The hash table as the multiset of its keys.
use ecnu_2020_autumn_linux_l.Base.{
  ℕ, ◌+◌, ◌-◌, ◌%◌, ◌≤◌, ◌<◌, ◌≡◌, ◌≢◌, ◌⊎◌, inl, inr, refl, sym, ap, Bool, true, false, none, some,
  List, [], ◌∷◌, ◌==◌, if◌then◌else◌, arith, Bool-cases, length, get_elem?, get_elem?-some,
  get_elem?-set, set-get_elem?_self, length-set, List-cases, lt_of_get_elem?, eq_of_==, ne_of_==,
  ==_of_ne,
}
use ecnu_2020_autumn_linux_l.HashTable.{
  Chain, returns, list_insert, list_delete, list_lookup, unlink, find, Hash, bucket, put,
  hash_insert, hash_delete, hash_lookup,
}
use ecnu_2020_autumn_linux_l.HashTable.Buckets.{count, count-unlink, find_lem, StartsWith}

-- Every list has its lock free and holds only keys of its index.
pub record IsReady (h : Hash) : Type 0 where
  pub positive : 0 < h.size
  pub room : h.size ≤ length h.base
  pub free : (i : ℕ) (l : Chain) → get_elem? h.base i ≡ some l → l.locked ≡ false

-- How often a key stands in the table.
abbrev pub occurrences : Hash → ℕ → ℕ
occurrences h k = elim (get_elem? h.base (k % h.size)) [ none ↦ 0 | some l ↦ count k l.head ]

abbrev unlocked : List ℕ → Chain
unlocked vs = record { head = vs; locked = false }

-- The bucket of a key.
record Bucket (h : Hash) (key : ℕ) : Type 0 where
  head : List ℕ
  found : bucket h key ≡ returns (unlocked head)
  at : get_elem? h.base (key % h.size) ≡ some (unlocked head)

find-Bucket : (h : Hash) (key : ℕ) → IsReady h → Bucket h key
unfolding bucket
find-Bucket h key v =
    let (l, e) = get_elem?-some h.base (key % h.size) (omega (arith, v.positive, v.room)) in
    let is_free : l.locked ≡ false = v.free _ l e in
    record { head = l.head; found = ground (arith, v.positive); at = ground arith }

module _ (h : Hash) (key : ℕ) (v : IsReady h) where
  -- A replaced bucket changes the occurrences of its own keys only.
  occurrences-put :
      (l l' : Chain) (j : ℕ)
      → get_elem? h.base (key % h.size) ≡ some l
      → occurrences (put h key l') j
        ≡ (if j % h.size == key % h.size then count j l'.head else occurrences h j)
  occurrences-put l l' j e = ground (
    arith,
    get_elem?-set h.base (key % h.size) (j % h.size) l',
    lt_of_get_elem? h.base (key % h.size) e,
  )

  put-IsReady :
      (l l' : Chain)
      → get_elem? h.base (key % h.size) ≡ some l
      → l'.locked ≡ false
      → IsReady (put h key l')
  put-IsReady l l' e f = record {
    positive = v.positive;
    room = rw length-set v.room;
    free = λ i c q. ground (
      arith,
      get_elem?-set h.base (key % h.size) i l',
      lt_of_get_elem? h.base (key % h.size) e,
      v.free i c,
    );
  }

  occurrences_of_bucket :
      (l : Chain) (j : ℕ)
      → get_elem? h.base (key % h.size) ≡ some l
      → j % h.size ≡ key % h.size
      → occurrences h j ≡ count j l.head
  occurrences_of_bucket l j e same =
      let q : get_elem? h.base (j % h.size) ≡ some l = rw same e in ground (arith, q)

  occurrences-cons :
      (b : Bucket h key) (j : ℕ)
      → occurrences (put h key (unlocked (key ∷ b.head))) j
        ≡ occurrences h j + (if key == j then 1 else 0)
  unfolding count
  occurrences-cons b j = elim (Bool-cases (j % h.size == key % h.size)) [
    | inl same ↦
        rw
          (
            occurrences-put (unlocked b.head) _ j b.at,
            same,
            occurrences_of_bucket (unlocked b.head) j b.at (eq_of_== _ _ same),
          )
          (omega arith)
    | inr apart ↦
        let ne : key ≢ j = λ e. ne_of_== _ _ apart (ap (λ k. k % h.size) (sym e)) in
        rw (occurrences-put (unlocked b.head) _ j b.at, apart, ==_of_ne key j ne) (omega arith)
  ]

  occurrences-unlink :
      (b : Bucket h key) (locked : Bool) (j : ℕ)
      → occurrences (put h key (record { head = unlink key b.head; locked = locked })) j
        ≡ occurrences h j - (if key == j then 1 else 0)
  occurrences-unlink b locked j = elim (Bool-cases (j % h.size == key % h.size)) [
    | inl same ↦ rw (
      occurrences-put (unlocked b.head) _ j b.at,
      same,
      occurrences_of_bucket (unlocked b.head) j b.at (eq_of_== _ _ same),
      count-unlink,
    )
    | inr apart ↦
        let ne : key ≢ j = λ e. ne_of_== _ _ apart (ap (λ k. k % h.size) (sym e)) in
        rw (occurrences-put (unlocked b.head) _ j b.at, apart, ==_of_ne key j ne) (omega arith)
  ]

  -- On a table whose locks are free, and with memory, `hash_insert` returns a table whose locks are
  -- free and that holds the key once more and every other key as often as before.
  pub hash_insert_lem :
      (h' : Hash) × (hash_insert true h key ≡ returns h')
      × IsReady h'
      × ((j : ℕ) → occurrences h' j ≡ occurrences h j + (if key == j then 1 else 0))
  unfolding hash_insert list_insert
  hash_insert_lem =
      let b = find-Bucket h key v in
      let l' : Chain = unlocked (key ∷ b.head) in
      (put h key l', rw b.found, put-IsReady (unlocked b.head) l' b.at refl, occurrences-cons b)

  -- On a table whose locks are free, `hash_lookup` returns and leaves the table as it was. It
  -- returns a node with the key if the table holds the key, and a null pointer if not.
  hash_lookup_lem :
      (found : List ℕ) × (hash_lookup h key ≡ returns (found, h))
      × (((occurrences h key ≡ 0) × (found ≡ []))
          ⊎ ((occurrences h key ≢ 0) × StartsWith key found))
  unfolding hash_lookup list_lookup
  hash_lookup_lem =
      let b = find-Bucket h key v in
      let same : put h key (unlocked b.head) ≡ h =
        ap (λ ls. record h { base = ls }) (set-get_elem?_self h.base (key % h.size) b.at) in
      (
        find key b.head,
        rw b.found (ap (λ (g : Hash). returns (find key b.head, g)) same),
        rw (occurrences_of_bucket (unlocked b.head) key b.at refl) (find_lem key b.head),
      )

  -- On a table whose locks are free, `hash_delete` returns, and removes one occurrence of the key, if
  -- there is one, and nothing else. But unless the bucket of the key is empty, it leaves the lock of
  -- that bucket taken.
  pub hash_delete_lem :
      (h' : Hash) × (hash_delete h key ≡ returns h')
      × ((j : ℕ) → occurrences h' j ≡ occurrences h j - (if key == j then 1 else 0))
      × ((get_elem? h.base (key % h.size) ≡ some (record { head = []; locked = false })) × (h' ≡ h)
          ⊎ ((l : Chain) × (get_elem? h'.base (key % h.size) ≡ some l) × (l.locked ≡ true)))
  unfolding hash_delete list_delete count
  hash_delete_lem =
      let b = find-Bucket h key v in
      elim (List-cases b.head) [
        | inl nil ↦
            let at : get_elem? h.base (key % h.size) ≡ some (unlocked []) = rw b.at (rw nil) in
            let found : bucket h key ≡ returns (unlocked []) = rw b.found (rw nil) in
            let same : put h key (unlocked []) ≡ h =
              ap (λ ls. record h { base = ls }) (set-get_elem?_self h.base (key % h.size) at) in
            (
              h,
              rw found (ap (λ (g : Hash). returns g) same),
              λ j. elim (Bool-cases (key == j)) [
                | inl e ↦
                    let same_bucket : j % h.size ≡ key % h.size = rw (eq_of_== key j e) in
                    omega (arith, occurrences_of_bucket (unlocked []) j at same_bucket)
                | inr e ↦ rw e (omega arith)
              ],
              inl (at, refl),
            )
        | inr (v, vs, cons) ↦
            let found : bucket h key ≡ returns (unlocked (v ∷ vs)) = rw b.found (rw cons) in
            (
              put h key (record { head = unlink key b.head; locked = true }),
              rw found (rw cons),
              occurrences-unlink b true,
              inr (
                record { head = unlink key b.head; locked = true },
                ground (
                  arith,
                  get_elem?-set h.base (key % h.size) (key % h.size)
                      (record { head = unlink key b.head; locked = true }),
                  lt_of_get_elem? h.base (key % h.size) b.at,
                ),
                refl,
              ),
            )
      ]
