-- ===== src/HashTable.antt =====
-- list.c and hash.c of Project3/3a Locks and Threads, as one thread runs them. A list is the values
-- of its nodes from `head` on, and whether its lock is taken.
pub mod Buckets
pub mod Laws
mod Tests
use ecnu_2020_autumn_linux_l.Base.{
  ℕ, zero, suc, ◌+◌, ◌%◌, Bool, true, false, Option, none, some, List, [], ◌∷◌, ◌==◌, ltb,
  if◌then◌else◌, length, get_elem?, set,
}

-- `list_t`
pub record Chain : Type 0 where
  pub head : List ℕ
  pub locked : Bool

-- `blocks`: `lock_acquire` waits for a lock that nobody else will release. `crashes`: an access
-- through a null pointer or outside of the array, or a division by 0.
pub data Outcome (A : Type 0) : Type 0 where
  returns : A → Outcome A
  blocks : Outcome A
  crashes : Outcome A

infixl 5 ◌>>=◌
abbrev pub ◌>>=◌ : {A B : Type 0} → Outcome A → (A → Outcome B) → Outcome B
returns a >>= f = f a
blocks >>= f = blocks
crashes >>= f = crashes

abbrev lock_acquire : Chain → Outcome Chain
lock_acquire l = if l.locked then blocks else returns (record l { locked = true })

abbrev lock_release : Chain → Chain
lock_release l = record l { locked = false }

-- `list->head == NULL` is a comparison: the field keeps what `malloc` left there.
pub list_init : Chain → Chain
list_init l = record l { locked = false }

-- `room`: whether `malloc` finds memory.
pub list_insert : (room : Bool) → Chain → ℕ → Outcome Chain
list_insert room l key = do
  l ← lock_acquire l
  if room then returns (lock_release (record l { head = key ∷ l.head })) else crashes

-- The first node with the value is unlinked.
pub unlink : ℕ → List ℕ → List ℕ
unlink key [] = []
unlink key (v ∷ vs) = if v == key then vs else v ∷ unlink key vs

-- No branch behind `lock_acquire` releases the lock.
pub list_delete : Chain → ℕ → Outcome Chain
unfolding unlink
list_delete l key = elim l.head [
  | [] ↦ returns l
  | _ ∷ _ ↦ do l ← lock_acquire l; returns (record l { head = unlink key l.head })
]

-- The nodes from the first with the value on; none for a null pointer.
pub find : ℕ → List ℕ → List ℕ
find key [] = []
find key (v ∷ vs) = if v == key then v ∷ vs else find key vs

pub list_lookup : Chain → ℕ → Outcome (List ℕ × Chain)
unfolding find
list_lookup l key = do l ← lock_acquire l; returns (find key l.head, lock_release l)

pub list_size : Chain → ℕ
list_size l = length l.head

-- `hash_t`; `base` has 50 lists.
pub record Hash : Type 0 where
  pub base : List Chain
  pub size : ℕ

init_buckets : ℕ → List Chain → Option (List Chain)
unfolding list_init
init_buckets zero ls = some ls
init_buckets (suc n) [] = none
init_buckets (suc n) (l ∷ ls) = elim (init_buckets n ls) [
  | none ↦ none
  | some ls' ↦ some (list_init l ∷ ls')
]

pub hash_init : Hash → ℕ → Outcome Hash
unfolding init_buckets
hash_init h size = elim (init_buckets size h.base) [
  | none ↦ crashes
  | some ls ↦ returns (record { base = ls; size = size })
]

-- `&hash->base[key % hash->size]`
pub bucket : Hash → ℕ → Outcome Chain
bucket h key =
    if h.size == 0
    then crashes
    else elim (get_elem? h.base (key % h.size)) [ none ↦ crashes | some l ↦ returns l ]

abbrev pub put : Hash → ℕ → Chain → Hash
put h key l = record h { base = set h.base (key % h.size) l }

pub hash_insert : (room : Bool) → Hash → ℕ → Outcome Hash
unfolding bucket list_insert
hash_insert room h key = do l ← bucket h key; l ← list_insert room l key; returns (put h key l)

pub hash_delete : Hash → ℕ → Outcome Hash
unfolding bucket list_delete
hash_delete h key = do l ← bucket h key; l ← list_delete l key; returns (put h key l)

pub hash_lookup : Hash → ℕ → Outcome (List ℕ × Hash)
unfolding bucket list_lookup
hash_lookup h key = do
  l ← bucket h key
  (found, l) ← list_lookup l key
  returns (found, put h key l)

total_size : ℕ → List Chain → ℕ
unfolding list_size
total_size zero ls = 0
total_size (suc n) [] = 0
total_size (suc n) (l ∷ ls) = list_size l + total_size n ls

pub hash_total_size : Hash → ℕ
unfolding total_size
hash_total_size h = total_size h.size h.base
