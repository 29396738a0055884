-- ===== src/Vm.antt =====
-- kernel/vm.c of Project4/4b xv6 Kernel Thread: page tables of two levels. The memory that holds the
-- tables is a function from the address of a page and an index to an entry, and an entry is kept in
-- its parts; memory that holds the bytes of processes is apart from it.
pub mod View
pub mod Walk
pub mod Map
pub mod Grow
pub mod Rounds
mod Tests
use ecnu_2020_autumn_linux_l.Base.{
  ℕ, zero, suc, ◌+◌, ◌-◌, ◌*◌, ◌/◌, ◌%◌, Bool, true, false, not, ◌&&◌, ◌||◌, Option, none, some,
  List, [], ◌∷◌, ◌==◌, ltb, leb, if◌then◌else◌, ◌≡◌, refl, ◌⊎◌, inl, inr,
}
use ecnu_2020_autumn_linux_l.Kalloc.{kalloc, kfree, round_up}

-- PTE_ADDR, PTE_P, PTE_W and PTE_U of an entry.
pub record Entry : Type 0 where
  pub addr : ℕ
  pub present : Bool
  pub writeable : Bool
  pub user : Bool

abbrev pub empty : Entry
empty = record { addr = 0; present = false; writeable = false; user = false }

-- The free list of kalloc.c and the pages that hold tables.
pub record Memory : Type 0 where
  pub free : List ℕ
  pub page : ℕ → ℕ → Entry

-- PDX and PTX
abbrev pub pdx : ℕ → ℕ
pdx va = va / 4194304 % 1024

abbrev pub ptx : ℕ → ℕ
ptx va = va / 4096 % 1024

-- PGROUNDDOWN
abbrev pub round_down : ℕ → ℕ
round_down a = a - a % 4096

abbrev pub word : ℕ
word = 4294967296

-- `table[i] = e`
abbrev pub put : Memory → ℕ → ℕ → Entry → Memory
put m table i e = record m { page = λ t j. if (t == table) && (j == i) then e else m.page t j }

-- `memset(table, 0, PGSIZE)`
abbrev pub clear : Memory → ℕ → Memory
clear m table = record m { page = λ t j. if t == table then empty else m.page t j }

-- The entry of the page directory for a new page table.
abbrev pub table_entry : ℕ → Entry
table_entry p = record { addr = p; present = true; writeable = true; user = true }

-- A null pointer, or the table and the index of an entry.
abbrev pub Slot : Type 0
Slot = Option (ℕ × ℕ)

unfoldable pub create_table : Memory → (pgdir va : ℕ) → Slot × Memory
unfolding kalloc
create_table m pgdir va =
    let (page, free) = kalloc m.free in
    elim page [
      | none ↦ (none, record m { free = free })
      | some p ↦ (
        some (p, ptx va),
        put (clear (record m { free = free }) p) pgdir (pdx va) (table_entry p),
      )
    ]

unfoldable pub walkpgdir : Memory → (pgdir va : ℕ) → (create : Bool) → Slot × Memory
unfolding create_table
walkpgdir m pgdir va create =
    let pde = m.page pgdir (pdx va) in
    if pde.present
    then (some (pde.addr, ptx va), m)
    else if create
    then create_table m pgdir va
    else (none, m)

-- The outcome of `mappages`: 0, -1 with the pages before mapped, the panic, or no fuel left.
pub data Mapping : Type 0 where
  maps : Memory → Mapping
  fails : Memory → Mapping
  remaps : Mapping
  exhausted : Mapping

-- `perm`
pub record Perm : Type 0 where
  pub perm_w : Bool
  pub perm_u : Bool

-- `pa | perm | PTE_P`
abbrev pub page_entry : ℕ → Perm → Entry
page_entry pa perm = record {
  addr = pa;
  present = true;
  writeable = perm.perm_w;
  user = perm.perm_u;
}

unfoldable pub mappages_loop : ℕ → Memory → (pgdir a last pa : ℕ) → Perm → Mapping
unfolding walkpgdir
mappages_loop zero m pgdir a last pa perm = exhausted
mappages_loop (suc fuel) m pgdir a last pa perm =
    let (pte, m') = walkpgdir m pgdir a true in
    elim pte [
      | none ↦ fails m'
      | some (table, i) ↦
          let m'' = put m' table i (page_entry pa perm) in
          let rest = mappages_loop fuel m'' pgdir ((a + 4096) % word) last (pa + 4096) perm in
          if (m'.page table i).present then remaps else if a == last then maps m'' else rest
    ]

-- A round for each page that the range touches.
unfoldable pub mappages : Memory → (pgdir la size pa : ℕ) → Perm → Mapping
unfolding mappages_loop
mappages m pgdir la size pa perm =
    mappages_loop (size / 4096 + 2) m pgdir (round_down la)
      (round_down ((la + size + (word - 1)) % word)) pa perm

-- What `uva2ka` returns: it follows a null pointer, 0, or an address.
pub data Translation : Type 0 where
  follows_null : Translation
  refused : Translation
  at : ℕ → Translation

abbrev pub translate : Entry → Translation
translate e = if not e.present then refused else if not e.user then refused else at e.addr

unfoldable pub uva2ka : Memory → (pgdir uva : ℕ) → Translation
unfolding walkpgdir
uva2ka m pgdir uva = elim (walkpgdir m pgdir uva false).0 [
  | none ↦ follows_null
  | some (table, i) ↦ translate (m.page table i)
]

-- How a loop over the pages of a range ends: with a result, with a panic, or with no fuel left.
pub data Run (A : Type 0) : Type 0 where
  ended : A → Run A
  panicked : Run A
  out_of_fuel : Run A

pub Run-cases :
    {A : Type 0} (r : Run A) → (r ≡ panicked) ⊎ ((r ≡ out_of_fuel) ⊎ ((a : A) × (r ≡ ended a)))
Run-cases (ended a) = inr (inr (a, refl))
Run-cases panicked = inl refl
Run-cases out_of_fuel = inr (inl refl)

-- The loop of `deallocuvm`.
unfoldable pub deallocuvm_loop : ℕ → (end : ℕ) → Memory → (pgdir a oldsz : ℕ) → Run Memory
unfolding walkpgdir kfree
deallocuvm_loop zero end m pgdir a oldsz = out_of_fuel
deallocuvm_loop (suc fuel) end m pgdir a oldsz =
    let skip = deallocuvm_loop fuel end m pgdir (a + 4096) oldsz in
    let step : Run Memory = elim (walkpgdir m pgdir a false).0 [
      | none ↦ skip
      | some (table, i) ↦
          let pte = m.page table i in
          let freed : Run Memory = elim (kfree end pte.addr m.free) [
            | none ↦ panicked
            | some free ↦
                deallocuvm_loop fuel end (put (record m { free = free }) table i empty) pgdir
                  (a + 4096) oldsz
          ] in
          if not pte.present then skip else if pte.addr == 0 then panicked else freed
    ] in
    if ltb a oldsz then step else ended m

-- The new size and the memory. No address here reaches the end of the 32-bit addresses.
unfoldable pub deallocuvm : (end : ℕ) → Memory → (pgdir oldsz newsz : ℕ) → Run (ℕ × Memory)
unfolding deallocuvm_loop
deallocuvm end m pgdir oldsz newsz =
    if leb oldsz newsz
    then ended (oldsz, m)
    else elim (deallocuvm_loop (oldsz / 4096 + 2) end m pgdir (round_up newsz) oldsz) [
      | ended m' ↦ ended (newsz, m')
      | panicked ↦ panicked
      | out_of_fuel ↦ out_of_fuel
    ]

abbrev pub usertop : ℕ
usertop = 655360

abbrev pub user_perm : Perm
user_perm = record { perm_w = true; perm_u = true }

-- The memory that `mappages` leaves, whose result `allocuvm` does not test.
abbrev pub memory_of : Mapping → Run Memory
memory_of (maps m) = ended m
memory_of (fails m) = ended m
memory_of remaps = panicked
memory_of exhausted = out_of_fuel

-- The loop of `allocuvm` from the address `a` on, where `oldsz` and `newsz` are for giving all back.
unfoldable pub allocuvm_loop : ℕ → (end : ℕ) → Memory → (pgdir a oldsz newsz : ℕ) → Run (ℕ × Memory)
unfolding kalloc
allocuvm_loop zero end m pgdir a oldsz newsz = out_of_fuel
allocuvm_loop (suc fuel) end m pgdir a oldsz newsz =
    let (page, free) = kalloc m.free in
    let step : Run (ℕ × Memory) = elim page [
      | none ↦ elim (deallocuvm end m pgdir newsz oldsz) [
        | ended (_, m') ↦ ended (0, m')
        | panicked ↦ panicked
        | out_of_fuel ↦ out_of_fuel
      ]
      | some mem ↦
          elim (memory_of (mappages (record m { free = free }) pgdir a 4096 mem user_perm)) [
            | ended m' ↦ allocuvm_loop fuel end m' pgdir (a + 4096) oldsz newsz
            | panicked ↦ panicked
            | out_of_fuel ↦ out_of_fuel
          ]
    ] in
    if ltb a newsz then step else ended (newsz, m)

-- The new size, or 0 on error, and the memory.
unfoldable pub allocuvm : (end : ℕ) → Memory → (pgdir oldsz newsz : ℕ) → Run (ℕ × Memory)
unfolding allocuvm_loop
allocuvm end m pgdir oldsz newsz =
    if ltb usertop newsz
    then ended (0, m)
    else if ltb newsz oldsz
    then ended (oldsz, m)
    else allocuvm_loop (newsz / 4096 + 2) end m pgdir (round_up oldsz) oldsz newsz
