-- ===== src/Bio.antt =====
-- kernel/bio.c of Project4/4b xv6 Kernel Thread, with `iderw` of kernel/ide.c as one step. The list of
-- buffers behind `head.next` is a list, the most recently used first; a buffer is named by its slot in
-- `bcache.buf`. Each call is one pass under `bcache.lock`; where it sleeps the outcome says so.
pub mod Blocks
pub mod Order
pub mod Contents
mod Tests
use ecnu_2020_autumn_linux_l.Base.{
  ℕ, zero, suc, ◌+◌, Bool, true, false, not, ◌&&◌, ◌||◌, Option, none, some, List, [], ◌∷◌, ◌==◌,
  if◌then◌else◌,
}

abbrev pub Block : Type 0
Block = List ℕ

-- `struct buf`, with its flags B_BUSY, B_VALID and B_DIRTY.
pub record Buf : Type 0 where
  pub slot : ℕ
  pub dev : ℕ
  pub sector : ℕ
  pub busy : Bool
  pub valid : Bool
  pub dirty : Bool
  pub contents : Block

-- -1 as a `uint`, the device of a buffer that was never used
abbrev pub no_dev : ℕ
no_dev = 4294967295

-- `binit`, which puts each of the `n` buffers in front.
unfoldable pub binit : ℕ → List Buf
binit zero = []
binit (suc n) =
    record {
      slot = n;
      dev = no_dev;
      sector = 0;
      busy = false;
      valid = false;
      dirty = false;
      contents = [];
    }
    ∷ binit n

abbrev pub holds : ℕ → ℕ → Buf → Bool
holds dev sector b = (b.dev == dev) && (b.sector == sector)

-- The first loop of `bget`.
unfoldable pub find_cached : ℕ → ℕ → List Buf → Option Buf
find_cached dev sector [] = none
find_cached dev sector (b ∷ bs) = if holds dev sector b then some b else find_cached dev sector bs

abbrev pub take_busy : Buf → Buf
take_busy b = record b { busy = true }

abbrev pub recycle : ℕ → ℕ → Buf → Buf
recycle dev sector b = record b {
  dev = dev;
  sector = sector;
  busy = true;
  valid = false;
  dirty = false;
}

-- A write to the first buffer that holds the block.
unfoldable pub update_cached : (Buf → Buf) → ℕ → ℕ → List Buf → List Buf
update_cached f dev sector [] = []
update_cached f dev sector (b ∷ bs) =
    let rest = update_cached f dev sector bs in if holds dev sector b then f b ∷ bs else b ∷ rest

-- The second loop of `bget`, from the back: the buffer that is taken, and the list with it.
unfoldable pub recycle_last : ℕ → ℕ → List Buf → Option (Buf × List Buf)
recycle_last dev sector [] = none
recycle_last dev sector (b ∷ bs) = elim (recycle_last dev sector bs) [
  | some (c, cs) ↦ some (c, b ∷ cs)
  | none ↦ if b.busy then none else some (recycle dev sector b, recycle dev sector b ∷ bs)
]

-- How a pass of `bget` ends.
pub data Got : Type 0 where
  got : Buf → List Buf → Got
  sleeps : Got
  panics : Got

unfoldable pub bget : ℕ → ℕ → List Buf → Got
unfolding find_cached update_cached recycle_last
bget dev sector bs = elim (find_cached dev sector bs) [
  | some b ↦ if b.busy then sleeps else got (take_busy b) (update_cached take_busy dev sector bs)
  | none ↦ elim (recycle_last dev sector bs) [ none ↦ panics | some (b, cs) ↦ got b cs ]
]

abbrev pub Disk : Type 0
Disk = ℕ → ℕ → Block

abbrev pub disk_write : Disk → ℕ → ℕ → Block → Disk
disk_write disk dev sector x = λ d s. if (d == dev) && (s == sector) then x else disk d s

-- `iderw` until the disk is done: a dirty buffer is written, another is read. `none`: it panics.
unfoldable pub iderw : Disk → Buf → Option (Buf × Disk)
iderw disk b =
    if not b.busy || (b.valid && not b.dirty)
    then none
    else if b.dirty
    then some (record b { valid = true; dirty = false }, disk_write disk b.dev b.sector b.contents)
    else some (record b { valid = true; contents = disk b.dev b.sector }, disk)

-- The buffer of a slot.
unfoldable pub put_buf : Buf → List Buf → List Buf
put_buf b [] = []
put_buf b (c ∷ cs) = let rest = put_buf b cs in if c.slot == b.slot then b ∷ cs else c ∷ rest

pub data ReadBlock : Type 0 where
  read_block : Buf → List Buf → Disk → ReadBlock
  read_sleeps : ReadBlock
  read_panics : ReadBlock

unfoldable pub bread : Disk → ℕ → ℕ → List Buf → ReadBlock
unfolding bget iderw put_buf
bread disk dev sector bs = elim (bget dev sector bs) [
  | sleeps ↦ read_sleeps
  | panics ↦ read_panics
  | got b cs ↦ if b.valid then read_block b cs disk else elim (iderw disk b) [
    | none ↦ read_panics
    | some (c, disk') ↦ read_block c (put_buf c cs) disk'
  ]
]

-- `none`: it panics.
unfoldable pub bwrite : Disk → Buf → List Buf → Option (List Buf × Disk)
unfolding iderw put_buf
bwrite disk b bs = if not b.busy then none else elim (iderw disk (record b { dirty = true })) [
  | none ↦ none
  | some (c, disk') ↦ some (put_buf c bs, disk')
]

-- The buffer of the slot, and the other buffers.
unfoldable pub unlink : ℕ → List Buf → Option (Buf × List Buf)
unlink i [] = none
unlink i (b ∷ bs) =
    if b.slot == i
    then some (b, bs)
    else elim (unlink i bs) [ none ↦ none | some (c, cs) ↦ some (c, b ∷ cs) ]

-- `none`: it panics.
unfoldable pub brelse : ℕ → List Buf → Option (List Buf)
unfolding unlink
brelse i bs = elim (unlink i bs) [
  | none ↦ none
  | some (b, rest) ↦ if b.busy then some (record b { busy = false } ∷ rest) else none
]
