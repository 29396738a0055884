-- ===== src/Fs/Contents.antt =====
-- The contents of an inode in kernel/fs.c: `bmap`, `readi`, `writei` and `itrunc`, for an inode that is no
-- device. Reading a block through the buffer cache, changing it and writing it back is one access to
-- the volume here. Lengths and offsets are unsigned and wrap around at 2^32.
pub mod Slots
pub mod Gain
pub mod Map
pub mod Read
pub mod Written
pub mod Loop
pub mod Write
pub mod Freed
pub mod Runs
pub mod Owned
pub mod Truncate
pub mod Sample
mod Tests
use ecnu_2020_autumn_linux_l.Base.{
  ℕ, zero, suc, ◌+◌, ◌-◌, ◌/◌, ◌%◌, Bool, ◌||◌, ◌&&◌, Option, none, some, List, [], ◌∷◌, ◌++◌, ◌==◌,
  ltb, leb, if◌then◌else◌,
}
use ecnu_2020_autumn_linux_l.Fs.Bitmap.{Volume, balloc, bfree}

-- `addrs` and `size` of a cached inode, with the volume of its device.
pub record Node : Type 0 where
  pub volume : Volume
  pub addrs : ℕ → ℕ
  pub size : ℕ

-- `ip->addrs[i] = b`
abbrev pub set_addr : Node → ℕ → ℕ → Node
set_addr s i b = record s { addrs = λ k. if k == i then b else s.addrs k }

-- `a[i] = x` in the block `b`.
abbrev pub set_word : Volume → ℕ → ℕ → ℕ → Volume
set_word v b i x = record v { contents = λ c k. if (c == b) && (k == i) then x else v.contents c k }

-- The block that `addrs[i]` holds, allocated if it is 0; `none` is a panic.
unfoldable pub direct : Node → ℕ → Option (ℕ × Node)
direct s i =
    if s.addrs i == 0
    then elim (balloc s.volume) [
      | none ↦ none
      | some (b, v) ↦ some (b, set_addr (record s { volume = v }) i b)
    ]
    else some (s.addrs i, s)

-- The block that the word `i` of the indirect block `a` holds.
unfoldable pub indirect : Node → (a i : ℕ) → Option (ℕ × Node)
indirect s a i =
    if s.volume.contents a i == 0
    then elim (balloc s.volume) [
      | none ↦ none
      | some (b, v) ↦ some (b, record s { volume = set_word v a i b })
    ]
    else some (s.volume.contents a i, s)

unfoldable pub bmap : Node → (bn : ℕ) → Option (ℕ × Node)
bmap s bn =
    if ltb bn 12
    then direct s bn
    else if ltb (bn - 12) 128
    then elim (direct s 12) [ none ↦ none | some (a, s') ↦ indirect s' a (bn - 12) ]
    else none

-- `min(n - tot, BSIZE - off%BSIZE)`
abbrev pub chunk : (left off : ℕ) → ℕ
chunk left off = if ltb left (512 - off % 512) then left else 512 - off % 512

-- `memmove` of `m` bytes out of a block.
unfoldable pub copy_out : (ℕ → ℕ) → (from m : ℕ) → List ℕ
copy_out block from zero = []
copy_out block from (suc m) = block from ∷ copy_out block (suc from) m

-- The loop of `readi`, with `left` for `n - tot`; `none` is a panic, or no fuel left.
unfoldable pub read_loop : ℕ → Node → (off left : ℕ) → Option (List ℕ × Node)
read_loop zero s off left = none
read_loop (suc fuel) s off left =
    let step : Option (List ℕ × Node) = elim (bmap s (off / 512)) [
      | none ↦ none
      | some (b, s') ↦ elim (read_loop fuel s' (off + chunk left off) (left - chunk left off)) [
        | none ↦ none
        | some (bytes, s'') ↦
            some (copy_out (s'.volume.contents b) (off % 512) (chunk left off) ++ bytes, s'')
      ]
    ] in
    if left == 0 then some ([], s) else step

-- How `readi` and `writei` end: with what they have read or the length that they have written, with -1, or
-- in a panic.
pub data Transfer (A : Type 0) : Type 0 where
  moves : A → Node → Transfer A
  refuses : Transfer A
  panics : Transfer A

-- `off > ip->size || off + n < off`
abbrev pub bad_range : Node → (off n : ℕ) → Bool
bad_range s off n = ltb s.size off || ltb ((off + n) % 4294967296) off

abbrev pub read_length : Node → (off n : ℕ) → ℕ
read_length s off n = if ltb s.size ((off + n) % 4294967296) then s.size - off else n

-- A round moves a byte at least.
unfoldable pub readi : Node → (off n : ℕ) → Transfer (List ℕ)
readi s off n =
    if bad_range s off n
    then refuses
    else elim (read_loop (suc (read_length s off n)) s off (read_length s off n)) [
      | none ↦ panics
      | some (bytes, s') ↦ moves bytes s'
    ]

-- `memmove` of `m` bytes from `src` into the block `b`.
abbrev pub copy_in : Volume → (b from m : ℕ) → (ℕ → ℕ) → Volume
copy_in v b from m src = record v {
  contents = λ c k.
      if (c == b) && (leb from k && ltb k (from + m)) then src (k - from) else v.contents c k;
}

-- The loop of `writei`; it returns the last `off` too.
unfoldable pub write_loop : ℕ → Node → (ℕ → ℕ) → (off left : ℕ) → Option (ℕ × Node)
write_loop zero s src off left = none
write_loop (suc fuel) s src off left =
    let step : Option (ℕ × Node) = elim (bmap s (off / 512)) [
      | none ↦ none
      | some (b, s') ↦
          write_loop fuel
            (record s' { volume = copy_in s'.volume b (off % 512) (chunk left off) src })
            (λ i. src (chunk left off + i)) (off + chunk left off) (left - chunk left off)
    ] in
    if left == 0 then some (off, s) else step

-- `MAXFILE*BSIZE`
abbrev pub max_size : ℕ
max_size = 71680

abbrev pub write_length : (off n : ℕ) → ℕ
write_length off n =
    if ltb max_size ((off + n) % 4294967296)
    then (max_size + (4294967296 - off)) % 4294967296
    else n

unfoldable pub writei : Node → (ℕ → ℕ) → (off n : ℕ) → Transfer ℕ
writei s src off n =
    if bad_range s off n
    then refuses
    else elim (write_loop (suc (write_length off n)) s src off (write_length off n)) [
      | none ↦ panics
      | some (last, s') ↦
          moves (write_length off n) (
            if ltb 0 (write_length off n) && ltb s'.size last
            then record s' { size = last }
            else s')
    ]

-- `if(b) bfree(ip->dev, b)`
unfoldable pub free_block : Volume → ℕ → Option Volume
free_block v b = if b == 0 then some v else bfree v b

-- The first loop of `itrunc`, over `n` direct blocks from `i` on; `none` is a panic.
unfoldable pub trunc_direct : ℕ → Node → (i : ℕ) → Option Node
trunc_direct zero s i = some s
trunc_direct (suc n) s i = elim (free_block s.volume (s.addrs i)) [
  | none ↦ none
  | some v ↦ trunc_direct n (set_addr (record s { volume = v }) i 0) (suc i)
]

-- The second loop, over `n` words of the indirect block `a` from `j` on.
unfoldable pub trunc_words : ℕ → Volume → (a j : ℕ) → Option Volume
trunc_words zero v a j = some v
trunc_words (suc n) v a j = elim (free_block v (v.contents a j)) [
  | none ↦ none
  | some v' ↦ trunc_words n v' a (suc j)
]

-- What `itrunc` does to the indirect block `a`, and to the block itself.
unfoldable pub trunc_root : Volume → (a : ℕ) → Option Volume
trunc_root v a = elim (trunc_words 128 v a 0) [ none ↦ none | some v' ↦ bfree v' a ]

unfoldable pub itrunc : Node → Option Node
itrunc s = elim (trunc_direct 12 s 0) [
  | none ↦ none
  | some t ↦
      if t.addrs 12 == 0
      then some (record t { size = 0 })
      else elim (trunc_root t.volume (t.addrs 12)) [
        | none ↦ none
        | some v ↦ some (record (set_addr (record t { volume = v }) 12 0) { size = 0 })
      ]
]
