-- ===== src/Fs/Inodes.antt =====
-- The inode cache of kernel/fs.c: `iget`, `idup`, `ilock`, `iunlock`, `iput` and `iupdate`, each one pass under
-- `icache.lock`. A cached inode is named by its slot.
use ecnu_2020_autumn_linux_l.Base.{
  ℕ, suc, ◌-◌, Bool, true, false, not, ◌&&◌, ◌||◌, Option, none, some, List, [], ◌∷◌, ◌==◌, ltb,
  if◌then◌else◌, get_elem?, set,
}

-- `struct dinode`: what the disk has of an inode. A type of 0 marks a free one.
pub record Dinode : Type 0 where
  pub kind : ℕ
  pub nlink : ℕ
  pub size : ℕ
  pub addrs : List ℕ

-- `struct inode`, with its flags I_BUSY and I_VALID.
pub record Cached : Type 0 where
  pub dev : ℕ
  pub inum : ℕ
  pub refs : ℕ
  pub busy : Bool
  pub valid : Bool
  pub copy : Dinode

-- The inodes of the disk, by device and number.
abbrev pub Inodes : Type 0
Inodes = ℕ → ℕ → Dinode

abbrev pub is_inode : ℕ → ℕ → Cached → Bool
is_inode dev inum ip = ltb 0 ip.refs && ((ip.dev == dev) && (ip.inum == inum))

-- The loop of `iget`, from the slot `i` on: the slot of the inode, or the first free one.
unfoldable pub find_inode : ℕ → ℕ → ℕ → Option ℕ → List Cached → Bool × Option ℕ
find_inode dev inum i empty [] = (false, empty)
find_inode dev inum i empty (ip ∷ ips) =
    let empty' : Option ℕ = elim empty [
      | some e ↦ some e
      | none ↦ if ip.refs == 0 then some i else none
    ] in
    let rest = find_inode dev inum (suc i) empty' ips in
    if is_inode dev inum ip then (true, some i) else rest

abbrev pub claim : ℕ → ℕ → Cached → Cached
claim dev inum ip = record ip { dev = dev; inum = inum; refs = 1; busy = false; valid = false }

-- The slot and the cache. `none`: it panics.
unfoldable pub iget : ℕ → ℕ → List Cached → Option (ℕ × List Cached)
unfolding find_inode
iget dev inum ips =
    let (found, slot) = find_inode dev inum 0 none ips in
    elim slot [
      | none ↦ none
      | some i ↦ elim (get_elem? ips i) [
        | none ↦ none
        | some ip ↦
            some
              (i, set ips i (if found then record ip { refs = suc ip.refs } else claim dev inum ip))
      ]
    ]

unfoldable pub idup : ℕ → List Cached → Option (List Cached)
idup i ips = elim (get_elem? ips i) [
  | none ↦ none
  | some ip ↦ some (set ips i (record ip { refs = suc ip.refs }))
]

-- How a pass of `ilock` or `iput` ends; `lost`: a count of references falls below 0.
pub data Locked : Type 0 where
  done : List Cached → Inodes → Locked
  lost : Locked
  sleeps : Locked
  panics : Locked

unfoldable pub ilock : Inodes → ℕ → List Cached → Locked
ilock disk i ips = elim (get_elem? ips i) [
  | none ↦ panics
  | some ip ↦
      let kept = done (set ips i (record ip { busy = true })) disk in
      let d = disk ip.dev ip.inum in
      let loaded = done (set ips i (record ip { busy = true; valid = true; copy = d })) disk in
      if ip.refs == 0
      then panics
      else if ip.busy
      then sleeps
      else if ip.valid
      then kept
      else if d.kind == 0
      then panics
      else loaded
]

unfoldable pub iunlock : ℕ → List Cached → Option (List Cached)
iunlock i ips = elim (get_elem? ips i) [
  | none ↦ none
  | some ip ↦
      if not ip.busy || (ip.refs == 0) then none else some (set ips i (record ip { busy = false }))
]

abbrev pub write_inode : Inodes → ℕ → ℕ → Dinode → Inodes
write_inode disk dev inum d = λ e n. if (e == dev) && (n == inum) then d else disk e n

abbrev pub iupdate : Inodes → Cached → Inodes
iupdate disk ip = write_inode disk ip.dev ip.inum ip.copy

abbrev pub no_blocks : List ℕ → List ℕ
no_blocks [] = []
no_blocks (_ ∷ addrs) = 0 ∷ no_blocks addrs

-- `itrunc` and `ip->type = 0` as the inode shows them; the blocks that are freed are not in this model.
abbrev pub truncated : Cached → Cached
truncated ip = record ip {
  copy = record { kind = 0; nlink = ip.copy.nlink; size = 0; addrs = no_blocks ip.copy.addrs };
}

unfoldable pub iput : Inodes → ℕ → List Cached → Locked
iput disk i ips = elim (get_elem? ips i) [
  | none ↦ panics
  | some ip ↦
      let gone = record (truncated ip) { busy = false; valid = false; refs = 0 } in
      let dropped = record ip { refs = ip.refs - 1 } in
      if (ip.refs == 1) && (ip.valid && (ip.copy.nlink == 0))
      then (if ip.busy then panics else done (set ips i gone) (iupdate disk (truncated ip)))
      else if ip.refs == 0
      then lost
      else done (set ips i dropped) disk
]
