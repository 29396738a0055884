-- ===== src/Fs/Path.antt =====
-- `skipelem`, `dirlookup` and `namex` of kernel/fs.c. A path is the list of its bytes up to the NUL. The
-- locks and the reference counts that `namex` takes and gives back on its way are not in it, nor the
-- panic of `iget` for want of a free slot in the inode cache, of which `namex` uses two at a time.
use ecnu_2020_autumn_linux_l.Base.{
  ℕ, zero, suc, Bool, true, false, not, ◌&&◌, Option, none, some, List, [], ◌∷◌, ◌==◌, leb,
  if◌then◌else◌, length, take,
}

abbrev pub slash : ℕ
slash = 47

abbrev pub dirsiz : ℕ
dirsiz = 14

-- `while(*path == '/') path++;`
unfoldable pub drop_slashes : List ℕ → List ℕ
drop_slashes [] = []
drop_slashes (c ∷ cs) = let rest = drop_slashes cs in if c == slash then rest else c ∷ cs

-- `while(*path != '/' && *path != 0) path++;`: the bytes passed, and the path behind them.
unfoldable pub split_elem : List ℕ → List ℕ × List ℕ
split_elem [] = ([], [])
split_elem (c ∷ cs) =
    let (elem, rest) = split_elem cs in if c == slash then ([], c ∷ cs) else (c ∷ elem, rest)

-- The name that `memmove` makes of an element.
abbrev pub cut_name : List ℕ → List ℕ
cut_name elem = if leb dirsiz (length elem) then take dirsiz elem else elem

unfoldable pub skipelem : List ℕ → Option (List ℕ × List ℕ)
unfolding drop_slashes split_elem
skipelem path = elim (drop_slashes path) [
  | [] ↦ none
  | c ∷ cs ↦ let (elem, rest) = split_elem (c ∷ cs) in some (cut_name elem, drop_slashes rest)
]

-- `struct dirent`, where a name is the list of its bytes up to a NUL.
pub record Dirent : Type 0 where
  pub inum : ℕ
  pub name : List ℕ

-- An inode: if its type is not 0, if it is a directory, and the entries of its blocks if it is.
pub record Inode : Type 0 where
  pub has_type : Bool
  pub is_dir : Bool
  pub entries : List Dirent

-- `strncmp(s, t, DIRSIZ) == 0`, with `n` for DIRSIZ.
unfoldable pub same_name : ℕ → List ℕ → List ℕ → Bool
same_name zero s t = true
same_name (suc n) [] [] = true
same_name (suc n) [] (_ ∷ _) = false
same_name (suc n) (_ ∷ _) [] = false
same_name (suc n) (a ∷ s) (b ∷ t) = (a == b) && same_name n s t

-- The number of the inode; 0 marks a free entry.
unfoldable pub dirlookup : List ℕ → List Dirent → Option ℕ
unfolding same_name
dirlookup name [] = none
dirlookup name (de ∷ des) =
    if not (de.inum == 0) && same_name dirsiz name de.name then some de.inum else dirlookup name des

-- `*path == '\0'`
abbrev pub is_nil {ℓ} : {A : Type ℓ} → List A → Bool
is_nil [] = true
is_nil (_ ∷ _) = false

-- How `namex` ends: with an inode and the last name, with a null pointer, or with the panic of `ilock`
-- for an inode without a type.
pub data Walk : Type 0 where
  found : ℕ → List ℕ → Walk
  missing : Walk
  panics : Walk
  exhausted : Walk

-- The loop of `namex` from the inode `ip` on; `exhausted` without fuel.
unfoldable pub namex_loop : (inode : ℕ → Inode) (nameiparent : Bool) → ℕ → ℕ → List ℕ → Walk
unfolding skipelem dirlookup
namex_loop inode nameiparent zero ip path = exhausted
namex_loop inode nameiparent (suc fuel) ip path = elim (skipelem path) [
  | none ↦ if nameiparent then missing else found ip []
  | some (name, rest) ↦
      let deeper : Walk = elim (dirlookup name (inode ip).entries) [
        | none ↦ missing
        | some next ↦ namex_loop inode nameiparent fuel next rest
      ] in
      if not (inode ip).has_type
      then panics
      else if not (inode ip).is_dir
      then missing
      else if nameiparent && is_nil rest
      then found ip name
      else deeper
]

-- Where `namex` begins: the root is the inode 1.
abbrev pub first_inode : ℕ → List ℕ → ℕ
first_inode cwd [] = cwd
first_inode cwd (c ∷ _) = if c == slash then 1 else cwd

-- One round for each byte of the path, and one to stop.
unfoldable pub namex : (inode : ℕ → Inode) (cwd : ℕ) (nameiparent : Bool) → List ℕ → Walk
unfolding namex_loop
namex inode cwd nameiparent path =
    namex_loop inode nameiparent (suc (length path)) (first_inode cwd path) path
