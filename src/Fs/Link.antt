-- ===== src/Fs/Link.antt =====
-- `dirlink` of kernel/fs.c, on the entries of a directory in their order. A name is the list of its bytes
-- up to the NUL; the number of an inode is stored in 16 bits.
use ecnu_2020_autumn_linux_l.Base.{
  ℕ, zero, suc, ◌%◌, ◌≤◌, ◌<◌, ◌≡◌, ◌≢◌, refl, sym, ap, ◌∙◌, inl, inr, Bool, true, false, not, ◌&&◌,
  none, some, List, [], ◌∷◌, ◌==◌, leb, if◌then◌else◌, length, take, arith, Bool-cases,
  Option-cases, ==_of_ne,
}
use ecnu_2020_autumn_linux_l.Fs.Path.{Dirent, dirsiz, same_name, dirlookup}

-- Whether an entry is free.
unfoldable pub has_empty : List Dirent → Bool
has_empty [] = false
has_empty (de ∷ des) = let rest = has_empty des in if de.inum == 0 then true else rest

-- The entry goes to the first free one, or behind the last.
unfoldable pub write_entry : List Dirent → Dirent → List Dirent
write_entry [] new = new ∷ []
write_entry (de ∷ des) new =
    let rest = write_entry des new in if de.inum == 0 then new ∷ des else de ∷ rest

-- How `dirlink` ends: 0, -1, or a panic where the directory has no room for one more entry.
pub data Linking : Type 0 where
  links : List Dirent → Linking
  name_taken : Linking
  link_panics : Linking

-- A directory has at most 140 blocks of 32 entries; that the disk is not full is taken for granted.
unfoldable pub dirlink : List Dirent → (name : List ℕ) → (inum : ℕ) → Linking
dirlink des name inum = elim (dirlookup name des) [
  | some _ ↦ name_taken
  | none ↦
      if not (has_empty des) && leb 4480 (length des)
      then link_panics
      else links (write_entry des (record { inum = inum % 65536; name = take dirsiz name }))
]

same_name-take : (n : ℕ) (s t : List ℕ) → same_name n s (take n t) ≡ same_name n s t
unfolding same_name
same_name-take zero s t = refl
same_name-take (suc n) [] [] = refl
same_name-take (suc n) [] (b ∷ t) = refl
same_name-take (suc n) (a ∷ s) [] = refl
same_name-take (suc n) (a ∷ s) (b ∷ t) = ap (λ x. (a == b) && x) (same_name-take n s t)

pub same_name_trans :
    (n : ℕ) (s t u : List ℕ) → same_name n s t ≡ true → same_name n s u ≡ same_name n t u
unfolding same_name
same_name_trans zero s t u e = refl
same_name_trans (suc n) [] [] u e = refl
same_name_trans (suc n) [] (b ∷ t) u e = absurd (cc)
same_name_trans (suc n) (a ∷ s) [] u e = absurd (cc)
same_name_trans (suc n) (a ∷ s) (b ∷ t) [] e = refl
same_name_trans (suc n) (a ∷ s) (b ∷ t) (c ∷ u) e =
    let heads : a ≡ b = ground (arith, e) in
    let tails : same_name n s t ≡ true = ground (arith, e) in
    rw (heads, same_name_trans n s t u tails) refl

pub dirlookup-cong :
    (name other : List ℕ) (des : List Dirent)
    → same_name dirsiz other name ≡ true
    → dirlookup other des ≡ dirlookup name des
unfolding dirlookup
dirlookup-cong name other [] e = refl
dirlookup-cong name other (de ∷ des) e =
    rw (same_name_trans dirsiz other name de.name e, dirlookup-cong name other des e) refl

dirlookup-here :
    (name : List ℕ) (de : Dirent) (des : List Dirent)
    → (de.inum == 0) ≡ false
    → same_name dirsiz name de.name ≡ true
    → dirlookup name (de ∷ des) ≡ some de.inum
unfolding dirlookup
dirlookup-here name de des e m = rw (e, m) refl

dirlookup-next :
    (name : List ℕ) (de : Dirent) (des : List Dirent)
    → same_name dirsiz name de.name ≡ false
    → dirlookup name (de ∷ des) ≡ dirlookup name des
unfolding dirlookup
dirlookup-next name de des m = elim (Bool-cases (de.inum == 0)) [
  | inl e ↦ rw e refl
  | inr e ↦ rw (e, m) refl
]

-- The entries up to the free one do not have the name.
dirlookup-write_entry :
    (name other : List ℕ) (inum : ℕ) (des : List Dirent)
    → inum ≢ 0
    → (same_name dirsiz other name ≡ true → dirlookup other des ≡ none)
    → dirlookup other (write_entry des (record { inum = inum; name = take dirsiz name }))
      ≡ (if same_name dirsiz other name then some inum else dirlookup other des)
unfolding dirlookup write_entry
dirlookup-write_entry name other inum [] n h =
    rw (==_of_ne inum 0 n, same_name-take dirsiz other name) refl
dirlookup-write_entry name other inum (de ∷ des) n h = elim (Bool-cases (de.inum == 0)) [
  | inl e ↦ rw e (rw (==_of_ne inum 0 n, same_name-take dirsiz other name) refl)
  | inr e ↦ elim (Bool-cases (same_name dirsiz other de.name)) [
    | inr m ↦
        let rest =
          dirlookup-write_entry name other inum des n
            (λ k. sym (dirlookup-next other de des m) ∙ h k) in
        rw e (rw (e, m) rest)
    | inl m ↦ elim (Bool-cases (same_name dirsiz other name)) [
      | inl k ↦ absurd (let f = h k in let g = dirlookup-here other de des e m in cc)
      | inr k ↦ rw (e, k) (rw (e, m) refl)
    ]
  ]
]

-- What `dirlink` promises for a name and an inode number.
abbrev pub LinkOutcome : List Dirent → List ℕ → ℕ → Linking → Type 0
LinkOutcome des name inum (links des') =
    (other : List ℕ)
    → dirlookup other des'
      ≡ (if same_name dirsiz other name then some inum else dirlookup other des)
LinkOutcome des name inum name_taken = (i : ℕ) × (dirlookup name des ≡ some i)
LinkOutcome des name inum link_panics = (has_empty des ≡ false) × (4480 ≤ length des)

-- For the number of an inode, from 1 to 65535: where `dirlink` succeeds, looking up a name that agrees with
-- the new one in its first 14 bytes finds that inode, and every other name is found or not found as
-- before; it returns -1 only if the name is there already, and panics only if no entry is free and the
-- directory has 4480 entries at least.
pub dirlink-LinkOutcome :
    (des : List Dirent) (name : List ℕ) (inum : ℕ)
    → inum ≢ 0
    → inum < 65536
    → LinkOutcome des name inum (dirlink des name inum)
unfolding dirlink
dirlink-LinkOutcome des name inum n l = elim (Option-cases (dirlookup name des)) [
  | inr (i, e) ↦ rw (e, dirlink) (i, e)
  | inl e ↦ elim (Bool-cases (not (has_empty des) && leb 4480 (length des))) [
    | inl b ↦ rw (e, dirlink) (rw b (ground (arith, b), ground (arith, b)))
    | inr b ↦
        let whole : inum % 65536 ≡ inum = omega (arith, l) in
        rw (e, dirlink)
          (rw b (
            rw whole (λ other.
              dirlookup-write_entry name other inum des n
                (λ k. dirlookup-cong name other des k ∙ e))))
  ]
]
