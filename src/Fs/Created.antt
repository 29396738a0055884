-- ===== src/Fs/Created.antt =====
-- `nameiparent`, `dirlink` and then `namei`, as the creation of a file makes them.
use ecnu_2020_autumn_linux_l.Base.{
  ℕ, zero, suc, ◌<◌, ◌≡◌, ◌≢◌, refl, sym, ap, subst, ◌∙◌, inl, inr, Bool, true, false, ◌&&◌, none,
  some, List, [], ◌∷◌, ◌==◌, if◌then◌else◌, Bool-cases, Option-cases, eq_of_==, ==_self,
}
use ecnu_2020_autumn_linux_l.Fs.Path.{
  Dirent, Inode, dirsiz, same_name, dirlookup, cut_name, namex, is_nil, first_inode, found, missing,
  panics,
}
use ecnu_2020_autumn_linux_l.Fs.Link.{
  dirlink, links, LinkOutcome, dirlink-LinkOutcome, dirlookup-cong,
}
use ecnu_2020_autumn_linux_l.Fs.Resolve.{resolve, parts, namex-resolve}

-- The directory `d` has other entries.
abbrev pub with_entries : (ℕ → Inode) → ℕ → List Dirent → ℕ → Inode
with_entries inode d des i = if i == d then record (inode d) { entries = des } else inode i

same_name_refl : (n : ℕ) (s : List ℕ) → same_name n s s ≡ true
unfolding same_name
same_name_refl zero s = refl
same_name_refl (suc n) [] = refl
same_name_refl (suc n) (a ∷ s) = rw (==_self a) (same_name_refl n s)

dirlink-missing :
    (des des' : List Dirent) (name : List ℕ) (inum : ℕ)
    → dirlink des name inum ≡ links des'
    → dirlookup name des ≡ none
unfolding dirlink
dirlink-missing des des' name inum e = elim (Option-cases (dirlookup name des)) [
  | inl f ↦ f
  | inr (i, f) ↦ absurd (cc)
]

module _ (inode : ℕ → Inode) (b : Bool) (ip : ℕ) (part : List ℕ) (rest : List (List ℕ)) where
  -- One step of the resolution.
  resolve-step :
      (next : ℕ)
      → (inode ip).has_type ≡ true
      → (inode ip).is_dir ≡ true
      → (b && is_nil rest) ≡ false
      → dirlookup (cut_name part) (inode ip).entries ≡ some next
      → resolve inode b ip (part ∷ rest) ≡ resolve inode b next rest
  unfolding resolve
  resolve-step next t d e f = simp (t, d, e) (rw f refl)

  resolve-no_type : (inode ip).has_type ≡ false → resolve inode b ip (part ∷ rest) ≡ panics
  unfolding resolve
  resolve-no_type t = simp t refl

  resolve-no_dir :
      (inode ip).has_type ≡ true
      → (inode ip).is_dir ≡ false
      → resolve inode b ip (part ∷ rest) ≡ missing
  unfolding resolve
  resolve-no_dir t d = simp (t, d) refl

  resolve-missing :
      (inode ip).has_type ≡ true
      → (inode ip).is_dir ≡ true
      → (b && is_nil rest) ≡ false
      → dirlookup (cut_name part) (inode ip).entries ≡ none
      → resolve inode b ip (part ∷ rest) ≡ missing
  unfolding resolve
  resolve-missing t d e f = simp (t, d, e) (rw f refl)

resolve-last :
    (inode : ℕ → Inode) (ip : ℕ) (part : List ℕ)
    → (inode ip).has_type ≡ true
    → (inode ip).is_dir ≡ true
    → resolve inode true ip (part ∷ []) ≡ found ip (cut_name part)
unfolding resolve
resolve-last inode ip part t d = simp (t, d) refl

module _ (inode : ℕ → Inode) (d inum : ℕ) (name : List ℕ) (des' : List Dirent)
    (absent : dirlookup name (inode d).entries ≡ none)
    (linked : LinkOutcome (inode d).entries name inum (links des')) where
  -- What was found in a directory is still found there.
  still_found :
      (ip next : ℕ) (part : List ℕ)
      → dirlookup part (inode ip).entries ≡ some next
      → dirlookup part (with_entries inode d des' ip).entries ≡ some next
  still_found ip next part e = elim (Bool-cases (ip == d)) [
    | inr x ↦ rw x e
    | inl x ↦
        let at : dirlookup part (inode d).entries ≡ some next =
          subst (λ i. dirlookup part (inode i).entries ≡ some next) (eq_of_== ip d x) e in
        elim (Bool-cases (same_name dirsiz part name)) [
          | inl y ↦ absurd (let f = dirlookup-cong name part (inode d).entries y in cc)
          | inr y ↦ rw x (linked part ∙ rw y at)
        ]
  ]

  same_kind : (ip : ℕ) → (with_entries inode d des' ip).is_dir ≡ (inode ip).is_dir
  same_kind ip = elim (Bool-cases (ip == d)) [
    | inr x ↦ rw x refl
    | inl x ↦ rw x (ap (λ i. (inode i).is_dir) (sym (eq_of_== ip d x)))
  ]

  same_type : (ip : ℕ) → (with_entries inode d des' ip).has_type ≡ (inode ip).has_type
  same_type ip = elim (Bool-cases (ip == d)) [
    | inr x ↦ rw x refl
    | inl x ↦ rw x (ap (λ i. (inode i).has_type) (sym (eq_of_== ip d x)))
  ]

  new_found : dirlookup name (with_entries inode d des' d).entries ≡ some inum
  new_found = rw (==_self d) (linked name ∙ rw (same_name_refl dirsiz name) refl)

  resolve-linked :
      (ip : ℕ) (path : List (List ℕ))
      → resolve inode true ip path ≡ found d name
      → resolve (with_entries inode d des') false ip path ≡ found inum []
  unfolding resolve
  resolve-linked ip [] e = absurd (cc)
  resolve-linked ip (part ∷ []) e = elim (Bool-cases (inode ip).has_type) [
    | inr t ↦ absurd (let f = resolve-no_type inode true ip part [] t in cc)
    | inl t ↦ elim (Bool-cases (inode ip).is_dir) [
      | inr x ↦ absurd (let f = resolve-no_dir inode true ip part [] t x in cc)
      | inl x ↦
          let last = resolve-last inode ip part t x in
          let here : ip ≡ d = cc in
          let same : name ≡ cut_name part = cc in
          let at : dirlookup (cut_name part) (with_entries inode d des' ip).entries ≡ some inum =
            subst (λ i. dirlookup (cut_name part) (with_entries inode d des' i).entries ≡ some inum)
              (sym here)
              (subst (λ n. dirlookup n (with_entries inode d des' d).entries ≡ some inum) same
                new_found) in
          resolve-step (with_entries inode d des') false ip part [] inum (same_type ip ∙ t)
            (same_kind ip ∙ x) refl at
    ]
  ]
  resolve-linked ip (part ∷ q ∷ r) e = elim (Bool-cases (inode ip).has_type) [
    | inr t ↦ absurd (let f = resolve-no_type inode true ip part (q ∷ r) t in cc)
    | inl t ↦ elim (Bool-cases (inode ip).is_dir) [
      | inr x ↦ absurd (let f = resolve-no_dir inode true ip part (q ∷ r) t x in cc)
      | inl x ↦ elim (Option-cases (dirlookup (cut_name part) (inode ip).entries)) [
        | inl f ↦ absurd (let g = resolve-missing inode true ip part (q ∷ r) t x refl f in cc)
        | inr (next, f) ↦
            let step = resolve-step inode true ip part (q ∷ r) next t x refl f in
            resolve-step (with_entries inode d des') false ip part (q ∷ r) next (same_type ip ∙ t)
              (same_kind ip ∙ x) refl (still_found ip next (cut_name part) f)
            ∙ resolve-linked next (q ∷ r) (sym step ∙ e)
      ]
    ]
  ]

-- If `nameiparent` finds the directory and the last name of a path, and `dirlink` in that directory enters
-- the name with the number of an inode, from 1 to 65535, then `namei` of the path finds that inode.
pub namex-dirlink :
    (inode : ℕ → Inode) (cwd : ℕ) (path : List ℕ) (d inum : ℕ) (name : List ℕ) (des' : List Dirent)
    → inum ≢ 0
    → inum < 65536
    → namex inode cwd true path ≡ found d name
    → dirlink (inode d).entries name inum ≡ links des'
    → namex (with_entries inode d des') cwd false path ≡ found inum []
namex-dirlink inode cwd path d inum name des' n l e f =
    namex-resolve (with_entries inode d des') cwd false path
    ∙ resolve-linked inode d inum name des' (dirlink-missing (inode d).entries des' name inum f)
        (subst (LinkOutcome (inode d).entries name inum) f
          (dirlink-LinkOutcome (inode d).entries name inum n l))
        (first_inode cwd path) (parts [] path) (sym (namex-resolve inode cwd true path) ∙ e)
