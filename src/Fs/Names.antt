-- ===== src/Fs/Names.antt =====
-- What `namex` finds, in the terms of directories and names.
use ecnu_2020_autumn_linux_l.Base.{
  ℕ, zero, suc, ◌≤◌, ◌≡◌, ◌≢◌, ◌⊎◌, refl, sym, ap, ◌∙◌, subst, inl, inr, Bool, true, false, not,
  ◌&&◌, none, some, List, [], ◌∷◌, ◌==◌, leb, take, length, arith, Bool-cases, Option-cases,
  eq_of_==, ne_of_==, ==_self, ==_of_ne,
}
use ecnu_2020_autumn_linux_l.Fs.Path.{
  Dirent, Inode, dirsiz, same_name, dirlookup, cut_name, namex, is_nil, first_inode, Walk, found,
  missing, panics,
}
use ecnu_2020_autumn_linux_l.Fs.Resolve.{resolve, parts, namex-resolve}

-- The entry is in use, and its name and `name` agree in their first 14 bytes.
abbrev pub Matches : List ℕ → Dirent → Type 0
Matches name de = (de.inum ≢ 0) × (take 14 name ≡ take 14 de.name)

-- The first entry for the name has the number `n`.
abbrev pub IsEntry : List ℕ → List Dirent → ℕ → Type 0
IsEntry name [] n = ⊥
IsEntry name (de ∷ des) n =
    (Matches name de × (n ≡ de.inum)) ⊎ ((Matches name de → ⊥) × IsEntry name des n)

abbrev pub NoEntry : List ℕ → List Dirent → Type 0
NoEntry name [] = Unit {0}
NoEntry name (de ∷ des) = (Matches name de → ⊥) × NoEntry name des

-- The end `w` of the resolution of some parts of a path from the inode `ip` on. An inode without a type
-- is a panic, and one that is no directory has no names. For a parent the last part is not looked up
-- but returned, cut to 14 bytes.
abbrev pub Resolved : (ℕ → Inode) → Bool → ℕ → List (List ℕ) → Walk → Type 0
Resolved inode true ip [] w = w ≡ missing
Resolved inode false ip [] w = w ≡ found ip []
Resolved inode parent ip (part ∷ rest) w =
    (((inode ip).has_type ≡ false) × (w ≡ panics))
    ⊎ (((inode ip).has_type ≡ true) × ((inode ip).is_dir ≡ false) × (w ≡ missing))
    ⊎ (((inode ip).has_type ≡ true)
        × ((inode ip).is_dir ≡ true)
        × (((parent ≡ true) × (rest ≡ []) × (w ≡ found ip (take 14 part)))
            ⊎ (((parent ≡ false) ⊎ (rest ≢ []))
                × (((NoEntry part (inode ip).entries) × (w ≡ missing))
                    ⊎ ((next : ℕ) × IsEntry part (inode ip).entries next
                        × Resolved inode parent next rest w)))))

take_short : {A : Type 0} → (n : ℕ) (xs : List A) → length xs ≤ n → take n xs ≡ xs
take_short zero [] l = refl
take_short zero (x ∷ xs) l = absurd (omega (arith, l))
take_short (suc n) [] l = refl
take_short (suc n) (x ∷ xs) l = ap (λ ys. x ∷ ys) (take_short n xs (omega (arith, l)))

take_twice : {A : Type 0} → (n : ℕ) (xs : List A) → take n (take n xs) ≡ take n xs
take_twice zero xs = refl
take_twice (suc n) [] = refl
take_twice (suc n) (x ∷ xs) = ap (λ ys. x ∷ ys) (take_twice n xs)

cut_name-take : (part : List ℕ) → cut_name part ≡ take 14 part
cut_name-take part = elim (Bool-cases (leb dirsiz (length part))) [
  | inl b ↦ rw b refl
  | inr b ↦ rw b (sym (take_short 14 part (ground arith)))
]

head_eq : {a b : ℕ} {s t : List ℕ} → a ∷ s ≡ b ∷ t → (a ≡ b) × (s ≡ t)
head_eq e = (cc, cc)

same_name-take : (n : ℕ) (s t : List ℕ) → same_name n s t ≡ true → take n s ≡ take n t
unfolding same_name
same_name-take zero s t e = refl
same_name-take (suc n) [] [] e = refl
same_name-take (suc n) [] (b ∷ t) e = absurd (cc)
same_name-take (suc n) (a ∷ s) [] e = absurd (cc)
same_name-take (suc n) (a ∷ s) (b ∷ t) e =
    let first : a ≡ b = ground arith in let rest = same_name-take n s t (ground arith) in cc

take-same_name : (n : ℕ) (s t : List ℕ) → take n s ≡ take n t → same_name n s t ≡ true
unfolding same_name
take-same_name zero s t e = refl
take-same_name (suc n) [] [] e = refl
take-same_name (suc n) [] (b ∷ t) e = absurd (cc)
take-same_name (suc n) (a ∷ s) [] e = absurd (cc)
take-same_name (suc n) (a ∷ s) (b ∷ t) e =
    let (first, rest) = head_eq e in
    let tail = take-same_name n s t rest in rw first (rw (==_self b) tail)

-- The test of `dirlookup` for a name that is cut.
abbrev hits : List ℕ → Dirent → Bool
hits part de = not (de.inum == 0) && same_name dirsiz (cut_name part) de.name

hits-Matches : (part : List ℕ) (de : Dirent) → hits part de ≡ true → Matches part de
hits-Matches part de e =
    let used : (de.inum == 0) ≡ false = ground arith in
    let same = same_name-take 14 (cut_name part) de.name (ground arith) in
    (
      ne_of_== de.inum 0 used,
      sym (take_twice 14 part) ∙ ap (take 14) (sym (cut_name-take part)) ∙ same,
    )

Matches-hits : (part : List ℕ) (de : Dirent) → Matches part de → hits part de ≡ true
Matches-hits part de (n, e) =
    let used = ==_of_ne de.inum 0 n in
    let same =
      take-same_name 14 (cut_name part) de.name
        (ap (take 14) (cut_name-take part) ∙ take_twice 14 part ∙ e) in
    rw used same

no_match : (part : List ℕ) (de : Dirent) → hits part de ≡ false → Matches part de → ⊥
no_match part de b m = let hit = Matches-hits part de m in cc

dirlookup-IsEntry :
    (part : List ℕ) (des : List Dirent) (n : ℕ)
    → dirlookup (cut_name part) des ≡ some n
    → IsEntry part des n
unfolding dirlookup
dirlookup-IsEntry part [] n e = absurd (cc)
dirlookup-IsEntry part (de ∷ des) n e = elim (Bool-cases (hits part de)) [
  | inl b ↦ let here : some de.inum ≡ some n = rw b at e in inl (hits-Matches part de b, (cc))
  | inr b ↦ inr (no_match part de b, dirlookup-IsEntry part des n (rw b at e))
]

dirlookup-NoEntry :
    (part : List ℕ) (des : List Dirent) → dirlookup (cut_name part) des ≡ none → NoEntry part des
unfolding dirlookup
dirlookup-NoEntry part [] e = tt
dirlookup-NoEntry part (de ∷ des) e = elim (Bool-cases (hits part de)) [
  | inl b ↦ absurd (let here : some de.inum ≡ none = rw b at e in cc)
  | inr b ↦ (no_match part de b, dirlookup-NoEntry part des (rw b at e))
]

stops_early :
    (parent : Bool) (rest : List (List ℕ))
    → (parent && is_nil rest) ≡ true
    → (parent ≡ true) × (rest ≡ [])
stops_early true [] e = (refl, refl)
stops_early true (p ∷ ps) e = absurd (cc)
stops_early false rest e = absurd (cc)

goes_on :
    (parent : Bool) (rest : List (List ℕ))
    → (parent && is_nil rest) ≡ false
    → (parent ≡ false) ⊎ (rest ≢ [])
goes_on false rest e = inl refl
goes_on true [] e = absurd (cc)
goes_on true (p ∷ ps) e = inr (λ same. cc)

module _ (inode : ℕ → Inode) (parent : Bool) where
  resolve-Resolved :
      (ip : ℕ) (path : List (List ℕ)) → Resolved inode parent ip path (resolve inode parent ip path)
  unfolding resolve
  resolve-Resolved ip [] = nothing_left parent
    where
      nothing_left : (b : Bool) → Resolved inode b ip [] (resolve inode b ip [])
      nothing_left true = refl
      nothing_left false = refl
  resolve-Resolved ip (part ∷ rest) = elim (Bool-cases (inode ip).has_type) [
    | inr t ↦ inl (t, simp t refl)
    | inl t ↦ elim (Bool-cases (inode ip).is_dir) [
      | inr d ↦ inr (inl (t, d, simp (t, d) refl))
      | inl d ↦ elim (Bool-cases (parent && is_nil rest)) [
        | inl b ↦
            let (up, last) = stops_early parent rest b in
            inr (inr (t, d, inl (up, last, simp (t, d, b) (ap (found ip) (cut_name-take part)))))
        | inr b ↦ elim (Option-cases (dirlookup (cut_name part) (inode ip).entries)) [
          | inl e ↦ inr (
              inr (
                t,
                d,
                inr (
                  goes_on parent rest b,
                  inl (dirlookup-NoEntry part (inode ip).entries e, simp (t, d, b) (rw e refl)),
                ),
              ))
          | inr (next, e) ↦
              let step : resolve inode parent ip (part ∷ rest) ≡ resolve inode parent next rest =
                simp (t, d, b) (rw e refl) in
              inr (
                inr (
                  t,
                  d,
                  inr (
                    goes_on parent rest b,
                    inr (
                      next,
                      dirlookup-IsEntry part (inode ip).entries next e,
                      subst (Resolved inode parent next rest) (sym step)
                          (resolve-Resolved next rest),
                    ),
                  ),
                ))
        ]
      ]
    ]
  ]

first_inode-root : (cwd : ℕ) (path cs : List ℕ) → path ≡ 47 ∷ cs → first_inode cwd path ≡ 1
first_inode-root cwd path cs e = rw e refl

first_inode-cwd :
    (cwd : ℕ) (path : List ℕ) → ((cs : List ℕ) → path ≢ 47 ∷ cs) → first_inode cwd path ≡ cwd
first_inode-cwd cwd [] h = refl
first_inode-cwd cwd (c ∷ cs) h = elim (Bool-cases (c == 47)) [
  | inl b ↦ absurd (h cs (ap (λ x. x ∷ cs) (eq_of_== c 47 b)))
  | inr b ↦ rw b refl
]

-- From every working directory and for every path, with room in the inode cache, `namex` ends, and
-- resolves the parts of the path between its slashes one directory after the other: from the root
-- where the path begins with a slash, and else from the working directory; by the first entry in use
-- whose name agrees with the part in 14 bytes; to the last part for `namei`, and to the last but one
-- for `nameiparent`, which returns the last one cut to 14 bytes. It returns a null pointer where an
-- inode on the way is no directory or has no such entry, and where a parent is asked for and no part
-- is left; it panics where an inode on the way has no type.
pub namex-Resolved :
    (inode : ℕ → Inode) (cwd : ℕ) (parent : Bool) (path : List ℕ)
    → ((cs : List ℕ)
        → path ≡ 47 ∷ cs
        → Resolved inode parent 1 (parts [] path) (namex inode cwd parent path))
      × (((cs : List ℕ) → path ≢ 47 ∷ cs)
          → Resolved inode parent cwd (parts [] path) (namex inode cwd parent path))
namex-Resolved inode cwd parent path =
    let from : Resolved inode parent (first_inode cwd path) (parts [] path)
        (namex inode cwd parent path) =
      subst (Resolved inode parent (first_inode cwd path) (parts [] path))
        (sym (namex-resolve inode cwd parent path))
        (resolve-Resolved inode parent (first_inode cwd path) (parts [] path)) in
    (
      (λ cs e.
          subst (λ i. Resolved inode parent i (parts [] path) (namex inode cwd parent path))
            (first_inode-root cwd path cs e) from),
      (λ h.
          subst (λ i. Resolved inode parent i (parts [] path) (namex inode cwd parent path))
            (first_inode-cwd cwd path h) from),
    )
