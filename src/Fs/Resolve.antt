-- ===== src/Fs/Resolve.antt =====
-- `namex` resolves a path element by element.
use ecnu_2020_autumn_linux_l.Base.{
  ℕ, zero, suc, ◌≤◌, ◌<◌, ◌≡◌, refl, sym, ap, ◌∙◌, ◌⊎◌, inl, inr, Bool, false, not, ◌&&◌, none,
  some, List, [], ◌∷◌, ◌++◌, ◌==◌, if◌then◌else◌, length, arith, Bool-cases, Option-cases,
  append_assoc, append-nil, List-cases,
}
use ecnu_2020_autumn_linux_l.Fs.Path.{
  slash, drop_slashes, split_elem, cut_name, skipelem, Inode, dirlookup, namex_loop, first_inode,
  namex, is_nil, Walk, found, missing, panics,
}

abbrev pub flush : List ℕ → List (List ℕ)
flush [] = []
flush (c ∷ cs) = (c ∷ cs) ∷ []

-- The parts of a path between its slashes that are not empty; `part` is the part read so far.
unfoldable pub parts : List ℕ → List ℕ → List (List ℕ)
parts part [] = flush part
parts part (c ∷ cs) = if c == slash then flush part ++ parts [] cs else parts (part ++ (c ∷ [])) cs

parts-drop_slashes : (path : List ℕ) → parts [] (drop_slashes path) ≡ parts [] path
unfolding parts drop_slashes
parts-drop_slashes [] = refl
parts-drop_slashes (c ∷ cs) = ground (arith, parts-drop_slashes cs)

parts-split_elem :
    (c : ℕ) (part path : List ℕ)
    → parts (c ∷ part) path ≡ ((c ∷ part) ++ (split_elem path).0) ∷ parts [] (split_elem path).1
unfolding parts split_elem
parts-split_elem c part [] = ap (λ xs. (c ∷ xs) ∷ []) (sym (append-nil part))
parts-split_elem c part (d ∷ ds) = elim (Bool-cases (d == slash)) [
  | inl b ↦ rw (b, append-nil part) (rw b refl)
  | inr b ↦ rw b (
      parts-split_elem c (part ++ (d ∷ [])) ds
      ∙ ap (λ xs. (c ∷ xs) ∷ parts [] (split_elem ds).1)
          (append_assoc part (d ∷ []) (split_elem ds).0))
]

length-drop_slashes : (path : List ℕ) → length (drop_slashes path) ≤ length path
unfolding drop_slashes
length-drop_slashes [] = omega arith
length-drop_slashes (c ∷ cs) = ground (arith, length-drop_slashes cs)

length-split_elem : (path : List ℕ) → length (split_elem path).1 ≤ length path
unfolding split_elem
length-split_elem [] = omega arith
length-split_elem (c ∷ cs) = ground (arith, length-split_elem cs)

drop_slashes-head :
    (path : List ℕ) (c : ℕ) (cs : List ℕ) → drop_slashes path ≡ c ∷ cs → (c == slash) ≡ false
unfolding drop_slashes
drop_slashes-head [] c cs e = absurd (cc)
drop_slashes-head (d ∷ ds) c cs e = elim (Bool-cases (d == slash)) [
  | inl b ↦
      let out : drop_slashes (d ∷ ds) ≡ drop_slashes ds = rw b refl in
      drop_slashes-head ds c cs (sym out ∙ e)
  | inr b ↦
      let out : drop_slashes (d ∷ ds) ≡ d ∷ ds = rw b refl in let same : d ≡ c = cc in rw (← same) b
]

is_nil-parts : (path : List ℕ) → is_nil (parts [] (drop_slashes path)) ≡ is_nil (drop_slashes path)
unfolding parts
is_nil-parts path = elim (List-cases (drop_slashes path)) [
  | inl e ↦ rw e refl
  | inr (c, cs, e) ↦
      let b = drop_slashes-head path c cs e in rw e (rw b (ap is_nil (parts-split_elem c [] cs)))
]

-- What `skipelem` takes off a path.
abbrev Skipped : List ℕ → Type 0
Skipped path =
    (elem rest : List ℕ) × (skipelem path ≡ some (cut_name elem, rest))
    × (parts [] path ≡ elem ∷ parts [] rest)
    × (is_nil (parts [] rest) ≡ is_nil rest)
    × (length rest < length path)

skipelem-cases : (path : List ℕ) → ((skipelem path ≡ none) × (parts [] path ≡ [])) ⊎ Skipped path
unfolding skipelem parts
skipelem-cases path = elim (List-cases (drop_slashes path)) [
  | inl e ↦ inl (rw (e, skipelem) refl, sym (parts-drop_slashes path) ∙ ap (parts []) e)
  | inr (c, cs, e) ↦
      let b = drop_slashes-head path c cs e in
      let tail = (split_elem cs).1 in
      let out : skipelem path ≡ some (cut_name (c ∷ (split_elem cs).0), drop_slashes tail) =
        rw (e, skipelem) (rw b refl) in
      let first : parts [] (c ∷ cs) ≡ parts (c ∷ []) cs = rw b refl in
      let all : parts [] path ≡ (c ∷ (split_elem cs).0) ∷ parts [] (drop_slashes tail) =
        sym (parts-drop_slashes path)
        ∙ ap (parts []) e
        ∙ first
        ∙ parts-split_elem c [] cs
        ∙ ap (λ xs. (c ∷ (split_elem cs).0) ∷ xs) (sym (parts-drop_slashes tail)) in
      let less : length (drop_slashes tail) < length path = omega (
        arith,
        length-drop_slashes tail,
        length-split_elem cs,
        ap length e,
        length-drop_slashes path,
      ) in
      inr (c ∷ (split_elem cs).0, drop_slashes tail, out, all, is_nil-parts tail, less)
]

-- The resolution of the parts of a path, one directory after the other.
unfoldable pub resolve : (inode : ℕ → Inode) (nameiparent : Bool) → ℕ → List (List ℕ) → Walk
unfolding dirlookup
resolve inode nameiparent ip [] = if nameiparent then missing else found ip []
resolve inode nameiparent ip (part ∷ rest) =
    let deeper : Walk = elim (dirlookup (cut_name part) (inode ip).entries) [
      | none ↦ missing
      | some next ↦ resolve inode nameiparent next rest
    ] in
    if not (inode ip).has_type
    then panics
    else if not (inode ip).is_dir
    then missing
    else if nameiparent && is_nil rest
    then found ip (cut_name part)
    else deeper

namex_loop-resolve :
    (inode : ℕ → Inode) (b : Bool) (fuel ip : ℕ) (path : List ℕ)
    → length path < fuel
    → namex_loop inode b fuel ip path ≡ resolve inode b ip (parts [] path)
unfolding namex_loop resolve
namex_loop-resolve inode b zero ip path l = absurd (omega arith)
namex_loop-resolve inode b (suc fuel) ip path l = elim (skipelem-cases path) [
  | inl (e, f) ↦ rw (e, namex_loop, f) refl
  | inr (elem, rest, e, f, g, less) ↦
      elim (Option-cases (dirlookup (cut_name elem) (inode ip).entries)) [
        | inl h ↦ rw (e, namex_loop, f) (rw (h, g) refl)
        | inr (next, h) ↦
            let ih = namex_loop-resolve inode b fuel next rest (omega (arith, less, l)) in
            rw (e, namex_loop, f) (rw (h, g) (rw ih refl))
      ]
]

-- `namex` follows the parts of the path in the terms of its own steps.
pub namex-resolve :
    (inode : ℕ → Inode) (cwd : ℕ) (nameiparent : Bool) (path : List ℕ)
    → namex inode cwd nameiparent path
      ≡ resolve inode nameiparent (first_inode cwd path) (parts [] path)
unfolding namex
namex-resolve inode cwd nameiparent path =
    namex_loop-resolve inode nameiparent (suc (length path)) (first_inode cwd path) path
      (omega arith)
