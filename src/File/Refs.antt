-- ===== src/File/Refs.antt =====
-- The reference counts of open files against the descriptors and structures that refer to them.
use ecnu_2020_autumn_linux_l.Base.{
  ℕ, suc, ◌+◌, ◌-◌, ◌<◌, ◌≡◌, inl, inr, refl, sym, ap, subst, ◌∙◌, false, Option, none, some, List,
  [], ◌∷◌, ◌==◌, ltb, if◌then◌else◌, get_elem?, set, arith, Bool-cases, Option-cases, eq_of_==,
  ==_self, lt_of_get_elem?, get_elem?-set, get_elem?-set_self, get_elem?-set_ne, ◌≢◌, ◌⊎◌,
}
use ecnu_2020_autumn_linux_l.Kalloc.Pages.{count}
use ecnu_2020_autumn_linux_l.File.{
  OpenFile, fd_none, fd_pipe, fd_inode, calls_pipeclose, calls_iput, find_file, with_ref, filealloc,
  filedup, fileclose, Closing, nothing, closing,
}

-- One reference to `i` less.
abbrev pub remove : ℕ → List ℕ → List ℕ
remove i [] = []
remove i (x ∷ xs) = let rest = remove i xs in if x == i then xs else x ∷ rest

-- `Reach ftable refs`: from a table where no file is open, calls have led to `ftable` and to the
-- references `refs`, where a reference is duplicated or closed, and the other fields of a file are
-- written (as `pipealloc`, `sys_open`, `fileread` and `filewrite` do), only by one who has it.
pub data Reach : List OpenFile → List ℕ → Type 0 where
  start :
      (ftable : List OpenFile)
      → ((i : ℕ) (f : OpenFile) → get_elem? ftable i ≡ some f → f.ref ≡ 0)
      → Reach ftable []
  opens :
      (ftable : List OpenFile) (refs : List ℕ) (i : ℕ) (next : List OpenFile)
      → Reach ftable refs
      → filealloc ftable ≡ some (i, next)
      → Reach next (i ∷ refs)
  dups :
      (ftable : List OpenFile) (refs : List ℕ) (i : ℕ) (next : List OpenFile)
      → Reach ftable refs
      → 0 < count i refs
      → filedup ftable i ≡ some next
      → Reach next (i ∷ refs)
  sets :
      (ftable : List OpenFile) (refs : List ℕ) (i : ℕ) (f f' : OpenFile)
      → Reach ftable refs
      → 0 < count i refs
      → get_elem? ftable i ≡ some f
      → f'.ref ≡ f.ref
      → Reach (set ftable i f') refs
  closes :
      (ftable : List OpenFile) (refs : List ℕ) (i : ℕ) (next : List OpenFile) (c : Closing)
      → Reach ftable refs
      → 0 < count i refs
      → fileclose ftable i ≡ some (next, c)
      → Reach next (remove i refs)

-- The count of each slot is the number of its references.
abbrev pub IsCounted : List OpenFile → List ℕ → Type 0
IsCounted ftable refs = (i : ℕ) (f : OpenFile) → get_elem? ftable i ≡ some f → f.ref ≡ count i refs

-- A slot `i` with the count `n` and the other slots as they were.
IsCounted-set :
    (ftable : List OpenFile) (refs refs' : List ℕ) (i : ℕ) (f f' : OpenFile)
    → IsCounted ftable refs
    → get_elem? ftable i ≡ some f
    → f'.ref ≡ count i refs'
    → ((j : ℕ) → (j == i) ≡ false → count j refs' ≡ count j refs)
    → IsCounted (set ftable i f') refs'
IsCounted-set ftable refs refs' i f f' h get new others j g e =
    let at = get_elem?-set ftable i j f' (lt_of_get_elem? ftable i get) in
    elim (Bool-cases (j == i)) [
      | inl b ↦
          let same : some f' ≡ some g = sym (rw b refl) ∙ sym at ∙ e in
          let file : f' ≡ g = cc in
          let slot : i ≡ j = sym (eq_of_== j i b) in
          ap (λ (x : OpenFile). x.ref) (sym file) ∙ new ∙ ap (λ k. count k refs') slot
      | inr b ↦
          let old : get_elem? ftable j ≡ some g = sym (rw b refl) ∙ sym at ∙ e in
          h j g old ∙ sym (others j b)
    ]

count-remove : (i : ℕ) (xs : List ℕ) → count i (remove i xs) ≡ count i xs - 1
count-remove i [] = refl
count-remove i (x ∷ xs) = let rest = count-remove i xs in ground (arith, rest)

count-remove_ne : (i j : ℕ) (xs : List ℕ) → (j == i) ≡ false → count j (remove i xs) ≡ count j xs
count-remove_ne i j [] b = refl
count-remove_ne i j (x ∷ xs) b = let rest = count-remove_ne i j xs b in ground (arith, rest, b)

count-cons_ne : (i j : ℕ) (xs : List ℕ) → (j == i) ≡ false → count j (i ∷ xs) ≡ count j xs
count-cons_ne i j xs b = ground arith

count-cons_self : (i : ℕ) (xs : List ℕ) → count i (i ∷ xs) ≡ suc (count i xs)
count-cons_self i xs = rw (==_self i) (omega arith)

find_file_lem :
    (k : ℕ) (fs : List OpenFile) (j : ℕ)
    → find_file k fs ≡ some j
    → (d : ℕ) × (f : OpenFile) × (j ≡ k + d) × (get_elem? fs d ≡ some f) × (f.ref ≡ 0)
unfolding find_file
find_file_lem k [] j e = absurd (cc)
find_file_lem k (f ∷ fs) j e = elim (Bool-cases (f.ref == 0)) [
  | inl b ↦
      let here : some k ≡ some j = sym (rw b refl) ∙ e in
      (0, f, let at : k ≡ j = cc in omega (arith, at), refl, eq_of_== f.ref 0 b)
  | inr b ↦
      let rest : find_file (suc k) fs ≡ some j = sym (rw b refl) ∙ e in
      let (d, g, at, get, zero_ref) = find_file_lem (suc k) fs j rest in
      (suc d, g, omega (arith, at), get, zero_ref)
]

-- What the calls return, where they do not panic.
filealloc-set :
    (ftable : List OpenFile) (i : ℕ) (next : List OpenFile)
    → filealloc ftable ≡ some (i, next)
    → (f : OpenFile) × (get_elem? ftable i ≡ some f)
      × (f.ref ≡ 0)
      × (next ≡ set ftable i (with_ref f 1))
unfolding filealloc
filealloc-set ftable i next e = elim (Option-cases (find_file 0 ftable)) [
  | inl g ↦ absurd (let out : filealloc ftable ≡ none = rw (g, filealloc) refl in cc)
  | inr (k, g) ↦
      let (d, f, at, get, zero_ref) = find_file_lem 0 ftable k g in
      let slot : d ≡ k = omega (arith, at) in
      let here : get_elem? ftable k ≡ some f = subst (λ x. get_elem? ftable x ≡ some f) slot get in
      let out : filealloc ftable ≡ some (k, set ftable k (with_ref f 1)) =
        rw (g, filealloc) (rw here refl) in
      let same : k ≡ i = cc in
      (
        f,
        subst (λ x. get_elem? ftable x ≡ some f) same here,
        zero_ref,
        subst (λ x. next ≡ set ftable x (with_ref f 1)) same (cc),
      )
]

filedup-set :
    (ftable : List OpenFile) (i : ℕ) (next : List OpenFile)
    → filedup ftable i ≡ some next
    → (f : OpenFile) × (get_elem? ftable i ≡ some f)
      × (next ≡ set ftable i (with_ref f (f.ref + 1)))
unfolding filedup
filedup-set ftable i next e = elim (Option-cases (get_elem? ftable i)) [
  | inl g ↦ absurd (let out : filedup ftable i ≡ none = rw (g, filedup) refl in cc)
  | inr (f, g) ↦ elim (Bool-cases (ltb f.ref 1)) [
    | inl b ↦ absurd (let out : filedup ftable i ≡ none = rw (g, filedup) (rw b refl) in cc)
    | inr b ↦
        let out : filedup ftable i ≡ some (set ftable i (with_ref f (f.ref + 1))) =
          rw (g, filedup) (rw b refl) in
        (f, g, (cc))
  ]
]

-- What `fileclose` does to an open file: the other references keep it, or it goes with the last.
pub data CloseOutcome (ftable : List OpenFile) (i : ℕ) (f : OpenFile)
    : Option (List OpenFile × Closing) → Type 0 where
  kept : 1 < f.ref → CloseOutcome ftable i f (some (set ftable i (with_ref f (f.ref - 1)), nothing))
  closed :
      f.ref ≡ 1
      → CloseOutcome ftable i f
          (some (set ftable i (record f { ref = 0; type = fd_none }), closing f))

fileclose-CloseOutcome :
    (ftable : List OpenFile) (i : ℕ) (f : OpenFile)
    → get_elem? ftable i ≡ some f
    → 0 < f.ref
    → CloseOutcome ftable i f (fileclose ftable i)
unfolding fileclose
fileclose-CloseOutcome ftable i f get l =
    let alive : ltb f.ref 1 ≡ false = ground arith in
    elim (Bool-cases (ltb 0 (f.ref - 1))) [
      | inl b ↦ rw (get, fileclose) (rw alive (rw b (kept (ground arith))))
      | inr b ↦ rw (get, fileclose) (rw alive (rw b (closed (ground arith))))
    ]

fileclose-set :
    (ftable : List OpenFile) (i : ℕ) (f : OpenFile) (next : List OpenFile) (c : Closing)
    → (o : Option (List OpenFile × Closing)) → o ≡ some (next, c)
    → CloseOutcome ftable i f o
    → (f' : OpenFile) × (f'.ref ≡ f.ref - 1) × (next ≡ set ftable i f')
fileclose-set ftable i f next c _ e (kept l) = (with_ref f (f.ref - 1), refl, (cc))
fileclose-set ftable i f next c _ e (closed l) =
    (record f { ref = 0; type = fd_none }, omega (arith, l), (cc))

fileclose-missing :
    (ftable : List OpenFile) (i : ℕ) → get_elem? ftable i ≡ none → fileclose ftable i ≡ none
unfolding fileclose
fileclose-missing ftable i e = rw (e, fileclose) refl

-- In every state that calls lead to, the reference count of each file is the number of references to
-- it.
Reach-IsCounted :
    (ftable : List OpenFile) (refs : List ℕ) → Reach ftable refs → IsCounted ftable refs
Reach-IsCounted _ _ (start ftable h) = h
Reach-IsCounted _ _ (opens ftable refs i next r e) =
    let h = Reach-IsCounted ftable refs r in
    let (f, get, zero_ref, out) = filealloc-set ftable i next e in
    let none_yet : count i refs ≡ 0 = sym (h i f get) ∙ zero_ref in
    subst (λ t. IsCounted t (i ∷ refs)) (sym out)
      (IsCounted-set ftable refs (i ∷ refs) i f (with_ref f 1) h get
        (ap suc (sym none_yet) ∙ sym (count-cons_self i refs)) (λ j. count-cons_ne i j refs))
Reach-IsCounted _ _ (dups ftable refs i next r l e) =
    let h = Reach-IsCounted ftable refs r in
    let (f, get, out) = filedup-set ftable i next e in
    let new : f.ref + 1 ≡ count i (i ∷ refs) =
      let n = h i f get in let k = count-cons_self i refs in omega (arith, n, k) in
    subst (λ t. IsCounted t (i ∷ refs)) (sym out)
      (IsCounted-set ftable refs (i ∷ refs) i f (with_ref f (f.ref + 1)) h get new
        (λ j. count-cons_ne i j refs))
Reach-IsCounted _ _ (sets ftable refs i f f' r l get same) =
    let h = Reach-IsCounted ftable refs r in
    IsCounted-set ftable refs refs i f f' h get (same ∙ h i f get) (λ j b. refl)
Reach-IsCounted _ _ (closes ftable refs i next c r l e) =
    let h = Reach-IsCounted ftable refs r in
    elim (Option-cases (get_elem? ftable i)) [
      | inl g ↦ absurd (let out = fileclose-missing ftable i g in cc)
      | inr (f, get) ↦
          let n = h i f get in
          let (f', ref, out) =
            fileclose-set ftable i f next c (fileclose ftable i) e
              (fileclose-CloseOutcome ftable i f get (omega (arith, n, l))) in
          let k = count-remove i refs in
          subst (λ t. IsCounted t (remove i refs)) (sym out)
            (IsCounted-set ftable refs (remove i refs) i f f' h get (omega (arith, ref, n, k))
              (λ j. count-remove_ne i j refs))
    ]

-- What the closing of the file `f` calls when it has released the table.
abbrev pub GivesBack : OpenFile → Closing → Type 0
GivesBack f c =
    (f.type ≡ fd_pipe → c ≡ calls_pipeclose f.pipe f.writable)
    × (f.type ≡ fd_inode → c ≡ calls_iput f.ip)
    × (f.type ≡ fd_none → c ≡ nothing)

-- The slot `i` after the closing of its file `f`, which had `n` references.
abbrev pub ClosedAt : List OpenFile → ℕ → OpenFile → ℕ → Closing → Type 0
ClosedAt next i f n c =
    ((1 < n) × (get_elem? next i ≡ some (with_ref f (n - 1))) × (c ≡ nothing))
    ⊎ ((n ≡ 1) × (get_elem? next i ≡ some (record f { ref = 0; type = fd_none })) × GivesBack f c)

closing-GivesBack : (f : OpenFile) → GivesBack f (closing f)
closing-GivesBack f = (
  (λ e. let out : closing f ≡ calls_pipeclose f.pipe f.writable = rw (e, closing) refl in out),
  (λ e. let out : closing f ≡ calls_iput f.ip = rw (e, closing) refl in out),
  (λ e. let out : closing f ≡ nothing = rw (e, closing) refl in out),
)

outcome-ClosedAt :
    (ftable : List OpenFile) (i : ℕ) (f : OpenFile)
    → get_elem? ftable i ≡ some f
    → (o : Option (List OpenFile × Closing)) → CloseOutcome ftable i f o
    → (next : List OpenFile) × (c : Closing) × (o ≡ some (next, c))
      × ClosedAt next i f f.ref c
      × ((j : ℕ) → i ≢ j → get_elem? next j ≡ get_elem? ftable j)
outcome-ClosedAt ftable i f get _ (kept l) =
    let f' = with_ref f (f.ref - 1) in
    (
      set ftable i f',
      nothing,
      refl,
      inl (l, get_elem?-set_self ftable i f' (lt_of_get_elem? ftable i get), refl),
      λ j. get_elem?-set_ne ftable i j f',
    )
outcome-ClosedAt ftable i f get _ (closed l) =
    let f' : OpenFile = record f { ref = 0; type = fd_none } in
    (
      set ftable i f',
      closing f,
      refl,
      inr (l, get_elem?-set_self ftable i f' (lt_of_get_elem? ftable i get), closing-GivesBack f),
      λ j. get_elem?-set_ne ftable i j f',
    )

-- In every state that calls of `filealloc`, `filedup` and `fileclose` lead to, with any writes to the
-- other fields of an open file, the count of each file is the number of references to it, and closing
-- a file that has a reference does not panic. While there are others the file only loses the one and
-- nothing is called; with the last its slot becomes free, and `pipeclose` is called for its end of its
-- pipe, or `iput` for its inode, by its type. No other slot changes.
pub fileclose-ClosedAt :
    (ftable : List OpenFile) (refs : List ℕ) (i : ℕ) (f : OpenFile)
    → Reach ftable refs
    → get_elem? ftable i ≡ some f
    → 0 < count i refs
    → (next : List OpenFile) × (c : Closing) × (fileclose ftable i ≡ some (next, c))
      × ClosedAt next i f (count i refs) c
      × ((j : ℕ) → i ≢ j → get_elem? next j ≡ get_elem? ftable j)
fileclose-ClosedAt ftable refs i f r get l =
    let n : f.ref ≡ count i refs = Reach-IsCounted ftable refs r i f get in
    let (next, c, e, at, others) =
      outcome-ClosedAt ftable i f get (fileclose ftable i)
        (fileclose-CloseOutcome ftable i f get (omega (arith, n, l))) in
    (next, c, e, subst (λ m. ClosedAt next i f m c) n at, others)
