-- ===== src/Fs/Cached.antt =====
-- An inode is in one slot of the inode cache at most.
use ecnu_2020_autumn_linux_l.Base.{
  ℕ, zero, suc, ◌+◌, ◌≤◌, ◌≡◌, ◌⊎◌, refl, sym, ap, subst, ◌∙◌, inl, inr, Bool, true, false, ◌&&◌,
  Option, none, some, List, [], ◌∷◌, ◌==◌, if◌then◌else◌, get_elem?, set, All, arith, Bool-cases,
  eq_of_==,
}
use ecnu_2020_autumn_linux_l.Fs.Inodes.{Cached, is_inode, find_inode, claim, iget}

-- How many slots in use have the inode.
abbrev pub count : ℕ → ℕ → List Cached → ℕ
count d n [] = 0
count d n (ip ∷ ips) = (if is_inode d n ip then 1 else 0) + count d n ips

-- What the loop of `iget` finds, with `empty` for the free slot seen before.
abbrev FindOutcome : ℕ → ℕ → ℕ → Option ℕ → List Cached → Bool × Option ℕ → Type 0
FindOutcome dev inum i empty ips (true, slot) =
    (d : ℕ) × (ip : Cached) × (slot ≡ some (i + d))
    × (get_elem? ips d ≡ some ip)
    × (is_inode dev inum ip ≡ true)
FindOutcome dev inum i empty ips (false, slot) =
    (count dev inum ips ≡ 0)
    × (((slot ≡ empty) × (empty ≡ none → All (λ ip. (ip.refs == 0) ≡ false) ips))
        ⊎ ((d : ℕ) × (ip : Cached) × (slot ≡ some (i + d))
            × (get_elem? ips d ≡ some ip)
            × (ip.refs ≡ 0)
            × (empty ≡ none)))

uncounted :
    (dev inum : ℕ) (ip : Cached) (ips : List Cached)
    → is_inode dev inum ip ≡ false
    → count dev inum ips ≡ 0
    → count dev inum (ip ∷ ips) ≡ 0
uncounted dev inum ip ips b c = rw b (omega (arith, c))

FindOutcome-step :
    (dev inum i : ℕ) (empty : Option ℕ) (ip : Cached) (ips : List Cached) (r : Bool × Option ℕ)
    → is_inode dev inum ip ≡ false
    → FindOutcome dev inum
        (suc i)
        (elim empty [ some e ↦ some e | none ↦ if ip.refs == 0 then some i else none ])
        ips
        r
    → FindOutcome dev inum i empty (ip ∷ ips) r
FindOutcome-step dev inum i empty ip ips (true, slot) b (d, jp, e, g, h) =
    (suc d, jp, e ∙ ap some (omega arith), g, h)
FindOutcome-step dev inum i (some e) ip ips (false, slot) b (c, inl (same, h)) =
    (uncounted dev inum ip ips b c, inl (same, λ k. absurd (cc)))
FindOutcome-step dev inum i none ip ips (false, slot) b (c, inl (same, h)) = (
  uncounted dev inum ip ips b c,
  elim (Bool-cases (ip.refs == 0)) [
    | inl z ↦
        let here : slot ≡ some i = same ∙ rw z refl in
        inr (0, ip, here ∙ ap some (omega arith), refl, eq_of_== ip.refs 0 z, refl)
    | inr z ↦ inl (same ∙ rw z refl, λ k. (z, h (rw z refl)))
  ],
)
FindOutcome-step dev inum i (some e) ip ips (false, slot) b (c, inr (d, jp, f, g, h, k)) =
    absurd (cc)
FindOutcome-step dev inum i none ip ips (false, slot) b (c, inr (d, jp, f, g, h, k)) =
    (uncounted dev inum ip ips b c, inr (suc d, jp, f ∙ ap some (omega arith), g, h, refl))

find_inode_lem :
    (dev inum i : ℕ) (empty : Option ℕ) (ips : List Cached)
    → FindOutcome dev inum i empty ips (find_inode dev inum i empty ips)
unfolding find_inode
find_inode_lem dev inum i empty [] = (refl, inl (refl, λ k. tt))
find_inode_lem dev inum i empty (ip ∷ ips) = elim (Bool-cases (is_inode dev inum ip)) [
  | inl b ↦ rw (b, find_inode) (0, ip, ap some (omega arith), refl, b)
  | inr b ↦
      let empty' : Option ℕ = elim empty [
        | some e ↦ some e
        | none ↦ if ip.refs == 0 then some i else none
      ] in
      let out : find_inode dev inum i empty (ip ∷ ips) ≡ find_inode dev inum (suc i) empty' ips =
        rw b refl in
      subst (FindOutcome dev inum i empty (ip ∷ ips)) (sym out)
        (FindOutcome-step dev inum i empty ip ips _ b (find_inode_lem dev inum (suc i) empty' ips))
]

-- What `iget` promises.
abbrev pub IgetOutcome : ℕ → ℕ → List Cached → Option (ℕ × List Cached) → Type 0
IgetOutcome dev inum ips none = (count dev inum ips ≡ 0) × All (λ ip. (ip.refs == 0) ≡ false) ips
IgetOutcome dev inum ips (some (i, ips')) =
    (ip : Cached) × (get_elem? ips i ≡ some ip)
    × (((is_inode dev inum ip ≡ true) × (ips' ≡ set ips i (record ip { refs = suc ip.refs })))
        ⊎ ((count dev inum ips ≡ 0) × (ip.refs ≡ 0) × (ips' ≡ set ips i (claim dev inum ip))))

iget_found :
    (dev inum : ℕ) (ips : List Cached) (i : ℕ) (ip : Cached) (found : Bool)
    → find_inode dev inum 0 none ips ≡ (found, some i)
    → get_elem? ips i ≡ some ip
    → iget dev inum ips
      ≡ some (i, set ips i (if found then record ip { refs = suc ip.refs } else claim dev inum ip))
unfolding iget
iget_found dev inum ips i ip found e g = rw (e, iget, g) (rw e refl)

iget-none :
    (dev inum : ℕ) (ips : List Cached) (found : Bool)
    → find_inode dev inum 0 none ips ≡ (found, none)
    → iget dev inum ips ≡ none
unfolding iget
iget-none dev inum ips found e = rw (e, iget) refl

IgetOutcome-find :
    (dev inum : ℕ) (ips : List Cached) (r : Bool × Option ℕ)
    → find_inode dev inum 0 none ips ≡ r
    → FindOutcome dev inum 0 none ips r
    → IgetOutcome dev inum ips (iget dev inum ips)
IgetOutcome-find dev inum ips (true, slot) e (d, ip, f, g, h) =
    let at : find_inode dev inum 0 none ips ≡ (true, some d) =
      e ∙ ap (λ x. (true, x)) (f ∙ ap some (omega arith)) in
    subst (IgetOutcome dev inum ips) (sym (iget_found dev inum ips d ip true at g))
      (ip, g, inl (h, refl))
IgetOutcome-find dev inum ips (false, slot) e (c, inl (f, h)) =
    let at : find_inode dev inum 0 none ips ≡ (false, none) = e ∙ ap (λ x. (false, x)) f in
    subst (IgetOutcome dev inum ips) (sym (iget-none dev inum ips false at)) (c, h refl)
IgetOutcome-find dev inum ips (false, slot) e (c, inr (d, ip, f, g, h, k)) =
    let at : find_inode dev inum 0 none ips ≡ (false, some d) =
      e ∙ ap (λ x. (false, x)) (f ∙ ap some (omega arith)) in
    subst (IgetOutcome dev inum ips) (sym (iget_found dev inum ips d ip false at g))
      (ip, g, inr (c, h, refl))

-- `iget` returns the slot that has the inode, with one more reference; or, if no slot has it, a slot
-- without references, which it gives to the inode with one reference and clear flags. No other slot
-- changes. It panics only if no slot has the inode and all slots have references.
iget-IgetOutcome : (dev inum : ℕ) (ips : List Cached) → IgetOutcome dev inum ips (iget dev inum ips)
iget-IgetOutcome dev inum ips =
    IgetOutcome-find dev inum ips _ refl (find_inode_lem dev inum 0 none ips)

abbrev pub IsSingle : List Cached → Type 0
IsSingle ips = (d n : ℕ) → count d n ips ≤ 1

abbrev weight : ℕ → ℕ → Cached → ℕ
weight d n ip = if is_inode d n ip then 1 else 0

is_inode_more :
    (d n dev inum : ℕ) (ip : Cached)
    → is_inode dev inum ip ≡ true
    → is_inode d n ip ≡ is_inode d n (record ip { refs = suc ip.refs })
is_inode_more d n dev inum ip h = ground arith

weight_free : (d n : ℕ) (ip : Cached) → ip.refs ≡ 0 → weight d n ip ≡ 0
weight_free d n ip z = ground arith

same_inode : (d n dev inum : ℕ) → ((dev == d) && (inum == n)) ≡ true → (dev ≡ d) × (inum ≡ n)
same_inode d n dev inum h = (ground arith, ground arith)

count-set :
    (d n : ℕ) (ips : List Cached) (i : ℕ) (ip jp : Cached)
    → get_elem? ips i ≡ some ip
    → count d n (set ips i jp) + (if is_inode d n ip then 1 else 0)
      ≡ count d n ips + (if is_inode d n jp then 1 else 0)
count-set d n [] i ip jp e = absurd (cc)
count-set d n (kp ∷ ips) zero ip jp e =
    let same : kp ≡ ip = cc in
    let weight = ap {B = ℕ} (λ (x : Cached). if is_inode d n x then 1 else 0) same in
    omega (arith, weight)
count-set d n (kp ∷ ips) (suc i) ip jp e = omega (arith, count-set d n ips i ip jp e)

-- The cache that `iget` leaves.
abbrev pub after : List Cached → Option (ℕ × List Cached) → List Cached
after ips none = ips
after ips (some (i, ips')) = ips'

IsSingle-IgetOutcome :
    (dev inum : ℕ) (ips : List Cached) (r : Option (ℕ × List Cached))
    → IsSingle ips
    → IgetOutcome dev inum ips r
    → IsSingle (after ips r)
IsSingle-IgetOutcome dev inum ips none s h d n = s d n
IsSingle-IgetOutcome dev inum ips (some (i, ips')) s (ip, e, inl (h, f)) d n =
    let more : Cached = record ip { refs = suc ip.refs } in
    let same : weight d n ip ≡ weight d n more =
      ap {B = ℕ} (λ b. if b then 1 else 0) (is_inode_more d n dev inum ip h) in
    let moved = ap (count d n) f in omega (arith, count-set d n ips i ip more e, same, moved, s d n)
IsSingle-IgetOutcome dev inum ips (some (i, ips')) s (ip, e, inr (c, z, f)) d n =
    let moved = ap (count d n) f in
    let sum = count-set d n ips i ip (claim dev inum ip) e in
    let none_there : weight d n ip ≡ 0 = weight_free d n ip z in
    elim (Bool-cases ((dev == d) && (inum == n))) [
      | inl b ↦
          let (p, q) = same_inode d n dev inum b in
          let none_yet : count d n ips ≡ 0 =
            subst (λ x. count x n ips ≡ 0) p (subst (λ y. count dev y ips ≡ 0) q c) in
          let one : weight d n (claim dev inum ip) ≡ 1 = ap {B = ℕ} (λ x. if x then 1 else 0) b in
          omega (arith, sum, none_there, none_yet, one, moved)
      | inr b ↦
          let zero_more : weight d n (claim dev inum ip) ≡ 0 =
            ap {B = ℕ} (λ x. if x then 1 else 0) b in
          omega (arith, sum, none_there, zero_more, moved, s d n)
    ]

-- Where each inode is in one slot of the cache at most, that is so after `iget` too.
pub iget-IsSingle :
    (dev inum : ℕ) (ips : List Cached) → IsSingle ips → IsSingle (after ips (iget dev inum ips))
iget-IsSingle dev inum ips s =
    IsSingle-IgetOutcome dev inum ips (iget dev inum ips) s (iget-IgetOutcome dev inum ips)
