-- ===== src/Fs/Contents/Runs.antt =====
-- The two loops of `itrunc`, as runs that free blocks.
use ecnu_2020_autumn_linux_l.Base.{
  ℕ, zero, suc, ◌+◌, ◌≤◌, ◌<◌, ◌≡◌, ◌≢◌, refl, sym, ap, subst, ◌∙◌, inl, inr, Bool, false, ◌||◌,
  Option, none, some, ◌==◌, if◌then◌else◌, arith, Bool-cases, ==_of_ne,
}
use ecnu_2020_autumn_linux_l.Fs.Bitmap.{Volume, bfree}
use ecnu_2020_autumn_linux_l.Fs.Contents.{Node, free_block, trunc_direct, trunc_words, set_addr}
use ecnu_2020_autumn_linux_l.Fs.Contents.Written.{within}
use ecnu_2020_autumn_linux_l.Fs.Contents.Freed.{free_run, free_run_cong, if_or}

-- The block `a` has its contents.
abbrev KeepsBlock : Volume → ℕ → Option Volume → Type 0
KeepsBlock v a none = Unit {0}
KeepsBlock v a (some v') = (i : ℕ) → v'.contents a i ≡ v.contents a i

free_block-KeepsBlock : (v : Volume) (a b : ℕ) → b ≢ a → KeepsBlock v a (free_block v b)
unfolding free_block bfree
free_block-KeepsBlock v a b n = elim (Bool-cases (b == 0)) [
  | inl z ↦ rw z (λ i. refl)
  | inr z ↦ elim (Bool-cases (v.in_use b)) [
    | inl u ↦
        let other : (a == b) ≡ false = ==_of_ne a b (λ x. n (sym x)) in
        rw (z, u) (λ i. rw other refl)
    | inr u ↦ rw (z, u) tt
  ]
]

-- The first loop of `itrunc` frees the direct blocks in order, and clears their numbers.
pub trunc_direct-free_run :
    (n : ℕ) (s : Node) (i : ℕ) (v' : Volume)
    → free_run s.addrs i n s.volume ≡ some v'
    → (t : Node) × (trunc_direct n s i ≡ some t)
      × (t.volume ≡ v')
      × (t.size ≡ s.size)
      × ((k : ℕ) → t.addrs k ≡ (if within i n k then 0 else s.addrs k))
unfolding free_run trunc_direct
trunc_direct-free_run zero s i v' e =
    (s, refl, cc, refl, λ k. let out : within i 0 k ≡ false = ground arith in rw out refl)
trunc_direct-free_run (suc n) s i v' e =
    go (free_block s.volume (s.addrs i)) e
      (λ v1. trunc_direct-free_run n (set_addr (record s { volume = v1 }) i 0) (suc i) v')
  where
    go :
        (r : Option Volume)
        → (elim r as (λ x. Option Volume) [ none ↦ none | some v1 ↦ free_run s.addrs (suc i) n v1 ])
          ≡ some v'
        → ((v1 : Volume)
            → free_run (set_addr (record s { volume = v1 }) i 0).addrs (suc i) n v1 ≡ some v'
            → (t : Node) × (trunc_direct n (set_addr (record s { volume = v1 }) i 0) (suc i)
                ≡ some t)
              × (t.volume ≡ v')
              × (t.size ≡ s.size)
              × ((k : ℕ)
                  → t.addrs k
                    ≡ (if within (suc i) n k then 0 else if k == i then 0 else s.addrs k)))
        → (t : Node) × ((elim r as (λ x. Option Node) [
          | none ↦ none
          | some v1 ↦ trunc_direct n (set_addr (record s { volume = v1 }) i 0) (suc i)
        ])
            ≡ some t)
          × (t.volume ≡ v')
          × (t.size ≡ s.size)
          × ((k : ℕ) → t.addrs k ≡ (if within i (suc n) k then 0 else s.addrs k))
    go none f rec = absurd (cc)
    go (some v1) f rec =
        let (t, g, same, size, addrs) = rec v1 (
          free_run_cong (set_addr (record s { volume = v1 }) i 0).addrs s.addrs (suc i) n v1
            (λ k l. let other : (k == i) ≡ false = ground (arith, l) in rw other refl)
          ∙ f) in
        (
          t,
          g,
          same,
          size,
          λ k.
              addrs k
              ∙ if_or {A = ℕ} (k == i) (within (suc i) n k) 0 (s.addrs k)
              ∙ ap {B = ℕ} (λ (x : Bool). if x then 0 else s.addrs k)
                  (let both : ((k == i) || within (suc i) n k) ≡ within i (suc n) k =
                      ground arith in
                    both),
        )

-- The second loop frees the blocks that the words of the indirect block name.
pub trunc_words-free_run :
    (n : ℕ) (v : Volume) (a j : ℕ) (w : ℕ → ℕ)
    → ((k : ℕ) → j ≤ k → v.contents a k ≡ w k)
    → ((k : ℕ) → j ≤ k → k < j + n → w k ≢ a)
    → trunc_words n v a j ≡ free_run w j n v
unfolding free_run trunc_words
trunc_words-free_run zero v a j w e h = refl
trunc_words-free_run (suc n) v a j w e h =
    subst
      (λ x.
        (elim (free_block v x) as (λ y. Option Volume) [
          | none ↦ none
          | some v' ↦ trunc_words n v' a (suc j)
        ])
        ≡ free_run w j (suc n) v)
      (sym (e j (omega arith)))
      (go (free_block v (w j)) (free_block-KeepsBlock v a (w j) (h j (omega arith) (omega arith)))
        (λ v' f.
          trunc_words-free_run n v' a (suc j) w (λ k l. f k ∙ e k (omega (arith, l)))
            (λ k l m. h k (omega (arith, l)) (omega (arith, m)))))
  where
    go :
        (r : Option Volume)
        → KeepsBlock v a r
        → ((v' : Volume)
            → ((i : ℕ) → v'.contents a i ≡ v.contents a i)
            → trunc_words n v' a (suc j) ≡ free_run w (suc j) n v')
        → (elim r as (λ y. Option Volume) [ none ↦ none | some v' ↦ trunc_words n v' a (suc j) ])
          ≡ (elim r as (λ y. Option Volume) [ none ↦ none | some v' ↦ free_run w (suc j) n v' ])
    go none f rec = refl
    go (some v') f rec = rec v' f
