-- ===== src/Fs/Contents/Freed.antt =====
-- The blocks that a list of numbers names are freed, one after the other.
use ecnu_2020_autumn_linux_l.Base.{
  ℕ, zero, suc, ◌+◌, ◌≤◌, ◌<◌, ◌≡◌, ◌≢◌, refl, sym, ap, subst, ◌∙◌, inl, inr, Bool, true, false,
  not, ◌&&◌, ◌||◌, Option, none, some, ◌==◌, if◌then◌else◌, arith, Bool-cases, eq_of_==, ne_of_==,
  ==_of_ne,
}
use ecnu_2020_autumn_linux_l.Fs.Bitmap.{Volume, mark, bzero, bfree}
use ecnu_2020_autumn_linux_l.Fs.Contents.{free_block}

-- A block other than 0 is one of the `n` that `w` names from `j` on.
unfoldable pub among : (ℕ → ℕ) → (j n c : ℕ) → Bool
among w j zero c = false
among w j (suc n) c = (not (c == 0) && (w j == c)) || among w (suc j) n c

-- The blocks that `w` names are freed in order.
unfoldable pub free_run : (ℕ → ℕ) → (j n : ℕ) → Volume → Option Volume
free_run w j zero v = some v
free_run w j (suc n) v = elim (free_block v (w j)) [
  | none ↦ none
  | some v' ↦ free_run w (suc j) n v'
]

pub free_run_cong :
    (w w' : ℕ → ℕ) (j n : ℕ) (v : Volume)
    → ((k : ℕ) → j ≤ k → w k ≡ w' k)
    → free_run w j n v ≡ free_run w' j n v
unfolding free_run
free_run_cong w w' j zero v e = refl
free_run_cong w w' j (suc n) v e =
    subst
      (λ x. free_run w j (suc n) v ≡ (elim (free_block v x) as (λ y. Option Volume) [
        | none ↦ none
        | some v' ↦ free_run w' (suc j) n v'
      ]))
      (e j (omega arith))
      (go (λ v'. free_run_cong w w' (suc j) n v' (λ k l. e k (omega (arith, l))))
        (free_block v (w j)))
  where
    go :
        ((v' : Volume) → free_run w (suc j) n v' ≡ free_run w' (suc j) n v')
        → (r : Option Volume)
        → (elim r as (λ x. Option Volume) [ none ↦ none | some v' ↦ free_run w (suc j) n v' ])
          ≡ (elim r as (λ x. Option Volume) [ none ↦ none | some v' ↦ free_run w' (suc j) n v' ])
    go rec none = refl
    go rec (some v') = rec v'

pub among_hit : (w : ℕ → ℕ) (j n k : ℕ) → j ≤ k → k < j + n → w k ≢ 0 → among w j n (w k) ≡ true
unfolding among
among_hit w j zero k l h z = absurd (omega (arith, l, h))
among_hit w j (suc n) k l h z = elim (Bool-cases (j == k)) [
  | inl e ↦ let f : w j ≡ w k = ap w (eq_of_== j k e) in ground (arith, f, z)
  | inr e ↦ rw (among_hit w (suc j) n k (ground (arith, l, e)) (omega (arith, h)) z) (ground arith)
]

pub among_miss :
    (w : ℕ → ℕ) (j n c : ℕ)
    → ((k : ℕ) → j ≤ k → k < j + n → w k ≡ c → c ≡ 0)
    → among w j n c ≡ false
unfolding among
among_miss w j zero c h = refl
among_miss w j (suc n) c h =
    let rest = among_miss w (suc j) n c (λ k l o. h k (omega (arith, l)) (omega (arith, o))) in
    elim (Bool-cases (w j == c)) [
      | inl e ↦
          let z : (c == 0) ≡ true =
            let y = h j (omega arith) (omega arith) (eq_of_== (w j) c e) in ground (arith, y) in
          rw (rest, z) refl
      | inr e ↦ rw (rest, e) (ground arith)
    ]

-- The blocks are free, and filled with zeros.
pub record Freed (w : ℕ → ℕ) (j n : ℕ) (v v' : Volume) : Type 0 where
  pub same_blocks : v'.size ≡ v.size
  pub bits : (c : ℕ) → v'.in_use c ≡ (if among w j n c then false else v.in_use c)
  pub data_of : (c i : ℕ) → v'.contents c i ≡ (if among w j n c then 0 else v.contents c i)

free_block_zero : (v : Volume) (b : ℕ) → (b == 0) ≡ true → free_block v b ≡ some v
unfolding free_block
free_block_zero v b e = rw e refl

free_block_used :
    (v : Volume) (b : ℕ)
    → (b == 0) ≡ false
    → v.in_use b ≡ true
    → free_block v b ≡ some (mark (bzero v b) b false)
unfolding free_block bfree
free_block_used v b e u = rw (e, u) refl

among_skip : (w : ℕ → ℕ) (j n c : ℕ) → (w j == 0) ≡ true → among w (suc j) n c ≡ among w j (suc n) c
unfolding among
among_skip w j n c e =
    let first : (not (c == 0) && (w j == c)) ≡ false = ground (arith, e) in rw first refl

among_first :
    (w : ℕ → ℕ) (j n c : ℕ)
    → (w j == 0) ≡ false
    → ((c == w j) || among w (suc j) n c) ≡ among w j (suc n) c
unfolding among
among_first w j n c e =
    let first : (c == w j) ≡ (not (c == 0) && (w j == c)) = ground (arith, e) in rw first refl

pub if_or :
    {A : Type 0} (b c : Bool) (x y : A)
    → (if c then x else if b then x else y) ≡ (if b || c then x else y)
if_or true true x y = refl
if_or true false x y = refl
if_or false true x y = refl
if_or false false x y = refl

free_run_step :
    (w : ℕ → ℕ) (j n : ℕ) (v v1 : Volume)
    → free_block v (w j) ≡ some v1
    → free_run w j (suc n) v ≡ free_run w (suc j) n v1
unfolding free_run
free_run_step w j n v v1 e = rw (e, free_run) refl

pub free_run-Freed :
    (w : ℕ → ℕ) (j n : ℕ) (v : Volume)
    → ((k : ℕ) → j ≤ k → k < j + n → w k ≢ 0 → v.in_use (w k) ≡ true)
    → ((k l : ℕ) → j ≤ k → k < j + n → j ≤ l → l < j + n → w k ≢ 0 → w k ≡ w l → k ≡ l)
    → (v' : Volume) × (free_run w j n v ≡ some v') × Freed w j n v v'
unfolding free_run among
free_run-Freed w j zero v u a =
    (v, refl, record { same_blocks = refl; bits = λ c. refl; data_of = λ c i. refl })
free_run-Freed w j (suc n) v u a = elim (Bool-cases (w j == 0)) [
  | inl e ↦
      let (v', f, g) =
        free_run-Freed w (suc j) n v (λ k l h. u k (omega (arith, l)) (omega (arith, h)))
          (λ k l p q r s.
            a k l (omega (arith, p)) (omega (arith, q)) (omega (arith, r)) (omega (arith, s))) in
      (
        v',
        free_run_step w j n v v (free_block_zero v (w j) e) ∙ f,
        record {
          same_blocks = g.same_blocks;
          bits = λ c.
              g.bits c ∙ ap (λ (x : Bool). if x then false else v.in_use c) (among_skip w j n c e);
          data_of = λ c i.
              g.data_of c i
              ∙ ap {B = ℕ} (λ (x : Bool). if x then 0 else v.contents c i) (among_skip w j n c e);
        },
      )
  | inr e ↦
      let z = ne_of_== (w j) 0 e in
      let v1 : Volume = mark (bzero v (w j)) (w j) false in
      let (v', f, g) =
        free_run-Freed w (suc j) n v1
          (λ k l h y.
            let other : w k ≢ w j = λ x.
              let same =
                a j k (omega arith) (omega arith) (omega (arith, l)) (omega (arith, h)) z (sym x) in
              absurd (omega (arith, l, same)) in
            rw (==_of_ne (w k) (w j) other) (u k (omega (arith, l)) (omega (arith, h)) y))
          (λ k l p q r s.
            a k l (omega (arith, p)) (omega (arith, q)) (omega (arith, r)) (omega (arith, s))) in
      (
        v',
        free_run_step w j n v v1 (free_block_used v (w j) e (u j (omega arith) (omega arith) z))
            ∙ f,
        record {
          same_blocks = g.same_blocks;
          bits = λ c.
              g.bits c
              ∙ if_or (c == w j) (among w (suc j) n c) false (v.in_use c)
              ∙ ap (λ (x : Bool). if x then false else v.in_use c) (among_first w j n c e);
          data_of = λ c i.
              g.data_of c i
              ∙ if_or {A = ℕ} (c == w j) (among w (suc j) n c) 0 (v.contents c i)
              ∙ ap {B = ℕ} (λ (x : Bool). if x then 0 else v.contents c i) (among_first w j n c e);
        },
      )
]
