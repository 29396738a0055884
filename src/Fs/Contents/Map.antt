-- ===== src/Fs/Contents/Map.antt =====
-- `bmap`.
use ecnu_2020_autumn_linux_l.Base.{
  ℕ, ◌+◌, ◌-◌, ◌≤◌, ◌<◌, ◌≡◌, ◌≢◌, ◌⊎◌, refl, sym, ap, subst, ◌∙◌, inl, inr, true, false, Option,
  none, some, ◌==◌, ltb, arith, Bool-cases, eq_of_==, ne_of_==, ==_self, ==_of_ne,
}
use ecnu_2020_autumn_linux_l.Fs.Bitmap.{Volume, balloc, mark}
use ecnu_2020_autumn_linux_l.Fs.Found.{BallocOutcome, balloc-BallocOutcome}
use ecnu_2020_autumn_linux_l.Fs.Contents.{Node, set_addr, set_word, direct, indirect, bmap}
use ecnu_2020_autumn_linux_l.Fs.Contents.Slots.{slot, byte_at, IsNode, Gains, fresh_nonzero}
use ecnu_2020_autumn_linux_l.Fs.Contents.Gain.{
  Keeps, Keeps-refl, Keeps-trans, Keeps-Gains, Gains-direct, Gains-root, Gains-set_word,
}

-- At most one block of a volume is free.
abbrev pub IsFull : Volume → Type 0
IsFull v = (i j : ℕ) → i < v.size → j < v.size → v.in_use i ≡ false → v.in_use j ≡ false → i ≡ j

-- What looking up or filling the slot `k` does, which panics where every block is in use: no other block
-- is in use after it.
abbrev SlotOutcome : Node → ℕ → Option (ℕ × Node) → Type 0
SlotOutcome s k none = ((j : ℕ) → j < s.volume.size → s.volume.in_use j ≡ true) × (slot s k ≡ 0)
SlotOutcome s k (some (b, s')) =
    Keeps s s'
    × (b ≡ slot s' k)
    × (b ≢ 0)
    × (s'.volume.size ≡ s.volume.size)
    × ((j : ℕ) → s.volume.in_use j ≡ false → (j ≡ b) ⊎ (s'.volume.in_use j ≡ false))

marked : (v : Volume) (b j : ℕ) → v.in_use j ≡ false → (j ≡ b) ⊎ ((mark v b true).in_use j ≡ false)
marked v b j f = elim (Bool-cases (j == b)) [ inl e ↦ inl (eq_of_== j b e) | inr e ↦ inr (rw e f) ]

direct-SlotOutcome :
    (s : Node) (i k : ℕ)
    → IsNode s
    → slot s k ≡ s.addrs i
    → ((b : ℕ)
        → s.addrs i ≡ 0
        → s.volume.in_use b ≡ false
        → Gains s (set_addr (record s { volume = mark s.volume b true }) i b) k b)
    → k ≤ 140
    → SlotOutcome s k (direct s i)
unfolding direct
direct-SlotOutcome s i k h e g l = elim (Bool-cases (s.addrs i == 0)) [
  | inr z ↦ rw z (Keeps-refl s h, sym e, ne_of_== (s.addrs i) 0 z, refl, λ j f. inr f)
  | inl z ↦ rw z (go (balloc s.volume) (balloc-BallocOutcome s.volume) (eq_of_== (s.addrs i) 0 z))
]
  where
    go :
        (r : Option (ℕ × Volume))
        → BallocOutcome s.volume r
        → s.addrs i ≡ 0
        → SlotOutcome s k (elim r as (λ x. Option (ℕ × Node)) [
          | none ↦ none
          | some (b, v) ↦ some (b, set_addr (record s { volume = v }) i b)
        ])
    go none full z = (full, e ∙ z)
    go (some (b, v)) (f, same) z =
        let gains = g b z f in
        let s' : Node = set_addr (record s { volume = mark s.volume b true }) i b in
        subst (λ x. SlotOutcome s k (some (b, set_addr (record s { volume = x }) i b))) (sym same)
          (
            Keeps-Gains s s' k b h gains,
            sym (gains.slots k l ∙ rw (==_self k) refl),
            fresh_nonzero s s' k b h gains,
            refl,
            marked s.volume b,
          )

pub slot_direct : (s : Node) (k : ℕ) → ltb k 12 ≡ true → slot s k ≡ s.addrs k
unfolding slot
slot_direct s k e = rw e refl

pub slot_root : (s : Node) → slot s 140 ≡ s.addrs 12
unfolding slot
slot_root s = refl

pub slot_missing : (s : Node) (k : ℕ) → ltb k 12 ≡ false → k < 140 → s.addrs 12 ≡ 0 → slot s k ≡ 0
unfolding slot byte_at
slot_missing s k e l z = let last : (k == 140) ≡ false = ground (arith, l) in rw (e, last, z) refl

pub slot_word :
    (s : Node) (i : ℕ)
    → i < 128
    → s.addrs 12 ≢ 0
    → slot s (12 + i) ≡ s.volume.contents (s.addrs 12) i
unfolding slot byte_at
slot_word s i l n =
    let low : ltb (12 + i) 12 ≡ false = ground arith in
    let last : (12 + i == 140) ≡ false = ground (arith, l) in
    let at : 12 + i - 12 ≡ i = omega arith in
    rw (low, last, ==_of_ne (s.addrs 12) 0 n) (ap (s.volume.contents (s.addrs 12)) at)

indirect-SlotOutcome :
    (s : Node) (i : ℕ)
    → IsNode s
    → i < 128
    → s.addrs 12 ≢ 0
    → SlotOutcome s (12 + i) (indirect s (s.addrs 12) i)
unfolding indirect
indirect-SlotOutcome s i h l n =
    let word : ℕ = s.volume.contents (s.addrs 12) i in
    elim (Bool-cases (word == 0)) [
      | inr z ↦
          rw z (Keeps-refl s h, sym (slot_word s i l n), ne_of_== word 0 z, refl, λ j f. inr f)
      | inl z ↦ rw z (go (balloc s.volume) (balloc-BallocOutcome s.volume) (eq_of_== word 0 z))
    ]
  where
    go :
        (r : Option (ℕ × Volume))
        → BallocOutcome s.volume r
        → s.volume.contents (s.addrs 12) i ≡ 0
        → SlotOutcome s (12 + i) (elim r as (λ x. Option (ℕ × Node)) [
          | none ↦ none
          | some (b, v) ↦ some (b, record s { volume = set_word v (s.addrs 12) i b })
        ])
    go none full z = (full, slot_word s i l n ∙ z)
    go (some (b, v)) (f, same) z =
        let gains = Gains-set_word s b i h l n z f in
        let s' : Node = record s { volume = set_word (mark s.volume b true) (s.addrs 12) i b } in
        subst
          (λ x.
            SlotOutcome s (12 + i) (some (b, record s { volume = set_word x (s.addrs 12) i b })))
          (sym same)
          (
            Keeps-Gains s s' (12 + i) b h gains,
            sym (gains.slots (12 + i) (omega (arith, l)) ∙ rw (==_self (12 + i)) refl),
            fresh_nonzero s s' (12 + i) b h gains,
            refl,
            marked s.volume b,
          )

-- What `bmap` promises: the block of the slot, which is there then, with the contents kept; or a panic on
-- a volume with one free block at most, if the slot has no block.
abbrev pub BmapOutcome : Node → ℕ → Option (ℕ × Node) → Type 0
BmapOutcome s k none = IsFull s.volume × (slot s k ≡ 0)
BmapOutcome s k (some (b, s')) = Keeps s s' × (b ≡ slot s' k) × (b ≢ 0)

BmapOutcome-SlotOutcome :
    (s : Node) (k : ℕ) (r : Option (ℕ × Node)) → SlotOutcome s k r → BmapOutcome s k r
BmapOutcome-SlotOutcome s k none (full, z) = (λ i j l m n o. absurd (let u = full i l in cc), z)
BmapOutcome-SlotOutcome s k (some (b, s')) (keeps, e, n, _, _) = (keeps, e, n)

-- The indirect block is there, and then the word of it.
BmapOutcome-trans :
    (s s' : Node) (a k : ℕ) (r : Option (ℕ × Node))
    → k ≤ 140
    → Keeps s s'
    → s'.volume.size ≡ s.volume.size
    → ((j : ℕ) → s.volume.in_use j ≡ false → (j ≡ a) ⊎ (s'.volume.in_use j ≡ false))
    → SlotOutcome s' k r
    → BmapOutcome s k r
BmapOutcome-trans s s' a k (some (b, t)) l keeps same more (keeps', e, n, _, _) =
    (Keeps-trans s s' t keeps keeps', e, n)
BmapOutcome-trans s s' a k none l keeps same more (full, z) = (
  λ i j m n o p. only i m o ∙ sym (only j n p),
  elim (Bool-cases (slot s k == 0)) [
    | inl e ↦ eq_of_== (slot s k) 0 e
    | inr e ↦ let n = ne_of_== (slot s k) 0 e in absurd (n (sym (keeps.same_slot k l n) ∙ z))
  ],
)
  where
    only : (i : ℕ) → i < s.volume.size → s.volume.in_use i ≡ false → i ≡ a
    only i m f = elim (more i f) [
      | inl e ↦ e
      | inr g ↦ absurd (let u = full i (omega (arith, m, same)) in cc)
    ]

-- On an inode whose blocks are in use, with no block in two slots and free blocks of zeros, `bmap` of a
-- block below the limit of 140 returns a block that is in the slot of its number then, with the inode
-- still so, its size and its contents as before, and every block in the slot where it was; it panics only
-- if the slot is empty and one block at most is free.
pub bmap-BmapOutcome : (s : Node) (k : ℕ) → IsNode s → k < 140 → BmapOutcome s k (bmap s k)
unfolding bmap
bmap-BmapOutcome s k h l = elim (Bool-cases (ltb k 12)) [
  | inl e ↦ rw e (
      BmapOutcome-SlotOutcome s k (direct s k) (
        direct-SlotOutcome s k k h (slot_direct s k e)
          (λ b z f. Gains-direct s b k h (ground (arith, e)) (slot_direct s k e ∙ z) f)
          (omega (arith, l))))
  | inr e ↦
      let small : ltb (k - 12) 128 ≡ true = ground (arith, e, l) in
      rw (e, small)
        (rooted e (direct s 12) (
          direct-SlotOutcome s 12 140 h (slot_root s) (λ b z f. Gains-root s b h z f)
            (omega arith)))
]
  where
    rooted :
        ltb k 12 ≡ false
        → (r : Option (ℕ × Node)) → SlotOutcome s 140 r
        → BmapOutcome s k (elim r as (λ x. Option (ℕ × Node)) [
          | none ↦ none
          | some (a, s') ↦ indirect s' a (k - 12)
        ])
    rooted e none (full, z) = (
      λ i j m n o p. absurd (let u = full i m in cc),
      slot_missing s k e l (sym (slot_root s) ∙ z),
    )
    rooted e (some (a, s')) (keeps, f, n, same, more) =
        let at : 12 + (k - 12) ≡ k = ground (arith, e) in
        let root : s'.addrs 12 ≡ a = sym (slot_root s') ∙ sym f in
        BmapOutcome-trans s s' a k (indirect s' a (k - 12)) (omega (arith, l)) keeps same more (
          subst (λ x. SlotOutcome s' x (indirect s' a (k - 12))) at
            (subst (λ x. SlotOutcome s' (12 + (k - 12)) (indirect s' x (k - 12))) root
              (indirect-SlotOutcome s' (k - 12) keeps.node (ground (arith, e, l))
                (λ z. n (sym root ∙ z)))))

-- A block that is there is looked up without a change.
pub bmap_present : (s : Node) (k : ℕ) → k < 140 → slot s k ≢ 0 → bmap s k ≡ some (slot s k, s)
unfolding bmap direct indirect
bmap_present s k l n = elim (Bool-cases (ltb k 12)) [
  | inl e ↦
      let at = slot_direct s k e in
      rw e (rw (==_of_ne (s.addrs k) 0 (λ z. n (at ∙ z))) (ap (λ x. some (x, s)) (sym at)))
  | inr e ↦
      let small : ltb (k - 12) 128 ≡ true = ground (arith, e, l) in
      let root : s.addrs 12 ≢ 0 = λ z. n (slot_missing s k e l z) in
      let here : 12 + (k - 12) ≡ k = ground (arith, e) in
      let at : slot s k ≡ s.volume.contents (s.addrs 12) (k - 12) =
        ap (slot s) (sym here) ∙ slot_word s (k - 12) (ground (arith, e, l)) root in
      rw (e, small)
        (rw (==_of_ne (s.addrs 12) 0 root) (
          rw (==_of_ne (s.volume.contents (s.addrs 12) (k - 12)) 0 (λ z. n (at ∙ z)))
            (ap (λ x. some (x, s)) (sym at))))
]
