-- ===== src/Fs/Contents/Truncate.antt =====
-- `itrunc`.
use ecnu_2020_autumn_linux_l.Base.{
  ℕ, ◌≤◌, ◌≡◌, ◌≢◌, refl, sym, ap, subst, ◌∙◌, inl, inr, Bool, true, false, some, ◌==◌, ltb,
  if◌then◌else◌, arith, Bool-cases, eq_of_==, ne_of_==, ==_of_ne,
}
use ecnu_2020_autumn_linux_l.Fs.Bitmap.{Volume}
use ecnu_2020_autumn_linux_l.Fs.Contents.{Node, set_addr, trunc_direct, trunc_root, itrunc}
use ecnu_2020_autumn_linux_l.Fs.Contents.Slots.{slot, byte_at, IsNode, KeepsForeign}
use ecnu_2020_autumn_linux_l.Fs.Contents.Read.{IsFile}
use ecnu_2020_autumn_linux_l.Fs.Contents.Written.{within}
use ecnu_2020_autumn_linux_l.Fs.Contents.Freed.{among, Freed}
use ecnu_2020_autumn_linux_l.Fs.Contents.Runs.{trunc_direct-free_run}
use ecnu_2020_autumn_linux_l.Fs.Contents.Owned.{
  Frees, in_direct_slots, in_direct_miss, in_direct_zero, run_direct, trunc_root-Frees, in_file,
  in_file_hit, in_file_miss, in_file_zero,
}

-- What `itrunc` leaves: an inode of size 0 without blocks, whose blocks are free, with the blocks of
-- everything else as before.
pub record Truncated (s s' : Node) : Type 0 where
  pub file : IsFile s'
  pub emptied : s'.size ≡ 0
  pub slots : (k : ℕ) → k ≤ 140 → slot s' k ≡ 0
  pub freed : (k : ℕ) → k ≤ 140 → slot s k ≢ 0 → s'.volume.in_use (slot s k) ≡ false
  pub foreign : KeepsForeign s s'

-- An inode without blocks, where those that it had are freed.
pub slot_none : (t : Node) → ((k : ℕ) → k ≤ 12 → t.addrs k ≡ 0) → (k : ℕ) → k ≤ 140 → slot t k ≡ 0
unfolding slot byte_at
slot_none t z k l = elim (Bool-cases (ltb k 12)) [
  | inl e ↦ rw e (z k (ground (arith, e)))
  | inr e ↦ elim (Bool-cases (k == 140)) [
    | inl g ↦ rw (e, g) (z 12 (omega arith))
    | inr g ↦ rw (e, g, z 12 (omega arith)) refl
  ]
]

Truncated-Frees :
    (s t : Node) (P : ℕ → Bool)
    → IsNode s
    → ((k : ℕ) → k ≤ 12 → t.addrs k ≡ 0)
    → t.size ≡ 0
    → Frees P s.volume t.volume
    → ((k : ℕ) → k ≤ 140 → slot s k ≢ 0 → P (slot s k) ≡ true)
    → ((c : ℕ) → c ≢ 0 → ((k : ℕ) → k ≤ 140 → slot s k ≢ c) → P c ≡ false)
    → P 0 ≡ false
    → Truncated s t
Truncated-Frees s t P h z e f hit miss root =
    let none_there : (k : ℕ) → k ≤ 140 → slot t k ≡ 0 = slot_none t z in
    record {
      file = record {
        node = record {
          zero_used = f.bits 0 ∙ rw root h.zero_used;
          held = λ k l n. absurd (n (none_there k l));
          apart = λ j k l m n x. absurd (n (none_there j l));
          blank = λ b i x. f.data_of b i ∙ elim (Bool-cases (P b)) [
            | inl y ↦ rw y refl
            | inr y ↦
                let free : s.volume.in_use b ≡ false = sym (f.bits b ∙ rw y refl) ∙ x in
                rw y (h.blank b i free)
          ];
        };
        filled = λ k l. absurd (omega (arith, l, e));
        bounded = omega (arith, e);
      };
      emptied = e;
      slots = none_there;
      freed = λ k l n. f.bits (slot s k) ∙ rw (hit k l n) refl;
      foreign = λ c g. (
        record {
          nonzero = g.nonzero;
          used = f.bits c ∙ rw (miss c g.nonzero g.no_slot) g.used;
          no_slot = λ k l x. g.nonzero (sym x ∙ none_there k l);
        },
        λ i. f.data_of c i ∙ rw (miss c g.nonzero g.no_slot) refl,
      );
    }

itrunc_flat :
    (s t : Node)
    → trunc_direct 12 s 0 ≡ some t
    → t.addrs 12 ≡ 0
    → itrunc s ≡ some (record t { size = 0 })
unfolding itrunc
itrunc_flat s t e z = rw (e, itrunc) (rw z refl)

itrunc_deep :
    (s t : Node) (v : Volume)
    → trunc_direct 12 s 0 ≡ some t
    → t.addrs 12 ≢ 0
    → trunc_root t.volume (t.addrs 12) ≡ some v
    → itrunc s ≡ some (record (set_addr (record t { volume = v }) 12 0) { size = 0 })
unfolding itrunc
itrunc_deep s t v e n f = rw (e, itrunc) (rw (==_of_ne (t.addrs 12) 0 n) (rw f refl))

-- The two ends of `itrunc`, after the first loop.
itrunc_end :
    (s t : Node)
    → IsNode s
    → trunc_direct 12 s 0 ≡ some t
    → Freed s.addrs 0 12 s.volume t.volume
    → ((k : ℕ) → t.addrs k ≡ (if within 0 12 k then 0 else s.addrs k))
    → (s' : Node) × (itrunc s ≡ some s') × Truncated s s'
itrunc_end s t h e f addrs = elim (Bool-cases (s.addrs 12 == 0)) [
  | inl b ↦
      let z : s.addrs 12 ≡ 0 = eq_of_== (s.addrs 12) 0 b in
      (
        record t { size = 0 },
        itrunc_flat s t e (addrs 12 ∙ z),
        Truncated-Frees s (record t { size = 0 }) (λ c. among s.addrs 0 12 c) h
            (λ k l. cleared k l (λ g. ap t.addrs g ∙ addrs 12 ∙ z)) refl
            (record { bits = f.bits; data_of = f.data_of }) (in_direct_slots s h z)
            (in_direct_miss s h) (in_direct_zero s h),
      )
  | inr b ↦
      let n = ne_of_== (s.addrs 12) 0 b in
      let root : t.addrs 12 ≡ s.addrs 12 = addrs 12 in
      let (v, g, frees) = trunc_root-Frees s h t.volume f n in
      let s' : Node = record (set_addr (record t { volume = v }) 12 0) { size = 0 } in
      (
        s',
        itrunc_deep s t v e (λ z. n (sym root ∙ z))
            (subst (λ x. trunc_root t.volume x ≡ some v) (sym root) g),
        Truncated-Frees s s' (in_file s h t.volume f n) h
            (λ k l. elim (Bool-cases (k == 12)) [
              | inl x ↦ rw x refl
              | inr x ↦ rw x (cleared k l (λ g. absurd (ne_of_== k 12 x g)))
            ])
            refl frees (in_file_hit s h t.volume f n) (in_file_miss s h t.volume f n)
            (in_file_zero s h t.volume f n),
      )
]
  where
    cleared : (k : ℕ) → k ≤ 12 → (k ≡ 12 → t.addrs k ≡ 0) → t.addrs k ≡ 0
    cleared k l last = elim (Bool-cases (within 0 12 k)) [
      | inl x ↦ addrs k ∙ rw x refl
      | inr x ↦ last (ground (arith, x, l))
    ]

-- On an inode whose blocks are in use, with no block in two slots and free blocks of zeros, `itrunc` does
-- not panic: it leaves an inode of size 0 without a block, every block that it had, the indirect one
-- included, is free, and no block that is in use for anything else has changed.
pub itrunc-Truncated : (s : Node) → IsNode s → (s' : Node) × (itrunc s ≡ some s') × Truncated s s'
unfolding itrunc
itrunc-Truncated s h =
    let (v1, e, f) = run_direct s h in
    let (t, g, same, size, addrs) = trunc_direct-free_run 12 s 0 v1 e in
    itrunc_end s t h g (subst (Freed s.addrs 0 12 s.volume) (sym same) f) addrs
