-- ===== src/Proc/Numbering.antt =====
-- Process ids: what the table keeps of them, and `allocproc`, `fork` and `clone`.
use ecnu_2020_autumn_linux_l.Base.{
  ℕ, suc, ◌≤◌, ◌<◌, ◌≡◌, [], ◌∷◌, refl, ◌∙◌, inl, inr, false, Option, none, some, List, get_elem?,
  set, arith, Bool-cases, Option-cases, get_elem?-set, lt_of_get_elem?,
}
use ecnu_2020_autumn_linux_l.Proc.Defs.{
  unused, embryo, Proc, Kernel, Vm, is_unused, find_unused, next_id, allocproc,
}
use ecnu_2020_autumn_linux_l.Proc.Fork.{fork, fork_at, clone, clone_at, with_slot, thread_sp}
use ecnu_2020_autumn_linux_l.Proc.Slots.{Slots, Slots-map, IsKept, IsKeptByExit, Slots-set}

abbrev pub Live : Proc → Type 0
Live p = is_unused p.state ≡ false

-- The ids given out are below `next`, and no two live slots have the same.
pub record IsNumbered (ps : List Proc) (next : ℕ) : Type 0 where
  pub below : (i : ℕ) (p : Proc) → get_elem? ps i ≡ some p → Live p → p.pid < next
  pub unique :
      (i j : ℕ) (p q : Proc)
      → get_elem? ps i ≡ some p
      → get_elem? ps j ≡ some q
      → Live p
      → Live q
      → p.pid ≡ q.pid
      → i ≡ j

-- A live process was live, with the same id.
abbrev pub Older : Proc → Proc → Type 0
Older p q = Live q → Live p × (p.pid ≡ q.pid)

abbrev pub Within : List Proc → List Proc → Type 0
Within = Slots Older

pub Older-kept : IsKept Older
Older-kept = record {
  same = λ p l. (l, refl);
  chain = λ p q r f g l. let (a, b) = g l in let (c, d) = f a in (c, d ∙ b);
}

-- As live as before, and with the same id.
abbrev pub Alike : Proc → Proc → Type 0
Alike p q = (is_unused p.state ≡ is_unused q.state) × (p.pid ≡ q.pid)

pub Alike-kept : IsKeptByExit Alike
Alike-kept = record {
  kept = record { same = λ p. (refl, refl); chain = λ p q r (a, b) (c, d). (a ∙ c, b ∙ d) };
  woken = λ c p. (ground arith, ground arith);
  abandoned = λ vm k parent p. (ground arith, ground arith);
}

pub Within-Alike : (ps qs : List Proc) → Slots Alike ps qs → Within ps qs
Within-Alike = Slots-map Alike Older (λ p q (a, b) l. (a ∙ l, b))

pub Within-set :
    (ps : List Proc) (i : ℕ) (p q : Proc)
    → get_elem? ps i ≡ some p
    → Older p q
    → Within ps (set ps i q)
Within-set = Slots-set Older Older-kept

pub IsNumbered-Within :
    (ps qs : List Proc) (next : ℕ) → IsNumbered ps next → Within ps qs → IsNumbered qs next
IsNumbered-Within ps qs next n w = record {
  below =
      λ i q e l. let (p, ep, o) = w i q e in let (lp, ip) = o l in omega (arith, n.below i p ep lp);
  unique = λ i j q r e f lq lr same.
      let (p, ep, o) = w i q e in
      let (lp, ip) = o lq in
      let (s, es, o') = w j r f in
      let (ls, is) = o' lr in n.unique i j p s ep es lp ls (omega arith);
}

-- A slot that is written with a process whose id is the next one.
IsNumbered-fresh :
    (ps : List Proc) (i : ℕ) (p q : Proc) (next : ℕ)
    → IsNumbered ps next
    → get_elem? ps i ≡ some p
    → q.pid ≡ next
    → IsNumbered (set ps i q) (suc next)
IsNumbered-fresh ps i p q next n e new = record {
  below = λ j r f l. ground (arith, get_elem?-set ps i j q (lt_of_get_elem? ps i e), n.below j r);
  unique = λ a b r s f g lr ls same. ground (
    arith,
    get_elem?-set ps i a q (lt_of_get_elem? ps i e),
    get_elem?-set ps i b q (lt_of_get_elem? ps i e),
    n.below a r,
    n.below b s,
    n.unique a b r s,
  );
}

abbrev pub Numbered : Kernel → Type 0
Numbered k = IsNumbered k.procs k.nextpid

-- Numbered, and at most one id was given out since `n` was the next one.
abbrev pub Grown : ℕ → Kernel → Type 0
Grown n k = Numbered k × (k.nextpid ≤ suc n)

-- No more ids than an `int` has.
abbrev pub HasIds : Kernel → Type 0
HasIds k = k.nextpid < 2147483647

next_id_lem : (k : Kernel) → HasIds k → next_id k.nextpid ≡ suc k.nextpid
next_id_lem k l = omega (arith, l)

-- `allocproc` gives out an id that no live process has, and a live slot.
abbrev AllocNumbered : ℕ → Option ℕ × Kernel → Type 0
AllocNumbered n (slot, k) =
    Grown n k × ((i : ℕ) (np : Proc) → slot ≡ some i → get_elem? k.procs i ≡ some np → Live np)

fresh-Grown :
    (k : Kernel) (i : ℕ) (p q : Proc)
    → Numbered k
    → HasIds k
    → get_elem? k.procs i ≡ some p
    → q.pid ≡ k.nextpid
    → Grown k.nextpid (record k { procs = set k.procs i q; nextpid = next_id k.nextpid })
fresh-Grown k i p q n room e new =
    let next = next_id_lem k room in
    (rw next (IsNumbered-fresh k.procs i p q k.nextpid n e new), omega (arith, next))

allocproc-Numbered :
    (vm : Vm) (k : Kernel) → Numbered k → HasIds k → AllocNumbered k.nextpid (allocproc vm k)
unfolding allocproc
allocproc-Numbered vm k n room = elim (Option-cases (find_unused k.procs)) [
  | inl e ↦ rw (e, allocproc) ((n, omega arith), λ i np f. cc)
  | inr (i, e) ↦ elim (Option-cases (get_elem? k.procs i)) [
    | inl f ↦ rw (e, allocproc, f) ((n, omega arith), λ j np g. cc)
    | inr (p, f) ↦ elim (Option-cases vm.kalloc) [
      | inl g ↦
          let q : Proc = record p { state = unused; pid = k.nextpid; kstack = 0 } in
          rw (e, allocproc, f, g) ((fresh-Grown k i p q n room f refl), λ j np h. cc)
      | inr (page, g) ↦
          let q : Proc = record p { state = embryo; pid = k.nextpid; kstack = page } in
          rw (e, allocproc, f, g)
            (
              fresh-Grown k i p q n room f refl,
              λ j np h at.
                  ground (arith, get_elem?-set k.procs i j q (lt_of_get_elem? k.procs i f)),
            )
    ]
  ]
]

module _ (n : ℕ) where
  put-Grown :
      (k : Kernel) (i : ℕ) (p q : Proc)
      → Grown n k
      → get_elem? k.procs i ≡ some p
      → Older p q
      → Grown n (record k { procs = set k.procs i q })
  put-Grown k i p q (g, l) e o =
      (IsNumbered-Within k.procs _ k.nextpid g (Within-set k.procs i p q e o), l)

  fork_at-Grown :
      (vm : Vm) (parent : Proc) (i : ℕ) (np : Proc) (k : Kernel)
      → Grown n k
      → get_elem? k.procs i ≡ some np
      → Live np
      → Grown n (fork_at vm parent i np k).1
  unfolding fork_at
  fork_at-Grown vm parent i np k g e l = elim (Option-cases (vm.copyuvm parent.pgdir parent.sz)) [
    | inl f ↦ rw (f, fork_at) (put-Grown k i np _ g e (λ q. cc))
    | inr (d, f) ↦ rw (f, fork_at) (put-Grown k i np _ g e (λ q. (l, refl)))
  ]

  clone_at-Grown :
      (vm : Vm) (fcn arg stack : ℕ) (parent : Proc) (i : ℕ) (np : Proc) (k : Kernel)
      → Grown n k
      → get_elem? k.procs i ≡ some np
      → Live np
      → Grown n (clone_at vm fcn arg stack parent i np k).1
  unfolding clone_at
  clone_at-Grown vm fcn arg stack parent i np k g e l =
      elim (Bool-cases (vm.copyout parent.pgdir (thread_sp stack) (4294967295 ∷ arg ∷ []))) [
        | inl f ↦ rw f (put-Grown k i np _ g e (λ q. (l, refl)))
        | inr f ↦ rw f (put-Grown k i np _ g e (λ q. (l, refl)))
      ]

  with_slot-Grown :
      (f : ℕ → Proc → Kernel → Option ℕ × Kernel)
      → ((i : ℕ) (np : Proc) (k : Kernel)
          → Grown n k
          → get_elem? k.procs i ≡ some np
          → Live np
          → Grown n (f i np k).1)
      → (slot : Option ℕ) (k : Kernel) → AllocNumbered n (slot, k)
      → Grown n (with_slot f (slot, k)).1
  with_slot-Grown f h none k (g, l) = g
  with_slot-Grown f h (some i) k (g, l) = elim (Option-cases (get_elem? k.procs i)) [
    | inl e ↦ rw (e, with_slot) g
    | inr (np, e) ↦ rw (e, with_slot) (h i np k g e (l i np refl e))
  ]

pub fork-Grown : (vm : Vm) (k : Kernel) → Numbered k → HasIds k → Grown k.nextpid (fork vm k).1
unfolding fork
fork-Grown vm k n room = elim (Option-cases (get_elem? k.procs k.current)) [
  | inl e ↦ rw (e, fork) (n, omega arith)
  | inr (p, e) ↦
      rw (e, fork)
        (with_slot-Grown k.nextpid (fork_at vm p) (fork_at-Grown k.nextpid vm p) _ _
          (allocproc-Numbered vm k n room))
]

pub clone-Grown :
    (vm : Vm) (fcn arg stack : ℕ) (k : Kernel)
    → Numbered k
    → HasIds k
    → Grown k.nextpid (clone vm fcn arg stack k).1
unfolding clone
clone-Grown vm fcn arg stack k n room = elim (Option-cases (get_elem? k.procs k.current)) [
  | inl e ↦ rw (e, clone) (n, omega arith)
  | inr (p, e) ↦
      rw (e, clone)
        (with_slot-Grown k.nextpid (clone_at vm fcn arg stack p)
          (clone_at-Grown k.nextpid vm fcn arg stack p) _ _ (allocproc-Numbered vm k n room))
]
