-- ===== src/Proc/Children.antt =====
-- What `wait` and `join` find in the process table.
use ecnu_2020_autumn_linux_l.Base.{
  ℕ, zero, suc, ◌+◌, ◌≡◌, refl, sym, ap, ◌∙◌, inl, inr, Bool, true, false, not, ◌&&◌, ◌||◌, none,
  some, List, [], ◌∷◌, get_elem?, All, ◌⊎◌, ◌==◌, arith, Bool-cases, Option-cases,
}
use ecnu_2020_autumn_linux_l.Proc.Defs.{Proc, sleeping, proc_chan, Kernel, is_zombie, put}
use ecnu_2020_autumn_linux_l.Proc.Wait.{
  find_zombie, have_kids, is_child, wait_pass, Waited, fails, reaped, sleeps, panics, reap,
}

-- The process that the loop finds stands at its slot and is a zombie child or thread.
pub find_zombie_lem :
    (thread : Bool) (c : ℕ) (me : Proc) (i : ℕ) (ps : List Proc) (j : ℕ) (p : Proc)
    → find_zombie thread c me i ps ≡ some (j, p)
    → (d : ℕ) × (j ≡ i + d)
      × (get_elem? ps d ≡ some p)
      × ((is_child thread c me p && is_zombie p.state) ≡ true)
unfolding find_zombie
find_zombie_lem thread c me i [] j p e = absurd (cc)
find_zombie_lem thread c me i (q ∷ ps) j p e =
    elim (Bool-cases (is_child thread c me q && is_zombie q.state)) [
      | inl b ↦
          let out : find_zombie thread c me i (q ∷ ps) ≡ some (i, q) = rw b refl in
          let same : q ≡ p = cc in
          let at : i ≡ j = cc in (0, omega arith, ap some same, rw (← same) b)
      | inr b ↦
          let out : find_zombie thread c me i (q ∷ ps) ≡ find_zombie thread c me (suc i) ps =
            rw b refl in
          let (d, l, g, h) = find_zombie_lem thread c me (suc i) ps j p (sym out ∙ e) in
          (suc d, omega arith, g, h)
    ]

abbrev pub IsZombieChild : Bool → ℕ → Proc → Proc → Type 0
IsZombieChild thread c me p = (is_child thread c me p && is_zombie p.state) ≡ true

find_zombie-none :
    (thread : Bool) (c : ℕ) (me : Proc) (i : ℕ) (ps : List Proc)
    → find_zombie thread c me i ps ≡ none
    → All (λ p. (is_child thread c me p && is_zombie p.state) ≡ false) ps
unfolding find_zombie
find_zombie-none thread c me i [] e = tt
find_zombie-none thread c me i (q ∷ ps) e =
    elim (Bool-cases (is_child thread c me q && is_zombie q.state)) [
      | inl b ↦
          absurd (let out : find_zombie thread c me i (q ∷ ps) ≡ some (i, q) = rw b refl in cc)
      | inr b ↦
          let out : find_zombie thread c me i (q ∷ ps) ≡ find_zombie thread c me (suc i) ps =
            rw b refl in
          (b, find_zombie-none thread c me (suc i) ps (sym out ∙ e))
    ]

-- A child anywhere in the table counts.
pub have_kids-get_elem? :
    (thread : Bool) (c : ℕ) (me : Proc) (ps : List Proc) (i : ℕ) (p : Proc)
    → get_elem? ps i ≡ some p
    → is_child thread c me p ≡ true
    → have_kids thread c me ps ≡ true
unfolding have_kids
have_kids-get_elem? thread c me [] i p e h = absurd (cc)
have_kids-get_elem? thread c me (q ∷ ps) zero p e h =
    let same : q ≡ p = cc in rw (same, have_kids, h) refl
have_kids-get_elem? thread c me (q ∷ ps) (suc i) p e h =
    elim (Bool-cases (is_child thread c me q)) [
      | inl b ↦ rw b refl
      | inr b ↦ rw b (have_kids-get_elem? thread c me ps i p e h)
    ]

-- What a pass of `wait` or `join` finds and leaves, in the terms of its tests.
abbrev pub WaitOutcome : Bool → Kernel → Proc → Waited → Type 0
WaitOutcome thread k me fails =
    All (λ p. (is_child thread k.current me p && is_zombie p.state) ≡ false) k.procs
    × ((have_kids thread k.current me k.procs ≡ false) ⊎ (me.killed ≡ true))
WaitOutcome thread k me (reaped pid stack k') =
    (i : ℕ) × (p : Proc) × (get_elem? k.procs i ≡ some p)
    × IsZombieChild thread k.current me p
    × (p.pid ≡ pid)
    × (p.stack ≡ stack)
    × (k' ≡ put k i (reap p))
WaitOutcome thread k me panics =
    (thread ≡ false)
    × (i : ℕ) × (p : Proc) × (get_elem? k.procs i ≡ some p)
    × IsZombieChild thread k.current me p
    × (p.pgdir ≡ 0)
WaitOutcome thread k me (sleeps k') =
    All (λ p. (is_child thread k.current me p && is_zombie p.state) ≡ false) k.procs
    × (have_kids thread k.current me k.procs ≡ true)
    × (me.killed ≡ false)
    × (k' ≡ put k k.current (record me { chan = proc_chan k.current; state = sleeping }))

pub wait_pass-Outcome :
    (thread : Bool) (k : Kernel) (me : Proc)
    → get_elem? k.procs k.current ≡ some me
    → WaitOutcome thread k me (wait_pass thread k)
unfolding wait_pass
wait_pass-Outcome thread k me e = elim (Option-cases (find_zombie thread k.current me 0 k.procs)) [
  | inl f ↦
      let idle = find_zombie-none thread k.current me 0 k.procs f in
      elim (Bool-cases (not (have_kids thread k.current me k.procs) || me.killed)) [
        | inl b ↦ rw (e, wait_pass, f, b) (idle, ground arith)
        | inr b ↦ rw (e, wait_pass, f, b) (idle, ground arith, ground arith, refl)
      ]
  | inr ((i, p), f) ↦
      let (d, at, g, h) = find_zombie_lem thread k.current me 0 k.procs i p f in
      let same : i ≡ d = omega (arith, at) in
      let here = ap (get_elem? k.procs) same ∙ g in
      elim (Bool-cases (not thread && (p.pgdir == 0))) [
        | inl b ↦
            let wait_only : thread ≡ false = ground arith in
            let null_pgdir : p.pgdir ≡ 0 = ground arith in
            rw (e, wait_pass, f) (rw b (wait_only, i, p, here, h, null_pgdir))
        | inr b ↦ rw (e, wait_pass, f) (rw b (i, p, here, h, refl, refl, refl))
      ]
]
