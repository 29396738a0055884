-- ===== src/Cli/Nesting.antt =====
-- Matched calls of `pushcli` and `popcli`.
use ecnu_2020_autumn_linux_l.Base.{
  ◌+◌, ◌-◌, ◌<◌, ◌≡◌, refl, sym, ap, subst, ◌∙◌, true, false, ◌&&◌, Option, none, some, List, [],
  ◌∷◌, ◌++◌, ◌==◌, if◌then◌else◌, arith, Bool-cases, Option-cases, inl, inr,
}
use ecnu_2020_autumn_linux_l.Cli.{Cpu, pushcli, popcli}

pub data Call : Type 0 where
  pushes : Call
  pops : Call

unfoldable pub run : List Call → Cpu → Option Cpu
run [] c = some c
run (pushes ∷ calls) c = run calls (pushcli c)
run (pops ∷ calls) c = elim (popcli c) [ none ↦ none | some c' ↦ run calls c' ]

-- Each `pushcli` has its `popcli` behind it.
pub data IsMatched : List Call → Type 0 where
  no_calls : IsMatched []
  pair :
      (inner rest : List Call)
      → IsMatched inner
      → IsMatched rest
      → IsMatched (pushes ∷ inner ++ (pops ∷ rest))

-- The interrupts are off between the calls.
abbrev pub IsOff : Cpu → Type 0
IsOff c = 0 < c.ncli → c.fl_if ≡ false

-- The same nesting and interrupt flag, and the same saved flag where one is in use.
pub record Restores (c c' : Cpu) : Type 0 where
  pub same_ncli : c'.ncli ≡ c.ncli
  pub same_if : c'.fl_if ≡ c.fl_if
  pub same_intena : 0 < c.ncli → c'.intena ≡ c.intena

run-pops : (calls : List Call) (c d : Cpu) → popcli c ≡ some d → run (pops ∷ calls) c ≡ run calls d
unfolding run
run-pops calls c d e = rw (e, run) refl

run-append : (xs ys : List Call) (c c' : Cpu) → run xs c ≡ some c' → run (xs ++ ys) c ≡ run ys c'
unfolding run
run-append [] ys c c' e = let g : c ≡ c' = cc in ap (run ys) g
run-append (pushes ∷ xs) ys c c' e = run-append xs ys (pushcli c) c' e
run-append (pops ∷ xs) ys c c' e = elim (Option-cases (popcli c)) [
  | inl f ↦ absurd (let g : run (pops ∷ xs) c ≡ none = rw (f, run) refl in cc)
  | inr (d, f) ↦ run-pops (xs ++ ys) c d f ∙ run-append xs ys d c' (sym (run-pops xs c d f) ∙ e)
]

-- One `popcli` after a `pushcli` and matched calls between them.
popcli-Restores :
    (c d : Cpu)
    → IsOff c
    → Restores (pushcli c) d
    → (d' : Cpu) × (popcli d ≡ some d') × IsOff d' × Restores c d'
unfolding pushcli popcli
popcli-Restores c d h r =
    let one : d.ncli ≡ c.ncli + 1 = r.same_ncli in
    let off : d.fl_if ≡ false = r.same_if in
    let saved : d.intena ≡ (if c.ncli == 0 then c.fl_if else c.intena) =
      r.same_intena (omega arith) in
    let some_left : (d.ncli == 0) ≡ false = ground (arith, one) in
    let d' : Cpu = record d { ncli = d.ncli - 1; fl_if = (d.ncli - 1 == 0) && d.intena } in
    (
      d',
      rw off (rw some_left refl),
      (λ l. let more : (d.ncli - 1 == 0) ≡ false = ground (arith, l) in rw more refl),
      record {
        same_ncli = omega (arith, one);
        same_if = elim (Bool-cases (c.ncli == 0)) [
          | inl b ↦
              let first : (d.ncli - 1 == 0) ≡ true = ground (arith, one) in
              let flag : d.intena ≡ c.fl_if = saved ∙ rw b refl in rw first flag
          | inr b ↦
              let more : (d.ncli - 1 == 0) ≡ false = ground (arith, one) in
              rw more (sym (h (ground arith)))
        ];
        same_intena =
            λ l. let nested : (c.ncli == 0) ≡ false = ground (arith, l) in saved ∙ rw nested refl;
      },
    )

Restores-trans : (a b c : Cpu) → Restores a b → Restores b c → Restores a c
Restores-trans a b c r s = record {
  same_ncli = s.same_ncli ∙ r.same_ncli;
  same_if = s.same_if ∙ r.same_if;
  same_intena = λ l. s.same_intena (subst (λ n. 0 < n) (sym r.same_ncli) l) ∙ r.same_intena l;
}

pushcli-IsOff : (c : Cpu) → IsOff (pushcli c)
unfolding pushcli
pushcli-IsOff c l = refl

-- From every state where the interrupts are off while calls are open, a matched sequence of calls never
-- panics and leaves the nesting and the interrupt flag as they were: interrupts that were off stay off.
pub run-Restores :
    (calls : List Call) (c : Cpu)
    → IsMatched calls
    → IsOff c
    → (c' : Cpu) × (run calls c ≡ some c') × Restores c c'
unfolding run
run-Restores _ c no_calls h =
    (c, refl, record { same_ncli = refl; same_if = refl; same_intena = λ l. refl })
run-Restores _ c (pair inner rest p q) h =
    let (d, e, r) = run-Restores inner (pushcli c) p (pushcli-IsOff c) in
    let (d', f, off, r') = popcli-Restores c d h r in
    let (c', g, r'') = run-Restores rest d' q off in
    (
      c',
      run-append inner (pops ∷ rest) (pushcli c) d e ∙ run-pops rest d d' f ∙ g,
      Restores-trans c d' c' r' r'',
    )
