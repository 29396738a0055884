-- ===== src/Locks/Invariant.antt =====
-- What holds in every state that the threads of `counter_test` reach.
use ecnu_2020_autumn_linux_l.Base.{
  ℕ, suc, ◌+◌, ◌≤◌, ◌≡◌, ◌≢◌, Bool, true, false, arith, refl, ℤ, pos, negsuc,
}
use ecnu_2020_autumn_linux_l.Locks.{
  Kind, my_spin_lock, my_mutex_lock, Counter, Pc, idle, loaded, Op, Move, call, spin_enter,
  spin_again, mutex_enter, mutex_busy, sleep, no_sleep, interrupted, load, return_value, store_inc,
  store_dec, spin_release, mutex_release, update, System, Step, pick, wake, wake_none, start, Reach,
  begin, later, critical, active, is_asleep, plus_one, less_one, trying, asleep, waking, blocked,
}

abbrev pub pos_part : ℤ → ℕ
pos_part (pos n) = n
pos_part (negsuc n) = 0

abbrev pub neg_part : ℤ → ℕ
neg_part (pos n) = 0
neg_part (negsuc n) = suc n

-- `val` is `incs - decs`.
abbrev pub Balanced : Counter → Type 0
Balanced m = pos_part m.val + m.decs ≡ neg_part m.val + m.incs

abbrev pub IsFresh : Counter → Pc → Type 0
IsFresh m (loaded _ z) = m.val ≡ z
IsFresh m _ = Unit {0}

-- Only `mutex_acquire` and `mutex_release` call the futex.
abbrev pub in_futex : Pc → Bool
in_futex (blocked _) = true
in_futex (asleep _) = true
in_futex waking = true
in_futex _ = false

pub record Inv (k : Kind) (m : Counter) (pc : ℕ → Pc) : Type 0 where
  pub flag : m.flag ≤ 1
  pub balanced : Balanced m
  pub held : (i : ℕ) → critical (pc i) ≡ true → m.flag ≡ 1
  pub holder : m.flag ≡ 1 → (i : ℕ) × (critical (pc i) ≡ true)
  pub unique : (i j : ℕ) → critical (pc i) ≡ true → critical (pc j) ≡ true → i ≡ j
  pub fresh : (i : ℕ) → IsFresh m (pc i)
  pub futex : (i : ℕ) → in_futex (pc i) ≡ true → k ≡ my_mutex_lock
  pub awake : (j : ℕ) → is_asleep (pc j) ≡ true → m.flag ≡ 0 → (i : ℕ) × (active (pc i) ≡ true)

Balanced-plus_one :
    (m : Counter) → Balanced m → Balanced (record m { val = plus_one m.val; incs = suc m.incs })
Balanced-plus_one m b = ground arith

Balanced-less_one :
    (m : Counter) → Balanced m → Balanced (record m { val = less_one m.val; decs = suc m.decs })
Balanced-less_one m b = ground arith

-- The premise of a move, for the clauses that cannot name it.
abbrev Guard : {k : Kind} {m m' : Counter} {p p' : Pc} → Move k m p m' p' → Type 0
Guard {k} {m} (spin_enter _ _) = (k ≡ my_spin_lock) × (m.flag ≢ 1)
Guard {k} {m} (spin_again _ _) = (k ≡ my_spin_lock) × (m.flag ≡ 1)
Guard {k} {m} (mutex_enter _ _) = (k ≡ my_mutex_lock) × (m.flag ≡ 0)
Guard {k} {m} (mutex_busy _ _) = (k ≡ my_mutex_lock) × (m.flag ≢ 0)
Guard {m} (sleep _) = m.flag ≡ 1
Guard {m} (no_sleep _) = m.flag ≢ 1
Guard {k} (spin_release _) = k ≡ my_spin_lock
Guard {k} (mutex_release _) = k ≡ my_mutex_lock
Guard _ = Unit {0}

guard : {k : Kind} {m m' : Counter} {p p' : Pc} (mv : Move k m p m' p') → Guard mv
guard (spin_enter h g) = (h, g)
guard (spin_again h g) = (h, g)
guard (mutex_enter h g) = (h, g)
guard (mutex_busy h g) = (h, g)
guard (sleep g) = g
guard (no_sleep g) = g
guard (spin_release h) = h
guard (mutex_release h) = h
guard _ = tt

module _ {k : Kind} {m : Counter} {pc : ℕ → Pc} (inv : Inv k m pc) (i : ℕ) where
  open inv use {flag, balanced, held, holder, unique, fresh, futex, awake}

  Move-flag : {p p' : Pc} {m' : Counter} → Move k m p m' p' → m'.flag ≤ 1
  Move-flag (call o) = flag
  Move-flag mv = ground (arith, flag)

  Move-Balanced : {p p' : Pc} {m' : Counter} → Move k m p m' p' → IsFresh m p → Balanced m'
  Move-Balanced (store_inc {z}) f = rw (← f) (Balanced-plus_one m balanced)
  Move-Balanced (store_dec {z}) f = rw (← f) (Balanced-less_one m balanced)
  Move-Balanced mv f = balanced

  Move-held :
      {p p' : Pc} {m' : Counter}
      → Move k m p m' p'
      → pc i ≡ p
      → (a : ℕ) → critical (update pc i p' a) ≡ true
      → m'.flag ≡ 1
  Move-held (call o) e a q = ground (arith, held a)
  Move-held (spin_release h) e a q = ground (arith, unique a i)
  Move-held (mutex_release h) e a q = ground (arith, unique a i)
  Move-held mv e a q = ground (arith, guard mv, held a, held i)

  Move-holder :
      {p p' : Pc} {m' : Counter}
      → Move k m p m' p'
      → pc i ≡ p
      → m'.flag ≡ 1
      → (w : ℕ) × (critical (update pc i p' w) ≡ true)
  Move-holder (call o) e q = let (w, c) = holder q in (w, ground arith)
  Move-holder (spin_enter h g) e q = (i, ground arith)
  Move-holder (mutex_enter h g) e q = (i, ground arith)
  Move-holder (mutex_busy h g) e q = let (w, c) = holder (omega arith) in (w, ground arith)
  Move-holder (spin_release h) e q = absurd (omega arith)
  Move-holder (mutex_release h) e q = absurd (omega arith)
  Move-holder mv e q = let (w, c) = holder q in (w, ground arith)

  Move-unique :
      {p p' : Pc} {m' : Counter}
      → Move k m p m' p'
      → pc i ≡ p
      → (a b : ℕ) → critical (update pc i p' a) ≡ true
      → critical (update pc i p' b) ≡ true
      → a ≡ b
  Move-unique (call o) e a b q r = ground (arith, unique a b)
  Move-unique mv e a b q r = ground (arith, guard mv, flag, held a, held b, unique a b)

  Move-IsFresh :
      {p p' : Pc} {m' : Counter}
      → Move k m p m' p'
      → pc i ≡ p
      → (a : ℕ) → IsFresh m' (update pc i p' a)
  Move-IsFresh (call o) e a = ground (arith, fresh a)
  Move-IsFresh (store_inc) e a = ground (arith, fresh a, unique a i)
  Move-IsFresh (store_dec) e a = ground (arith, fresh a, unique a i)
  Move-IsFresh mv e a = ground (arith, fresh a)

  Move-futex :
      {p p' : Pc} {m' : Counter}
      → Move k m p m' p'
      → pc i ≡ p
      → (a : ℕ) → in_futex (update pc i p' a) ≡ true
      → k ≡ my_mutex_lock
  Move-futex (call o) e a q = ground (arith, futex a)
  Move-futex mv e a q = ground (arith, guard mv, futex a, futex i)

  Move-awake :
      {p p' : Pc} {m' : Counter}
      → Move k m p m' p'
      → pc i ≡ p
      → (j : ℕ) → is_asleep (update pc i p' j) ≡ true
      → m'.flag ≡ 0
      → (w : ℕ) × (active (update pc i p' w) ≡ true)
  Move-awake (call o) e j q z = (i, ground arith)
  Move-awake (spin_again h g) e j q z = (i, ground arith)
  Move-awake (spin_enter h g) e j q z = absurd (omega arith)
  Move-awake (mutex_enter h g) e j q z = absurd (omega arith)
  Move-awake (mutex_busy h g) e j q z = (i, ground arith)
  Move-awake (sleep g) e j q z = absurd (omega arith)
  Move-awake (no_sleep g) e j q z = (i, ground arith)
  Move-awake (interrupted) e j q z = (i, ground arith)
  Move-awake (load) e j q z = absurd (ground (arith, held i))
  Move-awake (return_value) e j q z = absurd (ground (arith, held i))
  Move-awake (store_inc) e j q z = absurd (ground (arith, held i))
  Move-awake (store_dec) e j q z = absurd (ground (arith, held i))
  Move-awake (spin_release h) e j q z = absurd (ground (arith, futex j))
  Move-awake (mutex_release h) e j q z = (i, ground arith)

  Move-Inv : {p p' : Pc} {m' : Counter} → Move k m p m' p' → pc i ≡ p → Inv k m' (update pc i p')
  Move-Inv mv e = record {
    flag = Move-flag mv;
    balanced = Move-Balanced mv (rw (← e) (fresh i));
    held = Move-held mv e;
    holder = Move-holder mv e;
    unique = Move-unique mv e;
    fresh = Move-IsFresh mv e;
    futex = Move-futex mv e;
    awake = Move-awake mv e;
  }

  wake-Inv :
      (j : ℕ) (o : Op)
      → pc i ≡ waking
      → pc j ≡ asleep o
      → Inv k m (update (update pc j (trying o)) i idle)
  wake-Inv j o e f = record {
    flag = flag;
    balanced = balanced;
    held = λ a q. ground (arith, held a);
    holder = λ q. let (w, c) = holder q in (w, ground arith);
    unique = λ a b q r. ground (arith, unique a b);
    fresh = λ a. ground (arith, fresh a);
    futex = λ a q. ground (arith, futex a);
    awake = λ a q z. (j, ground arith);
  }

  wake_none-Inv : pc i ≡ waking → ((j : ℕ) → is_asleep (pc j) ≡ false) → Inv k m (update pc i idle)
  wake_none-Inv e none_asleep = record {
    flag = flag;
    balanced = balanced;
    held = λ a q. ground (arith, held a);
    holder = λ q. let (w, c) = holder q in (w, ground arith);
    unique = λ a b q r. ground (arith, unique a b);
    fresh = λ a. ground (arith, fresh a);
    futex = λ a q. ground (arith, futex a);
    awake = λ a q z. absurd (ground (arith, none_asleep a));
  }

Step-Inv : {k : Kind} {s t : System} → Step k s t → Inv k s.mem s.pc → Inv k t.mem t.pc
Step-Inv (pick i mv) inv = Move-Inv inv i mv refl
Step-Inv (wake i j o e f) inv = wake-Inv inv i j o e f
Step-Inv (wake_none i e h) inv = wake_none-Inv inv i e h

start-Inv : (k : Kind) → Inv k start.mem start.pc
start-Inv k = record {
  flag = omega arith;
  balanced = refl;
  held = λ i q. cc;
  holder = λ q. absurd (omega arith);
  unique = λ i j q r. cc;
  fresh = λ i. tt;
  futex = λ i q. cc;
  awake = λ j q z. cc;
}

-- Every reachable state meets the invariant.
pub Reach-Inv : {k : Kind} {s : System} → Reach k s → Inv k s.mem s.pc
Reach-Inv {k} begin = start-Inv k
Reach-Inv (later r st) = Step-Inv st (Reach-Inv r)
