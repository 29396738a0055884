-- ===== src/Locks.antt =====
-- The locks of Project3/3a Locks and Threads (spinlock.c, mutex.c with sys_futex.c and xchg.c) and
-- the counter of counter.c under them: threads that run `counter_test`, interleaved one shared
-- access at a time.
pub mod Invariant
pub mod Safety
mod Tests
use ecnu_2020_autumn_linux_l.Base.{
  ℕ, zero, suc, ◌+◌, ◌<◌, ◌≡◌, ◌≢◌, Bool, true, false, ◌==◌, if◌then◌else◌, ℤ, pos, negsuc,
}

-- LOCK_TYPE, without the pthread mutex, which is the C library's.
pub data Kind : Type 0 where
  my_spin_lock my_mutex_lock : Kind

-- The calls that `counter_test` chooses from.
pub data Op : Type 0 where
  get_value increment decrement : Op

-- `lock.flag`, `val`, and how many increments and decrements have been stored.
pub record Counter : Type 0 where
  pub flag : ℕ
  pub val : ℤ
  pub incs : ℕ
  pub decs : ℕ

abbrev pub plus_one : ℤ → ℤ
plus_one (pos n) = pos (suc n)
plus_one (negsuc zero) = pos 0
plus_one (negsuc (suc n)) = negsuc n

abbrev pub less_one : ℤ → ℤ
less_one (pos zero) = negsuc 0
less_one (pos (suc n)) = pos n
less_one (negsuc n) = negsuc (suc n)

-- Where a thread stands.
pub data Pc : Type 0 where
  idle : Pc  -- between two calls
  trying : Op → Pc  -- before the `xchg` of `spinlock_acquire` or `mutex_acquire`
  blocked : Op → Pc  -- before FUTEX_WAIT
  asleep : Op → Pc  -- in FUTEX_WAIT
  inside : Op → Pc  -- behind `lock_acquire`
  loaded : Op → ℤ → Pc  -- `c->val` is read and not written back
  leaving : Pc  -- before the reset of the flag
  waking : Pc  -- before FUTEX_WAKE

-- One access by one thread.
pub data Move (k : Kind) (m : Counter) : Pc → Counter → Pc → Type 0 where
  call : (o : Op) → Move k m idle m (trying o)
  spin_enter :
      {o : Op}
      → k ≡ my_spin_lock
      → m.flag ≢ 1
      → Move k m (trying o) (record m { flag = 1 }) (inside o)
  spin_again : {o : Op} → k ≡ my_spin_lock → m.flag ≡ 1 → Move k m (trying o) m (trying o)
  mutex_enter :
      {o : Op}
      → k ≡ my_mutex_lock
      → m.flag ≡ 0
      → Move k m (trying o) (record m { flag = 1 }) (inside o)
  mutex_busy :
      {o : Op}
      → k ≡ my_mutex_lock
      → m.flag ≢ 0
      → Move k m (trying o) (record m { flag = 1 }) (blocked o)
  -- FUTEX_WAIT sleeps if the flag is still 1, and returns at once if not.
  sleep : {o : Op} → m.flag ≡ 1 → Move k m (blocked o) m (asleep o)
  no_sleep : {o : Op} → m.flag ≢ 1 → Move k m (blocked o) m (trying o)
  -- A signal may end FUTEX_WAIT.
  interrupted : {o : Op} → Move k m (asleep o) m (trying o)
  load : {o : Op} → Move k m (inside o) m (loaded o m.val)
  return_value : {z : ℤ} → Move k m (loaded get_value z) m leaving
  store_inc :
      {z : ℤ}
      → Move k m (loaded increment z) (record m { val = plus_one z; incs = suc m.incs }) leaving
  store_dec :
      {z : ℤ}
      → Move k m (loaded decrement z) (record m { val = less_one z; decs = suc m.decs }) leaving
  spin_release : k ≡ my_spin_lock → Move k m leaving (record m { flag = 0 }) idle
  mutex_release : k ≡ my_mutex_lock → Move k m leaving (record m { flag = 0 }) waking

abbrev pub update : (ℕ → Pc) → ℕ → Pc → ℕ → Pc
update f i p j = if j == i then p else f j

abbrev pub is_asleep : Pc → Bool
is_asleep (asleep _) = true
is_asleep _ = false

pub record System : Type 0 where
  pub mem : Counter
  pub pc : ℕ → Pc

-- A step of the system; FUTEX_WAKE moves the thread that it wakes too.
pub data Step (k : Kind) (s : System) : System → Type 0 where
  pick :
      (i : ℕ) {m : Counter} {p : Pc}
      → Move k s.mem (s.pc i) m p
      → Step k s (record { mem = m; pc = update s.pc i p })
  wake :
      (i j : ℕ) (o : Op)
      → s.pc i ≡ waking
      → s.pc j ≡ asleep o
      → Step k s (record s { pc = update (update s.pc j (trying o)) i idle })
  wake_none :
      (i : ℕ)
      → s.pc i ≡ waking
      → ((j : ℕ) → is_asleep (s.pc j) ≡ false)
      → Step k s (record s { pc = update s.pc i idle })

-- `counter_init(c, 0)`, which sets the flag to 0 too.
abbrev pub start : System
start = record { mem = record { flag = 0; val = pos 0; incs = 0; decs = 0 }; pc = λ _. idle }

pub data Reach (k : Kind) : System → Type 0 where
  begin : Reach k start
  later : {s t : System} → Reach k s → Step k s t → Reach k t

-- From the return of `lock_acquire` to the reset of the flag.
abbrev pub critical : Pc → Bool
critical (inside _) = true
critical (loaded _ _) = true
critical leaving = true
critical _ = false

-- Threads that will try the flag, or wake one that will.
abbrev pub active : Pc → Bool
active (trying _) = true
active (blocked _) = true
active waking = true
active _ = false
