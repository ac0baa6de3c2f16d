-- ===== src/Interprocess/Condition.antt =====
-- src/concurrency/InterprocessSignal.cpp, the variant with a mutex and a condition variable: any number of
-- threads that call `wait` and `signal`, a pthread call at a time.
use gicame.Prelude.{
  ℕ, ◌+◌, ◌≡◌, ◌∙◌, refl, arith, Bool, true, false, Option, none, some, ◌==◌, if◌then◌else◌, ◌⊎◌,
  inl, inr,
}

pub data Pc : Type 0 where
  outside : Pc
  locking : Pc  -- `wait`, before pthread_mutex_lock
  entered : Pc  -- with the mutex, before pthread_cond_wait
  asleep : Pc
  woken : Pc  -- in pthread_cond_wait, goes back for the mutex
  leaving : Pc  -- with the mutex, before pthread_mutex_unlock
  locking_signal : Pc  -- `signal`, before pthread_mutex_lock
  signaling : Pc  -- with the mutex, before pthread_cond_signal
  signaled : Pc  -- with the mutex, before pthread_mutex_unlock

-- `returned` counts the calls of `wait` that have returned.
pub record Shared : Type 0 where
  pub holder : Option ℕ
  pub pc : ℕ → Pc
  pub returned : ℕ

abbrev pub at : (ℕ → Pc) → ℕ → Pc → ℕ → Pc
at f i p j = if i == j then p else f j

abbrev pub is_asleep : Pc → Bool
is_asleep asleep = true
is_asleep _ = false

-- A step is marked `true` where a thread calls `signal` or pthread_cond_wait returns by itself.
pub data Step (s : Shared) : Bool → Shared → Type 0 where
  call_wait : (i : ℕ) → s.pc i ≡ outside → Step s false (record s { pc = at s.pc i locking })
  lock :
      (i : ℕ)
      → s.pc i ≡ locking
      → s.holder ≡ none
      → Step s false (record s { holder = some i; pc = at s.pc i entered })
  sleep :
      (i : ℕ) → s.pc i ≡ entered → Step s false (record s { holder = none; pc = at s.pc i asleep })
  wake_by_itself : (i : ℕ) → s.pc i ≡ asleep → Step s true (record s { pc = at s.pc i woken })
  lock_again :
      (i : ℕ)
      → s.pc i ≡ woken
      → s.holder ≡ none
      → Step s false (record s { holder = some i; pc = at s.pc i leaving })
  unlock :
      (i : ℕ)
      → s.pc i ≡ leaving
      → Step s false (record s { holder = none; pc = at s.pc i outside; returned = s.returned + 1 })
  call_signal :
      (i : ℕ) → s.pc i ≡ outside → Step s true (record s { pc = at s.pc i locking_signal })
  lock_signal :
      (i : ℕ)
      → s.pc i ≡ locking_signal
      → s.holder ≡ none
      → Step s false (record s { holder = some i; pc = at s.pc i signaling })
  signal :
      (i j : ℕ)
      → s.pc i ≡ signaling
      → s.pc j ≡ asleep
      → Step s false (record s { pc = at (at s.pc i signaled) j woken })
  signal_nobody :
      (i : ℕ)
      → s.pc i ≡ signaling
      → ((j : ℕ) → is_asleep (s.pc j) ≡ false)
      → Step s false (record s { pc = at s.pc i signaled })
  unlock_signal :
      (i : ℕ)
      → s.pc i ≡ signaled
      → Step s false (record s { holder = none; pc = at s.pc i outside })

abbrev pub start : Shared
start = record { holder = none; pc = λ i. outside; returned = 0 }

pub data Reach : Shared → Type 0 where
  here : Reach start
  later : {b : Bool} {s t : Shared} → Reach s → Step s b t → Reach t

-- Runs in which no thread calls `signal` and no sleeper wakes by itself.
pub data Quiet (s : Shared) : Shared → Type 0 where
  stay : Quiet s s
  after : {t u : Shared} → Quiet s t → Step t false u → Quiet s u

-- The threads that are inside the critical section of the mutex.
abbrev is_inside : Pc → Bool
is_inside entered = true
is_inside leaving = true
is_inside signaling = true
is_inside signaled = true
is_inside _ = false

abbrev Exclusive : Shared → Type 0
Exclusive s = (i : ℕ) → is_inside (s.pc i) ≡ true → s.holder ≡ some i

Step-Exclusive : {b : Bool} {s t : Shared} → Step s b t → Exclusive s → Exclusive t
Step-Exclusive (call_wait k e) inv i h = ground (arith, inv i)
Step-Exclusive (lock k e q) inv i h = ground (arith, inv i)
Step-Exclusive (sleep k e) inv i h = ground (arith, inv i, inv k)
Step-Exclusive (wake_by_itself k e) inv i h = ground (arith, inv i)
Step-Exclusive (lock_again k e q) inv i h = ground (arith, inv i)
Step-Exclusive (unlock k e) inv i h = ground (arith, inv i, inv k)
Step-Exclusive (call_signal k e) inv i h = ground (arith, inv i)
Step-Exclusive (lock_signal k e q) inv i h = ground (arith, inv i)
Step-Exclusive (signal k m e q) inv i h = ground (arith, inv i, inv k)
Step-Exclusive (signal_nobody k e q) inv i h = ground (arith, inv i, inv k)
Step-Exclusive (unlock_signal k e) inv i h = ground (arith, inv i, inv k)

Reach-Exclusive : {s : Shared} → Reach s → Exclusive s
Reach-Exclusive here i h = cc
Reach-Exclusive (later r st) i h = Step-Exclusive st (Reach-Exclusive r) i h

-- A thread that has been woken, or is going to wake another.
abbrev pub is_stirring : Pc → Bool
is_stirring woken = true
is_stirring leaving = true
is_stirring locking_signal = true
is_stirring signaling = true
is_stirring _ = false

abbrev Still : Shared → Type 0
Still s = (i : ℕ) → is_stirring (s.pc i) ≡ false

Step-Still : {s t : Shared} → Step s false t → Still s → Still t
Step-Still (call_wait k e) q i = ground (arith, q i)
Step-Still (lock k e l) q i = ground (arith, q i)
Step-Still (sleep k e) q i = ground (arith, q i)
Step-Still (lock_again k e l) q i = absurd (ground (arith, q k))
Step-Still (unlock k e) q i = absurd (ground (arith, q k))
Step-Still (lock_signal k e l) q i = absurd (ground (arith, q k))
Step-Still (signal k m e l) q i = absurd (ground (arith, q k))
Step-Still (signal_nobody k e l) q i = absurd (ground (arith, q k))
Step-Still (unlock_signal k e) q i = ground (arith, q i)

Step-returned : {s t : Shared} → Step s false t → Still s → t.returned ≡ s.returned
Step-returned (call_wait k e) q = refl
Step-returned (lock k e l) q = refl
Step-returned (sleep k e) q = refl
Step-returned (lock_again k e l) q = refl
Step-returned (unlock k e) q = absurd (ground (arith, q k))
Step-returned (lock_signal k e l) q = refl
Step-returned (signal k m e l) q = refl
Step-returned (signal_nobody k e l) q = refl
Step-returned (unlock_signal k e) q = refl

Quiet-returned : {s t : Shared} → Quiet s t → Still s → Still t × (t.returned ≡ s.returned)
Quiet-returned stay q = (q, refl)
Quiet-returned (after r st) q =
    let (q', e) = Quiet-returned r q in (Step-Still st q', Step-returned st q' ∙ e)

-- Thread `j` has the mutex for its `signal`, nobody sleeps, and nothing else is under way.
record Early (j : ℕ) (s : Shared) : Type 0 where
  signals : s.pc j ≡ signaling
  awake : (i : ℕ) → is_asleep (s.pc i) ≡ false
  calm : (i : ℕ) → (i ≡ j) ⊎ (is_stirring (s.pc i) ≡ false)
  exclusive : Exclusive s

abbrev Settles : ℕ → Shared → Type 0
Settles j t = Early j t ⊎ Still t

Step-Settles : {s t : Shared} (j : ℕ) → Step s false t → Early j s → Settles j t
Step-Settles {s} j (call_wait k e) w = inl (record {
  signals = ground (arith, w.signals);
  awake = λ i. ground (arith, w.awake i);
  calm = λ i. ground (arith, w.calm i);
  exclusive = Step-Exclusive {s = s} (call_wait k e) w.exclusive;
})
Step-Settles {s} j (lock k e q) w = absurd (ground (arith, w.signals, w.exclusive j))
Step-Settles {s} j (sleep k e) w = absurd (ground (arith, w.signals, w.exclusive j, w.exclusive k))
Step-Settles {s} j (lock_again k e q) w = absurd (ground (arith, w.signals, w.exclusive j))
Step-Settles {s} j (unlock k e) w = absurd (ground (arith, w.signals, w.exclusive j, w.exclusive k))
Step-Settles {s} j (lock_signal k e q) w = absurd (ground (arith, w.signals, w.exclusive j))
Step-Settles {s} j (signal k m e q) w = absurd (ground (arith, w.awake m))
Step-Settles {s} j (signal_nobody k e q) w = inr (λ i. ground (arith, w.calm i, w.calm k))
Step-Settles {s} j (unlock_signal k e) w =
    absurd (ground (arith, w.signals, w.exclusive j, w.exclusive k))

Early-returned : {s t : Shared} (j : ℕ) → Step s false t → Early j s → t.returned ≡ s.returned
Early-returned j (call_wait k e) w = refl
Early-returned j (lock k e q) w = refl
Early-returned j (sleep k e) w = refl
Early-returned j (lock_again k e q) w = refl
Early-returned j (unlock k e) w = absurd (ground (arith, w.signals, w.exclusive j, w.exclusive k))
Early-returned j (lock_signal k e q) w = refl
Early-returned j (signal k m e q) w = refl
Early-returned j (signal_nobody k e q) w = refl
Early-returned j (unlock_signal k e) w = refl

Quiet-Settles :
    {s t : Shared} (j : ℕ) → Quiet s t → Early j s → Settles j t × (t.returned ≡ s.returned)
Quiet-Settles j stay w = (inl w, refl)
Quiet-Settles j (after r st) w =
    let (c, e) = Quiet-Settles j r w in
    elim c [
      | inl w' ↦ (Step-Settles j st w', Early-returned j st w' ∙ e)
      | inr q ↦ (inr (Step-Still st q), Step-returned st q ∙ e)
    ]

-- Signaling is not sticky on a condition variable, which the comment of the class says it is: when a
-- thread signals with the mutex held while nobody sleeps, and nothing else is under way, then
-- whatever calls of `wait` are made from then on, none of them returns until a thread calls `signal`
-- again or a sleeper wakes by itself.
pub early_signal_is_lost :
    {s t : Shared} (j : ℕ)
    → Reach s
    → s.pc j ≡ signaling
    → ((i : ℕ) → is_asleep (s.pc i) ≡ false)
    → ((i : ℕ) → (i ≡ j) ⊎ (is_stirring (s.pc i) ≡ false))
    → Quiet s t
    → t.returned ≡ s.returned
early_signal_is_lost j r e a c q =
    (Quiet-Settles j q
      (record { signals = e; awake = a; calm = c; exclusive = Reach-Exclusive r })).1
