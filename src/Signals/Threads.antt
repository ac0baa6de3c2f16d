-- ===== src/Signals/Threads.antt =====
-- Any number of threads that call `wait` and `signal` of one Signal (headers/concurrency/Signal.h), a
-- shared access at a time. A waiter asleep on the condition variable may also wake by itself.
use gicame.Prelude.{ℕ, ◌≡◌, arith, Bool, true, false, Option, none, some, ◌==◌, if◌then◌else◌}

pub data Pc : Type 0 where
  outside : Pc
  trying : Pc  -- `wait`, fast path
  locking : Pc
  checking : Pc  -- head of the loop, with the mutex
  parking : Pc  -- has found 0, with the mutex
  asleep : Pc
  returning : Pc  -- has taken the signal, with the mutex
  storing : Pc  -- `signal`
  stored : Pc
  notifying : Pc  -- with the mutex
  notified : Pc  -- with the mutex

pub record Signal : Type 0 where
  pub level : Bool
  pub holder : Option ℕ
  pub pc : ℕ → Pc

abbrev pub at : (ℕ → Pc) → ℕ → Pc → ℕ → Pc
at f i p j = if i == j then p else f j

-- `notify_all`: who sleeps goes back for the mutex.
abbrev pub woken : Pc → Pc
woken asleep = locking
woken p = p

pub data Step (s : Signal) : Signal → Type 0 where
  call_wait : (i : ℕ) → s.pc i ≡ outside → Step s (record s { pc = at s.pc i trying })
  take_fast :
      (i : ℕ)
      → s.pc i ≡ trying
      → s.level ≡ true
      → Step s (record s { level = false; pc = at s.pc i outside })
  miss_fast :
      (i : ℕ) → s.pc i ≡ trying → s.level ≡ false → Step s (record s { pc = at s.pc i locking })
  lock_wait :
      (i : ℕ)
      → s.pc i ≡ locking
      → s.holder ≡ none
      → Step s (record s { holder = some i; pc = at s.pc i checking })
  take :
      (i : ℕ)
      → s.pc i ≡ checking
      → s.level ≡ true
      → Step s (record s { level = false; pc = at s.pc i returning })
  miss :
      (i : ℕ) → s.pc i ≡ checking → s.level ≡ false → Step s (record s { pc = at s.pc i parking })
  park : (i : ℕ) → s.pc i ≡ parking → Step s (record s { holder = none; pc = at s.pc i asleep })
  wake : (i : ℕ) → s.pc i ≡ asleep → Step s (record s { pc = at s.pc i locking })
  unlock_wait :
      (i : ℕ) → s.pc i ≡ returning → Step s (record s { holder = none; pc = at s.pc i outside })
  call_signal : (i : ℕ) → s.pc i ≡ outside → Step s (record s { pc = at s.pc i storing })
  store : (i : ℕ) → s.pc i ≡ storing → Step s (record s { level = true; pc = at s.pc i stored })
  lock_signal :
      (i : ℕ)
      → s.pc i ≡ stored
      → s.holder ≡ none
      → Step s (record s { holder = some i; pc = at s.pc i notifying })
  notify :
      (i : ℕ) → s.pc i ≡ notifying → Step s (record s { pc = at (λ j. woken (s.pc j)) i notified })
  unlock_signal :
      (i : ℕ) → s.pc i ≡ notified → Step s (record s { holder = none; pc = at s.pc i outside })

abbrev pub start : Signal
start = record { level = false; holder = none; pc = λ i. outside }

pub data Reach : Signal → Type 0 where
  here : Reach start
  later : {s t : Signal} → Reach s → Step s t → Reach t

abbrev is_inside : Pc → Bool
is_inside checking = true
is_inside parking = true
is_inside returning = true
is_inside notifying = true
is_inside notified = true
is_inside _ = false

-- Has found the level at 0 and will sleep, or sleeps.
abbrev pub is_parked : Pc → Bool
is_parked parking = true
is_parked asleep = true
is_parked _ = false

-- Has stored the level and has still to notify.
abbrev pub will_notify : Pc → Bool
will_notify stored = true
will_notify notifying = true
will_notify _ = false

record Inv (s : Signal) : Type 0 where
  exclusive : (i : ℕ) → is_inside (s.pc i) ≡ true → s.holder ≡ some i
  heard :
      s.level ≡ true → (i : ℕ) → is_parked (s.pc i) ≡ true → (j : ℕ) × (will_notify (s.pc j) ≡ true)

Step-exclusive :
    {s t : Signal} → Step s t → Inv s → (i : ℕ) → is_inside (t.pc i) ≡ true → t.holder ≡ some i
Step-exclusive (call_wait k e) inv i h = ground (arith, inv.exclusive i)
Step-exclusive (take_fast k e l) inv i h = ground (arith, inv.exclusive i)
Step-exclusive (miss_fast k e l) inv i h = ground (arith, inv.exclusive i)
Step-exclusive (lock_wait k e l) inv i h = ground (arith, inv.exclusive i)
Step-exclusive (take k e l) inv i h = ground (arith, inv.exclusive i, inv.exclusive k)
Step-exclusive (miss k e l) inv i h = ground (arith, inv.exclusive i, inv.exclusive k)
Step-exclusive (park k e) inv i h = ground (arith, inv.exclusive i, inv.exclusive k)
Step-exclusive (wake k e) inv i h = ground (arith, inv.exclusive i)
Step-exclusive (unlock_wait k e) inv i h = ground (arith, inv.exclusive i, inv.exclusive k)
Step-exclusive (call_signal k e) inv i h = ground (arith, inv.exclusive i)
Step-exclusive (store k e) inv i h = ground (arith, inv.exclusive i)
Step-exclusive (lock_signal k e l) inv i h = ground (arith, inv.exclusive i)
Step-exclusive (notify k e) inv i h = ground (arith, inv.exclusive i, inv.exclusive k)
Step-exclusive (unlock_signal k e) inv i h = ground (arith, inv.exclusive i, inv.exclusive k)

abbrev Heard : Signal → Type 0
Heard t =
    t.level ≡ true → (i : ℕ) → is_parked (t.pc i) ≡ true → (j : ℕ) × (will_notify (t.pc j) ≡ true)

Step-Heard : {s t : Signal} → Step s t → Inv s → Heard t
Step-Heard (call_wait k e) inv l i h =
    let (j, n) = inv.heard l i (ground arith) in (j, ground arith)
Step-Heard (take_fast k e q) inv l i h = cc
Step-Heard (miss_fast k e q) inv l i h = cc
Step-Heard (lock_wait k e q) inv l i h =
    let (j, n) = inv.heard l i (ground arith) in (j, ground arith)
Step-Heard (take k e q) inv l i h = cc
Step-Heard (miss k e q) inv l i h = cc
Step-Heard (park k e) inv l i h = let (j, n) = inv.heard l i (ground arith) in (j, ground arith)
Step-Heard (wake k e) inv l i h = let (j, n) = inv.heard l i (ground arith) in (j, ground arith)
Step-Heard (unlock_wait k e) inv l i h =
    let (j, n) = inv.heard l i (ground arith) in (j, ground arith)
Step-Heard (call_signal k e) inv l i h =
    let (j, n) = inv.heard l i (ground arith) in (j, ground arith)
Step-Heard (store k e) inv l i h = (k, ground arith)
Step-Heard (lock_signal k e q) inv l i h = (k, ground arith)
Step-Heard (notify k e) inv l i h = absurd (ground (arith, inv.exclusive i, inv.exclusive k))
Step-Heard (unlock_signal k e) inv l i h =
    let (j, n) = inv.heard l i (ground arith) in (j, ground arith)

Reach-Inv : {s : Signal} → Reach s → Inv s
Reach-Inv here = record { exclusive = λ i h. cc; heard = λ l i h. cc }
Reach-Inv (later r st) =
    let inv = Reach-Inv r in record { exclusive = Step-exclusive st inv; heard = Step-Heard st inv }

-- No wake-up is lost: in every reachable state, if the signal is set while a waiter sleeps, or has
-- found it at 0 and is going to sleep, some thread has stored the signal and has still to notify.
pub signal_is_heard :
    {s : Signal}
    → Reach s
    → s.level ≡ true
    → (i : ℕ) → is_parked (s.pc i) ≡ true
    → (j : ℕ) × (will_notify (s.pc j) ≡ true)
signal_is_heard r = (Reach-Inv r).heard
