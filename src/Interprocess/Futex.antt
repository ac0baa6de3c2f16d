-- ===== src/Interprocess/Futex.antt =====
-- internal_headers/futex/Futex.h: any number of threads that call `fwait` and `fpost` on one futex
-- word, a shared access at a time.
use gicame.Prelude.{ℕ, ◌+◌, ◌≡◌, ◌≢◌, refl, arith, Bool, true, false, ◌==◌, if◌then◌else◌}

-- `one` is the local variable of `fwait` of this name: a failed compare-exchange writes the value that it
-- has found to it.
pub data Pc : Type 0 where
  outside : Pc
  trying : ℕ → Pc  -- head of the loop of `fwait`, by `one`
  waiting : ℕ → Pc  -- before FUTEX_WAIT, by `one`
  asleep : ℕ → Pc  -- in FUTEX_WAIT, by `one`
  posting : Pc  -- `fpost`
  waking : Pc  -- before FUTEX_WAKE

-- `posted` counts the calls of `fpost` that have set the word, `returned` those of `fwait` that have
-- returned.
pub record Futex : Type 0 where
  pub word : ℕ
  pub pc : ℕ → Pc
  pub posted : ℕ
  pub returned : ℕ

abbrev pub at : (ℕ → Pc) → ℕ → Pc → ℕ → Pc
at f i p j = if i == j then p else f j

abbrev pub is_asleep : Pc → Bool
is_asleep (asleep o) = true
is_asleep _ = false

-- FUTEX_WAIT may also return by itself, or fail with EINTR, which makes `fwait` throw.
pub data Step (s : Futex) : Futex → Type 0 where
  call_wait : (i : ℕ) → s.pc i ≡ outside → Step s (record s { pc = at s.pc i (trying 1) })
  take :
      (i o : ℕ)
      → s.pc i ≡ trying o
      → s.word ≡ o
      → Step s (record s { word = 0; pc = at s.pc i outside; returned = s.returned + 1 })
  miss :
      (i o : ℕ)
      → s.pc i ≡ trying o
      → s.word ≢ o
      → Step s (record s { pc = at s.pc i (waiting s.word) })
  again :
      (i o : ℕ) → s.pc i ≡ waiting o → s.word ≢ 0 → Step s (record s { pc = at s.pc i (trying o) })
  sleep :
      (i o : ℕ) → s.pc i ≡ waiting o → s.word ≡ 0 → Step s (record s { pc = at s.pc i (asleep o) })
  wake_by_itself : (i o : ℕ) → s.pc i ≡ asleep o → Step s (record s { pc = at s.pc i (trying o) })
  interrupt : (i o : ℕ) → s.pc i ≡ asleep o → Step s (record s { pc = at s.pc i outside })
  call_post : (i : ℕ) → s.pc i ≡ outside → Step s (record s { pc = at s.pc i posting })
  post :
      (i : ℕ)
      → s.pc i ≡ posting
      → s.word ≡ 0
      → Step s (record s { word = 1; pc = at s.pc i waking; posted = s.posted + 1 })
  post_nothing :
      (i : ℕ) → s.pc i ≡ posting → s.word ≢ 0 → Step s (record s { pc = at s.pc i outside })
  wake :
      (i j o : ℕ)
      → s.pc i ≡ waking
      → s.pc j ≡ asleep o
      → Step s (record s { pc = at (at s.pc i outside) j (trying o) })
  wake_nobody :
      (i : ℕ)
      → s.pc i ≡ waking
      → ((j : ℕ) → is_asleep (s.pc j) ≡ false)
      → Step s (record s { pc = at s.pc i outside })

-- The word that the constructor has set to 0.
abbrev pub start : Futex
start = record { word = 0; pc = λ i. outside; posted = 0; returned = 0 }

pub data Runs (s : Futex) : Futex → Type 0 where
  here : Runs s s
  later : {t u : Futex} → Runs s t → Step t u → Runs s u

-- In the loop of `fwait` and awake, or going to wake a sleeper.
abbrev pub is_active : Pc → Bool
is_active (trying o) = true
is_active (waiting o) = true
is_active waking = true
is_active _ = false

abbrev Heard : Futex → Type 0
Heard s = s.word ≢ 0 → (i : ℕ) → is_asleep (s.pc i) ≡ true → (j : ℕ) × (is_active (s.pc j) ≡ true)

Step-Heard : {s t : Futex} → Step s t → Heard s → Heard t
Step-Heard (call_wait k e) inv l i h = (k, ground arith)
Step-Heard (take k o e q) inv l i h = absurd (l refl)
Step-Heard (miss k o e q) inv l i h = (k, ground arith)
Step-Heard (again k o e q) inv l i h = (k, ground arith)
Step-Heard (sleep k o e q) inv l i h = absurd (l q)
Step-Heard (wake_by_itself k o e) inv l i h = (k, ground arith)
Step-Heard (interrupt k o e) inv l i h = let (j, n) = inv l i (ground arith) in (j, ground arith)
Step-Heard (call_post k e) inv l i h = let (j, n) = inv l i (ground arith) in (j, ground arith)
Step-Heard (post k e q) inv l i h = (k, ground arith)
Step-Heard (post_nothing k e q) inv l i h = let (j, n) = inv l i (ground arith) in (j, ground arith)
Step-Heard (wake k m o e q) inv l i h = (m, ground arith)
Step-Heard (wake_nobody k e q) inv l i h = absurd (ground (arith, q i))

-- No wake-up of the futex is lost: in every state that any number of threads reach from a word of 0,
-- while the word is set and some waiter sleeps, there is a thread that is awake in `fwait`, or one
-- that has still to wake a sleeper.
pub post_is_heard :
    {s : Futex}
    → Runs start s
    → s.word ≢ 0
    → (i : ℕ) → is_asleep (s.pc i) ≡ true
    → (j : ℕ) × (is_active (s.pc j) ≡ true)
post_is_heard here l i h = cc
post_is_heard (later r st) l i h = Step-Heard st (λ l' i' h'. post_is_heard r l' i' h') l i h

-- One `fpost` may end two calls of `fwait`: wherever the word is 0 and three threads are outside,
-- there is a run of these in which one sleeps, one posts and wakes it, the last one takes the word
-- first, and the one woken returns as well, since its failed attempt has made it expect the 0 that it
-- finds.
pub one_post_ends_two_waits :
    (s : Futex) (i j k : ℕ)
    → s.word ≡ 0
    → s.pc i ≡ outside
    → s.pc j ≡ outside
    → s.pc k ≡ outside
    → i ≢ j
    → i ≢ k
    → j ≢ k
    → (t : Futex) × Runs s t
      × (t.word ≡ 0)
      × (t.posted ≡ s.posted + 1)
      × (t.returned ≡ s.returned + 2)
      × ((m : ℕ) → t.pc m ≡ s.pc m)
one_post_ends_two_waits s i j k z pi pj pk ij ik jk =
    let r1 = later here (call_wait i pi) in
    let r2 = later r1 (miss i 1 (ground arith) (ground arith)) in
    let r3 = later r2 (sleep i s.word (ground arith) z) in
    let r4 = later r3 (call_post j (ground arith)) in
    let r5 = later r4 (post j (ground arith) z) in
    let r6 = later r5 (wake j i s.word (ground arith) (ground arith)) in
    let r7 = later r6 (call_wait k (ground arith)) in
    let r8 = later r7 (take k 1 (ground arith) refl) in
    let r9 = later r8 (take i s.word (ground arith) (ground arith)) in
    (_, r9, refl, refl, omega arith, λ m. ground arith)
