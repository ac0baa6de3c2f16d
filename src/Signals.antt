-- ===== src/Signals.antt =====
-- headers/concurrency/Signal.h: sticky two-level signals, alone and in a group that shares one mutex
-- and one condition variable. `Threads` below interleaves the waiters and signalers of one signal.
pub mod Ends
pub mod Laws
pub mod Threads
use gicame.Prelude.{
  ℕ, zero, suc, ◌+◌, ◌-◌, ◌^◌, Bool, true, false, Option, none, some, List, [], ◌∷◌, ◌==◌, leb, ltb,
  if◌then◌else◌, Outcome, done, threw,
}
use gicame.Memory.{size_mod}

-- `count` is SIG_COUNT; the level of a signal is 0 or 1. A standalone `Signal` is a group of one.
pub record SignalGroup : Type 0 where
  pub count : ℕ
  pub events : ℕ → Bool

abbrev pub no_signals : ℕ
no_signals = size_mod - 1

abbrev pub update : (ℕ → Bool) → ℕ → Bool → ℕ → Bool
update f i b j = if i == j then b else f j

unfoldable pub init : ℕ → SignalGroup
init n = record { count = n; events = λ i. false }

-- The load that finds 0, or the compare-exchange of 1 for 0.
unfoldable pub try_consume : SignalGroup → ℕ → Option SignalGroup
try_consume g i = if g.events i then some (record g { events = update g.events i false }) else none

-- `for (i; i < SIG_COUNT; ++i)` with `n` rounds left
unfoldable pub scan : ℕ → ℕ → SignalGroup → ℕ × SignalGroup
scan zero i g = (no_signals, g)
scan (suc n) i g =
    let rest = scan n (i + 1) g in
    if g.events i then (i, record g { events = update g.events i false }) else rest

unfoldable pub try_consume_one : SignalGroup → ℕ × SignalGroup
unfolding scan
try_consume_one g = scan g.count 0 g

-- What is seen of one block on the condition variable: the signals stored meanwhile, and whether
-- `wait_until` returns because its deadline has passed.
pub record Wake : Type 0 where
  pub signaled : List ℕ
  pub timed_out : Bool

abbrev pub store_all : List ℕ → (ℕ → Bool) → ℕ → Bool
store_all [] f = f
store_all (i ∷ is) f = store_all is (update f i true)

abbrev pub during : Wake → SignalGroup → SignalGroup
during w g = record g { events = store_all w.signaled g.events }

-- A call that has not returned when the list of wakes ends is still blocked.
pub data Waited : Type 0 where
  consumed : ℕ → SignalGroup → Waited
  expired : SignalGroup → Waited
  blocked : SignalGroup → Waited

abbrev pub consumed_or : Waited → Option SignalGroup → ℕ → Waited
consumed_or w none i = w
consumed_or w (some g) i = consumed i g

-- The loop of `wait(signalIndex, timeoutMs)` under the mutex; without a deadline no wake of the list
-- is `timed_out`.
unfoldable pub wait_loop : List Wake → SignalGroup → ℕ → Waited
unfolding try_consume
wait_loop [] g i = consumed_or (blocked g) (try_consume g i) i
wait_loop (w ∷ ws) g i =
    let rest = wait_loop ws (during w g) i in
    consumed_or
      (if w.timed_out
        then consumed_or (expired (during w g)) (try_consume (during w g) i) i
        else rest)
      (try_consume g i) i

-- `wait(signalIndex)`
unfoldable pub wait : SignalGroup → ℕ → List Wake → Outcome Waited
unfolding wait_loop
wait g i ws =
    if leb g.count i then threw else done (consumed_or (wait_loop ws g i) (try_consume g i) i)

-- `wait(signalIndex, timeoutMs)`
unfoldable pub timed_wait : SignalGroup → ℕ → ℕ → List Wake → Outcome Waited
unfolding wait_loop
timed_wait g i timeout ws =
    if leb g.count i
    then threw
    else done
        (consumed_or (if timeout == 0 then expired g else wait_loop ws g i) (try_consume g i) i)

abbrev pub picked_or : Waited → ℕ × SignalGroup → Waited
picked_or w (i, g) = if i == no_signals then w else consumed i g

-- The loop of `waitOne`.
unfoldable pub wait_one_loop : List Wake → SignalGroup → Waited
unfolding try_consume_one
wait_one_loop [] g = picked_or (blocked g) (try_consume_one g)
wait_one_loop (w ∷ ws) g =
    let rest = wait_one_loop ws (during w g) in
    picked_or
      (if w.timed_out
        then picked_or (expired (during w g)) (try_consume_one (during w g))
        else rest)
      (try_consume_one g)

unfoldable pub wait_one : SignalGroup → List Wake → Waited
unfolding wait_one_loop
wait_one g ws = picked_or (wait_one_loop ws g) (try_consume_one g)

unfoldable pub timed_wait_one : SignalGroup → ℕ → List Wake → Waited
unfolding wait_one_loop
timed_wait_one g timeout ws =
    picked_or (if timeout == 0 then expired g else wait_one_loop ws g) (try_consume_one g)

-- The store of `signal(signalIndex)`.
unfoldable pub signal : SignalGroup → ℕ → Outcome SignalGroup
signal g i = if leb g.count i then threw else done (record g { events = update g.events i true })

-- `SignalOfAGroup`: a group and an index that `getSignal` has checked.
unfoldable pub get_signal : SignalGroup → ℕ → Outcome ℕ
get_signal g i = if leb g.count i then threw else done i
