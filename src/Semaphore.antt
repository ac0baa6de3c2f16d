-- ===== src/Semaphore.antt =====
-- headers/concurrency/Semaphore.h and src/concurrency/Semaphore.cpp, POSIX branch. The answers of the
-- kernel to `sem_open`, `sem_wait`, `sem_timedwait`, `sem_trywait` and `sem_post` are arguments: a
-- loop gets the list of those it will see, and `none` says that it has not left the loop when they
-- end.
pub mod Waits
use gicame.Prelude.{
  ℕ, ◌+◌, ◌-◌, ◌*◌, ◌/◌, ◌%◌, ◌^◌, Bool, true, false, ◌==◌, ltb, if◌then◌else◌, Option, none, some,
  List, [], ◌∷◌, Outcome, done, threw, fault, ◌>>=◌, length,
}

pub data Errno : Type 0 where
  eintr eagain etimedout eexist einval other_errno : Errno

pub data Answer : Type 0 where
  zero_returned : Answer
  failed : Errno → Answer

pub data OpenAnswer : Type 0 where
  opened : ℕ → OpenAnswer
  sem_failed : Errno → OpenAnswer

-- `handle` is `none` for SEM_FAILED.
pub record InterprocessSemaphore : Type 0 where
  pub handle : Option ℕ
  pub unlink_on_destruction : Bool

abbrev pub made : Option ℕ → InterprocessSemaphore
made h = record { handle = h; unlink_on_destruction = true }

-- What follows a failure of the first `sem_open`, which asks for a new semaphore.
unfoldable pub open_existing : Errno → OpenAnswer → Outcome InterprocessSemaphore
open_existing eexist (opened h) = done (made (some h))
open_existing eexist (sem_failed e) = threw
open_existing einval second = threw
open_existing _ second = done (made none)

-- `unsigned int` has 32 bits.
abbrev pub max_unsigned_int : ℕ
max_unsigned_int = 4294967295

unfoldable pub construct : List ℕ → ℕ → OpenAnswer → OpenAnswer → Outcome InterprocessSemaphore
unfolding open_existing
construct name max_concurrency first second =
    if max_concurrency == 0
    then threw
    else if length name == 0
    then threw
    else if ltb max_unsigned_int max_concurrency
    then threw
    else (elim first [ opened h ↦ done (made (some h)) | sem_failed e ↦ open_existing e second ])

unfoldable pub set_unlink_on_destruction : Bool → InterprocessSemaphore → InterprocessSemaphore
set_unlink_on_destruction b s = record s { unlink_on_destruction = b }

-- What the destructor closes and whether it unlinks the name.
unfoldable pub destroy : InterprocessSemaphore → Option (ℕ × Bool)
destroy s = elim s.handle [ none ↦ none | some h ↦ some (h, s.unlink_on_destruction) ]

unfoldable pub acquire : List Answer → Option Bool
acquire [] = none
acquire (zero_returned ∷ rs) = some true
acquire (failed eintr ∷ rs) = acquire rs
acquire (failed _ ∷ rs) = some false

unfoldable pub release : Answer → Bool
release zero_returned = true
release (failed e) = false

unfoldable pub lock : List Answer → Option (Outcome (Unit {0}))
unfolding acquire
lock rs = elim (acquire rs) [ none ↦ none | some ok ↦ some (if ok then done tt else threw) ]

unfoldable pub unlock : Answer → Outcome (Unit {0})
unfolding release
unlock a = if release a then done tt else threw

unfoldable pub try_lock : List Answer → Option (Outcome Bool)
try_lock [] = none
try_lock (zero_returned ∷ rs) = some (done true)
try_lock (failed eintr ∷ rs) = try_lock rs
try_lock (failed eagain ∷ rs) = some (done false)
try_lock (failed _ ∷ rs) = some threw

pub data AcquireResult : Type 0 where
  success timeout_expired fail : AcquireResult

-- The loop of `acquireWithTimeout`.
unfoldable pub timed_loop : List Answer → Option AcquireResult
timed_loop [] = none
timed_loop (zero_returned ∷ rs) = some success
timed_loop (failed eintr ∷ rs) = timed_loop rs
timed_loop (failed etimedout ∷ rs) = some timeout_expired
timed_loop (failed _ ∷ rs) = some fail

pub record Timespec : Type 0 where
  pub tv_sec : ℕ
  pub tv_nsec : ℕ

-- `long long` and `time_t` have 64 bits, and their overflow is undefined behaviour.
abbrev pub max_long_long : ℕ
max_long_long = 9223372036854775807

-- The absolute time for a timeout that is not negative.
unfoldable pub deadline : Timespec → ℕ → Outcome Timespec
deadline now timeout =
    let total_ns : ℕ = now.tv_nsec + timeout * 1000000 in
    if ltb max_long_long total_ns
    then fault
    else if ltb max_long_long (now.tv_sec + total_ns / 1000000000)
    then fault
    else done
        (record { tv_sec = now.tv_sec + total_ns / 1000000000; tv_nsec = total_ns % 1000000000 })

-- `clock` is what `clock_gettime` gives, and `wait` the answers of `sem_timedwait` with a deadline.
unfoldable pub acquire_with_timeout :
    Option Timespec → ℕ → (Timespec → List Answer) → Outcome (Option AcquireResult)
unfolding deadline timed_loop
acquire_with_timeout none timeout wait = done (some fail)
acquire_with_timeout (some now) timeout wait =
    deadline now timeout >>= λ until. done (timed_loop (wait until))
