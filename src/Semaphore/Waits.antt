-- ===== src/Semaphore/Waits.antt =====
-- The waits of src/concurrency/Semaphore.cpp: interruptions, deadlines, and a handle that failed.
use gicame.Prelude.{
  ℕ, ◌+◌, ◌*◌, ◌/◌, ◌%◌, ◌^◌, ◌≤◌, ◌<◌, ◌≡◌, ◌≢◌, refl, arith, ◌==◌, ltb, none, some, List, [], ◌∷◌,
  ◌++◌, Outcome, done, threw, fault, length, Bool-cases, inl, inr, ◌⊎◌,
}
use gicame.Semaphore.{
  Errno, eintr, eagain, etimedout, eexist, einval, other_errno, Answer, zero_returned, failed,
  OpenAnswer, opened, sem_failed, InterprocessSemaphore, made, construct, open_existing,
  max_unsigned_int, acquire, try_lock, timed_loop, Timespec, deadline, acquire_with_timeout,
}

-- Signal handlers are transparent: wherever a call is interrupted by a signal handler, `acquire`,
-- `try_lock` and the loop of `acquireWithTimeout` end as without this interruption, or go on waiting.
pub interruption_is_transparent :
    (rs bs : List Answer)
    → (acquire (rs ++ failed eintr ∷ bs) ≡ acquire (rs ++ bs))
      × (try_lock (rs ++ failed eintr ∷ bs) ≡ try_lock (rs ++ bs))
      × (timed_loop (rs ++ failed eintr ∷ bs) ≡ timed_loop (rs ++ bs))
unfolding acquire try_lock timed_loop
interruption_is_transparent [] bs = (refl, refl, refl)
interruption_is_transparent (zero_returned ∷ rs) bs = (refl, refl, refl)
interruption_is_transparent (failed eintr ∷ rs) bs = interruption_is_transparent rs bs
interruption_is_transparent (failed eagain ∷ rs) bs = (refl, refl, refl)
interruption_is_transparent (failed etimedout ∷ rs) bs = (refl, refl, refl)
interruption_is_transparent (failed eexist ∷ rs) bs = (refl, refl, refl)
interruption_is_transparent (failed einval ∷ rs) bs = (refl, refl, refl)
interruption_is_transparent (failed other_errno ∷ rs) bs = (refl, refl, refl)

-- In milliseconds; it leaves room for the nanoseconds of any reading of the clock.
abbrev pub max_timeout : ℕ
max_timeout = 9223372035854

-- For a timeout of up to about 292 years on a clock that is not near its end, `acquireWithTimeout`
-- waits until a well-formed time which is later than the reading of the clock by exactly the timeout.
pub acquire_with_timeout-deadline :
    (now : Timespec) (timeout : ℕ) (wait : Timespec → List Answer)
    → now.tv_nsec < 1000000000
    → now.tv_sec < 2 ^ 62
    → timeout ≤ max_timeout
    → (until : Timespec) × (acquire_with_timeout (some now) timeout wait
        ≡ done (timed_loop (wait until)))
      × (until.tv_nsec < 1000000000)
      × (until.tv_sec * 1000000000 + until.tv_nsec
          ≡ now.tv_sec * 1000000000 + now.tv_nsec + timeout * 1000000)
unfolding acquire_with_timeout deadline
acquire_with_timeout-deadline now timeout wait ns sec short = (
  record {
    tv_sec = now.tv_sec + (now.tv_nsec + timeout * 1000000) / 1000000000;
    tv_nsec = (now.tv_nsec + timeout * 1000000) % 1000000000;
  },
  ground arith,
  omega arith,
  omega arith,
)

-- A longer timeout, such as the greatest `std::chrono::milliseconds`, overflows `long long` in the
-- conversion to nanoseconds, whatever the clock says.
pub long_timeout_overflows :
    (now : Timespec) (timeout : ℕ) (wait : Timespec → List Answer)
    → 9223372036855 ≤ timeout
    → acquire_with_timeout (some now) timeout wait ≡ fault
unfolding acquire_with_timeout deadline
long_timeout_overflows now timeout wait long = ground arith

-- For a timeout of up to about 292 years on a clock that is not near its end, `acquireWithTimeout` waits
-- until a well-formed time which is later than the reading of the clock by exactly the timeout. A
-- longer timeout, such as the greatest `std::chrono::milliseconds`, overflows `long long` in the
-- conversion to nanoseconds, whatever the clock says.
pub timeout_is_kept_or_overflows :
    (now : Timespec) (timeout long : ℕ) (wait : Timespec → List Answer)
    → now.tv_nsec < 1000000000
    → now.tv_sec < 2 ^ 62
    → timeout ≤ max_timeout
    → 9223372036855 ≤ long
    → ((until : Timespec) × (acquire_with_timeout (some now) timeout wait
          ≡ done (timed_loop (wait until)))
        × (until.tv_nsec < 1000000000)
        × (until.tv_sec * 1000000000 + until.tv_nsec
            ≡ now.tv_sec * 1000000000 + now.tv_nsec + timeout * 1000000))
      × (acquire_with_timeout (some now) long wait ≡ fault)
timeout_is_kept_or_overflows now timeout long wait ns sec short too_long = (
  acquire_with_timeout-deadline now timeout wait ns sec short,
  long_timeout_overflows now long wait too_long,
)

-- What the constructor ends in.
abbrev pub Constructed :
    List ℕ → ℕ → OpenAnswer → OpenAnswer → Outcome InterprocessSemaphore → Type 0
Constructed name n first second fault = ⊥
Constructed name n first second threw =
    (n ≡ 0)
    ⊎ ((length name ≡ 0)
        ⊎ ((max_unsigned_int < n)
            ⊎ ((first ≡ sem_failed einval)
                ⊎ ((first ≡ sem_failed eexist) × (e : Errno) × (second ≡ sem_failed e)))))
Constructed name n first second (done s) =
    (n ≢ 0)
    × (length name ≢ 0)
    × (n ≤ max_unsigned_int)
    × (((h : ℕ) × (s.handle ≡ some h)
          × ((first ≡ opened h) ⊎ ((first ≡ sem_failed eexist) × (second ≡ opened h))))
        ⊎ ((s.handle ≡ none) × (e : Errno) × (first ≡ sem_failed e) × (e ≢ eexist) × (e ≢ einval)))

-- The constructor throws on a bad argument, on an invalid name, and when the semaphore exists and
-- cannot be opened; else it has the handle of a new or of the existing semaphore, or, when `sem_open`
-- fails in any other way, returns an object without one.
pub construct-Constructed :
    (name : List ℕ) (n : ℕ) (first second : OpenAnswer)
    → Constructed name n first second (construct name n first second)
unfolding construct open_existing
construct-Constructed name n first second = elim (Bool-cases (n == 0)) [
  | inl z ↦ rw z (inl (ground arith))
  | inr some_n ↦ rw some_n (elim (Bool-cases (length name == 0)) [
    | inl z ↦ rw z (inr (inl (ground arith)))
    | inr named ↦ rw named (elim (Bool-cases (ltb max_unsigned_int n)) [
      | inl big ↦ rw big (inr (inr (inl (ground arith))))
      | inr fits ↦ rw fits (by_answers first second (ground arith) (ground arith) (ground arith))
    ])
  ])
]
  where
    by_answers :
        (a b : OpenAnswer)
        → n ≢ 0
        → length name ≢ 0
        → n ≤ max_unsigned_int
        → Constructed name n a b
            (elim a [ opened h ↦ done (made (some h)) | sem_failed e ↦ open_existing e b ])
    by_answers (opened h) b x y z = (x, y, z, inl (h, refl, inl refl))
    by_answers (sem_failed eexist) (opened h) x y z = (x, y, z, inl (h, refl, inr (refl, refl)))
    by_answers (sem_failed eexist) (sem_failed e) x y z = inr (inr (inr (inr (refl, e, refl))))
    by_answers (sem_failed einval) b x y z = inr (inr (inr (inl refl)))
    by_answers (sem_failed eintr) b x y z = (x, y, z, inr (refl, eintr, refl, (λ q. cc), (λ q. cc)))
    by_answers (sem_failed eagain) b x y z =
        (x, y, z, inr (refl, eagain, refl, (λ q. cc), (λ q. cc)))
    by_answers (sem_failed etimedout) b x y z =
        (x, y, z, inr (refl, etimedout, refl, (λ q. cc), (λ q. cc)))
    by_answers (sem_failed other_errno) b x y z =
        (x, y, z, inr (refl, other_errno, refl, (λ q. cc), (λ q. cc)))
