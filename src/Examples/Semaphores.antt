-- ===== src/Examples/Semaphores.antt =====
-- The semaphore at concrete inputs.
use gicame.Prelude.{◌+◌, ◌*◌, ◌<◌, ◌≡◌, arith, some, List, [], ◌∷◌, done, fault}
use gicame.Semaphore.{
  eintr, Answer, zero_returned, failed, acquire, try_lock, timed_loop, Timespec,
  acquire_with_timeout,
}
use gicame.Semaphore.Waits.{interruption_is_transparent, timeout_is_kept_or_overflows}

abbrev now : Timespec
now = record { tv_sec = 1700000000; tv_nsec = 999000000 }

abbrev answers : Timespec → List Answer
answers t = failed eintr ∷ zero_returned ∷ []

interruption_is_transparent_example :
    (acquire (failed eintr ∷ failed eintr ∷ zero_returned ∷ [])
      ≡ acquire (failed eintr ∷ zero_returned ∷ []))
    × (try_lock (failed eintr ∷ failed eintr ∷ zero_returned ∷ [])
        ≡ try_lock (failed eintr ∷ zero_returned ∷ []))
    × (timed_loop (failed eintr ∷ failed eintr ∷ zero_returned ∷ [])
        ≡ timed_loop (failed eintr ∷ zero_returned ∷ []))
interruption_is_transparent_example =
    interruption_is_transparent (failed eintr ∷ []) (zero_returned ∷ [])

timeout_is_kept_or_overflows_example :
    ((until : Timespec) × (acquire_with_timeout (some now) 1500 answers
        ≡ done (timed_loop (answers until)))
      × (until.tv_nsec < 1000000000)
      × (until.tv_sec * 1000000000 + until.tv_nsec
          ≡ 1700000000 * 1000000000 + 999000000 + 1500 * 1000000))
    × (acquire_with_timeout (some now) 9223372036854775807 answers ≡ fault)
timeout_is_kept_or_overflows_example =
    timeout_is_kept_or_overflows now 1500 9223372036854775807 answers (omega arith) (omega arith)
      (omega arith) (omega arith)
