-- ===== src/Examples/Waiters.antt =====
-- A signal between processes at concrete inputs: as a futex, and as a condition variable.
use gicame.Prelude.{ℕ, ◌≡◌, refl, arith, true, false, some, none}
use gicame.Interprocess.Futex
use gicame.Interprocess.Futex.{is_active, post_is_heard, one_post_ends_two_waits}
use gicame.Interprocess.Condition
use gicame.Interprocess.Condition.{early_signal_is_lost}

-- Thread 1 sleeps, and thread 0 has set the word.
abbrev set_word : Futex.Futex
set_word = record {
  word = 1;
  pc =
      Futex.at
        (Futex.at
          (Futex.at
            (Futex.at (Futex.at (λ i. Futex.outside) 1 (Futex.trying 1)) 1 (Futex.waiting 0)) 1
            (Futex.asleep 0))
          0 Futex.posting)
        0 Futex.waking;
  posted = 1;
  returned = 0;
}

set_word_reached : Futex.Runs Futex.start set_word
set_word_reached =
    Futex.later
      (Futex.later
        (Futex.later
          (Futex.later (Futex.later Futex.here (Futex.call_wait 1 refl))
            (Futex.miss 1 1 refl (omega arith)))
          (Futex.sleep 1 0 refl refl))
        (Futex.call_post 0 refl))
      (Futex.post 0 refl refl)

post_is_heard_example : (j : ℕ) × (is_active (set_word.pc j) ≡ true)
post_is_heard_example = post_is_heard set_word_reached (omega arith) 1 refl

one_post_ends_two_waits_example :
    (t : Futex.Futex) × Futex.Runs Futex.start t
    × (t.word ≡ 0)
    × (t.posted ≡ 1)
    × (t.returned ≡ 2)
    × ((m : ℕ) → t.pc m ≡ Futex.outside)
one_post_ends_two_waits_example =
    one_post_ends_two_waits Futex.start 0 1 2 refl refl refl refl (omega arith) (omega arith)
      (omega arith)

-- Thread 0 signals while nobody waits, and thread 1 sleeps after that.
abbrev signals_early : Condition.Shared
signals_early = record {
  holder = some 0;
  pc =
      Condition.at (Condition.at (λ i. Condition.outside) 0 Condition.locking_signal) 0
        Condition.signaling;
  returned = 0;
}

signals_early_reached : Condition.Reach signals_early
signals_early_reached =
    Condition.later (Condition.later Condition.here (Condition.call_signal 0 refl))
      (Condition.lock_signal 0 refl refl)

abbrev waits_late : Condition.Shared
waits_late = record {
  holder = none;
  pc =
      Condition.at
        (Condition.at
          (Condition.at
            (Condition.at (Condition.at signals_early.pc 0 Condition.signaled) 0 Condition.outside)
            1 Condition.locking)
          1 Condition.entered)
        1 Condition.asleep;
  returned = 0;
}

nobody_asleep : (i : ℕ) → Condition.is_asleep (signals_early.pc i) ≡ false
nobody_asleep i = ground arith

waits_late_reached : Condition.Quiet signals_early waits_late
waits_late_reached =
    Condition.after
      (Condition.after
        (Condition.after
          (Condition.after
            (Condition.after Condition.stay (Condition.signal_nobody 0 refl nobody_asleep))
            (Condition.unlock_signal 0 refl))
          (Condition.call_wait 1 refl))
        (Condition.lock 1 refl refl))
      (Condition.sleep 1 refl)

early_signal_is_lost_example : waits_late.returned ≡ signals_early.returned
early_signal_is_lost_example =
    early_signal_is_lost 0 signals_early_reached refl nobody_asleep (λ i. ground arith)
      waits_late_reached
