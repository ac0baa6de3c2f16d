-- ===== src/Examples/Threading.antt =====
-- The task executor and the signals at concrete inputs.
use gicame.Prelude.{ℕ, ◌≡◌, refl, true, false, some, List, [], ◌∷◌}
use gicame.Executor.{
  Task, returns, throws, submit_void_task, Turn, worker_turn, client_turn, worker_wakes, rouses,
  run, start, asleep_submit,
}
use gicame.Executor.Lost.{second_submit_sleeps}
use gicame.Executor.Progress.{waited_tasks_are_served}
use gicame.Executor.Stages.{script, outcomes}
use gicame.Executor.Phases.{Serves}
use gicame.Signals.{SignalGroup, update, Wake, try_consume_one}
use gicame.Signals.Threads
use gicame.Signals.Threads.{Signal, is_parked, will_notify, signal_is_heard}

abbrev good : Task
good = record { name = 1; ending = returns }

abbrev bad : Task
bad = record { name = 2; ending = throws 7 }

abbrev tasks : List Task
tasks = good ∷ bad ∷ []

abbrev turns : List Turn
turns =
    client_turn ∷ client_turn ∷ worker_turn ∷ worker_turn ∷ worker_turn ∷ worker_turn ∷ worker_wakes
    ∷ client_turn ∷ []

second_submit_sleeps_example :
    let s =
      run
        (client_turn ∷ client_turn ∷ client_turn ∷ turns)
        (start (submit_void_task good ∷ submit_void_task bad ∷ [])) in
    (s.client ≡ asleep_submit) × (s.calls ≡ submit_void_task bad ∷ [])
second_submit_sleeps_example = second_submit_sleeps good bad [] turns refl

waited_tasks_are_served_example :
    Serves tasks (run turns (start (script tasks)))
    × ((more : List Turn) × (rouses more ≡ false)
        × ((run more (run turns (start (script tasks)))).log ≡ tasks)
        × ((run more (run turns (start (script tasks)))).results ≡ outcomes tasks))
waited_tasks_are_served_example = waited_tasks_are_served tasks turns

-- Signals 1 and 2 of three are set.
abbrev three : SignalGroup
three = record { count = 3; events = update (update (λ i. false) 1 true) 2 true }

abbrev late : List Wake
late =
    record { signaled = 1 ∷ []; timed_out = false }
    ∷ record { signaled = 0 ∷ []; timed_out = true }
    ∷ []

lowest_is_taken : (try_consume_one three).0 ≡ 1
unfolding try_consume_one
lowest_is_taken = refl

-- Thread 1 has found the level at 0 and is going to sleep while thread 0 stores it.
abbrev crossing : Signal
crossing = record {
  level = true;
  holder = some 1;
  pc =
      Threads.at
        (Threads.at
          (Threads.at
            (Threads.at
              (Threads.at (Threads.at (λ i. Threads.outside) 1 Threads.trying) 1 Threads.locking) 1
              Threads.checking)
            1 Threads.parking)
          0 Threads.storing)
        0 Threads.stored;
}

crossing_reached : Threads.Reach crossing
crossing_reached =
    Threads.later
      (Threads.later
        (Threads.later
          (Threads.later
            (Threads.later (Threads.later Threads.here (Threads.call_wait 1 refl))
              (Threads.miss_fast 1 refl refl))
            (Threads.lock_wait 1 refl refl))
          (Threads.miss 1 refl refl))
        (Threads.call_signal 0 refl))
      (Threads.store 0 refl)

signal_is_heard_example : (j : ℕ) × (will_notify (crossing.pc j) ≡ true)
signal_is_heard_example = signal_is_heard crossing_reached refl 1 refl
