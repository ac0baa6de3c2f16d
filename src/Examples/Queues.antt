-- ===== src/Examples/Queues.antt =====
-- The queue between two threads at concrete inputs.
use gicame.Prelude.{◌≡◌, arith, true, [], ◌∷◌, fault}
use gicame.SpscQueue.{producer_turn, consumer_turn, timeout_turn, run}
use gicame.SpscQueue.Unallocated.{started, new_queue_faults}

new_queue_faults_example :
    run
      (consumer_turn ∷ producer_turn ∷ timeout_turn ∷ producer_turn ∷ [])
      (started 16 ((1 ∷ 2 ∷ []) ∷ []) (record { remaining = 2; timed = true } ∷ []))
    ≡ fault
new_queue_faults_example =
    new_queue_faults 16 (omega arith) (omega arith) 1 (2 ∷ []) []
      (consumer_turn ∷ producer_turn ∷ timeout_turn ∷ producer_turn ∷ [])
      (record { remaining = 2; timed = true } ∷ []) (omega arith)
