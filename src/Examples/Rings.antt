-- ===== src/Examples/Rings.antt =====
-- The byte ring and its two threads on small rings.
use mathlib.Core.List.{flatten}
use gicame.Prelude.{◌≡◌, refl, arith, List, [], ◌∷◌, ◌++◌, Outcome, done, take, get_or}
use gicame.Memory.{Mem, copy_in, copy_out}
use gicame.Ring.{
  Ring, circular_buffer_size, has_elems, has_free_space, chunk_size, first_part, next_index,
  circular_buffer_free_space, load_tail, load_head, write_first, write_rest, store_head, read_first,
  read_rest, store_tail,
}
use gicame.Ring.Inv.{IsValid, contents}
use gicame.Ring.System.{
  spin, sticky, Thread, producer_thread, consumer_thread, System, run, start, step,
}
use gicame.Ring.System.Inv.{total}
use gicame.Ring.System.Deadlock.{IsStuck, deadlock_lasts}
use gicame.Ring.System.Fifo.{run_is_fifo, run_delivers}

abbrev storage : Mem
storage = record { size = 4; cell = λ i. 0 }

-- Two bytes, 7 and 8, round the end of a ring of four cells.
abbrev wrapped : Ring
wrapped = record {
  buffer = record { size = 4; cell = λ i. get_or (8 ∷ 0 ∷ 0 ∷ 7 ∷ []) i 0 };
  capacity = 4;
  head = 1;
  tail = 3;
  cached_head = 1;
  cached_tail = 3;
}

wrapped-IsValid : IsValid wrapped
unfolding circular_buffer_size
wrapped-IsValid = omega arith

abbrev twelve : Thread → List Thread
twelve t = t ∷ t ∷ t ∷ t ∷ t ∷ t ∷ t ∷ t ∷ t ∷ t ∷ t ∷ t ∷ []

abbrev schedule : List Thread
schedule = twelve consumer_thread ++ (twelve producer_thread ++ twelve consumer_thread)

abbrev begun : System
begun = start wrapped ((5 ∷ 6 ∷ []) ∷ []) (2 ∷ 1 ∷ [])

ended_or : System → Outcome System → System
ended_or s (done t) = t
ended_or s _ = s

-- Two bytes out, two in over the end of the buffer, one out.
ended : System
unfolding run step ended_or start has_elems has_free_space chunk_size first_part next_index
    circular_buffer_size circular_buffer_free_space load_tail load_head write_first write_rest
    store_head read_first read_rest store_tail copy_in copy_out
ended = ended_or begun (run spin schedule begun)

ended-received : ended.received ≡ 7 ∷ 8 ∷ 5 ∷ []
unfolding ended
ended-received = refl

run_is_fifo_example :
    (s : System) × (run spin schedule (start wrapped ((5 ∷ 6 ∷ []) ∷ []) (2 ∷ 1 ∷ [])) ≡ done s)
    × IsValid s.ring
    × (s.received ++ (contents s.ring ++ (s.pending ++ flatten s.calls))
        ≡ contents wrapped ++ flatten ((5 ∷ 6 ∷ []) ∷ []))
run_is_fifo_example =
    run_is_fifo spin schedule wrapped ((5 ∷ 6 ∷ []) ∷ []) (2 ∷ 1 ∷ []) wrapped-IsValid

popped : System
unfolding ended
popped = ended_or begun (run spin (twelve consumer_thread) (start wrapped ((5 ∷ []) ∷ []) (2 ∷ [])))

run_delivers_example :
    popped.received ≡ take (total (2 ∷ [])) (contents wrapped ++ flatten ((5 ∷ []) ∷ []))
unfolding popped
run_delivers_example =
    run_delivers spin (twelve consumer_thread) wrapped ((5 ∷ []) ∷ []) (2 ∷ []) {s = popped}
      wrapped-IsValid refl refl refl

-- A `push` of two bytes and a `pop` of three, over a ring of four cells that holds two.
blocked : System
unfolding ended
blocked = ended_or begun (
    run sticky (twelve consumer_thread ++ twelve producer_thread)
      (start wrapped ((5 ∷ 6 ∷ []) ∷ []) (3 ∷ [])))

deadlock_lasts_example :
    (s' : System) × (run sticky schedule blocked ≡ done s')
    × IsStuck s'
    × (s'.received ≡ blocked.received)
    × (s'.pending ≡ blocked.pending)
unfolding blocked
deadlock_lasts_example =
    deadlock_lasts sticky schedule blocked
      (record { producing = tt; consuming = tt; no_space = refl; no_data = refl })
