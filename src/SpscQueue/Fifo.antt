-- ===== src/SpscQueue/Fifo.antt =====
-- The two threads at the queue of src/concurrency/SPSCQueue.cpp, under any schedule.
use gicame.Prelude.{refl, ap, ◌∙◌, List, [], ◌∷◌, ◌>>=◌}
use gicame.SpscQueue.{System, Turn, producer_turn, consumer_turn, timeout_turn, step, run}
use gicame.SpscQueue.Inv.{IsValid, stream, Ends}
use gicame.SpscQueue.Pushes.{produce-Ends}
use gicame.SpscQueue.Pops.{consume-Ends, give_up-Ends}

step-Ends : (t : Turn) (s : System) → IsValid s → Ends (stream s) (step t s)
unfolding step
step-Ends producer_turn s v =
    produce-Ends s.queue s.consumer s.pops s.received v.stored v.consumes s.producer s.pushes
      v.produces
step-Ends consumer_turn s v =
    consume-Ends s.queue s.producer s.pushes s.received v.stored v.produces s.consumer s.pops
      v.consumes
step-Ends timeout_turn s v =
    give_up-Ends s.queue s.producer s.pushes s.received v.stored v.produces s.consumer s.pops
      v.consumes

-- Of a queue of capacity from 2 to 2 ^ 63 whose buffer has room for it, as the constructor does not make
-- one: under every schedule of the two threads, whatever
-- calls they make and whichever of them time out, no step accesses memory outside the buffer, and the
-- bytes received, those in the queue and those not yet pushed are, in this order, the ones from the
-- start: none is lost, doubled or moved.
pub run-Ends : (ts : List Turn) (s : System) → IsValid s → Ends (stream s) (run ts s)
unfolding run
run-Ends [] s v = (s, refl, v, refl)
run-Ends (t ∷ ts) s v =
    let (s', made, v', kept) = step-Ends t s v in
    let (s'', rest, v'', kept') = run-Ends ts s' v' in
    (s'', ap (λ o. o >>= run ts) made ∙ rest, v'', kept' ∙ kept)
