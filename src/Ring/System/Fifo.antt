-- ===== src/Ring/System/Fifo.antt =====
-- The ring as a channel between two threads: no schedule faults, loses, repeats or reorders a byte.
use mathlib.Core.List.{flatten}
use gicame.Prelude.{
  ℕ, ◌≡◌, refl, sym, ap, subst, ◌∙◌, arith, List, [], ◌∷◌, ◌++◌, length, take, done, take-append,
}
use gicame.Ring.{Ring}
use gicame.Ring.System.{
  Policy, Producer, next_push, loading_tail, waiting_free, writing_first, writing_rest,
  storing_head, signaling_present, Consumer, next_pop, loading_head, waiting_present, reading_first,
  reading_rest, storing_tail, signaling_free, System, Thread, producer_thread, consumer_thread,
  step, run, start, produce, consume,
}
use gicame.Ring.Inv.{IsValid, contents}
use gicame.Ring.System.Inv.{ProducerIsOk, ConsumerIsOk, total, Inv, Keeps}
use gicame.Ring.System.Steps.{start_push-Inv, start_pop-Inv, reload_tail-Inv, reload_head-Inv}
use gicame.Ring.System.Moves.{
  wait_data_free-Inv, wait_data_present-Inv, signal_data_present-Inv, signal_data_free-Inv,
  producer_at, consumer_at,
}
use gicame.Ring.System.Copies.{
  write_first-Keeps, write_rest-Keeps, publish-Inv, read_first-Keeps, read_rest-Keeps, release-Inv,
}

module _ {sent : List ℕ} {asked : ℕ} where
  produce-Keeps :
      (p : Policy) (q : Producer) (s : System)
      → s.producer ≡ q
      → ProducerIsOk q s.ring s.pending
      → Inv sent asked s
      → Keeps sent asked (produce p q s)
  unfolding produce
  produce-Keeps p next_push s e ok inv =
      (_, refl, start_push-Inv s.pending s.calls s refl refl e inv)
  produce-Keeps p loading_tail s e ok inv = (_, refl, reload_tail-Inv s inv)
  produce-Keeps p waiting_free s e ok inv = (_, refl, wait_data_free-Inv p s inv)
  produce-Keeps p writing_first s e ok inv = write_first-Keeps s ok inv
  produce-Keeps p writing_rest s e ok inv = write_rest-Keeps s ok.0 ok.1 inv
  produce-Keeps p storing_head s e ok inv = (_, refl, publish-Inv s ok.0 ok.1 inv)
  produce-Keeps p signaling_present s e ok inv = (
    _,
    refl,
    signal_data_present-Inv p (record s { producer = next_push })
        (producer_at next_push s.data_present s.data_free s tt inv),
  )

  consume-Keeps :
      (p : Policy) (c : Consumer) (s : System)
      → s.consumer ≡ c
      → ConsumerIsOk c s.ring s.remaining s.staged
      → Inv sent asked s
      → Keeps sent asked (consume p c s)
  unfolding consume
  consume-Keeps p next_pop s e ok inv =
      (_, refl, start_pop-Inv s.remaining s.requests s refl refl e inv)
  consume-Keeps p loading_head s e ok inv = (_, refl, reload_head-Inv s e inv)
  consume-Keeps p waiting_present s e ok inv = (_, refl, wait_data_present-Inv p s ok inv)
  consume-Keeps p reading_first s e ok inv = read_first-Keeps s ok.0 inv
  consume-Keeps p reading_rest s e ok inv = read_rest-Keeps s ok.0 ok.1 inv
  consume-Keeps p storing_tail s e ok inv = (_, refl, release-Inv s ok.0 ok.1 inv)
  consume-Keeps p signaling_free s e ok inv = (
    _,
    refl,
    signal_data_free-Inv p (record s { consumer = next_pop })
        (consumer_at next_pop s.data_present s.data_free s ok inv),
  )

  pub step-Keeps :
      (p : Policy) (t : Thread) (s : System) → Inv sent asked s → Keeps sent asked (step p t s)
  unfolding step
  step-Keeps p producer_thread s inv = produce-Keeps p s.producer s refl inv.producing inv
  step-Keeps p consumer_thread s inv = consume-Keeps p s.consumer s refl inv.consuming inv

  pub run-Keeps :
      (p : Policy) (ts : List Thread) (s : System)
      → Inv sent asked s
      → Keeps sent asked (run p ts s)
  unfolding run
  run-Keeps p [] s inv = (s, refl, inv)
  run-Keeps p (t ∷ ts) s inv =
      let (s', e, inv') = step-Keeps p t s inv in rw e (run-Keeps p ts s' inv')

pub start-Inv :
    (r : Ring) (calls : List (List ℕ)) (requests : List ℕ)
    → IsValid r
    → Inv (contents r ++ flatten calls) (total requests) (start r calls requests)
unfolding start
start-Inv r calls requests v = record {
  valid = v;
  stream = refl;
  counted = omega arith;
  producing = tt;
  consuming = refl;
}

-- From a valid ring, under every wait policy and every schedule of the two threads, no step
-- accesses memory outside the buffer, the ring stays valid, and the bytes received, those in the
-- ring and those not yet pushed are, in this order, the bytes that were in the ring and those of
-- all calls of `push`.
pub run_is_fifo :
    (p : Policy) (ts : List Thread) (r : Ring) (calls : List (List ℕ)) (requests : List ℕ)
    → IsValid r
    → (s : System) × (run p ts (start r calls requests) ≡ done s)
      × IsValid s.ring
      × (s.received ++ (contents s.ring ++ (s.pending ++ flatten s.calls))
          ≡ contents r ++ flatten calls)
run_is_fifo p ts r calls requests v =
    let (s, e, inv) = run-Keeps p ts (start r calls requests) (start-Inv r calls requests v) in
    (s, e, inv.valid, inv.stream)

-- When every call of `pop` has returned, the consumer has received exactly as many bytes as it
-- asked for, and they are the first ones of what the ring held and the producer pushed.
pub run_delivers :
    (p : Policy) (ts : List Thread) (r : Ring) (calls : List (List ℕ)) (requests : List ℕ)
    {s : System}
    → IsValid r
    → run p ts (start r calls requests) ≡ done s
    → s.remaining ≡ 0
    → s.requests ≡ []
    → s.received ≡ take (total requests) (contents r ++ flatten calls)
run_delivers p ts r calls requests {s} v e none_left no_more =
    let (s', e', inv') = run-Keeps p ts (start r calls requests) (start-Inv r calls requests v) in
    let same : s' ≡ s = cc in
    let inv : Inv (contents r ++ flatten calls) (total requests) s = subst (Inv _ _) same inv' in
    let count : total requests ≡ length s.received = omega (arith, inv.counted, ap total no_more) in
    sym (
      ap (λ n. take n (contents r ++ flatten calls)) count
      ∙ ap (take (length s.received)) (sym inv.stream)
      ∙ take-append s.received (contents s.ring ++ (s.pending ++ flatten s.calls)))
