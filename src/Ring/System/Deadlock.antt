-- ===== src/Ring/System/Deadlock.antt =====
-- Two threads of headers/concurrency/ByteRing.h that wait for each other: a chunk is waited for as a
-- whole, so a ring can hold too little for the chunk of a `pop` and too much for that of a `push`.
use gicame.Prelude.{◌≡◌, refl, ◌∙◌, List, [], ◌∷◌, Bool, false, length, Outcome, done, if_split}
use gicame.Ring.{has_free_space, has_elems, load_tail, load_head}
use gicame.Ring.System.{
  Policy, spin, Producer, loading_tail, waiting_free, Consumer, loading_head, waiting_present,
  System, out_chunk, in_chunk, Thread, producer_thread, consumer_thread, step, run, produce,
  consume, reload_tail, reload_head, wait_data_free, wait_data_present,
}

abbrev pub WaitsForSpace : Producer → Type 0
WaitsForSpace loading_tail = Unit
WaitsForSpace waiting_free = Unit
WaitsForSpace _ = ⊥

abbrev pub WaitsForData : Consumer → Type 0
WaitsForData loading_head = Unit
WaitsForData waiting_present = Unit
WaitsForData _ = ⊥

-- Both threads wait, and what they wait for is not there, whatever they load.
pub record IsStuck (s : System) : Type 0 where
  pub producing : WaitsForSpace s.producer
  pub consuming : WaitsForData s.consumer
  pub no_space : has_free_space (load_tail s.ring) (length (out_chunk s)) ≡ false
  pub no_data : has_elems (load_head s.ring) (in_chunk s) ≡ false

-- The step leaves the threads stuck, and moves no byte.
abbrev StaysStuck : System → System → Type 0
StaysStuck s s' = IsStuck s' × (s'.received ≡ s.received) × (s'.pending ≡ s.pending)

reload_tail-StaysStuck : (s : System) → IsStuck s → StaysStuck s (reload_tail s)
unfolding reload_tail load_tail has_elems load_head has_free_space
reload_tail-StaysStuck s k = (
  record {
    producing = rw k.no_space tt;
    consuming = k.consuming;
    no_space = k.no_space;
    no_data = k.no_data;
  },
  refl,
  refl,
)

reload_head-StaysStuck : (s : System) → IsStuck s → StaysStuck s (reload_head s)
unfolding reload_head load_tail has_elems load_head has_free_space
reload_head-StaysStuck s k = (
  record {
    producing = k.producing;
    consuming = rw k.no_data tt;
    no_space = k.no_space;
    no_data = k.no_data;
  },
  refl,
  refl,
)

stays : (s : System) → IsStuck s → StaysStuck s s
stays s k = (k, refl, refl)

producer_at-StaysStuck :
    (s : System) (a b : Bool)
    → IsStuck s
    → StaysStuck s (record s { producer = loading_tail; data_present = a; data_free = b })
producer_at-StaysStuck s a b k = (
  record { producing = tt; consuming = k.consuming; no_space = k.no_space; no_data = k.no_data },
  refl,
  refl,
)

consumer_at-StaysStuck :
    (s : System) (a b : Bool)
    → IsStuck s
    → StaysStuck s (record s { consumer = loading_head; data_present = a; data_free = b })
consumer_at-StaysStuck s a b k = (
  record { producing = k.producing; consuming = tt; no_space = k.no_space; no_data = k.no_data },
  refl,
  refl,
)

wait_data_free-StaysStuck :
    (p : Policy) (s : System) → IsStuck s → StaysStuck s (wait_data_free p s)
unfolding wait_data_free
wait_data_free-StaysStuck spin s k = producer_at-StaysStuck s s.data_present s.data_free k
wait_data_free-StaysStuck _ s k =
    if_split (StaysStuck s) s.data_free _ s (λ e. producer_at-StaysStuck s s.data_present false k)
      (λ e. stays s k)

wait_data_present-StaysStuck :
    (p : Policy) (s : System) → IsStuck s → StaysStuck s (wait_data_present p s)
unfolding wait_data_present
wait_data_present-StaysStuck spin s k = consumer_at-StaysStuck s s.data_present s.data_free k
wait_data_present-StaysStuck _ s k =
    if_split (StaysStuck s) s.data_present _ s (λ e. consumer_at-StaysStuck s false s.data_free k)
      (λ e. stays s k)

abbrev Ends : System → Outcome System → Type 0
Ends s o = (s' : System) × (o ≡ done s') × StaysStuck s s'

produce-Ends :
    (p : Policy) (q : Producer) (s : System) → WaitsForSpace q → IsStuck s → Ends s (produce p q s)
unfolding produce
produce-Ends p loading_tail s w k = (_, refl, reload_tail-StaysStuck s k)
produce-Ends p waiting_free s w k = (_, refl, wait_data_free-StaysStuck p s k)
produce-Ends p _ s w k = absurd w

consume-Ends :
    (p : Policy) (c : Consumer) (s : System) → WaitsForData c → IsStuck s → Ends s (consume p c s)
unfolding consume
consume-Ends p loading_head s w k = (_, refl, reload_head-StaysStuck s k)
consume-Ends p waiting_present s w k = (_, refl, wait_data_present-StaysStuck p s k)
consume-Ends p _ s w k = absurd w

step-Ends : (p : Policy) (t : Thread) (s : System) → IsStuck s → Ends s (step p t s)
unfolding step
step-Ends p producer_thread s k = produce-Ends p s.producer s k.producing k
step-Ends p consumer_thread s k = consume-Ends p s.consumer s k.consuming k

-- If the producer waits for space and the consumer for data, and neither is there, then under every
-- wait policy and every schedule both wait for ever: no byte is received or published any more.
pub deadlock_lasts :
    (p : Policy) (ts : List Thread) (s : System)
    → IsStuck s
    → (s' : System) × (run p ts s ≡ done s')
      × IsStuck s'
      × (s'.received ≡ s.received)
      × (s'.pending ≡ s.pending)
unfolding run
deadlock_lasts p [] s k = (s, refl, k, refl, refl)
deadlock_lasts p (t ∷ ts) s k =
    let (s', e, now) = step-Ends p t s k in
    let (s'', e', k'', er', ep') = deadlock_lasts p ts s' now.0 in
    (s'', rw e e', k'', er' ∙ now.1, ep' ∙ now.2)
