-- ===== src/Ring/System.antt =====
-- A producer and a consumer thread over one ring (headers/concurrency/ByteRing.h, `push` and `pop`),
-- with the wait policies of headers/concurrency/InterprocessQueue.h. A step is one access to
-- shared memory; a schedule decides which thread makes it.
pub mod Inv
pub mod Steps
pub mod Moves
pub mod Copies
pub mod Fifo
pub mod Deadlock
use gicame.Prelude.{
  ℕ, zero, suc, ◌+◌, ◌-◌, Bool, true, false, List, [], ◌∷◌, ◌++◌, if◌then◌else◌, length, take, drop,
  Outcome, done, ◌>>=◌,
}
use gicame.Ring.{
  Ring, chunk_size, has_free_space, has_elems, load_tail, load_head, write_first, write_rest,
  store_head, read_first, read_rest, store_tail,
}

-- `spin`: SLIntPrQueueLockPolicy. `sticky`: IntPrQueueLockPolicy over a signal that stays set until
-- a wait takes it. `condvar`: the same over the POSIX condition variable of InterprocessSignal.
pub data Policy : Type 0 where
  spin sticky condvar : Policy

-- The program counter of `push`.
pub data Producer : Type 0 where
  next_push : Producer  -- head of the loop, or between two calls
  loading_tail : Producer
  waiting_free : Producer
  writing_first : Producer
  writing_rest : Producer
  storing_head : Producer
  signaling_present : Producer

-- The program counter of `pop`.
pub data Consumer : Type 0 where
  next_pop : Consumer
  loading_head : Consumer
  waiting_present : Consumer
  reading_first : Consumer
  reading_rest : Consumer
  storing_tail : Consumer
  signaling_free : Consumer

-- `pending` is what the running call of `push` has still to publish, `calls` the calls after it.
-- `remaining` is the `dataSize` of the running `pop`, `requests` the sizes of the calls after it,
-- `received` what all calls have written to their buffers, less the running chunk, `staged`.
pub record System : Type 0 where
  pub ring : Ring
  pub producer : Producer
  pub pending : List ℕ
  pub calls : List (List ℕ)
  pub consumer : Consumer
  pub remaining : ℕ
  pub requests : List ℕ
  pub staged : List ℕ
  pub received : List ℕ
  pub data_present : Bool
  pub data_free : Bool

abbrev pub out_chunk : System → List ℕ
out_chunk s = take (chunk_size s.ring.capacity (length s.pending)) s.pending

abbrev pub in_chunk : System → ℕ
in_chunk s = chunk_size s.ring.capacity s.remaining

pub start_push : List ℕ → List (List ℕ) → System → System
start_push [] [] s = s
start_push [] (c ∷ cs) s = record s { pending = c; calls = cs }
start_push (b ∷ bs) cs s = record s {
  producer = if has_free_space s.ring (length (out_chunk s)) then writing_first else loading_tail;
}

pub start_pop : ℕ → List ℕ → System → System
start_pop zero [] s = s
start_pop zero (n ∷ ns) s = record s { remaining = n; requests = ns }
start_pop (suc n) ns s = record s {
  consumer = if has_elems s.ring (in_chunk s) then reading_first else loading_head;
}

-- `waitFreeSpace` after the snapshot has proved too old: load, test.
pub reload_tail : System → System
reload_tail s =
    let r = load_tail s.ring in
    record s {
      ring = r;
      producer = if has_free_space r (length (out_chunk s)) then writing_first else waiting_free;
    }

pub reload_head : System → System
reload_head s =
    let r = load_head s.ring in
    record s {
      ring = r;
      consumer = if has_elems r (in_chunk s) then reading_first else waiting_present;
    }

-- `waitDataFree` and `waitDataPresent`: a thread that is not woken stays where it is.
pub wait_data_free : Policy → System → System
wait_data_free spin s = record s { producer = loading_tail }
wait_data_free _ s =
    if s.data_free then record s { data_free = false; producer = loading_tail } else s

pub wait_data_present : Policy → System → System
wait_data_present spin s = record s { consumer = loading_head }
wait_data_present _ s =
    if s.data_present then record s { data_present = false; consumer = loading_head } else s

pub is_waiting_free : Producer → Bool
is_waiting_free waiting_free = true
is_waiting_free _ = false

pub is_waiting_present : Consumer → Bool
is_waiting_present waiting_present = true
is_waiting_present _ = false

-- A signal on a condition variable wakes a thread that waits, and is lost on any other.
pub signal_data_present : Policy → System → System
signal_data_present spin s = s
signal_data_present sticky s = record s { data_present = true }
signal_data_present condvar s =
    if is_waiting_present s.consumer then record s { data_present = true } else s

pub signal_data_free : Policy → System → System
signal_data_free spin s = s
signal_data_free sticky s = record s { data_free = true }
signal_data_free condvar s = if is_waiting_free s.producer then record s { data_free = true } else s

pub publish : System → System
publish s =
    let k = length (out_chunk s) in
    record s {
      ring = store_head s.ring k;
      pending = drop k s.pending;
      producer = signaling_present;
    }

pub release : System → System
release s = record s {
  ring = store_tail s.ring (in_chunk s);
  remaining = s.remaining - in_chunk s;
  received = s.received ++ s.staged;
  staged = [];
  consumer = signaling_free;
}

pub produce : Policy → Producer → System → Outcome System
produce p next_push s = done (start_push s.pending s.calls s)
produce p loading_tail s = done (reload_tail s)
produce p waiting_free s = done (wait_data_free p s)
produce p writing_first s = do
  r ← write_first s.ring (out_chunk s)
  done (record s { ring = r; producer = writing_rest })
produce p writing_rest s = do
  r ← write_rest s.ring (out_chunk s)
  done (record s { ring = r; producer = storing_head })
produce p storing_head s = done (publish s)
produce p signaling_present s = done (signal_data_present p (record s { producer = next_push }))

pub consume : Policy → Consumer → System → Outcome System
consume p next_pop s = done (start_pop s.remaining s.requests s)
consume p loading_head s = done (reload_head s)
consume p waiting_present s = done (wait_data_present p s)
consume p reading_first s = do
  bs ← read_first s.ring (in_chunk s)
  done (record s { staged = bs; consumer = reading_rest })
consume p reading_rest s = do
  bs ← read_rest s.ring (in_chunk s)
  done (record s { staged = s.staged ++ bs; consumer = storing_tail })
consume p storing_tail s = done (release s)
consume p signaling_free s = done (signal_data_free p (record s { consumer = next_pop }))

pub data Thread : Type 0 where
  producer_thread consumer_thread : Thread

unfoldable pub step : Policy → Thread → System → Outcome System
unfolding produce consume start_push start_pop reload_tail reload_head wait_data_free
    wait_data_present signal_data_present signal_data_free publish release is_waiting_free
    is_waiting_present
step p producer_thread s = produce p s.producer s
step p consumer_thread s = consume p s.consumer s

unfoldable pub run : Policy → List Thread → System → Outcome System
run p [] s = done s
run p (t ∷ ts) s = step p t s >>= λ s'. run p ts s'

-- Both threads before their first call.
unfoldable pub start : Ring → List (List ℕ) → List ℕ → System
start r calls requests = record {
  ring = r;
  producer = next_push;
  pending = [];
  calls = calls;
  consumer = next_pop;
  remaining = 0;
  requests = requests;
  staged = [];
  received = [];
  data_present = false;
  data_free = false;
}
