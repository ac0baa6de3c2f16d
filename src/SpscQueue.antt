-- ===== src/SpscQueue.antt =====
-- src/concurrency/SPSCQueue.cpp: the queue between two threads, and the threads at it. A step is one
-- access to the shared indices or to one byte of the buffer; a schedule decides which thread makes
-- it. A wait may look again at any time: the signals only say when it is worth it.
pub mod Inv
pub mod Moves
pub mod Pushes
pub mod Pops
pub mod Fifo
pub mod Unallocated
use gicame.Prelude.{
  ℕ, ◌+◌, ◌-◌, ◌%◌, ◌==◌, Bool, true, false, ◌&&◌, not, leb, ltb, if◌then◌else◌, List, [], ◌∷◌,
  ◌++◌, length, drop, get_or, Outcome, done, fault, ◌>>=◌,
}
use gicame.Memory.{Mem, add_size, sub_size}

-- `buffer` is a vector, by its size and its elements.
pub record SpscQueue : Type 0 where
  pub head : ℕ
  pub tail : ℕ
  pub capacity : ℕ
  pub buffer : Mem

-- The constructor sets no size of the buffer.
unfoldable pub construct : ℕ → SpscQueue
construct cap = record {
  head = 0;
  tail = 0;
  capacity = cap;
  buffer = record { size = 0; cell = λ i. 0 };
}

unfoldable pub size : SpscQueue → ℕ
size q = if leb q.tail q.head then q.head - q.tail else sub_size q.capacity (q.tail - q.head)

unfoldable pub free_space : SpscQueue → ℕ
unfolding size
free_space q = sub_size (sub_size q.capacity (size q)) 1

-- `chunkSize`
unfoldable pub chunk_size : ℕ → ℕ → ℕ
chunk_size cap n = if ltb n (sub_size cap 1) then n else sub_size cap 1

-- `buffer[(h + i) % capacity] = b`
unfoldable pub store_byte : ℕ → ℕ → ℕ → SpscQueue → Outcome SpscQueue
store_byte h i b q =
    let p : ℕ = add_size h i % q.capacity in
    if q.capacity == 0
    then fault
    else if ltb p q.buffer.size
    then done (record q {
      buffer = record q.buffer { cell = λ j. if j == p then b else q.buffer.cell j };
    })
    else fault

-- `buffer[(t + i) % capacity]`
unfoldable pub load_byte : ℕ → ℕ → SpscQueue → Outcome ℕ
load_byte t i q =
    let p : ℕ = add_size t i % q.capacity in
    if q.capacity == 0 then fault else if ltb p q.buffer.size then done (q.buffer.cell p) else fault

-- `head.store` and `tail.store`
unfoldable pub store_head : ℕ → ℕ → SpscQueue → SpscQueue
store_head h n q = record q { head = add_size h n % q.capacity }

unfoldable pub store_tail : ℕ → ℕ → SpscQueue → SpscQueue
store_tail t n q = record q { tail = add_size t n % q.capacity }

-- Where a thread is in `push`: before its chunk has space, or at byte `i` of the `n` that it stores from
-- `h` on.
pub data Producer : Type 0 where
  awaiting_space : Producer
  storing : ℕ → ℕ → ℕ → Producer

-- Where a thread is in `pop`: before its chunk is there, or having loaded the bytes `got` of the `n`
-- from `t` on.
pub data Consumer : Type 0 where
  awaiting_data : Consumer
  loading : ℕ → ℕ → List ℕ → Consumer

-- A call of `pop`: how many bytes are still asked for, and whether it is the one with a timeout.
pub record Pop : Type 0 where
  pub remaining : ℕ
  pub timed : Bool

-- `pushes` are the bytes of the running call of `push` from `ptr` on and those of the calls after it;
-- `received` is what the calls of `pop` have written, less the running chunk.
pub record System : Type 0 where
  pub queue : SpscQueue
  pub producer : Producer
  pub pushes : List (List ℕ)
  pub consumer : Consumer
  pub pops : List Pop
  pub received : List ℕ

-- `push`
unfoldable pub produce : Producer → List (List ℕ) → System → Outcome System
unfolding free_space chunk_size store_byte store_head
produce p [] s = done s
produce awaiting_space ([] ∷ calls) s = done (record s { pushes = calls })
produce awaiting_space ((b ∷ bs) ∷ calls) s =
    let n : ℕ = chunk_size s.queue.capacity (length (b ∷ bs)) in
    if ltb (free_space s.queue) n
    then done s
    else done (record s { producer = storing s.queue.head n 0 })
produce (storing h n i) (bs ∷ calls) s =
    if ltb i n
    then (store_byte h i (get_or bs i 0) s.queue >>= λ q.
        done (record s { queue = q; producer = storing h n (i + 1) }))
    else done (record s {
      queue = store_head h n s.queue;
      producer = awaiting_space;
      pushes = drop n bs ∷ calls;
    })

-- The calls of `pop` that still run when the next chunk is received.
abbrev pub rest_of : Pop → ℕ → Pop
rest_of c n = record c { remaining = c.remaining - n }

-- A call of `pop` that asks for more than there may ever be returns false at once, if it has a timeout.
unfoldable pub is_refused : ℕ → Pop → Bool
is_refused cap c = c.timed && ltb (sub_size cap 1) c.remaining

-- Both `pop`
unfoldable pub consume : Consumer → List Pop → System → Outcome System
unfolding size chunk_size load_byte store_tail is_refused
consume p [] s = done s
consume awaiting_data (c ∷ calls) s =
    let n : ℕ = chunk_size s.queue.capacity c.remaining in
    if c.remaining == 0
    then done (record s { pops = calls })
    else if is_refused s.queue.capacity c
    then done (record s { pops = calls })
    else if ltb (size s.queue) n
    then done s
    else done (record s { consumer = loading s.queue.tail n [] })
consume (loading t n got) (c ∷ calls) s =
    if ltb (length got) n
    then (load_byte t (length got) s.queue >>= λ b.
        done (record s { consumer = loading t n (got ++ (b ∷ [])) }))
    else done (record s {
      queue = store_tail t n s.queue;
      consumer = awaiting_data;
      pops = rest_of c n ∷ calls;
      received = s.received ++ got;
    })

-- The last look of a `pop` with a timeout, which gives up.
unfoldable pub give_up : Consumer → List Pop → System → Outcome System
unfolding size
give_up awaiting_data (c ∷ calls) s =
    if c.timed && ltb (size s.queue) c.remaining then done (record s { pops = calls }) else done s
give_up p calls s = done s

pub data Turn : Type 0 where
  producer_turn consumer_turn timeout_turn : Turn

unfoldable pub step : Turn → System → Outcome System
unfolding produce consume give_up
step producer_turn s = produce s.producer s.pushes s
step consumer_turn s = consume s.consumer s.pops s
step timeout_turn s = give_up s.consumer s.pops s

unfoldable pub run : List Turn → System → Outcome System
unfolding step
run [] s = done s
run (t ∷ ts) s = step t s >>= run ts
