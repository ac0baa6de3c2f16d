-- ===== src/Ring/System/Inv.antt =====
-- The invariant of the two threads.
use mathlib.Core.List.{flatten}
use gicame.Prelude.{
  ℕ, ◌+◌, ◌≤◌, ◌<◌, ◌≡◌, sym, ◌∙◌, arith, List, [], ◌∷◌, ◌++◌, length, take, length-take, Outcome,
  done, true,
}
use gicame.Ring.{Ring, circular_buffer_size, chunk_size, first_part, has_free_space, has_elems}
use gicame.Ring.Index.{chunk_size-bounds, first_part-bounds, free_space-add-size}
use gicame.Ring.System.{
  Producer, next_push, loading_tail, waiting_free, writing_first, writing_rest, storing_head,
  signaling_present, Consumer, next_pop, loading_head, waiting_present, reading_first, reading_rest,
  storing_tail, signaling_free, System, out_chunk,
}
use gicame.Ring.Cells.{cells}
use gicame.Ring.Inv.{IsValid, contents}
use gicame.Ring.Chunks.{Written}

abbrev pub chunk_of : Ring → List ℕ → List ℕ
chunk_of r pending = take (chunk_size r.capacity (length pending)) pending

-- The snapshot of the tail shows room for the chunk.
abbrev pub HasRoom : Ring → List ℕ → Type 0
HasRoom r bs = circular_buffer_size r.capacity r.head r.cached_tail + length bs < r.capacity

-- The snapshot of the head shows the chunk.
abbrev pub HasData : Ring → ℕ → Type 0
HasData r k = k ≤ circular_buffer_size r.capacity r.cached_head r.tail

abbrev pub ProducerIsOk : Producer → Ring → List ℕ → Type 0
ProducerIsOk writing_first r pending = HasRoom r (chunk_of r pending)
ProducerIsOk writing_rest r pending =
    HasRoom r (chunk_of r pending)
    × Written r (chunk_of r pending) (first_part r.capacity r.head (length (chunk_of r pending)))
ProducerIsOk storing_head r pending =
    HasRoom r (chunk_of r pending) × Written r (chunk_of r pending) (length (chunk_of r pending))
ProducerIsOk _ r pending = Unit

abbrev pub ConsumerIsOk : Consumer → Ring → ℕ → List ℕ → Type 0
ConsumerIsOk reading_first r n staged = HasData r (chunk_size r.capacity n) × (staged ≡ [])
ConsumerIsOk reading_rest r n staged =
    HasData r (chunk_size r.capacity n)
    × (staged
        ≡ cells r.buffer.cell r.capacity r.tail
            (first_part r.capacity r.tail (chunk_size r.capacity n)))
ConsumerIsOk storing_tail r n staged =
    HasData r (chunk_size r.capacity n)
    × (staged ≡ cells r.buffer.cell r.capacity r.tail (chunk_size r.capacity n))
ConsumerIsOk _ r n staged = staged ≡ []

abbrev pub total : List ℕ → ℕ
total [] = 0
total (n ∷ ns) = n + total ns

-- `sent` are the bytes of all calls of `push`, `asked` the number of bytes of all calls of `pop`.
pub record Inv (sent : List ℕ) (asked : ℕ) (s : System) : Type 0 where
  pub valid : IsValid s.ring
  pub stream : s.received ++ (contents s.ring ++ (s.pending ++ flatten s.calls)) ≡ sent
  pub counted : length s.received + (s.remaining + total s.requests) ≡ asked
  pub producing : ProducerIsOk s.producer s.ring s.pending
  pub consuming : ConsumerIsOk s.consumer s.ring s.remaining s.staged

-- The step ends in a state that satisfies the invariant.
abbrev pub Keeps : List ℕ → ℕ → Outcome System → Type 0
Keeps sent asked o = (s' : System) × (o ≡ done s') × Inv sent asked s'

-- What the producer changes does not concern the data of the consumer, and the other way round.
pub ConsumerIsOk-producer :
    (c : Consumer) (r : Ring) (g : ℕ → ℕ) (h u n : ℕ) (staged : List ℕ)
    → IsValid r
    → ((m : ℕ)
        → m ≤ circular_buffer_size r.capacity r.cached_head r.tail
        → cells g r.capacity r.tail m ≡ cells r.buffer.cell r.capacity r.tail m)
    → ConsumerIsOk c r n staged
    → ConsumerIsOk c
        (record r { buffer = record (r.buffer) { cell = g }; head = h; cached_tail = u })
        n
        staged
ConsumerIsOk-producer reading_first r g h u n staged v same ok = ok
ConsumerIsOk-producer reading_rest r g h u n staged v same ok =
    let b = first_part-bounds r.capacity v.two v.small r.tail (chunk_size r.capacity n) v.tail_in in
    (ok.0, ok.1 ∙ sym (same _ (omega (arith, b, ok.0))))
ConsumerIsOk-producer storing_tail r g h u n staged v same ok = (ok.0, ok.1 ∙ sym (same _ ok.0))
ConsumerIsOk-producer next_pop r g h u n staged v same ok = ok
ConsumerIsOk-producer loading_head r g h u n staged v same ok = ok
ConsumerIsOk-producer waiting_present r g h u n staged v same ok = ok
ConsumerIsOk-producer signaling_free r g h u n staged v same ok = ok

pub ProducerIsOk-consumer :
    (q : Producer) (r : Ring) (t ch : ℕ) (pending : List ℕ)
    → ProducerIsOk q r pending
    → ProducerIsOk q (record r { tail = t; cached_head = ch }) pending
ProducerIsOk-consumer next_push r t ch pending ok = ok
ProducerIsOk-consumer loading_tail r t ch pending ok = ok
ProducerIsOk-consumer waiting_free r t ch pending ok = ok
ProducerIsOk-consumer writing_first r t ch pending ok = ok
ProducerIsOk-consumer writing_rest r t ch pending ok = ok
ProducerIsOk-consumer storing_head r t ch pending ok = ok
ProducerIsOk-consumer signaling_present r t ch pending ok = ok

-- The snapshot tests give what the copies need.
pub has_free_space-HasRoom :
    {r : Ring} (bs : List ℕ) → IsValid r → has_free_space r (length bs) ≡ true → HasRoom r bs
unfolding has_free_space
has_free_space-HasRoom {r} bs v e = ground (
  arith,
  free_space-add-size r.capacity v.two v.small r.head r.cached_tail v.head_in v.cached_tail_in,
)

pub has_elems-HasData : (r : Ring) (k : ℕ) → has_elems r k ≡ true → HasData r k
unfolding has_elems
has_elems-HasData r k e = ground arith

-- The chunk is no longer than the turn's bound, so it fits into an empty ring.
pub out_chunk-lt : (s : System) → IsValid s.ring → length (out_chunk s) < s.ring.capacity
out_chunk-lt s v = omega (
  arith,
  chunk_size-bounds s.ring.capacity v.two v.small (length s.pending),
  length-take (chunk_size s.ring.capacity (length s.pending)) s.pending,
)

-- What the snapshot shows as room is room.
pub room-now :
    (s : System)
    → IsValid s.ring
    → HasRoom s.ring (out_chunk s)
    → circular_buffer_size s.ring.capacity s.ring.head s.ring.tail + length (out_chunk s)
      < s.ring.capacity
room-now s v room = omega (arith, v.old_tail)

pub length-chunk :
    (s : System)
    → IsValid s.ring
    → length (out_chunk s) ≡ chunk_size s.ring.capacity (length s.pending)
length-chunk s v = omega (
  arith,
  chunk_size-bounds s.ring.capacity v.two v.small (length s.pending),
  length-take (chunk_size s.ring.capacity (length s.pending)) s.pending,
)
