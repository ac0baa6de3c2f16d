-- ===== src/Ring.antt =====
-- The byte ring of headers/concurrency/ByteRing.h over the descriptor of
-- headers/concurrency/implementation_details/CircularBuffer.h: the state of the two sides and one
-- function for each piece of `push` and `pop` between two accesses to shared memory.
pub mod Index
pub mod System
pub mod Cells
pub mod Inv
pub mod Chunks
pub mod Valid
use gicame.Prelude.{
  ℕ, ◌+◌, ◌-◌, ◌<◌, Bool, true, false, List, [], ◌∷◌, ◌++◌, ◌==◌, leb, ltb, if◌then◌else◌, length,
  take, drop, Outcome, done, threw, ◌>>=◌, not,
}
use gicame.Memory.{size_mod, add_size, sub_size, Mem, copy_in, copy_out}

-- The shared header and buffer, and the snapshot that each side keeps of the other's index. Only
-- the consumer touches `cached_head` and only the producer `cached_tail`, so that one record
-- stands for one object that both use as for the two objects of two processes.
pub record Ring : Type 0 where
  pub buffer : Mem
  pub capacity : ℕ
  pub head : ℕ
  pub tail : ℕ
  pub cached_head : ℕ
  pub cached_tail : ℕ

unfoldable pub circular_buffer_size : ℕ → ℕ → ℕ → ℕ
circular_buffer_size cap h t = if leb t h then h - t else sub_size cap (t - h)

unfoldable pub circular_buffer_free_space : ℕ → ℕ → ℕ → ℕ
unfolding circular_buffer_size
circular_buffer_free_space cap h t = sub_size (sub_size cap (circular_buffer_size cap h t)) 1

unfoldable pub size : Ring → ℕ
size r = circular_buffer_size r.capacity r.head r.tail

unfoldable pub free_space : Ring → ℕ
free_space r = circular_buffer_free_space r.capacity r.head r.tail

pub data Role : Type 0 where
  master slave : Role

-- `initRing`, over the indices that it finds in the header
unfoldable pub init_ring : Mem → ℕ → ℕ → ℕ → Role → Outcome Ring
init_ring buf cap head tail role =
    if ltb (size_mod - 1) cap
    then threw
    else if ltb cap 2
    then threw
    else done (elim role [
      | master ↦ record {
        buffer = buf;
        capacity = cap;
        head = 0;
        tail = 0;
        cached_head = 0;
        cached_tail = 0;
      }
      | slave ↦ record {
        buffer = buf;
        capacity = cap;
        head = head;
        tail = tail;
        cached_head = head;
        cached_tail = tail;
      }
    ])

-- The bytes that one turn of the loop of `push` or `pop` moves.
unfoldable pub chunk_size : ℕ → ℕ → ℕ
chunk_size cap n = if ltb n (sub_size cap 1) then n else sub_size cap 1

-- `first`: what fits between the index and the end of the ring.
unfoldable pub first_part : ℕ → ℕ → ℕ → ℕ
first_part cap i k = let avail = sub_size cap i in if ltb k avail then k else avail

-- `nextHead` and `nextTail`
unfoldable pub next_index : ℕ → ℕ → ℕ → ℕ
next_index cap i k = let next = add_size i k in if leb cap next then sub_size next cap else next

-- The tests of `waitFreeSpace` and `waitElemPresent`, on the snapshots.
unfoldable pub has_free_space : Ring → ℕ → Bool
has_free_space r k = leb k (circular_buffer_free_space r.capacity r.head r.cached_tail)

unfoldable pub has_elems : Ring → ℕ → Bool
has_elems r k = leb k (circular_buffer_size r.capacity r.cached_head r.tail)

unfoldable pub load_tail : Ring → Ring
load_tail r = record r { cached_tail = r.tail }

unfoldable pub load_head : Ring → Ring
load_head r = record r { cached_head = r.head }

-- The two `memcpy` of `push`, for the chunk `bs`.
unfoldable pub write_first : Ring → List ℕ → Outcome Ring
write_first r bs = do
  m ← copy_in r.buffer r.head (take (first_part r.capacity r.head (length bs)) bs)
  done (record r { buffer = m })

unfoldable pub write_rest : Ring → List ℕ → Outcome Ring
write_rest r bs =
    let first = first_part r.capacity r.head (length bs) in
    if first == length bs
    then done r
    else copy_in r.buffer 0 (drop first bs) >>= λ m. done (record r { buffer = m })

unfoldable pub store_head : Ring → ℕ → Ring
store_head r k = record r { head = next_index r.capacity r.head k }

-- The two `memcpy` of `pop`, for a chunk of `k` bytes.
unfoldable pub read_first : Ring → ℕ → Outcome (List ℕ)
read_first r k = copy_out r.buffer r.tail (first_part r.capacity r.tail k)

unfoldable pub read_rest : Ring → ℕ → Outcome (List ℕ)
read_rest r k =
    let first = first_part r.capacity r.tail k in
    if first == k then done [] else copy_out r.buffer 0 (k - first)

unfoldable pub store_tail : Ring → ℕ → Ring
store_tail r k = record r { tail = next_index r.capacity r.tail k }
