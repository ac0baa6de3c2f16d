-- ===== src/Shared/Queue.antt =====
-- src/concurrency/InterprocessQueue.cpp: how a ring is laid out in a shared memory.
use gicame.Prelude.{
  ℕ, ◌+◌, ◌-◌, ◌%◌, ◌≤◌, ◌<◌, ◌≡◌, refl, arith, Bool, true, none, some, [], ltb, if◌then◌else◌, min,
  Outcome, done, threw, ◌>>=◌,
}
use gicame.Memory.{size_mod, add_size, sub_size, align}
use gicame.Ring.{Ring, Role, master, init_ring}
use gicame.Ring.Index.{max_capacity}
use gicame.Ring.Inv.{IsValid, init_ring-IsValid, init_ring-master, contents, empty-contents}

-- `sizeof` and `alignof` of CircularBufferDescriptor, which has two members on cache lines of 64 bytes.
abbrev pub descriptor_size : ℕ
descriptor_size = 128

abbrev pub descriptor_align : ℕ
descriptor_align = 64

-- `enlargeCapacity`
unfoldable pub enlarge_capacity : ℕ → ℕ
enlarge_capacity capa = add_size (add_size capa descriptor_size) descriptor_align

pub record Layout : Type 0 where
  pub header : ℕ
  pub buffer : ℕ
  pub capacity : ℕ

-- `initShMem` on a shared memory of `size` bytes that `open` maps at `addr`, or fails to.
unfoldable pub init_sh_mem : Bool → ℕ → ℕ → ℕ → Outcome Layout
init_sh_mem opened addr size capacity =
    if ltb (size_mod - 1) capacity
    then threw
    else if opened
    then (elim (align descriptor_align descriptor_size addr size) [
      | none ↦ threw
      | some (p, new_size) ↦ done (record {
        header = p;
        buffer = p + descriptor_size;
        capacity = min (sub_size new_size descriptor_size) capacity;
      })
    ])
    else threw

-- The constructors of InterprocessQueue and SLInterprocessQueue: `head` and `tail` are what the header
-- holds, and `cell` what the memory holds.
unfoldable pub construct_queue : Bool → ℕ → ℕ → Role → ℕ → ℕ → (ℕ → ℕ) → Outcome Ring
construct_queue opened addr capacity role head tail cell =
    init_sh_mem opened addr (enlarge_capacity capacity) capacity >>= λ l.
    init_ring (record { size = l.capacity; cell = λ i. cell (l.buffer + i) }) l.capacity head tail
      role

-- Wherever the memory is mapped, the enlarged size leaves room for the aligned descriptor and for
-- the whole capacity behind it: the descriptor is aligned, descriptor and buffer lie inside the
-- mapping, and the ring gets exactly the capacity asked for, so that both sides agree on it.
pub init_sh_mem-capacity :
    (addr capacity : ℕ)
    → capacity + descriptor_size + descriptor_align < size_mod
    → (l : Layout) × (init_sh_mem true addr (enlarge_capacity capacity) capacity ≡ done l)
      × (l.capacity ≡ capacity)
      × (l.header % descriptor_align ≡ 0)
      × (addr ≤ l.header)
      × (l.buffer ≡ l.header + descriptor_size)
      × (l.buffer + l.capacity ≤ addr + enlarge_capacity capacity)
unfolding init_sh_mem enlarge_capacity align
init_sh_mem-capacity addr capacity small =
    let pad : ℕ = (descriptor_align - addr % descriptor_align) % descriptor_align in
    (
      record { header = addr + pad; buffer = addr + pad + descriptor_size; capacity = capacity },
      ground arith,
      refl,
      omega arith,
      omega arith,
      refl,
      omega arith,
    )

abbrev fresh_ring : Layout → (ℕ → ℕ) → Ring
fresh_ring l cell = record {
  buffer = record { size = l.capacity; cell = λ i. cell (l.buffer + i) };
  capacity = l.capacity;
  head = 0;
  tail = 0;
  cached_head = 0;
  cached_tail = 0;
}

-- The master's constructor makes a valid, empty ring of the capacity asked for.
pub construct_queue-IsValid :
    (addr capacity head tail : ℕ) (cell : ℕ → ℕ)
    → 2 ≤ capacity
    → capacity ≤ max_capacity
    → (r : Ring) × (construct_queue true addr capacity master head tail cell ≡ done r)
      × IsValid r
      × (r.capacity ≡ capacity)
      × (contents r ≡ [])
unfolding construct_queue
construct_queue-IsValid addr capacity head tail cell two small =
    let (l, e, c, _, _, _, _) = init_sh_mem-capacity addr capacity (omega arith) in
    rw e (ring_of l c)
  where
    ring_of :
        (l : Layout)
        → l.capacity ≡ capacity
        → (r : Ring) × (init_ring
              (record { size = l.capacity; cell = λ i. cell (l.buffer + i) })
              l.capacity
              head
              tail
              master
            ≡ done r)
          × IsValid r
          × (r.capacity ≡ capacity)
          × (contents r ≡ [])
    ring_of l c =
        let made : init_ring (record { size = l.capacity; cell = λ i. cell (l.buffer + i) })
              l.capacity head tail master
            ≡ done (fresh_ring l cell) =
          init_ring-master _ l.capacity head tail (omega arith) (omega arith) in
        (
          fresh_ring l cell,
          made,
          init_ring-IsValid _ l.capacity 0 0 master (omega arith) (omega arith) (omega arith)
              (omega arith) (init_ring-master _ l.capacity 0 0 (omega arith) (omega arith)),
          c,
          empty-contents (fresh_ring l cell) refl,
        )

-- For a capacity from 2 to 2 ^ 63, wherever the memory is mapped, the enlarged size leaves room for the
-- aligned descriptor and for the whole capacity behind it: the descriptor is aligned, descriptor and
-- buffer lie inside the mapping, and the ring gets exactly the capacity asked for, so that both sides agree on it. On it the
-- master's constructor makes a valid, empty ring of this capacity.
pub queue_fits_its_memory :
    (addr capacity head tail : ℕ) (cell : ℕ → ℕ)
    → 2 ≤ capacity
    → capacity ≤ max_capacity
    → ((l : Layout) × (init_sh_mem true addr (enlarge_capacity capacity) capacity ≡ done l)
        × (l.capacity ≡ capacity)
        × (l.header % descriptor_align ≡ 0)
        × (addr ≤ l.header)
        × (l.buffer ≡ l.header + descriptor_size)
        × (l.buffer + l.capacity ≤ addr + enlarge_capacity capacity))
      × ((r : Ring) × (construct_queue true addr capacity master head tail cell ≡ done r)
          × IsValid r
          × (r.capacity ≡ capacity)
          × (contents r ≡ []))
queue_fits_its_memory addr capacity head tail cell two small = (
  init_sh_mem-capacity addr capacity (omega arith),
  construct_queue-IsValid addr capacity head tail cell two small,
)
