-- ===== src/SpscQueue/Inv.antt =====
-- What the queue of src/concurrency/SPSCQueue.cpp satisfies while two threads use it.
use gicame.Prelude.{
  ℕ, ◌+◌, ◌≤◌, ◌<◌, ◌≡◌, ap, ◌∙◌, arith, Outcome, done, List, [], ◌∷◌, ◌++◌, length, get_or,
  wrap_once, ◌%◌,
}
use gicame.Memory.{add_size}
use gicame.Ring.Index.{at_offset, max_capacity}
use gicame.Ring.Cells.{cells}
use gicame.SpscQueue.{
  SpscQueue, System, Producer, awaiting_space, storing, Consumer, awaiting_data, loading, Pop, size,
}

-- The bytes from the tail up to the head.
abbrev pub contents : SpscQueue → ℕ → List ℕ
contents q n = cells q.buffer.cell q.capacity q.tail n

-- The chunk that is stored fits behind the contents, and its bytes so far are there.
pub record Storing (q : SpscQueue) (h n i : ℕ) (bs : List ℕ) : Type 0 where
  pub at_head : h ≡ q.head
  pub so_far : i ≤ n
  pub from_data : n ≤ length bs
  pub room : size q + n < q.capacity
  pub stored : (k : ℕ) → k < i → q.buffer.cell (at_offset q.capacity q.head k) ≡ get_or bs k 0

abbrev pub Produces : SpscQueue → Producer → List (List ℕ) → Type 0
Produces q awaiting_space calls = Unit
Produces q (storing h n i) [] = ⊥
Produces q (storing h n i) (bs ∷ calls) = Storing q h n i bs

-- The chunk that is loaded is in the queue, and its bytes so far are the first ones.
pub record Loading (q : SpscQueue) (t n : ℕ) (got : List ℕ) : Type 0 where
  pub at_tail : t ≡ q.tail
  pub so_far : length got ≤ n
  pub present : n ≤ size q
  pub loaded : got ≡ contents q (length got)

abbrev pub Consumes : SpscQueue → Consumer → List Pop → Type 0
Consumes q awaiting_data calls = Unit
Consumes q (loading t n got) [] = ⊥
Consumes q (loading t n got) (c ∷ calls) = Loading q t n got

pub record IsStored (q : SpscQueue) : Type 0 where
  pub two : 2 ≤ q.capacity
  pub small : q.capacity ≤ max_capacity
  pub storage : q.capacity ≤ q.buffer.size
  pub head_in : q.head < q.capacity
  pub tail_in : q.tail < q.capacity

pub record IsValid (s : System) : Type 0 where
  pub stored : IsStored s.queue
  pub produces : Produces s.queue s.producer s.pushes
  pub consumes : Consumes s.queue s.consumer s.pops

-- The code's index is that many steps after.
pub index-at_offset :
    (cap h i : ℕ)
    → 2 ≤ cap
    → cap ≤ max_capacity
    → h < cap
    → i < cap
    → add_size h i % cap ≡ at_offset cap h i
index-at_offset cap h i two small ph pi =
    let e : add_size h i ≡ h + i = omega arith in
    ap (λ x. x % cap) e ∙ wrap_once (h + i) cap (omega arith)

pub at_offset-lt : (cap h i : ℕ) → h < cap → i < cap → at_offset cap h i < cap
at_offset-lt cap h i ph pi = ground arith

-- A cell of the contents is none of those behind it.
pub at_offset-apart :
    (q : SpscQueue) (k i : ℕ)
    → IsStored q
    → k < size q
    → size q + i < q.capacity
    → at_offset q.capacity q.tail k ≡ at_offset q.capacity q.head i
    → ⊥
unfolding size
at_offset-apart q k i v lt room e =
    let two : 2 ≤ q.capacity = v.two in
    let small : q.capacity ≤ max_capacity = v.small in
    let ph : q.head < q.capacity = v.head_in in
    let pt : q.tail < q.capacity = v.tail_in in ground arith

abbrev pub joined : List (List ℕ) → List ℕ
joined [] = []
joined (bs ∷ calls) = bs ++ joined calls

-- All bytes in their order: received, in the queue, and not yet in it.
abbrev pub stream : System → List ℕ
stream s = s.received ++ (contents s.queue (size s.queue) ++ joined s.pushes)

abbrev pub Ends : List ℕ → Outcome System → Type 0
Ends bytes o = (s : System) × (o ≡ done s) × IsValid s × (stream s ≡ bytes)
