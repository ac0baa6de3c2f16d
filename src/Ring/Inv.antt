-- ===== src/Ring/Inv.antt =====
-- What a ring in use satisfies, and the bytes that it holds.
use gicame.Prelude.{ap, [], ℕ, ◌≤◌, ◌<◌, ◌≡◌, arith, List, done, length, length-tabulate}
use gicame.Memory.{Mem, size_mod}
use gicame.Ring.{Ring, Role, master, slave, circular_buffer_size, size, init_ring}
use gicame.Ring.Index.{max_capacity}
use gicame.Ring.Cells.{cells}

-- The capacity is at most half of the address space, so that `nextHead` and `nextTail` cannot wrap.
-- A snapshot never runs ahead: it can only show less data, or less free space, than there is.
pub record IsValid (r : Ring) : Type 0 where
  pub two : 2 ≤ r.capacity
  pub small : r.capacity ≤ max_capacity
  pub storage : r.capacity ≤ r.buffer.size
  pub head_in : r.head < r.capacity
  pub tail_in : r.tail < r.capacity
  pub cached_head_in : r.cached_head < r.capacity
  pub cached_tail_in : r.cached_tail < r.capacity
  pub old_head :
      circular_buffer_size r.capacity r.cached_head r.tail
      ≤ circular_buffer_size r.capacity r.head r.tail
  pub old_tail :
      circular_buffer_size r.capacity r.head r.tail
      ≤ circular_buffer_size r.capacity r.head r.cached_tail

-- The bytes from the tail up to the head.
abbrev pub contents : Ring → List ℕ
contents r = cells r.buffer.cell r.capacity r.tail (circular_buffer_size r.capacity r.head r.tail)

pub length-contents : (r : Ring) → length (contents r) ≡ size r
unfolding size
length-contents r = length-tabulate (circular_buffer_size r.capacity r.head r.tail) _

pub init_ring-IsValid :
    (buf : Mem) (cap head tail : ℕ) (role : Role) {r : Ring}
    → cap ≤ max_capacity
    → cap ≤ buf.size
    → head < cap
    → tail < cap
    → init_ring buf cap head tail role ≡ done r
    → IsValid r
unfolding init_ring circular_buffer_size
init_ring-IsValid buf cap head tail master small storage ph pt e = ground arith
init_ring-IsValid buf cap head tail slave small storage ph pt e = ground arith

-- A ring whose indices are equal is empty.
pub empty-contents : (r : Ring) → r.head ≡ r.tail → contents r ≡ []
unfolding circular_buffer_size
empty-contents r e =
    let z : circular_buffer_size r.capacity r.head r.tail ≡ 0 = ground arith in
    ap (cells r.buffer.cell r.capacity r.tail) z

pub init_ring-master :
    (buf : Mem) (cap head tail : ℕ)
    → 2 ≤ cap
    → cap < size_mod
    → init_ring buf cap head tail master
      ≡ done (record {
        buffer = buf;
        capacity = cap;
        head = 0;
        tail = 0;
        cached_head = 0;
        cached_tail = 0;
      })
unfolding init_ring
init_ring-master buf cap head tail two fits = ground arith
