-- ===== src/Ring/Valid.antt =====
-- Each change that a thread makes to the ring keeps `IsValid`.
use gicame.Prelude.{ℕ, ◌+◌, ◌≤◌, ◌<◌, arith, List}
use gicame.Ring.{Ring, circular_buffer_size, load_tail, load_head, store_head, store_tail}
use gicame.Ring.Index.{size-next_head, size-next_tail, next_index-lt, circular_buffer_size-lt}
use gicame.Ring.Inv.{IsValid}
use gicame.Ring.Chunks.{first_written, rest_written}

module _ {r : Ring} (v : IsValid r) where
  open r use {capacity, head, tail, cached_head, cached_tail}
  open v use {two, small, head_in, tail_in, cached_head_in, cached_tail_in}

  pub load_tail-IsValid : IsValid (load_tail r)
  unfolding load_tail
  load_tail-IsValid = omega arith

  pub load_head-IsValid : IsValid (load_head r)
  unfolding load_head
  load_head-IsValid = omega arith

  pub first_written-IsValid : (bs : List ℕ) → IsValid (first_written r bs)
  first_written-IsValid bs = omega arith

  pub rest_written-IsValid : (bs : List ℕ) → IsValid (rest_written r bs)
  rest_written-IsValid bs = ground arith

  pub store_head-IsValid :
      (k : ℕ)
      → circular_buffer_size capacity head cached_tail + k < capacity
      → IsValid (store_head r k)
  unfolding store_head
  store_head-IsValid k room = omega (
    arith,
    next_index-lt capacity two small head k head_in,
    size-next_head capacity two small head tail k head_in tail_in,
    size-next_head capacity two small head cached_tail k head_in cached_tail_in,
  )

  pub store_tail-IsValid :
      (k : ℕ) → k ≤ circular_buffer_size capacity cached_head tail → IsValid (store_tail r k)
  unfolding store_tail
  store_tail-IsValid k le = omega (
    arith,
    circular_buffer_size-lt capacity two small cached_head tail cached_head_in tail_in,
    next_index-lt capacity two small tail k tail_in,
    size-next_tail capacity two small head tail k head_in tail_in,
    size-next_tail capacity two small cached_head tail k cached_head_in tail_in,
  )
