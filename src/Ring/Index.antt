-- ===== src/Ring/Index.antt =====
-- Index arithmetic of the ring: what the code's conditional subtractions compute.
use gicame.Prelude.{ℕ, ◌+◌, ◌-◌, ◌≤◌, ◌<◌, ◌^◌, ◌≡◌, arith, ltb, if◌then◌else◌}
use gicame.Ring.{
  circular_buffer_size, circular_buffer_free_space, chunk_size, first_part, next_index,
}

-- The cell that is `i` steps after index `t`, for `i` below the capacity.
abbrev pub at_offset : ℕ → ℕ → ℕ → ℕ
at_offset cap t i = if ltb (t + i) cap then t + i else t + i - cap

abbrev pub max_capacity : ℕ
max_capacity = 2 ^ 63

module _ (cap : ℕ) (two : 2 ≤ cap) (small : cap ≤ max_capacity) where
  pub circular_buffer_size-lt : (h t : ℕ) → h < cap → t < cap → circular_buffer_size cap h t < cap
  unfolding circular_buffer_size
  circular_buffer_size-lt h t ph pt = ground arith

  -- `size` bytes after the tail stands the head.
  pub at_offset-size :
      (h t : ℕ) → h < cap → t < cap → at_offset cap t (circular_buffer_size cap h t) ≡ h
  unfolding circular_buffer_size
  at_offset-size h t ph pt = ground arith

  pub free_space-add-size :
      (h t : ℕ)
      → h < cap
      → t < cap
      → circular_buffer_free_space cap h t + circular_buffer_size cap h t + 1 ≡ cap
  unfolding circular_buffer_free_space
  free_space-add-size h t ph pt = ground arith

  pub next_index-eq-at_offset :
      (i k : ℕ) → i < cap → k < cap → next_index cap i k ≡ at_offset cap i k
  unfolding next_index
  next_index-eq-at_offset i k pi pk = ground arith

  pub next_index-lt : (i k : ℕ) → i < cap → k < cap → next_index cap i k < cap
  unfolding next_index
  next_index-lt i k pi pk = ground arith

  -- Advancing the head by what is free adds to the size, advancing the tail takes from it.
  pub size-next_head :
      (h t k : ℕ)
      → h < cap
      → t < cap
      → k + circular_buffer_size cap h t < cap
      → circular_buffer_size cap (next_index cap h k) t ≡ circular_buffer_size cap h t + k
  unfolding circular_buffer_size next_index
  size-next_head h t k ph pt room = ground arith

  pub size-next_tail :
      (h t k : ℕ)
      → h < cap
      → t < cap
      → k ≤ circular_buffer_size cap h t
      → circular_buffer_size cap h (next_index cap t k) + k ≡ circular_buffer_size cap h t
  unfolding circular_buffer_size next_index
  size-next_tail h t k ph pt room = ground arith

  pub chunk_size-bounds : (n : ℕ) → (chunk_size cap n < cap) × (chunk_size cap n ≤ n)
  unfolding chunk_size
  chunk_size-bounds n = ground arith

  pub chunk_size-pos : (n : ℕ) → 0 < n → 0 < chunk_size cap n
  unfolding chunk_size
  chunk_size-pos n h = ground arith

  pub first_part-bounds :
      (i k : ℕ) → i < cap → (first_part cap i k ≤ k) × (i + first_part cap i k ≤ cap)
  unfolding first_part
  first_part-bounds i k pi = ground arith

  -- A second copy is made only when the first one reached the end of the ring.
  pub first_part-full : (i k : ℕ) → i < cap → first_part cap i k < k → i + first_part cap i k ≡ cap
  unfolding first_part
  first_part-full i k pi lt = ground arith
