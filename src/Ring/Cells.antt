-- ===== src/Ring/Cells.antt =====
-- Runs of cells round the ring, and what the two copies of a chunk do to them.
use gicame.Prelude.{
  ℕ, ◌+◌, ◌-◌, ◌≤◌, ◌<◌, ◌≡◌, ap, arith, List, ◌++◌, length, get_or, tabulate, tabulate-add,
}
use gicame.Memory.{splice}
use gicame.Ring.{circular_buffer_size}
use gicame.Ring.Index.{at_offset, max_capacity}

-- The `n` cells from index `t` on.
abbrev pub cells : (ℕ → ℕ) → ℕ → ℕ → ℕ → List ℕ
cells cell cap t n = tabulate n (λ i. cell (at_offset cap t i))

pub cells-add :
    (cell : ℕ → ℕ) (cap t a b : ℕ)
    → t < cap
    → a + b ≤ cap
    → cells cell cap t (a + b)
      ≡ cells cell cap t a ++ tabulate b (λ i. cell (at_offset cap t (a + i)))
cells-add cell cap t a b ht hab = tabulate-add a b (λ i. cell (at_offset cap t i))

at_offset-add :
    (cap t a i : ℕ)
    → t < cap
    → a + i < cap
    → at_offset cap (at_offset cap t a) i ≡ at_offset cap t (a + i)
at_offset-add cap t a i ht hi = ground arith

module _ (cell : ℕ → ℕ) (cap : ℕ) (bs : List ℕ) where
  -- Cells that the window of the reader holds are not touched by either copy of the writer.
  pub splice_first-apart :
      (h t k f i : ℕ)
      → h < cap
      → t < cap
      → f ≤ k
      → h + f ≤ cap
      → length bs ≡ f
      → circular_buffer_size cap h t + k < cap
      → cap ≤ max_capacity
      → i < circular_buffer_size cap h t
      → splice cell h bs (at_offset cap t i) ≡ cell (at_offset cap t i)
  unfolding circular_buffer_size
  splice_first-apart h t k f i ph pt fk hf e room small lt = ground arith

  pub splice_rest-apart :
      (h t k f i : ℕ)
      → h < cap
      → t < cap
      → f ≤ k
      → h + f ≡ cap
      → length bs ≡ k - f
      → circular_buffer_size cap h t + k < cap
      → cap ≤ max_capacity
      → i < circular_buffer_size cap h t
      → splice cell 0 bs (at_offset cap t i) ≡ cell (at_offset cap t i)
  unfolding circular_buffer_size
  splice_rest-apart h t k f i ph pt fk hf e room small lt = ground arith

  pub splice_first-here :
      (h i : ℕ)
      → h + length bs ≤ cap
      → i < length bs
      → splice cell h bs (at_offset cap h i) ≡ get_or bs i 0
  splice_first-here h i hf lt =
      let e : h + i - h ≡ i = omega arith in ground (arith, ap (λ j. get_or bs j 0) e)
