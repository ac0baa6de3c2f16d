-- ===== src/Ring/Chunks.antt =====
-- One chunk through the ring: the copies stay inside the buffer, keep what the other side holds,
-- and move exactly the chunk.
use gicame.Prelude.{
  ℕ, ◌+◌, ◌-◌, ◌≤◌, ◌<◌, ◌≡◌, refl, sym, ap, ◌∙◌, arith, List, ◌++◌, ◌==◌, if◌then◌else◌, length,
  take, drop, get_or, length-take, length-drop, get_or-take, get_or-drop, tabulate, tabulate-ext,
  tabulate-add, tabulate-eq, done, Bool-cases, inl, inr, dec_lt, false,
}
use gicame.Memory.{splice, copy_in, copy_out}
use gicame.Ring.{
  Ring, circular_buffer_size, first_part, write_first, write_rest, read_first, read_rest,
  store_head, store_tail, next_index,
}
use gicame.Ring.Index.{
  at_offset, first_part-bounds, first_part-full, size-next_head, size-next_tail,
  next_index-eq-at_offset, circular_buffer_size-lt, at_offset-size,
}
use gicame.Ring.Cells.{cells, splice_first-apart, splice_rest-apart, splice_first-here}
use gicame.Ring.Inv.{IsValid, contents}

module _ (r : Ring) where
  open r use {capacity, head, tail}

  abbrev cell : ℕ → ℕ
  cell = r.buffer.cell

  abbrev first : ℕ → ℕ
  first k = first_part capacity head k

  abbrev pub first_written : List ℕ → Ring
  first_written bs = record r {
    buffer = record (r.buffer) { cell = splice cell head (take (first (length bs)) bs) };
  }

  abbrev pub rest_written : List ℕ → Ring
  rest_written bs = record r {
    buffer = record (r.buffer) {
      cell =
          if first (length bs) == length bs
          then cell
          else splice cell 0 (drop (first (length bs)) bs);
    };
  }

  -- The first `n` bytes of the chunk stand in the cells from the head on.
  abbrev pub Written : List ℕ → ℕ → Type 0
  Written bs n = (i : ℕ) → i < n → cell (at_offset capacity head i) ≡ get_or bs i 0

module _ {r : Ring} (v : IsValid r) (bs : List ℕ) where
  open r use {capacity, head, tail}
  open v use {two, small, head_in, tail_in}

  abbrev k : ℕ
  k = length bs

  abbrev f : ℕ
  f = first_part capacity head k

  length-first : length (take f bs) ≡ f
  length-first =
      omega (arith, length-take f bs, first_part-bounds capacity two small head k head_in)

  pub write_first_lem : write_first r bs ≡ done (first_written r bs)
  unfolding write_first copy_in
  write_first_lem =
      ground (arith, length-first, first_part-bounds capacity two small head k head_in, v.storage)

  pub write_rest_lem : k < capacity → write_rest r bs ≡ done (rest_written r bs)
  unfolding write_rest copy_in
  write_rest_lem lt = ground (arith, length-drop f bs, v.storage)

  pub first_written-Written : Written (first_written r bs) bs f
  first_written-Written i lt =
      splice_first-here r.buffer.cell capacity (take f bs) head i
        (omega (arith, length-first, first_part-bounds capacity two small head k head_in))
        (omega (arith, length-first))
      ∙ get_or-take f i bs 0 lt

  -- What the reader holds, `m` bytes from its tail, is not touched.
  pub first_written-cells :
      (m : ℕ)
      → m ≤ circular_buffer_size capacity head tail
      → circular_buffer_size capacity head tail + k < capacity
      → cells (first_written r bs).buffer.cell capacity tail m ≡ cells r.buffer.cell capacity tail m
  first_written-cells m le room =
      let b = first_part-bounds capacity two small head k head_in in
      tabulate-ext m _ _ (λ i lt.
        splice_first-apart r.buffer.cell capacity (take f bs) head tail k f i head_in tail_in b.0
          b.1 length-first room small (omega arith))

  rest_full : (first_part capacity head k == k) ≡ false → head + f ≡ capacity
  rest_full e =
      let b = first_part-bounds capacity two small head k head_in in
      first_part-full capacity two small head k head_in (ground arith)

  pub rest_written-cells :
      (m : ℕ)
      → m ≤ circular_buffer_size capacity head tail
      → circular_buffer_size capacity head tail + k < capacity
      → cells (rest_written r bs).buffer.cell capacity tail m ≡ cells r.buffer.cell capacity tail m
  rest_written-cells m le room = elim (Bool-cases (f == k)) [
    | inl e ↦ rw e refl
    | inr e ↦
        let b = first_part-bounds capacity two small head k head_in in
        rw e (
          tabulate-ext m _ _ (λ i lt.
            splice_rest-apart r.buffer.cell capacity (drop f bs) head tail k f i head_in tail_in b.0
              (rest_full e) (length-drop f bs) room small (omega arith)))
  ]

  -- After both copies the whole chunk is there.
  pub rest_written-Written : k < capacity → Written r bs f → Written (rest_written r bs) bs k
  rest_written-Written lt w = elim (Bool-cases (f == k)) [
    | inl e ↦ rw e (λ i h. w i (ground arith))
    | inr e ↦ rw e (λ i h. at i h e)
  ]
    where
      at :
          (i : ℕ)
          → i < k
          → (f == k) ≡ false
          → splice r.buffer.cell 0 (drop f bs) (at_offset capacity head i) ≡ get_or bs i 0
      at i h e = elim (dec_lt i f) [
        | yes lo ↦ ground (arith, w i lo, rest_full e, length-drop f bs)
        | no hi ↦
            let d : f + (i - f) ≡ i = omega arith in
            ground (
              arith,
              rest_full e,
              length-drop f bs,
              get_or-drop f (i - f) bs 0,
              ap (λ j. get_or bs j 0) d,
            )
      ]

  pub store_head-contents :
      circular_buffer_size capacity head tail + k < capacity
      → Written r bs k
      → contents (store_head r k) ≡ contents r ++ bs
  unfolding store_head
  store_head-contents room w =
      let n = circular_buffer_size capacity head tail in
      ap (cells r.buffer.cell capacity tail)
        (size-next_head capacity two small head tail k head_in tail_in (omega arith))
      ∙ tabulate-add n k (λ i. r.buffer.cell (at_offset capacity tail i))
      ∙ ap (λ l. contents r ++ l)
          (tabulate-eq k bs (λ i. r.buffer.cell (at_offset capacity tail (n + i))) 0 refl
            (λ i lt. ap r.buffer.cell (ahead i lt) ∙ w i lt))
    where
      ahead :
          (i : ℕ)
          → i < k
          → at_offset capacity tail (circular_buffer_size capacity head tail + i)
            ≡ at_offset capacity head i
      ahead i lt = ground (
        arith,
        at_offset-size capacity two small head tail head_in tail_in,
        circular_buffer_size-lt capacity two small head tail head_in tail_in,
      )

module _ {r : Ring} (v : IsValid r) (k : ℕ) where
  open r use {capacity, head, tail}
  open v use {two, small, head_in, tail_in}

  -- The two copies of a read, and what they hold together.
  abbrev pub first_read : List ℕ
  first_read = cells r.buffer.cell capacity tail (first_part capacity tail k)

  abbrev pub rest_read : List ℕ
  rest_read = tabulate (k - first_part capacity tail k) (λ i. r.buffer.cell (0 + i))

  pub read_first_lem : read_first r k ≡ done first_read
  unfolding read_first copy_out
  read_first_lem =
      let b = first_part-bounds capacity two small tail k tail_in in
      rw
        (tabulate-ext (first_part capacity tail k) (λ i. r.buffer.cell (at_offset capacity tail i))
          (λ i. r.buffer.cell (tail + i)) (λ i lt. ap r.buffer.cell (ground arith)))
        (ground (arith, v.storage))

  pub read_rest_lem : k < capacity → read_rest r k ≡ done rest_read
  unfolding read_rest copy_out
  read_rest_lem lt = elim (Bool-cases (first_part capacity tail k == k)) [
    | inl e ↦
        let z : k - first_part capacity tail k ≡ 0 = ground arith in
        rw e (ap done (sym (ap (λ n. tabulate n (λ i. r.buffer.cell (0 + i))) z)))
    | inr e ↦ rw e (ground (arith, v.storage))
  ]

  pub reads-append : k < capacity → first_read ++ rest_read ≡ cells r.buffer.cell capacity tail k
  reads-append lt =
      ap (λ l. first_read ++ l)
        (tabulate-ext (k - f) (λ i. r.buffer.cell (0 + i))
          (λ i. r.buffer.cell (at_offset capacity tail (f + i)))
          (λ i h. ap r.buffer.cell (wrapped i h)))
      ∙ sym (tabulate-add f (k - f) (λ i. r.buffer.cell (at_offset capacity tail i)))
      ∙ ap (cells r.buffer.cell capacity tail) whole
    where
      f : ℕ
      f = first_part capacity tail k

      whole : f + (k - f) ≡ k
      whole = omega (arith, first_part-bounds capacity two small tail k tail_in)

      wrapped : (i : ℕ) → i < k - f → 0 + i ≡ at_offset capacity tail (f + i)
      wrapped i h =
          let full : tail + f ≡ capacity =
            first_part-full capacity two small tail k tail_in (omega arith) in
          ground arith

  pub store_tail-contents :
      k ≤ circular_buffer_size capacity head tail
      → contents r ≡ cells r.buffer.cell capacity tail k ++ contents (store_tail r k)
  unfolding store_tail
  store_tail-contents le =
      ap (cells r.buffer.cell capacity tail) (sym split)
      ∙ tabulate-add k n (λ i. r.buffer.cell (at_offset capacity tail i))
      ∙ ap (λ l. cells r.buffer.cell capacity tail k ++ l)
          (tabulate-ext n (λ i. r.buffer.cell (at_offset capacity tail (k + i)))
            (λ i. r.buffer.cell (at_offset capacity (next_index capacity tail k) i))
            (λ i h. ap r.buffer.cell (onwards i h)))
    where
      n : ℕ
      n = circular_buffer_size capacity head (next_index capacity tail k)

      split : k + n ≡ circular_buffer_size capacity head tail
      split = omega (arith, size-next_tail capacity two small head tail k head_in tail_in le)

      onwards :
          (i : ℕ)
          → i < n
          → at_offset capacity tail (k + i) ≡ at_offset capacity (next_index capacity tail k) i
      onwards i h = ground (
        arith,
        split,
        circular_buffer_size-lt capacity two small head tail head_in tail_in,
        next_index-eq-at_offset capacity two small tail k tail_in,
      )
