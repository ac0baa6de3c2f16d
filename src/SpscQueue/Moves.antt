-- ===== src/SpscQueue/Moves.antt =====
-- What each access of `push` and `pop` does to the bytes on their way.
use gicame.Prelude.{
  ℕ, ◌+◌, ◌%◌, ◌≤◌, ◌<◌, ◌≡◌, ◌≢◌, refl, sym, ap, ◌∙◌, arith, true, false, Bool-cases, inl, inr,
  List, [], ◌∷◌, ◌++◌, length, get_or, take, length-take, ltb, ◌==◌, if◌then◌else◌, tabulate-ext,
  tabulate-eq, get_or-take, done,
}
use gicame.Memory.{add_size}
use gicame.Ring.Index.{at_offset}
use gicame.Ring.Cells.{cells-add}
use gicame.SpscQueue.{
  SpscQueue, Producer, awaiting_space, storing, Consumer, awaiting_data, loading, Pop, size,
  store_byte, load_byte, store_head, store_tail,
}
use gicame.SpscQueue.Inv.{
  contents, Storing, Produces, Consumes, IsStored, index-at_offset, at_offset-lt, at_offset-apart,
}

-- The queue with the byte `b` at index `p`.
abbrev pub with_byte : ℕ → ℕ → SpscQueue → SpscQueue
with_byte p b q = record q {
  buffer = record q.buffer { cell = λ j. if j == p then b else q.buffer.cell j };
}

module _ (q : SpscQueue) (v : IsStored q) where
  pub store_byte-done :
      (i b : ℕ)
      → i < q.capacity
      → store_byte q.head i b q ≡ done (with_byte (at_offset q.capacity q.head i) b q)
  unfolding store_byte
  store_byte-done i b lt =
      let some_cap : (q.capacity == 0) ≡ false = ground (arith, v.two) in
      let p : add_size q.head i % q.capacity ≡ at_offset q.capacity q.head i =
        index-at_offset q.capacity q.head i v.two v.small v.head_in lt in
      let inside : ltb (at_offset q.capacity q.head i) q.buffer.size ≡ true =
        ground (arith, at_offset-lt q.capacity q.head i v.head_in lt, v.storage) in
      rw (some_cap, p, inside) refl

  pub load_byte-done :
      (i : ℕ)
      → i < q.capacity
      → load_byte q.tail i q ≡ done (q.buffer.cell (at_offset q.capacity q.tail i))
  unfolding load_byte
  load_byte-done i lt =
      let some_cap : (q.capacity == 0) ≡ false = ground (arith, v.two) in
      let p : add_size q.tail i % q.capacity ≡ at_offset q.capacity q.tail i =
        index-at_offset q.capacity q.tail i v.two v.small v.tail_in lt in
      let inside : ltb (at_offset q.capacity q.tail i) q.buffer.size ≡ true =
        ground (arith, at_offset-lt q.capacity q.tail i v.tail_in lt, v.storage) in
      rw (some_cap, p, inside) refl

  -- A byte stored behind the contents is not seen in them.
  pub contents-with_byte :
      (n i b : ℕ)
      → n ≤ size q
      → size q + i < q.capacity
      → contents (with_byte (at_offset q.capacity q.head i) b q) n ≡ contents q n
  contents-with_byte n i b fits room = tabulate-ext n _ _ (λ k lt.
      let apart : at_offset q.capacity q.tail k ≢ at_offset q.capacity q.head i =
        at_offset-apart q k i v (omega arith) room in
      ground (arith, apart))

  pub Storing-with_byte :
      (n i : ℕ) (bs : List ℕ)
      → i < n
      → Storing q q.head n i bs
      → Storing (with_byte (at_offset q.capacity q.head i) (get_or bs i 0) q) q.head n (i + 1) bs
  unfolding size
  Storing-with_byte n i bs lt w = record {
    at_head = refl;
    so_far = omega arith;
    from_data = w.from_data;
    room = w.room;
    stored = λ k lt'. elim (Bool-cases (k == i)) [
      | inl same ↦ let e : k ≡ i = ground arith in rw e (ground arith)
      | inr other ↦
          let room : size q + n < q.capacity = w.room in
          let before : q.buffer.cell (at_offset q.capacity q.head k) ≡ get_or bs k 0 =
            w.stored k (ground arith) in
          let apart : at_offset q.capacity q.head k ≢ at_offset q.capacity q.head i =
            λ e. ground (arith, v.two, v.head_in) in
          ground (arith, apart, before)
    ];
  }

  pub store_head-at_offset :
      (n : ℕ)
      → n < q.capacity
      → store_head q.head n q ≡ record q { head = at_offset q.capacity q.head n }
  unfolding store_head
  store_head-at_offset n lt =
      ap (λ h. record q { head = h })
        (index-at_offset q.capacity q.head n v.two v.small v.head_in lt)

  pub store_tail-at_offset :
      (n : ℕ)
      → n < q.capacity
      → store_tail q.tail n q ≡ record q { tail = at_offset q.capacity q.tail n }
  unfolding store_tail
  store_tail-at_offset n lt =
      ap (λ t. record q { tail = t })
        (index-at_offset q.capacity q.tail n v.two v.small v.tail_in lt)

  -- With the head `n` cells further, and with the tail `n` cells further.
  pub size-head :
      (n : ℕ)
      → size q + n < q.capacity
      → size (record q { head = at_offset q.capacity q.head n }) ≡ size q + n
  unfolding size
  size-head n room = ground (arith, v.two, v.small, v.head_in, v.tail_in)

  pub size-tail :
      (n : ℕ) → n ≤ size q → size (record q { tail = at_offset q.capacity q.tail n }) + n ≡ size q
  unfolding size
  size-tail n room = ground (arith, v.two, v.small, v.head_in, v.tail_in)

  pub size-lt : size q < q.capacity
  unfolding size
  size-lt = ground (arith, v.two, v.small, v.head_in, v.tail_in)

  -- Behind the contents stand the cells from the head on.
  at_offset-behind :
      (k : ℕ)
      → size q + k < q.capacity
      → at_offset q.capacity q.tail (size q + k) ≡ at_offset q.capacity q.head k
  unfolding size
  at_offset-behind k room = ground (arith, v.two, v.small, v.head_in, v.tail_in)

  -- The store of the head adds the chunk to the contents.
  pub contents-head :
      (n : ℕ) (bs : List ℕ)
      → Storing q q.head n n bs
      → contents q (size q + n) ≡ contents q (size q) ++ take n bs
  contents-head n bs w =
      let room : size q + n < q.capacity = w.room in
      let enough : n ≤ length bs = w.from_data in
      cells-add q.buffer.cell q.capacity q.tail (size q) n v.tail_in (omega arith)
      ∙ ap (λ xs. contents q (size q) ++ xs)
          (tabulate-eq n (take n bs) _ 0 (length-take n bs ∙ omega arith) (λ k lt.
            ap q.buffer.cell (at_offset-behind k (omega arith))
            ∙ w.stored k lt
            ∙ sym (get_or-take n k bs 0 lt)))

  -- The store of the tail takes the chunk from the contents.
  pub contents-tail :
      (n m : ℕ)
      → n + m ≤ size q
      → contents q (n + m)
        ≡ contents q n ++ contents (record q { tail = at_offset q.capacity q.tail n }) m
  contents-tail n m fits =
      let below : size q < q.capacity = size-lt in
      cells-add q.buffer.cell q.capacity q.tail n m v.tail_in (omega arith)
      ∙ ap (λ xs. contents q n ++ xs)
          (tabulate-ext m _ _ (λ k lt.
            let e : at_offset q.capacity q.tail (n + k)
                ≡ at_offset q.capacity (at_offset q.capacity q.tail n) k =
              ground (arith, v.tail_in) in
            ap q.buffer.cell e))

  -- One more byte is loaded.
  pub contents-next :
      (n : ℕ)
      → n < size q
      → contents q (n + 1) ≡ contents q n ++ (q.buffer.cell (at_offset q.capacity q.tail n) ∷ [])
  contents-next n lt =
      let below : size q < q.capacity = size-lt in
      let e : n + 0 ≡ n = omega arith in
      cells-add q.buffer.cell q.capacity q.tail n 1 v.tail_in (omega arith)
      ∙ ap (λ k. contents q n ++ (q.buffer.cell (at_offset q.capacity q.tail k) ∷ [])) e

  -- What one thread knows of the queue is left by the other one's moves.
  pub Consumes-with_byte :
      (i b : ℕ) (c : Consumer) (pops : List Pop)
      → size q + i < q.capacity
      → Consumes q c pops
      → Consumes (with_byte (at_offset q.capacity q.head i) b q) c pops
  unfolding size
  Consumes-with_byte i b awaiting_data pops room u = tt
  Consumes-with_byte i b (loading t n got) [] room u = u
  Consumes-with_byte i b (loading t n got) (c ∷ pops) room u = record {
    at_tail = u.at_tail;
    so_far = u.so_far;
    present = u.present;
    loaded =
        u.loaded
        ∙ sym (contents-with_byte (length got) i b (omega (arith, u.so_far, u.present)) room);
  }

  pub Consumes-head :
      (n : ℕ) (c : Consumer) (pops : List Pop)
      → size q + n < q.capacity
      → Consumes q c pops
      → Consumes (record q { head = at_offset q.capacity q.head n }) c pops
  Consumes-head n awaiting_data pops room u = tt
  Consumes-head n (loading t m got) [] room u = u
  Consumes-head n (loading t m got) (c ∷ pops) room u = record {
    at_tail = u.at_tail;
    so_far = u.so_far;
    present = omega (arith, u.present, size-head n room);
    loaded = u.loaded;
  }

  pub Produces-tail :
      (n : ℕ) (p : Producer) (calls : List (List ℕ))
      → n ≤ size q
      → Produces q p calls
      → Produces (record q { tail = at_offset q.capacity q.tail n }) p calls
  Produces-tail n awaiting_space calls fits w = tt
  Produces-tail n (storing h m i) [] fits w = w
  Produces-tail n (storing h m i) (bs ∷ calls) fits w = record {
    at_head = w.at_head;
    so_far = w.so_far;
    from_data = w.from_data;
    room = omega (arith, w.room, size-tail n fits);
    stored = w.stored;
  }
