-- ===== src/SpscQueue/Pushes.antt =====
-- A turn of the thread in `push` of src/concurrency/SPSCQueue.cpp.
use gicame.Prelude.{
  ℕ, ◌+◌, ◌<◌, ◌≡◌, refl, sym, ap, ◌∙◌, subst, arith, true, false, Bool-cases, inl, inr, ◌⊎◌, List,
  [], ◌∷◌, ◌++◌, length, get_or, drop, take, take-append-drop, append_assoc, ltb, Outcome, done,
  ◌>>=◌,
}
use gicame.Ring.Index.{at_offset}
use gicame.SpscQueue.{
  SpscQueue, System, Producer, awaiting_space, storing, Consumer, Pop, size, free_space, chunk_size,
  produce,
}
use gicame.SpscQueue.Inv.{
  contents, Storing, Produces, Consumes, IsStored, at_offset-lt, joined, stream, Ends,
}
use gicame.SpscQueue.Moves.{
  with_byte, Consumes-with_byte, Consumes-head, store_byte-done, contents-with_byte,
  Storing-with_byte, Consumes-with_byte, Consumes-head, store_head-at_offset, size-head,
  contents-head,
}

published :
    (xs : List ℕ) (n : ℕ) (bs rest : List ℕ)
    → (xs ++ take n bs) ++ (drop n bs ++ rest) ≡ xs ++ (bs ++ rest)
published xs n bs rest =
    append_assoc xs (take n bs) (drop n bs ++ rest)
    ∙ ap (λ ys. xs ++ ys)
        (sym (append_assoc (take n bs) (drop n bs) rest)
          ∙ ap (λ ys. ys ++ rest) (take-append-drop n bs))

module _ (q : SpscQueue) (c : Consumer) (pops : List Pop) (r : List ℕ) (v : IsStored q)
    (u : Consumes q c pops) where
  abbrev producing : Producer → List (List ℕ) → System
  producing p calls = record {
    queue = q;
    producer = p;
    pushes = calls;
    consumer = c;
    pops = pops;
    received = r;
  }

  awaiting_space-Ends :
      (b : ℕ) (bs : List ℕ) (calls : List (List ℕ))
      → let s = producing awaiting_space ((b ∷ bs) ∷ calls) in
        Ends (stream s) (produce awaiting_space ((b ∷ bs) ∷ calls) s)
  unfolding produce free_space size chunk_size
  awaiting_space-Ends b bs calls =
      elim (Bool-cases (ltb (free_space q) (chunk_size q.capacity (length (b ∷ bs))))) [
        | inl short ↦ rw short (
          producing awaiting_space ((b ∷ bs) ∷ calls),
          refl,
          record { stored = v; produces = tt; consumes = u },
          refl,
        )
        | inr enough ↦ rw enough (
          producing (storing q.head (chunk_size q.capacity (length (b ∷ bs))) 0) ((b ∷ bs) ∷ calls),
          refl,
          record {
            stored = v;
            produces = record {
              at_head = refl;
              so_far = omega arith;
              from_data = ground arith;
              room = ground (arith, v.two, v.small, v.head_in, v.tail_in);
              stored = λ k lt. absurd (omega arith);
            };
            consumes = u;
          },
          refl,
        )
      ]

  storing_byte-Ends :
      (n i : ℕ) (bs : List ℕ) (calls : List (List ℕ))
      → ltb i n ≡ true
      → Storing q q.head n i bs
      → let s = producing (storing q.head n i) (bs ∷ calls) in
        Ends (stream s) (produce (storing q.head n i) (bs ∷ calls) s)
  unfolding produce
  storing_byte-Ends n i bs calls more w =
      let lt : i < n = ground arith in
      let room : size q + n < q.capacity = w.room in
      let b : ℕ = get_or bs i 0 in
      let q' : SpscQueue = with_byte (at_offset q.capacity q.head i) b q in
      let next : SpscQueue → Outcome System =
        λ q''. done (record (producing (storing q.head n (i + 1)) (bs ∷ calls)) { queue = q'' }) in
      let same : contents q' (size q) ≡ contents q (size q) =
        contents-with_byte q v (size q) i b (omega arith) (omega arith) in
      rw more (
        record (producing (storing q.head n (i + 1)) (bs ∷ calls)) { queue = q' },
        ap (λ o. o >>= next) (store_byte-done q v i b (omega arith)),
        record {
          stored = record {
            two = v.two;
            small = v.small;
            storage = v.storage;
            head_in = v.head_in;
            tail_in = v.tail_in;
          };
          produces = Storing-with_byte q v n i bs lt w;
          consumes = Consumes-with_byte q v i b c pops (omega arith) u;
        },
        ap (λ xs. r ++ (xs ++ joined (bs ∷ calls))) same,
      )

  publishing-Ends :
      (n i : ℕ) (bs : List ℕ) (calls : List (List ℕ))
      → ltb i n ≡ false
      → Storing q q.head n i bs
      → let s = producing (storing q.head n i) (bs ∷ calls) in
        Ends (stream s) (produce (storing q.head n i) (bs ∷ calls) s)
  unfolding produce
  publishing-Ends n i bs calls last w =
      let all : i ≡ n = ground (arith, w.so_far) in
      let room : size q + n < q.capacity = w.room in
      let w' : Storing q q.head n n bs = subst (λ k. Storing q q.head n k bs) all w in
      let q' : SpscQueue = record q { head = at_offset q.capacity q.head n } in
      let fits : n < q.capacity = omega arith in
      let longer : size q' ≡ size q + n = size-head q v n room in
      let moved : System = record (producing awaiting_space (drop n bs ∷ calls)) { queue = q' } in
      rw last (
        moved,
        ap (λ q''. done (record moved { queue = q'' })) (store_head-at_offset q v n fits),
        record {
          stored = record {
            two = v.two;
            small = v.small;
            storage = v.storage;
            head_in = at_offset-lt q.capacity q.head n v.head_in fits;
            tail_in = v.tail_in;
          };
          produces = tt;
          consumes = Consumes-head q v n c pops room u;
        },
        ap (λ xs. r ++ xs)
            (ap (λ k. contents q k ++ (drop n bs ++ joined calls)) longer
              ∙ ap (λ xs. xs ++ (drop n bs ++ joined calls)) (contents-head q v n bs w')
              ∙ published (contents q (size q)) n bs (joined calls)),
      )

  pub produce-Ends :
      (p : Producer) (calls : List (List ℕ))
      → Produces q p calls
      → Ends (stream (producing p calls)) (produce p calls (producing p calls))
  unfolding produce
  produce-Ends p [] w =
      (producing p [], refl, record { stored = v; produces = w; consumes = u }, refl)
  produce-Ends awaiting_space ([] ∷ calls) w = (
    producing awaiting_space calls,
    refl,
    record { stored = v; produces = tt; consumes = u },
    refl,
  )
  produce-Ends awaiting_space ((b ∷ bs) ∷ calls) w = awaiting_space-Ends b bs calls
  produce-Ends (storing h n i) (bs ∷ calls) w =
      subst
        (λ k.
          Ends (stream (producing (storing k n i) (bs ∷ calls)))
            (produce (storing k n i) (bs ∷ calls) (producing (storing k n i) (bs ∷ calls))))
        (sym w.at_head) (by_progress (Bool-cases (ltb i n)))
    where
      here : Storing q q.head n i bs
      here = record {
        at_head = refl;
        so_far = w.so_far;
        from_data = w.from_data;
        room = w.room;
        stored = w.stored;
      }

      by_progress :
          (ltb i n ≡ true) ⊎ (ltb i n ≡ false)
          → Ends (stream (producing (storing q.head n i) (bs ∷ calls))) (
              produce
                (storing q.head n i)
                (bs ∷ calls)
                (producing (storing q.head n i) (bs ∷ calls)))
      by_progress (inl more) = storing_byte-Ends n i bs calls more here
      by_progress (inr last) = publishing-Ends n i bs calls last here
