-- ===== src/SpscQueue/Pops.antt =====
-- A turn of the thread in one of the two `pop` of src/concurrency/SPSCQueue.cpp.
use gicame.Prelude.{
  ℕ, ◌+◌, ◌≤◌, ◌<◌, ◌≡◌, refl, sym, ap, ◌∙◌, subst, arith, true, false, Bool-cases, inl, inr, ◌⊎◌,
  List, [], ◌∷◌, ◌++◌, length, length-append, append_assoc, ltb, ◌==◌, ◌&&◌, Outcome, done, ◌>>=◌,
}
use gicame.Ring.Index.{at_offset}
use gicame.SpscQueue.{
  SpscQueue, System, Producer, Consumer, awaiting_data, loading, Pop, size, chunk_size, is_refused,
  rest_of, consume, give_up,
}
use gicame.SpscQueue.Inv.{
  contents, Produces, Loading, Consumes, IsStored, at_offset-lt, joined, stream, Ends,
}
use gicame.SpscQueue.Moves.{
  Produces-tail, load_byte-done, Produces-tail, store_tail-at_offset, size-tail, size-lt,
  contents-tail, contents-next,
}

module _ (q : SpscQueue) (p : Producer) (pushes : List (List ℕ)) (r : List ℕ) (v : IsStored q)
    (w : Produces q p pushes) where
  abbrev consuming : Consumer → List Pop → System
  consuming c calls = record {
    queue = q;
    producer = p;
    pushes = pushes;
    consumer = c;
    pops = calls;
    received = r;
  }

  -- Nothing moves, but which calls are left.
  unmoved :
      (c : Consumer) (calls : List Pop) (o : List Pop)
      → Consumes q c calls
      → Ends (stream (consuming c o)) (done (consuming c calls))
  unmoved c calls o u =
      (consuming c calls, refl, record { stored = v; produces = w; consumes = u }, refl)

  start_loading :
      (n : ℕ) (a : Pop) (calls : List Pop)
      → n ≤ size q
      → Ends
          (stream (consuming awaiting_data (a ∷ calls)))
          (done (consuming (loading q.tail n []) (a ∷ calls)))
  start_loading n a calls present = (
    consuming (loading q.tail n []) (a ∷ calls),
    refl,
    record {
      stored = v;
      produces = w;
      consumes = record { at_tail = refl; so_far = omega arith; present = present; loaded = refl };
    },
    refl,
  )

  awaiting_data-Ends :
      (a : Pop) (calls : List Pop)
      → Ends
          (stream (consuming awaiting_data (a ∷ calls)))
          (consume awaiting_data (a ∷ calls) (consuming awaiting_data (a ∷ calls)))
  unfolding consume
  awaiting_data-Ends a calls = elim (Bool-cases (a.remaining == 0)) [
    | inl none_left ↦ rw none_left (unmoved awaiting_data calls (a ∷ calls) tt)
    | inr some_left ↦ rw some_left (elim (Bool-cases (is_refused q.capacity a)) [
      | inl refused ↦ rw refused (unmoved awaiting_data calls (a ∷ calls) tt)
      | inr taken ↦ rw taken (elim (Bool-cases (ltb (size q) (chunk_size q.capacity a.remaining))) [
        | inl short ↦ rw short (unmoved awaiting_data (a ∷ calls) (a ∷ calls) tt)
        | inr present ↦
            rw present (start_loading (chunk_size q.capacity a.remaining) a calls (grind arith))
      ])
    ])
  ]

  loading_byte-Ends :
      (n : ℕ) (got : List ℕ) (a : Pop) (calls : List Pop)
      → ltb (length got) n ≡ true
      → Loading q q.tail n got
      → let s = consuming (loading q.tail n got) (a ∷ calls) in
        Ends (stream s) (consume (loading q.tail n got) (a ∷ calls) s)
  unfolding consume
  loading_byte-Ends n got a calls more u =
      let lt : length got < n = ground arith in
      let present : n ≤ size q = u.present in
      let below : size q < q.capacity = size-lt q v in
      let b : ℕ = q.buffer.cell (at_offset q.capacity q.tail (length got)) in
      let next : ℕ → Outcome System =
        λ x. done (consuming (loading q.tail n (got ++ (x ∷ []))) (a ∷ calls)) in
      let longer : length (got ++ (b ∷ [])) ≡ length got + 1 = length-append got (b ∷ []) in
      rw more (
        consuming (loading q.tail n (got ++ (b ∷ []))) (a ∷ calls),
        ap (λ o. o >>= next) (load_byte-done q v (length got) (omega arith)),
        record {
          stored = v;
          produces = w;
          consumes = record {
            at_tail = refl;
            so_far = omega arith;
            present = present;
            loaded =
                ap (λ xs. xs ++ (b ∷ [])) u.loaded
                ∙ sym (contents-next q v (length got) (omega arith))
                ∙ ap (contents q) (sym longer);
          };
        },
        refl,
      )

  taking-Ends :
      (n : ℕ) (got : List ℕ) (a : Pop) (calls : List Pop)
      → ltb (length got) n ≡ false
      → Loading q q.tail n got
      → let s = consuming (loading q.tail n got) (a ∷ calls) in
        Ends (stream s) (consume (loading q.tail n got) (a ∷ calls) s)
  unfolding consume
  taking-Ends n got a calls last u =
      let all : length got ≡ n = ground (arith, u.so_far) in
      let present : n ≤ size q = u.present in
      let below : size q < q.capacity = size-lt q v in
      let q' : SpscQueue = record q { tail = at_offset q.capacity q.tail n } in
      let fits : n < q.capacity = omega arith in
      let shorter : size q' + n ≡ size q = size-tail q v n present in
      let split : n + size q' ≡ size q = omega arith in
      let moved : System = record (consuming awaiting_data (rest_of a n ∷ calls)) {
        queue = q';
        received = r ++ got;
      } in
      let taken : got ++ contents q' (size q') ≡ contents q (size q) =
        ap (λ xs. xs ++ contents q' (size q')) (u.loaded ∙ ap (contents q) all)
        ∙ sym (contents-tail q v n (size q') (omega arith))
        ∙ ap (contents q) split in
      rw last (
        moved,
        ap (λ q''. done (record moved { queue = q'' })) (store_tail-at_offset q v n fits),
        record {
          stored = record {
            two = v.two;
            small = v.small;
            storage = v.storage;
            head_in = v.head_in;
            tail_in = at_offset-lt q.capacity q.tail n v.tail_in fits;
          };
          produces = Produces-tail q v n p pushes present w;
          consumes = tt;
        },
        append_assoc r got (contents q' (size q') ++ joined pushes)
            ∙ ap (λ xs. r ++ xs)
                (sym (append_assoc got (contents q' (size q')) (joined pushes))
                  ∙ ap (λ xs. xs ++ joined pushes) taken),
      )

  pub consume-Ends :
      (c : Consumer) (calls : List Pop)
      → Consumes q c calls
      → Ends (stream (consuming c calls)) (consume c calls (consuming c calls))
  unfolding consume
  consume-Ends c [] u = unmoved c [] [] u
  consume-Ends awaiting_data (a ∷ calls) u = awaiting_data-Ends a calls
  consume-Ends (loading t n got) (a ∷ calls) u =
      subst
        (λ k.
          Ends (stream (consuming (loading k n got) (a ∷ calls)))
            (consume (loading k n got) (a ∷ calls) (consuming (loading k n got) (a ∷ calls))))
        (sym u.at_tail) (by_progress (Bool-cases (ltb (length got) n)))
    where
      here : Loading q q.tail n got
      here = record { at_tail = refl; so_far = u.so_far; present = u.present; loaded = u.loaded }

      by_progress :
          (ltb (length got) n ≡ true) ⊎ (ltb (length got) n ≡ false)
          → Ends (stream (consuming (loading q.tail n got) (a ∷ calls))) (
              consume
                (loading q.tail n got)
                (a ∷ calls)
                (consuming (loading q.tail n got) (a ∷ calls)))
      by_progress (inl more) = loading_byte-Ends n got a calls more here
      by_progress (inr last) = taking-Ends n got a calls last here

  pub give_up-Ends :
      (c : Consumer) (calls : List Pop)
      → Consumes q c calls
      → Ends (stream (consuming c calls)) (give_up c calls (consuming c calls))
  unfolding give_up
  give_up-Ends awaiting_data [] u = unmoved awaiting_data [] [] tt
  give_up-Ends awaiting_data (a ∷ calls) u =
      elim (Bool-cases (a.timed && ltb (size q) a.remaining)) [
        | inl late ↦ rw late (unmoved awaiting_data calls (a ∷ calls) tt)
        | inr waits ↦ rw waits (unmoved awaiting_data (a ∷ calls) (a ∷ calls) tt)
      ]
  give_up-Ends (loading t n got) [] u = unmoved (loading t n got) [] [] u
  give_up-Ends (loading t n got) (a ∷ calls) u = unmoved (loading t n got) (a ∷ calls) (a ∷ calls) u
