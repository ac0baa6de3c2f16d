-- ===== src/SpscQueue/Unallocated.antt =====
-- The queue as the constructor of src/concurrency/SPSCQueue.cpp leaves it: its buffer has no bytes.
use gicame.Prelude.{
  ℕ, suc, ◌+◌, ◌≤◌, ◌<◌, ◌≡◌, refl, ap, ◌∙◌, arith, true, false, Bool-cases, inl, inr, List, [],
  ◌∷◌, length, ltb, ◌==◌, ◌&&◌, done, fault, ◌>>=◌,
}
use gicame.Ring.Index.{max_capacity}
use gicame.SpscQueue.{
  System, Producer, awaiting_space, storing, awaiting_data, Pop, Turn, producer_turn, consumer_turn,
  timeout_turn, construct, size, free_space, chunk_size, store_byte, is_refused, produce, consume,
  give_up, step, run,
}

-- Two threads that start on a new queue: one pushes, the other one pops.
abbrev pub started : ℕ → List (List ℕ) → List Pop → System
started cap pushes pops = record {
  queue = construct cap;
  producer = awaiting_space;
  pushes = pushes;
  consumer = awaiting_data;
  pops = pops;
  received = [];
}

abbrev pub producer_turns : List Turn → ℕ
producer_turns [] = 0
producer_turns (producer_turn ∷ ts) = producer_turns ts + 1
producer_turns (t ∷ ts) = producer_turns ts

module _ (cap : ℕ) (two : 2 ≤ cap) (small : cap ≤ max_capacity) (b : ℕ) (bs : List ℕ)
    (calls : List (List ℕ)) where
  abbrev at : Producer → List Pop → System
  at p pops = record (started cap ((b ∷ bs) ∷ calls) pops) { producer = p }

  -- There is nothing to receive, so that at most calls end.
  consume_nothing :
      (p : Producer) (pops : List Pop)
      → (pops' : List Pop) × (consume awaiting_data pops (at p pops) ≡ done (at p pops'))
  unfolding consume construct size chunk_size
  consume_nothing p [] = ([], refl)
  consume_nothing p (a ∷ pops) = elim (Bool-cases (a.remaining == 0)) [
    | inl none_left ↦ rw none_left (pops, refl)
    | inr some_left ↦ rw some_left (elim (Bool-cases (is_refused cap a)) [
      | inl refused ↦ rw refused (pops, refl)
      | inr taken ↦
          let short : ltb (size (construct cap)) (chunk_size cap a.remaining) ≡ true =
            ground (arith, two, small) in
          rw (taken, short) (a ∷ pops, refl)
    ])
  ]

  give_up_nothing :
      (p : Producer) (pops : List Pop)
      → (pops' : List Pop) × (give_up awaiting_data pops (at p pops) ≡ done (at p pops'))
  unfolding give_up construct size
  give_up_nothing p [] = ([], refl)
  give_up_nothing p (a ∷ pops) =
      elim (Bool-cases (a.timed && ltb (size (construct cap)) a.remaining)) [
        | inl late ↦ rw late (pops, refl)
        | inr waits ↦ rw waits (a ∷ pops, refl)
      ]

  first_turn :
      (pops : List Pop)
      → (n : ℕ) × (0 < n)
        × (produce awaiting_space ((b ∷ bs) ∷ calls) (at awaiting_space pops)
            ≡ done (at (storing 0 n 0) pops))
  unfolding produce construct free_space size chunk_size
  first_turn pops =
      let n : ℕ = chunk_size cap (suc (length bs)) in
      let room : ltb (free_space (construct cap)) n ≡ false = ground (arith, two, small) in
      rw room (n, ground (arith, two, small), refl)

  second_turn :
      (n : ℕ) (pops : List Pop)
      → 0 < n
      → produce (storing 0 n 0) ((b ∷ bs) ∷ calls) (at (storing 0 n 0) pops) ≡ fault
  unfolding produce construct store_byte
  second_turn n pops pos =
      let more : ltb 0 n ≡ true = ground arith in
      let some_cap : (cap == 0) ≡ false = ground (arith, two) in rw (more, some_cap) (ground arith)

  -- The first byte is to be stored.
  storing-faults :
      (ts : List Turn) (n : ℕ) (pops : List Pop)
      → 0 < n
      → 0 < producer_turns ts
      → run ts (at (storing 0 n 0) pops) ≡ fault
  unfolding run step
  storing-faults [] n pops pos turns = absurd (omega arith)
  storing-faults (producer_turn ∷ ts) n pops pos turns =
      ap (λ o. o >>= run ts) (second_turn n pops pos)
  storing-faults (consumer_turn ∷ ts) n pops pos turns =
      let (pops', e) = consume_nothing (storing 0 n 0) pops in
      ap (λ o. o >>= run ts) e ∙ storing-faults ts n pops' pos turns
  storing-faults (timeout_turn ∷ ts) n pops pos turns =
      let (pops', e) = give_up_nothing (storing 0 n 0) pops in
      ap (λ o. o >>= run ts) e ∙ storing-faults ts n pops' pos turns

  -- The queue that the constructor makes, of whatever capacity from 2 to 2 ^ 63, carries no byte: where the
  -- first call of `push` has a byte to push, under every schedule in which the pushing thread gets two
  -- turns, its first store is outside the buffer, whose size nothing sets.
  pub new_queue_faults :
      (ts : List Turn) (pops : List Pop)
      → 2 ≤ producer_turns ts
      → run ts (started cap ((b ∷ bs) ∷ calls) pops) ≡ fault
  unfolding run step
  new_queue_faults [] pops turns = absurd (omega arith)
  new_queue_faults (producer_turn ∷ ts) pops turns =
      let (n, pos, e) = first_turn pops in
      ap (λ o. o >>= run ts) e ∙ storing-faults ts n pops pos (omega arith)
  new_queue_faults (consumer_turn ∷ ts) pops turns =
      let (pops', e) = consume_nothing awaiting_space pops in
      ap (λ o. o >>= run ts) e ∙ new_queue_faults ts pops' turns
  new_queue_faults (timeout_turn ∷ ts) pops turns =
      let (pops', e) = give_up_nothing awaiting_space pops in
      ap (λ o. o >>= run ts) e ∙ new_queue_faults ts pops' turns
