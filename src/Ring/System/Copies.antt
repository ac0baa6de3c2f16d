-- ===== src/Ring/System/Copies.antt =====
-- The copies of a chunk and the publication of an index succeed and keep the invariant.
use mathlib.Core.List.{flatten}
use gicame.Prelude.{
  ℕ, ◌<◌, ◌≡◌, refl, sym, ap, ◌∙◌, arith, List, ◌++◌, length, drop, length-append, length-tabulate,
  take-append-drop, append_assoc, done, ◌>>=◌,
}
use gicame.Ring.{
  chunk_size, first_part, write_first, write_rest, store_head, read_first, read_rest, store_tail,
}
use gicame.Ring.Index.{chunk_size-bounds}
use gicame.Ring.System.{
  writing_rest, storing_head, reading_rest, storing_tail, System, out_chunk, in_chunk, publish,
  release,
}
use gicame.Ring.Cells.{cells}
use gicame.Ring.Inv.{contents}
use gicame.Ring.Chunks.{
  Written, first_written, rest_written, write_first_lem, write_rest_lem, first_written-Written,
  first_written-cells, rest_written-cells, rest_written-Written, store_head-contents, first_read,
  rest_read, read_first_lem, read_rest_lem, reads-append, store_tail-contents,
}
use gicame.Ring.Valid.{
  first_written-IsValid, rest_written-IsValid, store_head-IsValid, store_tail-IsValid,
}
use gicame.Ring.System.Inv.{
  HasRoom, HasData, Inv, Keeps, ConsumerIsOk-producer, ProducerIsOk-consumer, out_chunk-lt,
  room-now, length-chunk,
}

-- A chunk goes from the pending bytes to the ring, and from the ring to what is received.
stream-publish :
    (r c c' bs d p f : List ℕ)
    → c' ≡ c ++ bs
    → bs ++ d ≡ p
    → r ++ (c' ++ (d ++ f)) ≡ r ++ (c ++ (p ++ f))
stream-publish r c c' bs d p f e q = rw (e, ← q) (simp append_assoc)

stream-release :
    (r c c' bs rest : List ℕ) → c ≡ bs ++ c' → r ++ bs ++ (c' ++ rest) ≡ r ++ (c ++ rest)
stream-release r c c' bs rest e = rw e (simp append_assoc)

module _ {sent : List ℕ} {asked : ℕ} where
  pub write_first-Keeps :
      (s : System)
      → HasRoom s.ring (out_chunk s)
      → Inv sent asked s
      → Keeps sent asked (
          write_first s.ring (out_chunk s) >>= λ r.
          done (record s { ring = r; producer = writing_rest }))
  write_first-Keeps s room inv =
      let v = inv.valid in
      let bs = out_chunk s in
      let same = first_written-cells v bs in
      let now = room-now s v room in
      (
        record s { ring = first_written s.ring bs; producer = writing_rest },
        rw (write_first_lem v bs),
        record {
          valid = first_written-IsValid v bs;
          stream =
              ap (λ l. s.received ++ (l ++ (s.pending ++ flatten s.calls)))
                (same _ (omega arith) now)
              ∙ inv.stream;
          counted = inv.counted;
          producing = (room, first_written-Written v bs);
          consuming =
              ConsumerIsOk-producer s.consumer s.ring _ s.ring.head s.ring.cached_tail s.remaining
                s.staged v (λ m le. same m (omega (arith, v.old_head)) now) inv.consuming;
        },
      )

  pub write_rest-Keeps :
      (s : System)
      → HasRoom s.ring (out_chunk s)
      → Written s.ring (out_chunk s) (first_part s.ring.capacity s.ring.head (length (out_chunk s)))
      → Inv sent asked s
      → Keeps sent asked (
          write_rest s.ring (out_chunk s) >>= λ r.
          done (record s { ring = r; producer = storing_head }))
  write_rest-Keeps s room w inv =
      let v = inv.valid in
      let bs = out_chunk s in
      let same = rest_written-cells v bs in
      let now = room-now s v room in
      (
        record s { ring = rest_written s.ring bs; producer = storing_head },
        rw (write_rest_lem v bs (out_chunk-lt s v)),
        record {
          valid = rest_written-IsValid v bs;
          stream =
              ap (λ l. s.received ++ (l ++ (s.pending ++ flatten s.calls)))
                (same _ (omega arith) now)
              ∙ inv.stream;
          counted = inv.counted;
          producing = (room, rest_written-Written v bs (out_chunk-lt s v) w);
          consuming =
              ConsumerIsOk-producer s.consumer s.ring _ s.ring.head s.ring.cached_tail s.remaining
                s.staged v (λ m le. same m (omega (arith, v.old_head)) now) inv.consuming;
        },
      )

  pub publish-Inv :
      (s : System)
      → HasRoom s.ring (out_chunk s)
      → Written s.ring (out_chunk s) (length (out_chunk s))
      → Inv sent asked s
      → Inv sent asked (publish s)
  unfolding publish
  publish-Inv s room w inv =
      let v = inv.valid in
      let bs = out_chunk s in
      record {
        valid = store_head-IsValid v (length bs) room;
        stream =
            stream-publish s.received (contents s.ring) _ bs (drop (length bs) s.pending) s.pending
              (flatten s.calls) (store_head-contents v bs (room-now s v room) w)
              (ap (λ n. bs ++ drop n s.pending) (length-chunk s v)
                ∙ take-append-drop (chunk_size s.ring.capacity (length s.pending)) s.pending)
            ∙ inv.stream;
        counted = inv.counted;
        producing = tt;
        consuming =
            unfold store_head in
            ConsumerIsOk-producer s.consumer s.ring s.ring.buffer.cell _ s.ring.cached_tail
              s.remaining s.staged v (λ m le. refl) inv.consuming;
      }

  pub read_first-Keeps :
      (s : System)
      → HasData s.ring (in_chunk s)
      → Inv sent asked s
      → Keeps sent asked (
          read_first s.ring (in_chunk s) >>= λ bs.
          done (record s { staged = bs; consumer = reading_rest }))
  read_first-Keeps s has inv =
      let v = inv.valid in
      (
        record s { staged = first_read v (in_chunk s); consumer = reading_rest },
        rw (read_first_lem v (in_chunk s)),
        record {
          valid = v;
          stream = inv.stream;
          counted = inv.counted;
          producing = inv.producing;
          consuming = (has, refl);
        },
      )

  pub read_rest-Keeps :
      (s : System)
      → HasData s.ring (in_chunk s)
      → s.staged
        ≡ cells s.ring.buffer.cell s.ring.capacity s.ring.tail
            (first_part s.ring.capacity s.ring.tail (in_chunk s))
      → Inv sent asked s
      → Keeps sent asked (
          read_rest s.ring (in_chunk s) >>= λ bs.
          done (record s { staged = s.staged ++ bs; consumer = storing_tail }))
  read_rest-Keeps s has staged inv =
      let v = inv.valid in
      let lt : in_chunk s < s.ring.capacity =
        (chunk_size-bounds s.ring.capacity v.two v.small s.remaining).0 in
      (
        record s { staged = s.staged ++ rest_read v (in_chunk s); consumer = storing_tail },
        rw (read_rest_lem v (in_chunk s) lt),
        record {
          valid = v;
          stream = inv.stream;
          counted = inv.counted;
          producing = inv.producing;
          consuming = (
            has,
            ap (λ l. l ++ rest_read v (in_chunk s)) staged ∙ reads-append v (in_chunk s) lt,
          );
        },
      )

  pub release-Inv :
      (s : System)
      → HasData s.ring (in_chunk s)
      → s.staged ≡ cells s.ring.buffer.cell s.ring.capacity s.ring.tail (in_chunk s)
      → Inv sent asked s
      → Inv sent asked (release s)
  unfolding release
  release-Inv s has staged inv =
      let v = inv.valid in
      record {
        valid = store_tail-IsValid v (in_chunk s) has;
        stream =
            stream-release s.received (contents s.ring) _ s.staged (s.pending ++ flatten s.calls) (
              store_tail-contents v (in_chunk s) (omega (arith, v.old_head))
              ∙ ap (λ l. l ++ contents (store_tail s.ring (in_chunk s))) (sym staged))
            ∙ inv.stream;
        counted = omega (
          arith,
          inv.counted,
          length-append s.received s.staged,
          ap length staged ∙ length-tabulate (in_chunk s) _,
          chunk_size-bounds s.ring.capacity v.two v.small s.remaining,
        );
        producing =
            unfold store_tail in
            ProducerIsOk-consumer s.producer s.ring _ s.ring.cached_head s.pending inv.producing;
        consuming = refl;
      }
