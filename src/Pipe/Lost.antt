-- ===== src/Pipe/Lost.antt =====
-- Objects over a pipe whose calls fail.
use gicame.Prelude.{
  ℕ, ◌+◌, ◌<◌, ◌≤◌, ◌≡◌, refl, ap, ◌∙◌, arith, true, false, ltb, Option, none, some, List, [], ◌∷◌,
  ◌++◌, length, done, threw,
}
use gicame.Memory.{size_mod, add_size}
use gicame.Rpc.{Bytes, to_le, from_le}
use gicame.Rpc.Words.{length-to_le, from_le-to_le}
use gicame.Transfer.{and_then}
use gicame.Pipe.{
  NamedPipe, connected, disconnected, no_count, close, send, write_to, receive, read_from,
  send_loop, send_body, send_object, receive_loop, receive_body, receive_object,
}

abbrev pub open_on : ℕ → NamedPipe
open_on d = record { fd = some d; state = connected }

abbrev pub shut : NamedPipe
shut = record { fd = none; state = disconnected }

header_loop :
    (d : ℕ) (h : Bytes)
    → length h ≡ 8
    → receive_loop (some h ∷ []) 8 0 [] (open_on d) ≡ some (done h, open_on d)
unfolding receive_loop receive read_from
header_loop d h l =
    let whole : ltb (add_size 0 (length h)) 8 ≡ false = ground (arith, l) in rw whole refl

body_of_header :
    (d size buffer_size : ℕ) (h : Bytes) (answers : List (Option Bytes))
    → length h ≡ 8
    → from_le h ≡ size
    → size ≤ buffer_size
    → receive_body answers buffer_size (done h, open_on d)
      ≡ receive_loop answers size 0 [] (open_on d)
unfolding receive_body
body_of_header d size buffer_size h answers l v fits =
    let complete : ltb (length h) 8 ≡ false = ground (arith, l) in
    let allowed : ltb buffer_size size ≡ false = ground arith in rw (complete, v, allowed) refl

arrived_header :
    (d size buffer_size : ℕ) (answers : List (Option Bytes))
    → size ≤ buffer_size
    → size < size_mod
    → receive_object (some (to_le 8 size) ∷ []) answers buffer_size (open_on d)
      ≡ receive_loop answers size 0 [] (open_on d)
unfolding receive_object
arrived_header d size buffer_size answers fits small =
    let l : length (to_le 8 size) ≡ 8 = length-to_le 8 size in
    ap (λ o. and_then o (receive_body answers buffer_size)) (header_loop d (to_le 8 size) l)
    ∙ (body_of_header d size buffer_size (to_le 8 size) answers l (from_le-to_le 8 size small) fits)

-- The answers to reads that give these parts, and then further ones.
abbrev pub reads : List Bytes → List (Option Bytes) → List (Option Bytes)
reads [] rest = rest
reads (part ∷ parts) rest = some part ∷ reads parts rest

abbrev pub total_length : List Bytes → ℕ
total_length [] = 0
total_length (part ∷ parts) = length part + total_length parts

later_read_throws :
    (d size count : ℕ) (got : Bytes) (parts : List Bytes) (a : Option Bytes)
    (answers : List (Option Bytes))
    → 0 < count + total_length parts
    → count + total_length parts < size
    → size < size_mod
    → receive_loop (reads parts (none ∷ a ∷ answers)) size count got (open_on d)
      ≡ some (threw, shut)
unfolding receive_loop receive read_from close
later_read_throws d size count got [] a answers some_bytes not_all small =
    let again : ltb (add_size count no_count) size ≡ true = ground arith in rw again refl
later_read_throws d size count got (part ∷ parts) a answers some_bytes not_all small =
    let exact : add_size count (length part) ≡ count + length part = ground arith in
    let goes_on : ltb (count + length part) size ≡ true = ground arith in
    rw (exact, goes_on)
      (later_read_throws d size (count + length part) (got ++ part) parts a answers (omega arith)
        (omega arith) small)

-- The receiver has got the size of an object, in one read of its eight bytes, and the first read of its
-- bytes fails: `receive` returns `~size_t(0)`, which the loop takes for a count that is large
-- enough, so `receiveObject` returns as if the object had arrived, and not a byte of it is in the
-- buffer. Where a read fails after any number of reads that have given some but not all of the bytes,
-- the count wraps around, the loop reads again from the pipe that is now closed, and `receiveObject`
-- throws.
pub failed_read_is_lost :
    (d size buffer_size : ℕ) (parts : List Bytes) (a : Option Bytes) (answers : List (Option Bytes))
    → 0 < size
    → size ≤ buffer_size
    → size < size_mod
    → 0 < total_length parts
    → total_length parts < size
    → (receive_object (some (to_le 8 size) ∷ []) (none ∷ answers) buffer_size (open_on d)
        ≡ some (done [], shut))
      × (receive_object
            (some (to_le 8 size) ∷ [])
            (reads parts (none ∷ a ∷ answers))
            buffer_size
            (open_on d)
          ≡ some (threw, shut))
unfolding receive_loop receive read_from close
failed_read_is_lost d size buffer_size parts a answers pos fits small some_bytes not_all = (
  arrived_header d size buffer_size (none ∷ answers) fits small ∙ first_read,
  arrived_header d size buffer_size (reads parts (none ∷ a ∷ answers)) fits small
      ∙ later_read_throws d size 0 [] parts a answers (omega arith) (omega arith) small,
)
  where
    first_read : receive_loop (none ∷ answers) size 0 [] (open_on d) ≡ some (done [], shut)
    first_read = let stops : ltb (add_size 0 no_count) size ≡ false = ground arith in rw stops refl

-- The size of an object is written, and the first write of its bytes fails: `sendObject` returns
-- `~size_t(0)` as the number of bytes sent, without an exception, and not a byte of the object is
-- sent. Where a later write of the object fails, `sendObject` throws.
pub failed_write_is_lost :
    (d size part : ℕ) (a : Option ℕ) (answers : List (Option ℕ))
    → 0 < size
    → size < size_mod
    → 0 < part
    → part < size
    → (send_object (some 8 ∷ []) (none ∷ answers) size (open_on d) ≡ some (done no_count, shut))
      × (send_object (some 8 ∷ []) (some part ∷ none ∷ a ∷ answers) size (open_on d)
          ≡ some (threw, shut))
unfolding send_object send_loop send_body send write_to close
failed_write_is_lost d size part a answers pos small some_bytes not_all =
    let stops : ltb (add_size 0 no_count) size ≡ false = ground arith in
    let goes_on : ltb (add_size 0 part) size ≡ true = ground arith in
    let again : ltb (add_size (add_size 0 part) no_count) size ≡ true = ground arith in
    (rw stops refl, rw (goes_on, again) refl)
