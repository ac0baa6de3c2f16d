-- ===== src/Serializer/Laws.antt =====
-- What the serializer writes, it reads back.
use gicame.Prelude.{
  ℕ, ◌≤◌, ◌≡◌, refl, sym, ap, ◌∙◌, subst, arith, false, ltb, [], ◌++◌, length, take, drop, done,
  take-all, append-nil,
}
use gicame.Rpc.{Bytes, to_le}
use gicame.Rpc.Words.{length-to_le, from_le-to_le}
use gicame.Streams.{read}
use gicame.Streams.Laws.{at, write-at, read-at}
use gicame.Serializer.{
  CppType, void_type, fundamental, unsupported, Fits, to_bytes, to_stream, from_stream, from_buffer,
  serialized_size, read_value,
}

-- The bytes of a value.
abbrev pub bytes_of : CppType → ℕ → Bytes
bytes_of void_type v = []
bytes_of (fundamental w) v = to_le w v
bytes_of unsupported v = []

abbrev pub size_of : CppType → ℕ
size_of void_type = 0
size_of (fundamental w) = w
size_of unsupported = 0

pub length-bytes_of : (t : CppType) (v : ℕ) → length (bytes_of t v) ≡ size_of t
length-bytes_of void_type v = refl
length-bytes_of (fundamental w) v = length-to_le w v
length-bytes_of unsupported v = refl

pub serialized_size-Fits : (t : CppType) (v : ℕ) → Fits t v → serialized_size t ≡ done (size_of t)
unfolding serialized_size
serialized_size-Fits void_type v f = refl
serialized_size-Fits (fundamental w) v f = refl
serialized_size-Fits unsupported v f = absurd f

pub to_bytes-Fits : (t : CppType) (v : ℕ) → Fits t v → to_bytes t v ≡ done (bytes_of t v)
unfolding to_bytes
to_bytes-Fits void_type v f = refl
to_bytes-Fits (fundamental w) v f = refl
to_bytes-Fits unsupported v f = absurd f

pub from_buffer-bytes_of : (t : CppType) (v : ℕ) → Fits t v → from_buffer t (bytes_of t v) ≡ done v
unfolding from_buffer
from_buffer-bytes_of void_type v f = ap done (sym f)
from_buffer-bytes_of (fundamental w) v f =
    let whole : ltb (length (to_le w v)) w ≡ false = ground (arith, length-to_le w v) in
    let all : take w (to_le w v) ≡ to_le w v =
      take-all w (to_le w v) (omega (arith, length-to_le w v)) in
    rw (whole, all, from_le-to_le w v f) refl
from_buffer-bytes_of unsupported v f = absurd f

pub to_stream-at :
    (t : CppType) (v : ℕ) (before rest : Bytes)
    → Fits t v
    → size_of t ≤ length rest
    → to_stream t v (at before rest) ≡ done (at (before ++ bytes_of t v) (drop (size_of t) rest))
unfolding to_stream
to_stream-at void_type v before rest f fits = rw (append-nil before) refl
to_stream-at (fundamental w) v before rest f fits =
    let l : length (to_le w v) ≡ w = length-to_le w v in
    ap done (
      write-at before (to_le w v) rest (omega (arith, l))
      ∙ ap (λ n. at (before ++ to_le w v) (drop n rest)) l)
to_stream-at unsupported v before rest f fits = absurd f

pub from_stream-at :
    (t : CppType) (v : ℕ) (before rest : Bytes)
    → Fits t v
    → from_stream t (at before (bytes_of t v ++ rest)) ≡ done (v, at (before ++ bytes_of t v) rest)
unfolding from_stream read_value
from_stream-at void_type v before rest f = rw (append-nil before, f) refl
from_stream-at (fundamental w) v before rest f =
    let got : read w (at before (to_le w v ++ rest)) ≡ (to_le w v, at (before ++ to_le w v) rest) =
      subst
        (λ n. read n (at before (to_le w v ++ rest)) ≡ (to_le w v, at (before ++ to_le w v) rest))
        (length-to_le w v) (read-at before (to_le w v) rest) in
    ap read_value got ∙ ap (λ n. done (n, at (before ++ to_le w v) rest)) (from_le-to_le w v f)
from_stream-at unsupported v before rest f = absurd f
