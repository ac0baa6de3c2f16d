-- ===== src/Streams.antt =====
-- headers/stream/MemoryStream.h: a buffer of fixed size behind the interface of a stream buffer, and
-- what `write` and `read` of the standard streams do with it.
pub mod Laws
use gicame.Prelude.{
  ℕ, ◌+◌, ◌-◌, Bool, true, false, ◌==◌, leb, if◌then◌else◌, Option, none, some, List, [], ◌∷◌, ◌++◌,
  length, take, drop, get_or, min,
}

-- `bufferSize` is the length of the buffer.
pub record MemoryStreamBuf : Type 0 where
  pub buffer : List ℕ
  pub pos : ℕ

unfoldable pub open_buffer : List ℕ → MemoryStreamBuf
open_buffer bs = record { buffer = bs; pos = 0 }

-- `xsputn`: how many bytes are written, and the buffer afterwards.
unfoldable pub xsputn : List ℕ → MemoryStreamBuf → ℕ × MemoryStreamBuf
xsputn bs b =
    let to_write : ℕ = min (length bs) (length b.buffer - b.pos) in
    (
      to_write,
      record {
        buffer = take b.pos b.buffer ++ (take to_write bs ++ drop (b.pos + to_write) b.buffer);
        pos = b.pos + to_write;
      },
    )

-- `xsgetn`: the bytes that are read, and the buffer afterwards.
unfoldable pub xsgetn : ℕ → MemoryStreamBuf → List ℕ × MemoryStreamBuf
xsgetn count b =
    let to_read : ℕ = min count (length b.buffer - b.pos) in
    (take to_read (drop b.pos b.buffer), record b { pos = b.pos + to_read })

-- `overflow`, `none` for EOF.
unfoldable pub overflow : ℕ → MemoryStreamBuf → Option MemoryStreamBuf
overflow c b =
    if leb (length b.buffer) b.pos
    then none
    else some (record {
      buffer = take b.pos b.buffer ++ (c ∷ drop (b.pos + 1) b.buffer);
      pos = b.pos + 1;
    })

-- `underflow`, `none` for EOF.
unfoldable pub underflow : MemoryStreamBuf → Option (ℕ × MemoryStreamBuf)
underflow b =
    if leb (length b.buffer) b.pos
    then none
    else some (get_or b.buffer b.pos 0, record b { pos = b.pos + 1 })

-- MemoryOStream and MemoryIStream: a buffer and the state of the stream.
pub record MemoryStream : Type 0 where
  pub buf : MemoryStreamBuf
  pub good : Bool

unfoldable pub memory_stream : List ℕ → MemoryStream
unfolding open_buffer
memory_stream bs = record { buf = open_buffer bs; good = true }

-- `basic_ostream::write`
unfoldable pub write : List ℕ → MemoryStream → MemoryStream
unfolding xsputn
write bs s =
    if s.good
    then record { buf = (xsputn bs s.buf).1; good = (xsputn bs s.buf).0 == length bs }
    else s

-- `basic_istream::read`
unfoldable pub read : ℕ → MemoryStream → List ℕ × MemoryStream
unfolding xsgetn
read n s =
    if s.good
    then (
      (xsgetn n s.buf).0,
      record { buf = (xsgetn n s.buf).1; good = length ((xsgetn n s.buf).0) == n },
    )
    else ([], s)
