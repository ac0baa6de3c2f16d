-- ===== src/Binary.antt =====
-- headers/serialization/Binary.h: an object through its properties to bytes and back. A member is of a
-- fundamental type, by its `sizeof` and its value, or an object with properties of its own.
pub mod RoundTrip
use gicame.Prelude.{ℕ, ◌-◌, if◌then◌else◌, List, length, drop, ◌++◌}
use gicame.Memory.{size_mod}
use gicame.Rpc.{Bytes, to_le, from_le}
use gicame.Streams.{MemoryStream, memory_stream, write, read}

mutual
  pub data Member : Type 0 where
    fundamental : ℕ → ℕ → Member
    with_properties : Properties → Member

  pub data Properties : Type 0 where
    end : Properties
    property : Member → Properties → Properties

unfoldable pub fundamental_to_binary : ℕ → ℕ → MemoryStream → MemoryStream
fundamental_to_binary w v out = write (to_le w v) out

-- The bytes that are read replace the first ones of the value.
unfoldable pub binary_to_fundamental : ℕ → ℕ → MemoryStream → ℕ × MemoryStream
binary_to_fundamental w v s =
    let got : Bytes = (read w s).0 in (from_le (got ++ drop (length got) (to_le w v)), (read w s).1)

unfoldable mutual
  unfolding fundamental_to_binary

  pub serialize_member : Member → MemoryStream → MemoryStream
  serialize_member (fundamental w v) out = fundamental_to_binary w v out
  serialize_member (with_properties ps) out = binary_serialize ps out

  -- `binarySerialize` to a stream
  pub binary_serialize : Properties → MemoryStream → MemoryStream
  binary_serialize end out = out
  binary_serialize (property m ps) out = binary_serialize ps (serialize_member m out)

unfoldable mutual
  unfolding binary_to_fundamental

  pub deserialize_member : Member → MemoryStream → Member × MemoryStream
  deserialize_member (fundamental w v) s =
      (fundamental w ((binary_to_fundamental w v s).0), (binary_to_fundamental w v s).1)
  deserialize_member (with_properties ps) s =
      (with_properties ((binary_deserialize ps s).0), (binary_deserialize ps s).1)

  -- `binaryDeserialize` from a stream into an object.
  pub binary_deserialize : Properties → MemoryStream → Properties × MemoryStream
  binary_deserialize end s = (end, s)
  binary_deserialize (property m ps) s =
      let (m', s') = deserialize_member m s in
      let (ps', s'') = binary_deserialize ps s' in (property m' ps', s'')

-- `tellp` and `tellg`, as a `size_t`: -1 once the stream has failed.
unfoldable pub tell : MemoryStream → ℕ
tell s = if s.good then s.buf.pos else size_mod - 1

-- `binarySerialize` to a buffer: what it returns, and the buffer.
unfoldable pub serialize_to_buffer : Properties → Bytes → ℕ × Bytes
unfolding binary_serialize memory_stream tell
serialize_to_buffer ps buffer =
    let out : MemoryStream = binary_serialize ps (memory_stream buffer) in
    (tell out, out.buf.buffer)

-- `binaryDeserialize` from a buffer: what it returns, and the object.
unfoldable pub deserialize_from_buffer : Properties → Bytes → ℕ × Properties
unfolding binary_deserialize memory_stream tell
deserialize_from_buffer ps buffer =
    let (ps', s) = binary_deserialize ps (memory_stream buffer) in (tell s, ps')
