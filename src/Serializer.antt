-- ===== src/Serializer.antt =====
-- headers/dataSerialization/BinarySerializer.h: the serializer of remote calls.
pub mod Laws
use gicame.Prelude.{
  ℕ, ◌+◌, ◌<◌, ◌≡◌, ◌^◌, Bool, ltb, if◌then◌else◌, List, [], ◌∷◌, length, take, Outcome, done,
  threw, ◌>>=◌,
}
use gicame.Rpc.{Bytes, to_le, from_le}
use gicame.Streams.{MemoryStream, write, read}

-- `void`, a fundamental type by its `sizeof`, or any other type; a value is an unsigned number, that of
-- `void` is 0.
pub data CppType : Type 0 where
  void_type : CppType
  fundamental : ℕ → CppType
  unsupported : CppType

-- `serialize(data)`
unfoldable pub to_bytes : CppType → ℕ → Outcome Bytes
to_bytes void_type v = done []
to_bytes (fundamental w) v = done (to_le w v)
to_bytes unsupported v = threw

-- `serialize(data, outBuffer, outBufferSize)`: the bytes stored in the buffer.
unfoldable pub to_buffer : CppType → ℕ → ℕ → Outcome Bytes
to_buffer void_type v out_size = done []
to_buffer (fundamental w) v out_size = if ltb out_size w then threw else done (to_le w v)
to_buffer unsupported v out_size = threw

-- `serialize(data, out)`
unfoldable pub to_stream : CppType → ℕ → MemoryStream → Outcome MemoryStream
to_stream void_type v out = done out
to_stream (fundamental w) v out = done (write (to_le w v) out)
to_stream unsupported v out = threw

-- The overloads for an ISerializable, by what its own `serialize` returns.
unfoldable pub object_to_buffer : Bytes → ℕ → Outcome Bytes
object_to_buffer bs out_size = if ltb out_size (length bs) then threw else done bs

unfoldable pub object_to_stream : Bytes → MemoryStream → MemoryStream
object_to_stream bs out = write bs out

unfoldable pub serialized_size : CppType → Outcome ℕ
serialized_size void_type = done 0
serialized_size (fundamental w) = done w
serialized_size unsupported = threw

-- `deserialize(inBuffer, inBufferSize)`
unfoldable pub from_buffer : CppType → Bytes → Outcome ℕ
from_buffer void_type bs = done 0
from_buffer (fundamental w) bs = if ltb (length bs) w then threw else done (from_le (take w bs))
from_buffer unsupported bs = threw

-- What a fundamental value is read from, unless the stream has failed.
unfoldable pub read_value : Bytes × MemoryStream → Outcome (ℕ × MemoryStream)
read_value (bs, s) = if s.good then done (from_le bs, s) else threw

-- `deserialize(in)`
unfoldable pub from_stream : CppType → MemoryStream → Outcome (ℕ × MemoryStream)
unfolding read_value
from_stream void_type s = done (0, s)
from_stream (fundamental w) s = read_value (read w s)
from_stream unsupported s = threw

-- The value is one of the type.
abbrev pub Fits : CppType → ℕ → Type 0
Fits void_type v = v ≡ 0
Fits (fundamental w) v = v < 256 ^ w
Fits unsupported v = ⊥
