-- ===== src/Numbers.antt =====
-- headers/utils/Numbers.h: `safeNumericCast` between the integer types.
pub mod Exact
use gicame.Prelude.{
  ℕ, ◌+◌, ◌-◌, ◌%◌, ◌^◌, Bool, true, false, not, ◌&&◌, ◌==◌, leb, ltb, if◌then◌else◌, Outcome, done,
  threw,
}

-- The value of an integer: `n`, or `-(n + 1)`.
pub data Value : Type 0 where
  pos : ℕ → Value
  negsuc : ℕ → Value

pub data Width : Type 0 where
  bits_8 bits_16 bits_32 bits_64 : Width

-- `sizeof`
unfoldable pub bytes : Width → ℕ
bytes bits_8 = 1
bytes bits_16 = 2
bytes bits_32 = 4
bytes bits_64 = 8

-- Half of the number of values of the width.
unfoldable pub half : Width → ℕ
half bits_8 = 2 ^ 7
half bits_16 = 2 ^ 15
half bits_32 = 2 ^ 31
half bits_64 = 2 ^ 63

pub record IntType : Type 0 where
  pub is_signed : Bool
  pub width : Width

-- `std::numeric_limits<Type>::max()`, `maxOf`
unfoldable pub max_of : IntType → ℕ
unfolding half
max_of t = if t.is_signed then half t.width - 1 else half t.width + half t.width - 1

-- `minOf` of a signed type is `-(n + 1)` for this `n`.
unfoldable pub min_of : IntType → ℕ
unfolding half
min_of t = half t.width - 1

-- The pattern of bits as a value of the type.
abbrev pub from_bits : IntType → ℕ → ℕ → Value
from_bits t h r = if t.is_signed && leb h r then negsuc (h + h - 1 - r) else pos r

-- `(Target)original`, which wraps around.
unfoldable pub cast : IntType → Value → Value
unfolding half
cast t (pos n) = from_bits t (half t.width) (n % (half t.width + half t.width))
cast t (negsuc n) = let h : ℕ = half t.width in from_bits t h (h + h - 1 - n % (h + h))

-- Both unsigned, and from unsigned to signed.
unfoldable pub cast_unsigned : IntType → ℕ → Outcome Value
unfolding max_of cast
cast_unsigned target n = if ltb (max_of target) n then threw else done (cast target (pos n))

-- Both signed.
unfoldable pub cast_signed : IntType → Value → Outcome Value
unfolding max_of min_of cast
cast_signed target (pos n) = if ltb (max_of target) n then threw else done (cast target (pos n))
cast_signed target (negsuc n) =
    if ltb (min_of target) n then threw else done (cast target (negsuc n))

-- From signed to unsigned.
unfoldable pub cast_to_unsigned : IntType → Value → Outcome Value
unfolding max_of cast
cast_to_unsigned target (pos n) =
    if ltb (max_of target) n then threw else done (cast target (pos n))
cast_to_unsigned target (negsuc n) = threw

-- What is not always safe, by the signs of the target and of the original type.
unfoldable pub checked_cast : Bool → Bool → IntType → Value → Outcome Value
unfolding cast_unsigned cast_signed cast_to_unsigned
checked_cast true true target v = cast_signed target v
checked_cast false true target v = cast_to_unsigned target v
checked_cast _ false target (pos n) = cast_unsigned target n
checked_cast _ false target (negsuc n) = done (cast target (negsuc n))

abbrev pub same_sign : Bool → Bool → Bool
same_sign a b = if a then b else not b

unfoldable pub safe_numeric_cast : IntType → IntType → Value → Outcome Value
unfolding bytes cast checked_cast
safe_numeric_cast target original v =
    if same_sign target.is_signed original.is_signed
      && leb (bytes original.width) (bytes target.width)
    then done (cast target v)
    else checked_cast target.is_signed original.is_signed target v
