-- ===== src/Addresses.antt =====
-- headers/network/NetworkDefinitions.h and src/network/NetworkDefinitions.cpp: addresses. A word of 32 bits
-- is the list of its bits, the one for 1 first; the octets of an IPv4 address stand in network order, so
-- that the first one has the lowest bits.
pub mod Subnets
pub mod Text
use gicame.Prelude.{
  ℕ, zero, suc, ◌+◌, ◌-◌, ◌*◌, ◌/◌, ◌%◌, Bool, true, false, not, ◌&&◌, ◌||◌, if◌then◌else◌, List,
  [], ◌∷◌, ◌++◌, take, drop, replicate, ltb,
}
use gicame.Rpc.{Bytes}

abbrev pub Word : Type 0
Word = List Bool

-- `a & b` and `a | b` of words of one length, `~a` and `a == b`.
abbrev pub word_and : Word → Word → Word
word_and (a ∷ xs) (b ∷ bs) = (a && b) ∷ word_and xs bs
word_and _ _ = []

abbrev pub word_or : Word → Word → Word
word_or (a ∷ xs) (b ∷ bs) = (a || b) ∷ word_or xs bs
word_or _ _ = []

abbrev pub word_not : Word → Word
word_not [] = []
word_not (a ∷ xs) = not a ∷ word_not xs

abbrev pub same_bit : Bool → Bool → Bool
same_bit true b = b
same_bit false b = not b

abbrev pub word_eq : Word → Word → Bool
word_eq [] [] = true
word_eq (a ∷ xs) (b ∷ bs) = same_bit a b && word_eq xs bs
word_eq _ _ = false

-- NETMASK_32BIT, NETMASK_24BIT, NETMASK_16BIT and NETMASK_8BIT, by their number.
unfoldable pub netmask : ℕ → Word
netmask n = replicate n true ++ replicate (32 - n) false

-- `IPv4::matchSubnet`
unfoldable pub match_subnet : Word → Word → Word → Bool
match_subnet subnet mask v = word_eq (word_and v mask) (word_and subnet mask)

-- `IPv4::getSubnet`
unfoldable pub get_subnet : Word → Word → Word
get_subnet mask v = word_and v mask

-- `IPv4::broadcastAddress`
unfoldable pub broadcast_address : Word → Word → Word
broadcast_address mask v = word_or v (word_not mask)

-- `IPv4::isBroadcastAddress`
unfoldable pub is_broadcast_address : Word → Word → Bool
is_broadcast_address mask v = word_eq (word_and v (word_not mask)) (word_not mask)

-- `IPv6::fromIPv4`, by the four bytes of the address: the memory of the new object, whatever it holds.
unfoldable pub from_ipv4 : Bytes → Bytes → Bytes
from_ipv4 value memory = value ++ drop 4 (take 4 memory ++ replicate 12 0)

-- The character of a digit, as `std::hex` writes it.
abbrev pub hex_digit : ℕ → ℕ
hex_digit d = if ltb d 10 then 48 + d else 87 + d

-- A byte in two digits, `std::setfill('0')` and `std::setw(2)`.
abbrev pub hex_byte : ℕ → Bytes
hex_byte b = hex_digit (b / 16) ∷ hex_digit (b % 16) ∷ []

-- The loop of `MacAddress::toString`, and the byte behind it.
unfoldable pub write_octets : ℕ → ℕ → Bytes
write_octets zero temp_value = hex_byte (temp_value % 256)
write_octets (suc n) temp_value =
    hex_byte (temp_value % 256) ++ 58 ∷ write_octets n (temp_value / 256)

-- `MacAddress::toString`
unfoldable pub mac_to_string : ℕ → Bytes
unfolding write_octets
mac_to_string value = write_octets 5 value
