-- ===== src/Addresses/Text.antt =====
-- The text of a MacAddress, and the bytes of an IPv6 made of an IPv4.
use gicame.Prelude.{
  ℕ, zero, suc, ◌+◌, ◌-◌, ◌*◌, ◌/◌, ◌%◌, ◌^◌, ◌<◌, ◌≡◌, refl, ap, ◌∙◌, arith, if◌then◌else◌, ltb,
  [], ◌∷◌, ◌++◌, length, take, replicate, length-take,
}
use gicame.Rpc.{Bytes}
use gicame.Rpc.Words.{drop-at}
use gicame.Addresses.{from_ipv4, hex_digit, write_octets, mac_to_string}

-- Reading two digits, and a text of octets between colons whose first one is the lowest.
abbrev pub hex_value : ℕ → ℕ
hex_value c = if ltb c 58 then c - 48 else c - 87

abbrev pub read_octets : ℕ → Bytes → ℕ
read_octets zero (a ∷ b ∷ []) = 16 * hex_value a + hex_value b
read_octets (suc n) (a ∷ b ∷ c ∷ rest) = 16 * hex_value a + hex_value b + 256 * read_octets n rest
read_octets _ _ = 0

hex_value-hex_digit : (d : ℕ) → d < 16 → hex_value (hex_digit d) ≡ d
hex_value-hex_digit d small = ground arith

read_byte :
    (x : ℕ)
    → 16 * hex_value (hex_digit (x % 256 / 16)) + hex_value (hex_digit (x % 256 % 16)) ≡ x % 256
read_byte x =
    rw
      (
        hex_value-hex_digit (x % 256 / 16) (omega arith),
        hex_value-hex_digit (x % 256 % 16) (omega arith),
      )
      (omega arith)

read_octets-write_octets : (n x : ℕ) → x < 256 ^ (suc n) → read_octets n (write_octets n x) ≡ x
unfolding write_octets
read_octets-write_octets zero x small = read_byte x ∙ omega arith
read_octets-write_octets (suc n) x small =
    let rest : read_octets n (write_octets n (x / 256)) ≡ x / 256 =
      read_octets-write_octets n (x / 256) (omega arith) in
    rw (rest, read_byte x) (omega arith)

length-write_octets : (n x : ℕ) → length (write_octets n x) ≡ 3 * n + 2
unfolding write_octets
length-write_octets zero x = refl
length-write_octets (suc n) x = omega (arith, length-write_octets n (x / 256))

-- A MAC address of 48 bits is written in 17 characters, from which it can be read back: the octets in
-- two digits each, the lowest octet first.
pub mac_to_string_read :
    (x : ℕ) → x < 256 ^ 6 → (read_octets 5 (mac_to_string x) ≡ x) × (length (mac_to_string x) ≡ 17)
unfolding mac_to_string
mac_to_string_read x small = (read_octets-write_octets 5 x small, length-write_octets 5 x)

-- The last twelve bytes are 0, whatever the memory of the new object held.
pub from_ipv4_zeros :
    (value memory : Bytes)
    → length value ≡ 4
    → length memory ≡ 16
    → from_ipv4 value memory ≡ value ++ replicate 12 0
unfolding from_ipv4
from_ipv4_zeros value memory v m =
    let front : length (take 4 memory) ≡ 4 = omega (arith, length-take 4 memory, m) in
    ap (λ r. value ++ r) (drop-at (take 4 memory) (replicate 12 0) front)
