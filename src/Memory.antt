-- ===== src/Memory.antt =====
-- Raw memory and machine words: headers/utils/Memory.h and the `size_t` of a 64-bit build.
-- An object in memory is `size` bytes from offset 0; an access outside it is a fault.
use gicame.Prelude.{
  ℕ, ◌+◌, ◌-◌, ◌%◌, ◌^◌, ◌&&◌, List, leb, ltb, if◌then◌else◌, length, get_or, tabulate, Option,
  some, none, Outcome, done, fault,
}

abbrev pub size_mod : ℕ
size_mod = 2 ^ 64

-- `size_t` arithmetic wraps around.
abbrev pub add_size : ℕ → ℕ → ℕ
add_size a b = (a + b) % size_mod

abbrev pub sub_size : ℕ → ℕ → ℕ
sub_size a b = (a + size_mod - b) % size_mod

pub record Mem : Type 0 where
  pub size : ℕ
  pub cell : ℕ → ℕ

-- The bytes `bs` stored from offset `off` on.
abbrev pub splice : (ℕ → ℕ) → ℕ → List ℕ → ℕ → ℕ
splice cell off bs i =
    if leb off i && ltb i (off + length bs) then get_or bs (i - off) 0 else cell i

-- std::memcpy(base + off, bs, length bs)
unfoldable pub copy_in : Mem → ℕ → List ℕ → Outcome Mem
copy_in m off bs =
    if leb (off + length bs) m.size then done (record m { cell = splice m.cell off bs }) else fault

-- std::memcpy(out, base + off, n)
unfoldable pub copy_out : Mem → ℕ → ℕ → Outcome (List ℕ)
copy_out m off n = if leb (off + n) m.size then done (tabulate n (λ i. m.cell (off + i))) else fault

-- std::align on an address and the space behind it, and `Utilities::align`, which returns the
-- aligned address and what is left of the space from there on.
unfoldable pub align : ℕ → ℕ → ℕ → ℕ → Option (ℕ × ℕ)
align alignment size ptr space =
    let pad = (alignment - ptr % alignment) % alignment in
    if leb (pad + size) space then some (ptr + pad, space - pad) else none
