-- ===== src/Examples/Integers.antt =====
-- Integer types and values at concrete inputs.
use gicame.Prelude.{◌≡◌, refl, true, false, threw}
use gicame.Numbers.{IntType, bits_8, bits_32, negsuc, safe_numeric_cast}
use gicame.Numbers.Exact.{is_in, safe_numeric_cast-exact}

abbrev int32 : IntType
int32 = record { is_signed = true; width = bits_32 }

abbrev uint8 : IntType
uint8 = record { is_signed = false; width = bits_8 }

-- `safeNumericCast<uint8_t>(-1)`
safe_numeric_cast-exact_example : safe_numeric_cast uint8 int32 (negsuc 0) ≡ threw
unfolding is_in
safe_numeric_cast-exact_example = safe_numeric_cast-exact uint8 int32 (negsuc 0) refl
