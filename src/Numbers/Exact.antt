-- ===== src/Numbers/Exact.antt =====
-- What `safeNumericCast` of headers/utils/Numbers.h returns, for each pair of integer types.
use gicame.Prelude.{
  ℕ, ◌+◌, ◌-◌, ◌%◌, ◌≤◌, ◌<◌, ◌≡◌, refl, arith, Bool, true, false, ◌&&◌, Bool-cases, inl, inr, leb,
  ltb, if◌then◌else◌, done, threw, wrap_once,
}
use gicame.Numbers.{
  Value, pos, negsuc, Width, bits_8, bits_16, bits_32, bits_64, bytes, half, IntType, max_of,
  min_of, cast, cast_unsigned, cast_signed, cast_to_unsigned, checked_cast, same_sign,
  safe_numeric_cast,
}

-- Whether the type has the value.
unfoldable pub is_in : IntType → Value → Bool
unfolding max_of min_of
is_in t (pos n) = leb n (max_of t)
is_in t (negsuc n) = t.is_signed && leb n (min_of t)

half-positive : (w : Width) → 0 < half w
unfolding half
half-positive bits_8 = omega arith
half-positive bits_16 = omega arith
half-positive bits_32 = omega arith
half-positive bits_64 = omega arith

half-monotone : (a b : Width) → bytes a ≤ bytes b → half a ≤ half b
unfolding half bytes
half-monotone bits_8 bits_8 h = omega arith
half-monotone bits_8 bits_16 h = omega arith
half-monotone bits_8 bits_32 h = omega arith
half-monotone bits_8 bits_64 h = omega arith
half-monotone bits_16 bits_8 h = absurd (omega arith)
half-monotone bits_16 bits_16 h = omega arith
half-monotone bits_16 bits_32 h = omega arith
half-monotone bits_16 bits_64 h = omega arith
half-monotone bits_32 bits_8 h = absurd (omega arith)
half-monotone bits_32 bits_16 h = absurd (omega arith)
half-monotone bits_32 bits_32 h = omega arith
half-monotone bits_32 bits_64 h = omega arith
half-monotone bits_64 bits_8 h = absurd (omega arith)
half-monotone bits_64 bits_16 h = absurd (omega arith)
half-monotone bits_64 bits_32 h = absurd (omega arith)
half-monotone bits_64 bits_64 h = omega arith

-- A value of the type is cast to itself.
cast-same : (t : IntType) (v : Value) → is_in t v ≡ true → cast t v ≡ v
unfolding cast is_in max_of min_of
cast-same t (pos n) i =
    let h : ℕ = half t.width in
    let p : 0 < h = half-positive t.width in
    let r : n % (h + h) ≡ (if ltb n (h + h) then n else n - (h + h)) =
      wrap_once n (h + h) (ground arith) in
    rw r (ground arith)
cast-same t (negsuc n) i =
    let h : ℕ = half t.width in
    let p : 0 < h = half-positive t.width in
    let r : n % (h + h) ≡ (if ltb n (h + h) then n else n - (h + h)) =
      wrap_once n (h + h) (ground arith) in
    rw r (ground arith)

guarded-pos :
    (t : IntType) (n : ℕ)
    → (if ltb (max_of t) n then threw else done (cast t (pos n)))
      ≡ (if is_in t (pos n) then done (pos n) else threw)
unfolding is_in
guarded-pos t n = elim (Bool-cases (leb n (max_of t))) [
  | inl fits ↦
      let low : ltb (max_of t) n ≡ false = ground arith in
      rw (fits, low, cast-same t (pos n) fits) refl
  | inr big ↦ let high : ltb (max_of t) n ≡ true = ground arith in rw (big, high) refl
]

guarded-negsuc :
    (w : Width) (n : ℕ)
    → let t : IntType = record { is_signed = true; width = w } in
      (if ltb (min_of t) n then threw else done (cast t (negsuc n)))
      ≡ (if is_in t (negsuc n) then done (negsuc n) else threw)
unfolding is_in
guarded-negsuc w n =
    let t : IntType = record { is_signed = true; width = w } in
    elim (Bool-cases (leb n (min_of t))) [
      | inl fits ↦
          let low : ltb (min_of t) n ≡ false = ground arith in
          rw (fits, low, cast-same t (negsuc n) fits) refl
      | inr big ↦ let high : ltb (min_of t) n ≡ true = ground arith in rw (big, high) refl
    ]

checked_cast-exact :
    (a b : Bool) (w u : Width) (v : Value)
    → let t : IntType = record { is_signed = a; width = w } in
      is_in (record { is_signed = b; width = u }) v ≡ true
      → checked_cast a b t v ≡ (if is_in t v then done v else threw)
unfolding checked_cast cast_unsigned cast_signed cast_to_unsigned is_in
checked_cast-exact true true w u (pos n) i = guarded-pos (record { is_signed = true; width = w }) n
checked_cast-exact true true w u (negsuc n) i = guarded-negsuc w n
checked_cast-exact false true w u (pos n) i =
    guarded-pos (record { is_signed = false; width = w }) n
checked_cast-exact false true w u (negsuc n) i = refl
checked_cast-exact true false w u (pos n) i = guarded-pos (record { is_signed = true; width = w }) n
checked_cast-exact false false w u (pos n) i =
    guarded-pos (record { is_signed = false; width = w }) n
checked_cast-exact true false w u (negsuc n) i = absurd (ground arith)
checked_cast-exact false false w u (negsuc n) i = absurd (ground arith)

-- A type of the same sign that is at least as wide has every value.
is_in-wider :
    (a : Bool) (w u : Width) (v : Value)
    → bytes u ≤ bytes w
    → is_in (record { is_signed = a; width = u }) v ≡ true
    → is_in (record { is_signed = a; width = w }) v ≡ true
unfolding is_in max_of min_of
is_in-wider true w u (pos n) le i = let m : half u ≤ half w = half-monotone u w le in ground arith
is_in-wider true w u (negsuc n) le i =
    let m : half u ≤ half w = half-monotone u w le in ground arith
is_in-wider false w u (pos n) le i = let m : half u ≤ half w = half-monotone u w le in ground arith
is_in-wider false w u (negsuc n) le i = absurd (ground arith)

by_signs :
    (a b : Bool) (w u : Width) (v : Value)
    → let t : IntType = record { is_signed = a; width = w } in
      is_in (record { is_signed = b; width = u }) v ≡ true
      → (if same_sign a b && leb (bytes u) (bytes w) then done (cast t v) else checked_cast a b t v)
        ≡ (if is_in t v then done v else threw)
by_signs true false w u v i = checked_cast-exact true false w u v i
by_signs false true w u v i = checked_cast-exact false true w u v i
by_signs true true w u v i = elim (Bool-cases (leb (bytes u) (bytes w))) [
  | inl wide ↦
      let inside : is_in (record { is_signed = true; width = w }) v ≡ true =
        is_in-wider true w u v (grind arith) i in
      rw (wide, inside, cast-same (record { is_signed = true; width = w }) v inside) refl
  | inr narrow ↦ rw narrow (checked_cast-exact true true w u v i)
]
by_signs false false w u v i = elim (Bool-cases (leb (bytes u) (bytes w))) [
  | inl wide ↦
      let inside : is_in (record { is_signed = false; width = w }) v ≡ true =
        is_in-wider false w u v (grind arith) i in
      rw (wide, inside, cast-same (record { is_signed = false; width = w }) v inside) refl
  | inr narrow ↦ rw narrow (checked_cast-exact false false w u v i)
]

-- `safeNumericCast` returns the number itself when the target type has it, and throws when it has not.
pub safe_numeric_cast-exact :
    (target original : IntType) (v : Value)
    → is_in original v ≡ true
    → safe_numeric_cast target original v ≡ (if is_in target v then done v else threw)
unfolding safe_numeric_cast
safe_numeric_cast-exact target original v i =
    by_signs target.is_signed original.is_signed target.width original.width v i
