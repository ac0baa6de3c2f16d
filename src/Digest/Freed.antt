-- ===== src/Digest/Freed.antt =====
-- The contexts that src/crypto/hash allocates.
use gicame.Prelude.{
  ℕ, ◌+◌, ◌-◌, ◌≤◌, ◌≡◌, refl, arith, ◌==◌, Bool, true, false, not, Bool-cases, inl, inr, ltb,
  if◌then◌else◌, Option, none, some, Option-cases, length, Outcome, done, threw,
}
use gicame.Rpc.{Bytes}
use gicame.Digest.{
  HashAlgorithm, md5, sha1, sha224, sha256, sha384, sha512, ripemd160, hash_size, key_size, int_max,
  Api, hash_final, hash_update, hash_init, hash, HmacCalculator, construct, update, updated,
  finalize_with, finalize, destroy, finish, use_calculator, hmac,
}

key_size-le : (a : HashAlgorithm) → key_size a ≤ 64
unfolding key_size hash_size
key_size-le md5 = omega arith
key_size-le sha1 = omega arith
key_size-le sha224 = omega arith
key_size-le sha256 = omega arith
key_size-le sha384 = omega arith
key_size-le sha512 = omega arith
key_size-le ripemd160 = omega arith

module _ (api : Api) where
  open api use {Ctx}

  abbrev holding : Ctx → HashAlgorithm → HmacCalculator api
  holding c a = record { ctx = some c; hash_algorithm = a }

  finalize_with-frees :
      (o : Option Bytes) (c : Ctx) (a : HashAlgorithm) (live : ℕ)
      → let r = finalize_with api o (holding c a) (live + 1) in destroy api (r.1) (r.2) ≡ live
  unfolding finalize_with destroy
  finalize_with-frees none c a live = omega arith
  finalize_with-frees (some d) c a live = elim (Bool-cases (ltb (hash_size a) (length d))) [
    | inl long ↦ rw long (omega arith)
    | inr fits ↦ rw fits (elim (Bool-cases (length d == hash_size a)) [
      | inl whole ↦ rw whole (omega arith)
      | inr short ↦ rw short (omega arith)
    ])
  ]

  finish-frees :
      (source : Bytes) (c : Ctx) (a : HashAlgorithm) (live : ℕ)
      → (finish api (holding c a) (update api source (holding c a)) (live + 1)).1 ≡ live
  unfolding finish update updated finalize destroy
  finish-frees source c a live = elim (Bool-cases (ltb int_max (length source))) [
    | inl long ↦ rw long (omega arith)
    | inr fits ↦ rw fits (by_update (api.update c source))
  ]
    where
      by_update :
          (u : Option Ctx)
          → (finish api (holding c a) (updated api u (holding c a)) (live + 1)).1 ≡ live
      by_update none = omega arith
      by_update (some c') = finalize_with-frees (api.final c') c' a live

  hmac-frees :
      (a : HashAlgorithm) (n : ℕ) (allocated : Bool) (init : Option Ctx) (source : Bytes) (live : ℕ)
      → (hmac api a n allocated init source live).1 ≡ live
  unfolding hmac use_calculator construct
  hmac-frees a n allocated init source live = elim (Bool-cases (key_size a == n)) [
    | inr other ↦ rw other refl
    | inl same ↦
        let small : ltb int_max n ≡ false = ground (arith, key_size-le a) in
        rw (same, small) (by_context allocated init)
  ]
    where
      after : Bool → Option Ctx → Outcome (HmacCalculator api) × ℕ
      after b i =
          if not b
          then (threw, live)
          else (elim i [ none ↦ (threw, live + 1 - 1) | some c ↦ (done (holding c a), live + 1) ])

      by_context : (b : Bool) (i : Option Ctx) → (use_calculator api source (after b i)).1 ≡ live
      by_context false i = refl
      by_context true none = omega arith
      by_context true (some c) = finish-frees source c a live

  hash_final-frees :
      (a : HashAlgorithm) (c : Ctx) (live : ℕ) → (hash_final api a c (live + 1)).1 ≡ live
  unfolding hash_final
  hash_final-frees a c live = elim (Option-cases (api.final c)) [
    | inl e ↦ rw (hash_final, e) (omega arith)
    | inr (d, e) ↦ rw (hash_final, e) (omega arith)
  ]

  hash_update-frees :
      (a : HashAlgorithm) (c : Ctx) (source : Bytes) (live : ℕ)
      → (hash_update api a c source (live + 1)).1 ≡ live
  unfolding hash_update
  hash_update-frees a c source live = elim (Option-cases (api.update c source)) [
    | inl e ↦ rw (hash_update, e) (omega arith)
    | inr (c', e) ↦ rw (hash_update, e) (hash_final-frees a c' live)
  ]

  hash-frees :
      (a : HashAlgorithm) (allocated : Bool) (init : Option Ctx) (source : Bytes) (live : ℕ)
      → (hash api a allocated init source live).1 ≡ live
  unfolding hash hash_init
  hash-frees a false init source live = refl
  hash-frees a true none source live = omega arith
  hash-frees a true (some c) source live = hash_update-frees a c source live

  -- Whatever OpenSSL answers, and whatever the key is, `hash` and `hmac` have freed every context that they
  -- allocated when they end, by a result or by an exception; in particular the cast of the key's size
  -- in the constructor, which would leave one allocated, throws for no algorithm.
  pub contexts_are_freed :
      (a : HashAlgorithm) (n : ℕ) (allocated : Bool) (init : Option Ctx) (source : Bytes) (live : ℕ)
      → ((hash api a allocated init source live).1 ≡ live)
        × ((hmac api a n allocated init source live).1 ≡ live)
  contexts_are_freed a n allocated init source live =
      (hash-frees a allocated init source live, hmac-frees a n allocated init source live)
