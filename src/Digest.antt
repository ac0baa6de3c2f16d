-- ===== src/Digest.antt =====
-- src/crypto/hash/HashCalculator.cpp and HmacCalculator.cpp, over what the functions of OpenSSL do with a
-- context, which is a parameter. `live` counts the contexts that are allocated and not freed.
pub mod Freed
use gicame.Prelude.{
  ℕ, ◌+◌, ◌-◌, ◌==◌, Bool, not, ltb, if◌then◌else◌, Option, none, some, length, Outcome, done,
  threw, fault,
}
use gicame.Rpc.{Bytes}

pub data HashAlgorithm : Type 0 where
  md5 sha1 sha224 sha256 sha384 sha512 ripemd160 : HashAlgorithm

unfoldable pub hash_size : HashAlgorithm → ℕ
hash_size md5 = 16
hash_size sha1 = 20
hash_size sha224 = 28
hash_size sha256 = 32
hash_size sha384 = 48
hash_size sha512 = 64
hash_size ripemd160 = 20

unfoldable pub key_size : HashAlgorithm → ℕ
unfolding hash_size
key_size a = hash_size a

abbrev pub int_max : ℕ
int_max = 2147483647

-- EVP_DigestUpdate and EVP_DigestFinal_ex, or HMAC_Update and HMAC_Final: `none` for a failure.
pub record Api : Type 1 where
  pub Ctx : Type 0
  pub update : Ctx → Bytes → Option Ctx
  pub final : Ctx → Option Bytes

module _ (api : Api) where
  open api use {Ctx}

  -- `HashCalculator::hash` from EVP_DigestFinal_ex on, into a vector of `hash_size` bytes; `live` counts
  -- the context too.
  unfoldable pub hash_final : HashAlgorithm → Ctx → ℕ → Outcome Bytes × ℕ
  unfolding hash_size
  hash_final a c live = elim (api.final c) [
    | none ↦ (threw, live - 1)
    | some d ↦ (if ltb (hash_size a) (length d) then fault else done d, live - 1)
  ]

  -- From EVP_DigestUpdate on
  unfoldable pub hash_update : HashAlgorithm → Ctx → Bytes → ℕ → Outcome Bytes × ℕ
  unfolding hash_final
  hash_update a c source live = elim (api.update c source) [
    | none ↦ (threw, live - 1)
    | some c' ↦ hash_final a c' live
  ]

  -- From EVP_DigestInit_ex on, by the initialised context
  unfoldable pub hash_init : HashAlgorithm → Option Ctx → Bytes → ℕ → Outcome Bytes × ℕ
  unfolding hash_update
  hash_init a none source live = (threw, live - 1)
  hash_init a (some c) source live = hash_update a c source live

  -- `HashCalculator::hash` to a vector, by whether a context is allocated, and the initialised one
  unfoldable pub hash : HashAlgorithm → Bool → Option Ctx → Bytes → ℕ → Outcome Bytes × ℕ
  unfolding hash_init
  hash a allocated init source live =
      if not allocated then (threw, live) else hash_init a init source (live + 1)

  -- HmacCalculator: `ctx` is `none` for NULL.
  pub record HmacCalculator : Type 0 where
    pub ctx : Option Ctx
    pub hash_algorithm : HashAlgorithm

  -- The constructor; an exception of the cast of the key's size leaves the context allocated, since no
  -- destructor follows.
  unfoldable pub construct : HashAlgorithm → ℕ → Bool → Option Ctx → ℕ → Outcome HmacCalculator × ℕ
  unfolding key_size
  construct a given_key_size allocated init live =
      if not (key_size a == given_key_size)
      then (threw, live)
      else if not allocated
      then (threw, live)
      else if ltb int_max given_key_size
      then (threw, live + 1)
      else (elim init [
        | none ↦ (threw, live + 1 - 1)
        | some c ↦ (done (record { ctx = some c; hash_algorithm = a }), live + 1)
      ])

  unfoldable pub updated : Option Ctx → HmacCalculator → Outcome HmacCalculator
  updated none h = threw
  updated (some c) h = done (record h { ctx = some c })

  -- `update`
  unfoldable pub update : Bytes → HmacCalculator → Outcome HmacCalculator
  unfolding updated
  update source h = elim h.ctx [
    | none ↦ threw
    | some c ↦ if ltb int_max (length source) then threw else updated (api.update c source) h
  ]

  -- `finalize` to a vector, by what HMAC_Final writes: the result, the object and `live`.
  unfoldable pub finalize_with :
      Option Bytes → HmacCalculator → ℕ → Outcome Bytes × HmacCalculator × ℕ
  unfolding hash_size
  finalize_with none h live = (threw, h, live)
  finalize_with (some d) h live =
      if ltb (hash_size h.hash_algorithm) (length d)
      then (fault, h, live)
      else if not (length d == hash_size h.hash_algorithm)
      then (threw, h, live)
      else (done d, record h { ctx = none }, live - 1)

  unfoldable pub finalize : HmacCalculator → ℕ → Outcome Bytes × HmacCalculator × ℕ
  unfolding finalize_with
  finalize h live = elim h.ctx [
    | none ↦ (threw, h, live)
    | some c ↦ finalize_with (api.final c) h live
  ]

  -- The destructor
  unfoldable pub destroy : HmacCalculator → ℕ → ℕ
  destroy h live = elim h.ctx [ none ↦ live | some c ↦ live - 1 ]

  -- `hmac` after the constructor and after `update`; the object is destroyed on each way out.
  unfoldable pub finish : HmacCalculator → Outcome HmacCalculator → ℕ → Outcome Bytes × ℕ
  unfolding finalize destroy
  finish h (done h') live = let (o, h'', live') = finalize h' live in (o, destroy h'' live')
  finish h threw live = (threw, destroy h live)
  finish h fault live = (fault, destroy h live)

  unfoldable pub use_calculator : Bytes → Outcome HmacCalculator × ℕ → Outcome Bytes × ℕ
  unfolding finish update
  use_calculator source (done h, live) = finish h (update source h) live
  use_calculator source (threw, live) = (threw, live)
  use_calculator source (fault, live) = (fault, live)

  -- `HmacCalculator::hmac` to a vector
  unfoldable pub hmac : HashAlgorithm → ℕ → Bool → Option Ctx → Bytes → ℕ → Outcome Bytes × ℕ
  unfolding use_calculator construct
  hmac a given_key_size allocated init source live =
      use_calculator source (construct a given_key_size allocated init live)
