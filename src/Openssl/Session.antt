-- ===== src/Openssl/Session.antt =====
-- src/crypto/dh/DiffieHellman.cpp: a key exchange owns a DH object. Where DH_set0_pqg succeeds, the DH
-- object owns its parameters, and DH_free frees them with it.
pub mod Freed
use gicame.Prelude.{
  ℕ, ◌+◌, ◌-◌, ◌≤◌, ◌≡◌, ◌≢◌, ◌∙◌, refl, ap, arith, fun_ext, Bool, true, false, not, ◌&&◌, ◌||◌,
  ◌==◌, ltb, if◌then◌else◌, Bool-cases, inl, inr, List, [], ◌∷◌, Option, none, some, length,
  Outcome, done, threw, fault,
}
use gicame.Rpc.{Bytes}
use gicame.Digest.{int_max}
use gicame.Openssl.{Heap, Act, put, take_off, pure, throw, allocate, free, free-put, ◌>>=◌, ◌>>◌}

-- `dh` is 0 for NULL.
pub record DiffieHellman : Type 0 where
  pub dh : ℕ

-- The constructor
abbrev pub new_exchange : DiffieHellman
new_exchange = record { dh = 0 }

-- The destructor
unfoldable pub destroy_exchange : DiffieHellman → Act (Unit {0})
destroy_exchange d = free d.dh

-- A call of `createSession`: the sizes of its arguments, and what the functions of OpenSSL answer.
pub record Call : Type 0 where
  pub generator_size : ℕ
  pub modulus_size : ℕ
  pub dh_new : ℕ
  pub p_bn : ℕ
  pub g_bn : ℕ
  pub set_ok : Bool
  pub check_ok : Bool

-- The parameters of the DH object at `dh`.
unfoldable pub set_parameters : Call → Act (Unit {0})
set_parameters c =
    if ltb int_max c.modulus_size
    then throw
    else (allocate c.p_bn >>= λ p.
        if ltb int_max c.generator_size
        then throw
        else (allocate c.g_bn >>= λ g.
            if (p == 0) || (g == 0) || not c.set_ok
            then (free c.dh_new >> (free p >> (free g >> throw)))
            else (λ h. (if c.check_ok then done tt else threw, take_off g (take_off p h)))))

abbrev pub created : ℕ → Outcome (Unit {0}) × Heap → Outcome (Unit {0}) × DiffieHellman × Heap
created dh (o, h) = (o, record { dh = dh }, h)

-- `createSession` once the session before is freed.
unfoldable pub new_session : Call → Heap → Outcome (Unit {0}) × DiffieHellman × Heap
unfolding set_parameters
new_session c h =
    if c.dh_new == 0
    then (threw, record { dh = 0 }, h)
    else created c.dh_new (set_parameters c (put c.dh_new h))

abbrev pub renew :
    Call → DiffieHellman → Outcome (Unit {0}) × Heap → Outcome (Unit {0}) × DiffieHellman × Heap
renew c d (done _, h) = new_session c h
renew c d (threw, h) = (threw, d, h)
renew c d (fault, h) = (fault, d, h)

-- `createSession`
unfoldable pub create_session :
    Call → DiffieHellman → Heap → Outcome (Unit {0}) × DiffieHellman × Heap
unfolding new_session
create_session c d h = renew c d (free d.dh h)

abbrev pub resume :
    (DiffieHellman → Act (Unit {0}))
    → Outcome (Unit {0}) × DiffieHellman × Heap
    → Outcome (Unit {0}) × Heap
resume rest (done _, d, h) = rest d h
resume rest (threw, d, h) = rest d h
resume rest (fault, d, h) = (fault, h)

-- Calls whose exceptions are caught, then the destructor.
unfoldable pub live : List Call → DiffieHellman → Act (Unit {0})
unfolding create_session destroy_exchange
live [] d h = destroy_exchange d h
live (c ∷ cs) d h = resume (live cs) (create_session c d h)

-- `getSize`, by what DH_size returns.
unfoldable pub get_size : DiffieHellman → ℕ → ℕ
get_size d dh_size = if d.dh == 0 then 0 else dh_size

-- The vector of `dh_size` bytes, and what DH_compute_key writes to it; on a failure, the vector is resized
-- to -1, which throws.
unfoldable pub secret_in : ℕ → Option Bytes → Act Bytes
secret_in dh_size none = throw
secret_in dh_size (some s) = if ltb dh_size (length s) then (λ h. (fault, h)) else pure s

-- `computeSharedSecret` with a public component of `size` bytes, which becomes the number at `other`.
unfoldable pub compute_shared_secret : ℕ → ℕ → ℕ → Option Bytes → Act Bytes
unfolding secret_in
compute_shared_secret size other dh_size secret =
    if ltb int_max size then throw else (allocate other >>= λ _. secret_in dh_size secret)

-- DH_set0_pqg, or one of the numbers before it, fails.
abbrev pub is_rejected : Call → Bool
is_rejected c =
    not (c.dh_new == 0)
    && not (ltb int_max c.modulus_size)
    && ((c.p_bn == 0) || (c.g_bn == 0) || not c.set_ok)

abbrev pub any_rejected : List Call → Bool
any_rejected [] = false
any_rejected (c ∷ cs) = is_rejected c || any_rejected cs

-- The generators are at most INT_MAX long, and a new DH object is at an address that is not in use.
abbrev pub Sound : Heap → List Call → Type 0
Sound g [] = Unit {0}
Sound g (c ∷ cs) = (c.generator_size ≤ int_max) × (g c.dh_new ≡ 0) × Sound g cs
