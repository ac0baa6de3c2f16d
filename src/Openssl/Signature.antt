-- ===== src/Openssl/Signature.antt =====
-- src/crypto/ds: Signer.cpp and Verifier.cpp. `ctx` is the address of the EVP_MD_CTX.
use gicame.Prelude.{
  ℕ, ◌-◌, ◌^◌, ◌==◌, Bool, true, false, not, ltb, if◌then◌else◌, Option, none, some, length, fault,
}
use gicame.Rpc.{Bytes}
use gicame.Openssl.{Act, pure, throw, allocate, free, ◌>>=◌, ◌>>◌, scoped}

abbrev pub unsigned_max : ℕ
unsigned_max = 2 ^ 32 - 1

-- The constructors: the context, and whether EVP_SignInit or EVP_VerifyInit succeeds.
unfoldable pub construct : ℕ → Bool → Act ℕ
construct ctx init =
    allocate ctx >>= λ c. if c == 0 then throw else if not init then (free c >> throw) else pure c

-- `update`, by whether EVP_SignUpdate or EVP_VerifyUpdate succeeds.
unfoldable pub update : Bool → Act (Unit {0})
update ok = if not ok then throw else pure tt

-- `finalize` of a Signer to `space` bytes, by what EVP_SignFinal writes.
unfoldable pub signature_in : ℕ → Option Bytes → Act Bytes
signature_in space none = throw
signature_in space (some s) = if ltb space (length s) then (λ h. (fault, h)) else pure s

-- `finalize` of a Signer to a vector of as many bytes as the key says.
unfoldable pub finalize : ℕ → Option Bytes → Act Bytes
unfolding signature_in
finalize max_size signature =
    if ltb unsigned_max max_size then throw else signature_in max_size signature

-- The destructors
unfoldable pub destroy : ℕ → Act (Unit {0})
destroy ctx = free ctx

-- `Signer::sign` to a vector
unfoldable pub sign : ℕ → Bool → Bool → ℕ → Option Bytes → Act Bytes
unfolding construct update finalize destroy
sign ctx init updated max_size signature =
    construct ctx init >>= λ c. scoped (update updated >> finalize max_size signature) (destroy c)

-- `Signer::sign` to a buffer of `space` bytes, whose size the code does not know.
unfoldable pub sign_to : ℕ → Bool → Bool → ℕ → Option Bytes → Act Bytes
unfolding construct update signature_in destroy
sign_to ctx init updated space signature =
    construct ctx init >>= λ c. scoped (update updated >> signature_in space signature) (destroy c)

-- What EVP_VerifyFinal returns: 1, 0 or a negative number.
pub data Verdict : Type 0 where
  valid invalid error : Verdict

abbrev pub is_one : Verdict → Bool
is_one valid = true
is_one invalid = false
is_one error = false

-- `finalize` of a Verifier on a signature of `size` bytes.
unfoldable pub check : ℕ → Verdict → Act Bool
check size verdict = if ltb unsigned_max size then throw else pure (is_one verdict)

-- `Verifier::verify`
unfoldable pub verify : ℕ → Bool → Bool → ℕ → Verdict → Act Bool
unfolding construct update check destroy
verify ctx init updated size verdict =
    construct ctx init >>= λ c. scoped (update updated >> check size verdict) (destroy c)
