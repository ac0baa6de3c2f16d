-- ===== src/Openssl/Key.antt =====
-- src/crypto/key/EvpKey.cpp: a key is the address of its EVP_PKEY.
use gicame.Prelude.{ℕ, ◌+◌, ◌==◌, Bool, ◌||◌, not, ltb, if◌then◌else◌, Option, none, some}
use gicame.Rpc.{Bytes}
use gicame.Digest.{int_max}
use gicame.Openssl.{Act, pure, throw, allocate, free, ◌>>=◌, ◌>>◌}

-- `fromOpenSslEvpKey`
unfoldable pub from_open_ssl : ℕ → Act ℕ
from_open_ssl k = if k == 0 then throw else pure k

-- `newEmptyEvpKey`
unfoldable pub new_empty : ℕ → Act ℕ
unfolding from_open_ssl
new_empty k = allocate k >>= from_open_ssl

-- `publicKeyToPem`, `privateKeyToPem` and X509Certificate's `toPem`: the BIO, and what is written to it.
unfoldable pub written_to_bio : ℕ → Option Bytes → Act Bytes
written_to_bio bio none = free bio >> throw
written_to_bio bio (some text) = free bio >> pure text

unfoldable pub to_pem : ℕ → Option Bytes → Act Bytes
unfolding written_to_bio
to_pem bio text = allocate bio >>= λ b. if b == 0 then throw else written_to_bio b text

-- `publicKeySaveToPemFile` and `privateKeySaveToPemFile`: the file, and whether it could be written.
unfoldable pub save_to_pem_file : ℕ → Bool → Act (Unit {0})
save_to_pem_file file ok =
    allocate file >>= λ f. if f == 0 then throw else if not ok then (free f >> throw) else free f

-- `fromPublicKeyPem`, `fromPrivateKeyPem` and X509Certificate's `fromPem` on `size` bytes: the BIO over
-- them, and the object that is read from it.
unfoldable pub from_pem : ℕ → ℕ → ℕ → Act ℕ
from_pem size bio object =
    if ltb int_max size || (size == 0)
    then throw
    else (allocate bio >>= λ b.
        if b == 0
        then throw
        else (allocate object >>= λ k. free b >> (if k == 0 then throw else pure k)))

unfoldable pub key_from_pem : ℕ → ℕ → ℕ → Act ℕ
unfolding from_pem from_open_ssl
key_from_pem size bio evp = from_pem size bio evp >>= from_open_ssl

-- From a string of `length` characters, which is read with the zero behind it.
unfoldable pub key_from_string : ℕ → ℕ → ℕ → Act ℕ
unfolding key_from_pem
key_from_string length bio evp = key_from_pem (length + 1) bio evp
