-- ===== src/Openssl/Certificate.antt =====
-- src/crypto/certificate/X509Certificate.cpp: a certificate is the address of its X509.
use gicame.Prelude.{ℕ, ◌-◌, ◌^◌, ◌==◌, Bool, not, ltb, if◌then◌else◌, Option, none, some}
use gicame.Rpc.{Bytes}
use gicame.Openssl.{Act, pure, throw, allocate, free, ◌>>=◌, ◌>>◌}
use gicame.Openssl.Key.{from_open_ssl}

abbrev pub long_max : ℕ
long_max = 2 ^ 63 - 1

-- `toDer`, by the buffer that i2d_X509 allocates and the bytes in it.
unfoldable pub to_der : ℕ → Option Bytes → Act Bytes
to_der buffer none = throw
to_der buffer (some der) = allocate buffer >>= λ b. free b >> pure der

-- `getPublicKey`
unfoldable pub get_public_key : ℕ → Act ℕ
unfolding from_open_ssl
get_public_key key = allocate key >>= λ k. if k == 0 then throw else from_open_ssl k

-- `sign`, by whether X509_sign succeeds.
unfoldable pub sign_certificate : Bool → Act (Unit {0})
sign_certificate ok = if not ok then throw else pure tt

-- `getSubjectName` and `getIssuerName`, by whether the certificate has a name, and the string that
-- X509_NAME_oneline allocates for it.
unfoldable pub get_name : Bool → ℕ → Bytes → Act Bytes
get_name found string name =
    if not found
    then throw
    else (allocate string >>= λ s. if s == 0 then throw else (free s >> pure name))

-- The entry is added to the name, and the name, of which X509_set_subject_name or X509_set_issuer_name
-- makes a copy, to the certificate.
unfoldable pub enter_name : Bool → Bool → Act (Unit {0})
enter_name added ok = if not added then throw else if not ok then throw else pure tt

-- `setSubjectName` and `setIssuerName`, by the new name.
unfoldable pub set_name : ℕ → Bool → Bool → Act (Unit {0})
unfolding enter_name
set_name name added ok = allocate name >>= λ n. if n == 0 then throw else enter_name added ok

-- `addSubjectName` and `addIssuerName`, by whether the certificate has a name.
unfoldable pub add_name : Bool → Bool → Bool → Act (Unit {0})
unfolding enter_name
add_name found added ok = if not found then throw else enter_name added ok

-- `newEmptyX509Certificate`
unfoldable pub new_empty_certificate : ℕ → Act ℕ
new_empty_certificate cert = allocate cert >>= λ c. if c == 0 then throw else pure c

-- `fromDer` of `size` bytes.
unfoldable pub from_der : ℕ → ℕ → Act ℕ
from_der size cert =
    if ltb long_max size then throw else (allocate cert >>= λ c. if c == 0 then throw else pure c)
