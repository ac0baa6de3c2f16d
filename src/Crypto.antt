-- ===== src/Crypto.antt =====
-- src/crypto/encryption and headers/crypto/encryption/EncryptionAlgorithm.h. What the EVP functions of
-- OpenSSL do with a context is a parameter; what they write to the caller's buffer is copied there.
pub mod Shots
pub mod Overflow
pub mod RoundTrip
use gicame.Prelude.{
  ℕ, zero, suc, ◌+◌, ◌-◌, ◌%◌, ◌≤◌, ◌<◌, ◌≡◌, Bool, true, false, not, ◌==◌, ltb, if◌then◌else◌,
  Option, none, some, List, [], ◌∷◌, ◌++◌, length, take, drop, min, tabulate, Outcome, done, threw,
  fault, ◌>>=◌,
}
use gicame.Memory.{Mem, size_mod, add_size, copy_in}
use gicame.Rpc.{Bytes}

pub data EncryptionAlgorithm : Type 0 where
  aes_128_cbc aes_256_cbc aes_128_ecb aes_256_ecb : EncryptionAlgorithm

unfoldable pub key_size : EncryptionAlgorithm → ℕ
key_size aes_128_cbc = 16
key_size aes_256_cbc = 32
key_size aes_128_ecb = 16
key_size aes_256_ecb = 32

unfoldable pub block_size : EncryptionAlgorithm → ℕ
block_size aes_128_cbc = 16
block_size aes_256_cbc = 32
block_size aes_128_ecb = 16
block_size aes_256_ecb = 32

-- `chipertextSize`
unfoldable pub chipertext_size : EncryptionAlgorithm → ℕ → Outcome ℕ
unfolding block_size
chipertext_size a plaintext_size =
    let bs : ℕ = block_size a in
    let rem : ℕ = plaintext_size % bs in
    let cts : ℕ = if rem == 0 then plaintext_size else add_size plaintext_size (bs - rem) in
    if ltb cts plaintext_size then threw else done cts

abbrev pub int_max : ℕ
int_max = 2147483647

-- EVP_EncryptUpdate and EVP_EncryptFinal, or those for decryption: `none` for a failure, else the bytes
-- that are written and the context afterwards.
pub record Evp : Type 1 where
  pub Ctx : Type 0
  pub update : Ctx → Bytes → Option (Bytes × Ctx)
  pub final : Ctx → Option Bytes

-- A vector of `n` bytes, and what `resize(n)` leaves of one.
abbrev pub new_vector : ℕ → Mem
new_vector n = record { size = n; cell = λ i. 0 }

abbrev pub resize : ℕ → Mem → Bytes
resize n m = tabulate n (λ i. if ltb i m.size then m.cell i else 0)

module _ (evp : Evp) where
  open evp use {Ctx}

  -- Encryptor and Decryptor: `ctx` is `none` for NULL.
  pub record Cipher : Type 0 where
    pub ctx : Option Ctx
    pub text_len : ℕ
    pub algorithm : EncryptionAlgorithm

  -- The constructor, by the size of the key, whether a context is allocated, and the initialised one.
  unfoldable pub construct : EncryptionAlgorithm → ℕ → Bool → Option Ctx → Outcome Cipher
  unfolding key_size
  construct a given_key_size allocated init =
      if not (key_size a == given_key_size)
      then threw
      else if not allocated
      then threw
      else (elim init [
        | none ↦ threw
        | some c ↦ done (record { ctx = some c; text_len = 0; algorithm = a })
      ])

  -- What one call of EVP_EncryptUpdate leaves: the call fails, or its bytes are at `off`.
  unfoldable pub after_shot : Option (Bytes × Ctx) → ℕ → Mem → Outcome (ℕ × Ctx × Mem)
  after_shot none off m = threw
  after_shot (some (o, c)) off m = copy_in m off o >>= λ m'. done (length o, c, m')

  -- The loop of `update`, in at most `n` shots: the length written, the context and the buffer.
  unfoldable pub update_loop : ℕ → Ctx → Bytes → ℕ → ℕ → Mem → Outcome (ℕ × Ctx × Mem)
  unfolding after_shot
  update_loop zero c source off shot_len m = done (shot_len, c, m)
  update_loop (suc n) c source off shot_len m =
      let in_len : ℕ = min int_max (length source) in
      if length source == 0
      then done (shot_len, c, m)
      else (after_shot (evp.update c (take in_len source)) off m >>= λ r.
          update_loop n (r.1) (drop in_len source) (off + in_len) (shot_len + r.0) (r.2))

  abbrev pub updated : Cipher → ℕ × Ctx × Mem → Outcome (ℕ × Cipher × Mem)
  updated s r = done (r.0, record s { ctx = some (r.1); text_len = add_size s.text_len (r.0) }, r.2)

  -- `update(source, sourceSize, out)`, with `out` at the start of `m`; every shot takes a byte at
  -- least.
  unfoldable pub update_into : Bytes → Mem → Cipher → Outcome (ℕ × Cipher × Mem)
  unfolding update_loop
  update_into source m s = elim s.ctx [
    | none ↦ threw
    | some c ↦ update_loop (length source) c source 0 0 m >>= updated s
  ]

  -- `update(source, sourceSize)` into a vector of `capacity` bytes.
  unfoldable pub update_vector : ℕ → Bytes → Cipher → Outcome (Bytes × Cipher)
  unfolding update_into
  update_vector capacity source s =
      update_into source (new_vector capacity) s >>= λ r. done (resize (r.0) (r.2), r.1)

  -- `Encryptor::update` and `Decryptor::update` to a vector.
  unfoldable pub encryptor_update : Bytes → Cipher → Outcome (Bytes × Cipher)
  unfolding update_vector
  encryptor_update source s = update_vector (length source) source s

  unfoldable pub decryptor_update : Bytes → Cipher → Outcome (Bytes × Cipher)
  unfolding update_vector
  decryptor_update source s = update_vector (length source + 16) source s

  -- What EVP_EncryptFinal leaves.
  unfoldable pub after_final : Option Bytes → ℕ → Mem → Cipher → Outcome (ℕ × Cipher × Mem)
  after_final none off m s = threw
  after_final (some o) off m s = copy_in m off o >>= λ m'.
      done (length o, record s { ctx = none; text_len = add_size s.text_len (length o) }, m')

  -- `finalize(out)`, with `out` at `off` of `m`.
  unfoldable pub finalize_into : ℕ → Mem → Cipher → Outcome (ℕ × Cipher × Mem)
  unfolding after_final
  finalize_into off m s = elim s.ctx [ none ↦ threw | some c ↦ after_final (evp.final c) off m s ]

  -- `finalize()`
  unfoldable pub finalize : Cipher → Outcome (Bytes × Cipher)
  unfolding finalize_into block_size
  finalize s = finalize_into 0 (new_vector (block_size s.algorithm)) s >>= λ r.
      done (resize (r.0) (r.2), r.1)

  -- `Encryptor::encrypt` to a vector, once the object is made.
  unfoldable pub encrypt : Bytes → Cipher → Outcome Bytes
  unfolding encryptor_update finalize
  encrypt source s = encryptor_update source s >>= λ r. finalize (r.1) >>= λ f. done (r.0 ++ f.0)

  -- `encrypt` and `decrypt` to the buffer `m` of the caller.
  unfoldable pub crypt_into : Bytes → Mem → Cipher → Outcome (ℕ × Mem)
  unfolding update_into finalize_into
  crypt_into source m s =
      update_into source m s >>= λ r. finalize_into (r.0) (r.2) (r.1) >>= λ f. done (r.0 + f.0, f.2)

  -- `Decryptor::decrypt` to a vector.
  unfoldable pub decrypt : Bytes → Cipher → Outcome Bytes
  unfolding crypt_into
  decrypt source s =
      crypt_into source (new_vector (length source)) s >>= λ r. done (resize (r.0) (r.1))
