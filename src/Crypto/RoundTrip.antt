-- ===== src/Crypto/RoundTrip.antt =====
-- `Encryptor::encrypt` and `Decryptor::decrypt` between vectors (src/crypto/encryption): what is
-- encrypted is decrypted to the same bytes.
use gicame.Prelude.{
  ℕ, ◌+◌, ◌≤◌, ◌<◌, ◌≡◌, ap, ◌∙◌, arith, none, some, ◌++◌, length, length-append, Outcome, done,
  ◌>>=◌,
}
use gicame.Memory.{Mem, splice, add_size}
use gicame.Rpc.{Bytes}
use gicame.Crypto.{
  EncryptionAlgorithm, aes_128_cbc, aes_256_cbc, aes_128_ecb, aes_256_ecb, block_size, Evp, Cipher,
  int_max, update_into, encryptor_update, finalize_into, after_final, finalize, encrypt, crypt_into,
  decrypt, resize, new_vector,
}
use gicame.Crypto.Shots.{copy_in-done, resize-splice, resize-splice-splice}
use gicame.Crypto.Overflow.{with_context, update_into-one_shot, update_vector-one_shot}

block_size-ge : (a : EncryptionAlgorithm) → 16 ≤ block_size a
unfolding block_size
block_size-ge aes_128_cbc = omega arith
block_size-ge aes_256_cbc = omega arith
block_size-ge aes_128_ecb = omega arith
block_size-ge aes_256_ecb = omega arith

module _ (evp : Evp) where
  open evp use {Ctx}

  abbrev ended : ℕ → EncryptionAlgorithm → Cipher evp
  ended t a = record { ctx = none; text_len = t; algorithm = a }

  finalize_into-done :
      (c : Ctx) (t : ℕ) (a : EncryptionAlgorithm) (o : Bytes) (off : ℕ) (m : Mem)
      → off + length o ≤ m.size
      → evp.final c ≡ some o
      → finalize_into evp off m (with_context evp c t a)
        ≡ done (length o, ended (add_size t (length o)) a, record m { cell = splice m.cell off o })
  unfolding finalize_into after_final
  finalize_into-done c t a o off m room e =
      let all : Mem → Outcome (ℕ × Cipher evp × Mem) =
        λ m'. done (length o, ended (add_size t (length o)) a, m') in
      ap (λ u. after_final evp u off m (with_context evp c t a)) e
      ∙ ap (λ q. q >>= all) (copy_in-done m off o room)

  -- The last bytes of an encryption go to a vector of a block.
  finalize-done :
      (c : Ctx) (t : ℕ) (a : EncryptionAlgorithm) (o : Bytes)
      → length o ≤ block_size a
      → evp.final c ≡ some o
      → finalize evp (with_context evp c t a) ≡ done (o, ended (add_size t (length o)) a)
  unfolding finalize
  finalize-done c t a o room e =
      let m : Mem = new_vector (block_size a) in
      let back : ℕ × Cipher evp × Mem → Outcome (Bytes × Cipher evp) =
        λ r. done (resize (r.0) (r.2), r.1) in
      let fits : 0 + length o ≤ block_size a = omega arith in
      ap (λ q. q >>= back) (finalize_into-done c t a o 0 m fits e)
      ∙ ap (λ x. done (x, ended (add_size t (length o)) a)) (resize-splice o m room)

  -- `encrypt` returns what the two calls wrote.
  encrypt-done :
      (c c' : Ctx) (t : ℕ) (a : EncryptionAlgorithm) (source o p : Bytes)
      → 0 < length source
      → length source ≤ int_max
      → evp.update c source ≡ some (o, c')
      → evp.final c' ≡ some p
      → length o ≤ length source
      → length p ≤ block_size a
      → encrypt evp source (with_context evp c t a) ≡ done (o ++ p)
  unfolding encrypt encryptor_update
  encrypt-done c c' t a source o p pos fits eu ef room last =
      let after : Cipher evp = with_context evp c' (add_size t (length o)) a in
      let last_of : Bytes × Cipher evp → Outcome Bytes =
        λ r. finalize evp (r.1) >>= λ f. done (r.0 ++ f.0) in
      let join : Bytes × Cipher evp → Outcome Bytes = λ f. done (o ++ f.0) in
      let first : encryptor_update evp source (with_context evp c t a) ≡ done (o, after) =
        update_vector-one_shot evp (length source) c c' t a source o pos fits eu ∙ ground arith in
      ap (λ q. q >>= last_of) first
      ∙ ap (λ q. q >>= join) (finalize-done c' (add_size t (length o)) a p last ef)

  -- `decrypt` returns what the two calls wrote, when the vector of the input's size holds it.
  decrypt-done :
      (c c' : Ctx) (t : ℕ) (a : EncryptionAlgorithm) (source o p : Bytes)
      → 0 < length source
      → length source ≤ int_max
      → evp.update c source ≡ some (o, c')
      → evp.final c' ≡ some p
      → length o + length p ≤ length source
      → decrypt evp source (with_context evp c t a) ≡ done (o ++ p)
  unfolding decrypt crypt_into finalize_into after_final
  decrypt-done c c' t a source o p pos fits eu ef room =
      let m : Mem = new_vector (length source) in
      let m' : Mem = record m { cell = splice m.cell 0 o } in
      let after : Cipher evp = with_context evp c' (add_size t (length o)) a in
      let first_room : 0 + length o ≤ length source = omega arith in
      let back : ℕ × Mem → Outcome Bytes = λ r. done (resize (r.0) (r.1)) in
      let sum : ℕ × Cipher evp × Mem → Outcome (ℕ × Mem) = λ f. done (length o + f.0, f.2) in
      let last_of : ℕ × Cipher evp × Mem → Outcome (ℕ × Mem) =
        λ r. finalize_into evp (r.0) (r.2) (r.1) >>= λ f. done (r.0 + f.0, f.2) in
      let all : Mem → Outcome (ℕ × Cipher evp × Mem) = λ n. done (length o, after, n) in
      let first : update_into evp source m (with_context evp c t a) ≡ done (length o, after, m') =
        update_into-one_shot evp c c' t a source o m pos fits eu
        ∙ ap (λ q. q >>= all) (copy_in-done m 0 o first_room) in
      ap (λ q. (q >>= last_of) >>= back) first
      ∙ ap (λ q. (q >>= sum) >>= back)
          (finalize_into-done c' (add_size t (length o)) a p (length o) m' room ef)
      ∙ ap done (resize-splice-splice o p m room)

-- What the two ends of a cipher do with one text: the encryption's `held` and `last` bytes decrypt to
-- the text in two runs, and padding never shortens.
pub record Inverse (enc dec : Evp) (e : enc.Ctx) (d : dec.Ctx) (text : Bytes) : Type 0 where
  pub held : enc.Ctx
  pub head : Bytes
  pub last : Bytes
  pub update_enc : enc.update e text ≡ some (head, held)
  pub final_enc : enc.final held ≡ some last
  pub length_head : length head ≤ length text
  pub length_last : length last ≤ 16
  pub length_both : length text ≤ length head + length last
  pub opened : dec.Ctx
  pub front : Bytes
  pub rest : Bytes
  pub update_dec : dec.update d (head ++ last) ≡ some (front, opened)
  pub final_dec : dec.final opened ≡ some rest
  pub joined : front ++ rest ≡ text

-- What `encrypt` makes of a text that is not empty, `decrypt` gives back, for ciphers whose calls
-- invert each other on the text, which write no more than they read before the last call and at most a
-- block of 16 bytes in it, when the texts are at most INT_MAX long: neither throws, and neither writes outside
-- its vector.
pub decrypt-encrypt :
    (enc dec : Evp) (e : enc.Ctx) (d : dec.Ctx) (a : EncryptionAlgorithm) (text : Bytes)
    → 0 < length text
    → length text + 16 ≤ int_max
    → Inverse enc dec e d text
    → (encrypt enc text (with_context enc e 0 a) >>= λ sealed.
        decrypt dec sealed (with_context dec d 0 a))
      ≡ done text
decrypt-encrypt enc dec e d a text pos fits inv =
    let both : length (inv.head ++ inv.last) ≡ length inv.head + length inv.last =
      length-append inv.head inv.last in
    let out : length (inv.front ++ inv.rest) ≡ length inv.front + length inv.rest =
      length-append inv.front inv.rest in
    let same : length (inv.front ++ inv.rest) ≡ length text = ap length inv.joined in
    let lengths : (length inv.head ≤ length text)
        × (length inv.last ≤ 16)
        × (length text ≤ length inv.head + length inv.last) =
      (inv.length_head, inv.length_last, inv.length_both) in
    let block : 16 ≤ block_size a = block_size-ge a in
    let last_fits : length inv.last ≤ block_size a = omega arith in
    let open_it : Bytes → Outcome Bytes = λ sealed. decrypt dec sealed (with_context dec d 0 a) in
    ap (λ q. q >>= open_it)
      (encrypt-done enc e inv.held 0 a text inv.head inv.last pos (omega arith) inv.update_enc
        inv.final_enc inv.length_head last_fits)
    ∙ decrypt-done dec d inv.opened 0 a (inv.head ++ inv.last) inv.front inv.rest (omega arith)
        (omega arith) inv.update_dec inv.final_dec (omega arith)
    ∙ ap done inv.joined
