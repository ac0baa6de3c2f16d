-- ===== src/Crypto/Overflow.antt =====
-- The vector that `update` returns (src/crypto/encryption/Encryptor.cpp, lines 70 to 79) is given the
-- size of its input, and what EVP_EncryptUpdate writes may be longer.
use gicame.Prelude.{
  ℕ, ◌+◌, ◌%◌, ◌≤◌, ◌<◌, ◌≡◌, refl, ap, ◌∙◌, arith, Bool, true, false, ltb, leb, if◌then◌else◌,
  some, length, Outcome, done, threw, fault, ◌>>=◌,
}
use gicame.Memory.{Mem, copy_in, add_size}
use gicame.Rpc.{Bytes}
use gicame.Crypto.{
  EncryptionAlgorithm, Evp, Cipher, int_max, update_into, update_vector, encryptor_update, updated,
  resize, new_vector,
}
use gicame.Crypto.Shots.{loop_in_one_shot, copy_in-done, copy_in-fault, resize-splice}

module _ (evp : Evp) where
  open evp use {Ctx}

  -- An object that has a context.
  abbrev pub with_context : Ctx → ℕ → EncryptionAlgorithm → Cipher evp
  with_context c t a = record { ctx = some c; text_len = t; algorithm = a }

  updated_after :
      (k : ℕ) (c' : Ctx) (s : Cipher evp) (q : Outcome Mem)
      → let one : Mem → Outcome (ℕ × Ctx × Mem) = λ m'. done (k, c', m') in
        let all : Mem → Outcome (ℕ × Cipher evp × Mem) = λ m'. updated evp s (k, c', m') in
        ((q >>= one) >>= updated evp s) ≡ (q >>= all)
  updated_after k c' s (done m') = refl
  updated_after k c' s threw = refl
  updated_after k c' s fault = refl

  pub update_into-one_shot :
      (c c' : Ctx) (t : ℕ) (a : EncryptionAlgorithm) (source o : Bytes) (m : Mem)
      → 0 < length source
      → length source ≤ int_max
      → evp.update c source ≡ some (o, c')
      → let all : Mem → Outcome (ℕ × Cipher evp × Mem) =
          λ m'. done (length o, with_context c' (add_size t (length o)) a, m') in
        update_into evp source m (with_context c t a) ≡ (copy_in m 0 o >>= all)
  unfolding update_into
  update_into-one_shot c c' t a source o m pos fits e =
      ap (λ q. q >>= updated evp (with_context c t a))
        (loop_in_one_shot evp c c' source o m pos fits e)
      ∙ updated_after (length o) c' (with_context c t a) (copy_in m 0 o)

  -- What a vector of `capacity` bytes is given.
  pub update_vector-one_shot :
      (capacity : ℕ) (c c' : Ctx) (t : ℕ) (a : EncryptionAlgorithm) (source o : Bytes)
      → 0 < length source
      → length source ≤ int_max
      → evp.update c source ≡ some (o, c')
      → let after : Cipher evp = with_context c' (add_size t (length o)) a in
        update_vector evp capacity source (with_context c t a)
        ≡ (if leb (length o) capacity then done (o, after) else fault)
  unfolding update_vector copy_in
  update_vector-one_shot capacity c c' t a source o pos fits e =
      ap (λ q. q >>= back) (update_into-one_shot c c' t a source o m pos fits e)
      ∙ by_room (leb (length o) capacity) refl
    where
      m : Mem
      m = new_vector capacity

      after : Cipher evp
      after = with_context c' (add_size t (length o)) a

      all : Mem → Outcome (ℕ × Cipher evp × Mem)
      all m' = done (length o, after, m')

      back : ℕ × Cipher evp × Mem → Outcome (Bytes × Cipher evp)
      back r = done (resize (r.0) (r.2), r.1)

      by_room :
          (f : Bool)
          → leb (length o) capacity ≡ f
          → ((copy_in m 0 o >>= all) >>= back) ≡ (if f then done (o, after) else fault)
      by_room true h =
          let fits' : 0 + length o ≤ capacity = grind arith in
          let room : length o ≤ capacity = grind arith in
          ap (λ q. (q >>= all) >>= back) (copy_in-done m 0 o fits')
          ∙ ap (λ x. done (x, after)) (resize-splice o m room)
      by_room false h =
          let short : capacity < 0 + length o = grind arith in
          ap (λ q. (q >>= all) >>= back) (copy_in-fault m 0 o short)

  -- How an encryption in progress goes on: it holds fewer bytes than a block, and writes whole blocks.
  pub record Buffering (block : ℕ) : Type 0 where
    pub held : Ctx → ℕ
    pub held_after :
        (c c' : Ctx) (xs o : Bytes)
        → evp.update c xs ≡ some (o, c')
        → held c' ≡ (held c + length xs) % block
    pub length_written :
        (c c' : Ctx) (xs o : Bytes)
        → evp.update c xs ≡ some (o, c')
        → length o + held c' ≡ held c + length xs

  -- For an encryption that holds back what does not fill a block, `update` to a vector writes outside
  -- its vector exactly when what the context holds afterwards is less than what it held before;
  -- otherwise it returns the bytes that are written. The input is not empty and at most INT_MAX long.
  pub update_overflows :
      (block : ℕ) (law : Buffering block) (c c' : Ctx) (t : ℕ) (a : EncryptionAlgorithm)
      (source o : Bytes)
      → 0 < length source
      → length source ≤ int_max
      → evp.update c source ≡ some (o, c')
      → let after : Cipher evp = with_context c' (add_size t (length o)) a in
        encryptor_update evp source (with_context c t a) ≡ (
          if ltb ((law.held c + length source) % block) (law.held c)
          then fault
          else done (o, after))
  unfolding encryptor_update
  update_overflows block law c c' t a source o pos fits e =
      let left : law.held c' ≡ (law.held c + length source) % block =
        law.held_after c c' source o e in
      let sum : length o + law.held c' ≡ law.held c + length source =
        law.length_written c c' source o e in
      update_vector-one_shot (length source) c c' t a source o pos fits e ∙ ground arith
