-- ===== src/Examples/Ciphers.antt =====
-- Encryption and digests at concrete inputs, with two contexts that stand for those of OpenSSL.
use gicame.Prelude.{
  replicate, true, ℕ, ◌+◌, ◌-◌, ◌%◌, ◌≡◌, refl, ap, arith, Option, none, some, [], ◌∷◌, ◌++◌,
  length, take, drop, length-append, length-take, length-drop, done, fault, ◌>>=◌,
}
use gicame.Rpc.{Bytes}
use gicame.Digest
use gicame.Digest.{sha256}
use gicame.Digest.Freed.{contexts_are_freed}
use gicame.Crypto.{Evp, aes_128_ecb, aes_128_cbc, encryptor_update, encrypt, decrypt}
use gicame.Crypto.Overflow.{Buffering, with_context, update_overflows}
use gicame.Crypto.RoundTrip.{Inverse, decrypt-encrypt}

-- A cipher of blocks of 16 bytes that changes nothing: the context is what waits for a block.
abbrev whole : Bytes → ℕ
whole bs = length bs - length bs % 16

abbrev buffering : Evp
buffering = record {
  Ctx = Bytes;
  update = λ held xs.
      some (take (whole (held ++ xs)) (held ++ xs), drop (whole (held ++ xs)) (held ++ xs));
  final = λ held. some held;
}

abbrev written_length : Option (Bytes × Bytes) → ℕ
written_length none = 0
written_length (some (o, c)) = length o

abbrev kept_length : Option (Bytes × Bytes) → ℕ
kept_length none = 0
kept_length (some (o, c)) = length c

abbrev buffering_law : Buffering buffering 16
buffering_law = record {
  held = λ c. length c;
  held_after = λ c c' xs o e.
      let ys : Bytes = c ++ xs in
      let kept : length (drop (whole ys) ys) ≡ length c' = ap kept_length e in
      omega (arith, kept, length-append c xs, length-drop (whole ys) ys);
  length_written = λ c c' xs o e.
      let ys : Bytes = c ++ xs in
      let kept : length (drop (whole ys) ys) ≡ length c' = ap kept_length e in
      let written : length (take (whole ys) ys) ≡ length o = ap written_length e in
      omega (
        arith,
        kept,
        written,
        length-append c xs,
        length-drop (whole ys) ys,
        length-take (whole ys) ys,
      );
}

abbrev five : Bytes
five = 1 ∷ 2 ∷ 3 ∷ 4 ∷ 5 ∷ []

abbrev fifteen : Bytes
fifteen = five ++ (five ++ five)

-- Five bytes wait, and fifteen come: a block is written to a vector of fifteen.
update_overflows_example :
    encryptor_update buffering fifteen (with_context buffering five 0 aes_128_cbc) ≡ fault
update_overflows_example =
    update_overflows buffering 16 buffering_law five (drop 16 (five ++ fifteen)) 0 aes_128_cbc
      fifteen (take 16 (five ++ fifteen)) (omega arith) (omega arith) refl

-- A cipher that adds one to each byte, and a byte at the end.
abbrev shifted : Bytes → Bytes
shifted [] = []
shifted (x ∷ xs) = (x + 1) ∷ shifted xs

abbrev opened : Bytes → Bytes
opened [] = []
opened (x ∷ []) = []
opened (x ∷ y ∷ xs) = (x - 1) ∷ opened (y ∷ xs)

abbrev sealing : Evp
sealing = record {
  Ctx = Unit {0};
  update = λ c xs. some (shifted xs, c);
  final = λ c. some (0 ∷ []);
}

abbrev opening : Evp
opening = record { Ctx = Unit {0}; update = λ c xs. some (opened xs, c); final = λ c. some [] }

five-Inverse : Inverse sealing opening tt tt five
five-Inverse = record {
  held = tt;
  head = shifted five;
  last = 0 ∷ [];
  update_enc = refl;
  final_enc = refl;
  length_head = omega arith;
  length_last = omega arith;
  length_both = omega arith;
  opened = tt;
  front = five;
  rest = [];
  update_dec = refl;
  final_dec = refl;
  joined = refl;
}

decrypt-encrypt_example :
    (encrypt sealing five (with_context sealing tt 0 aes_128_ecb) >>= λ sealed.
    decrypt opening sealed (with_context opening tt 0 aes_128_ecb))
    ≡ done five
decrypt-encrypt_example =
    decrypt-encrypt sealing opening tt tt aes_128_ecb five (omega arith) (omega arith) five-Inverse

-- A digest of 32 zeros, whatever the text.
abbrev zero_digest : Digest.Api
zero_digest = record { Ctx = Unit {0}; update = λ c xs. some c; final = λ c. some (replicate 32 0) }

contexts_are_freed_example :
    ((Digest.hash zero_digest sha256 true (some tt) five 2).1 ≡ 2)
    × ((Digest.hmac zero_digest sha256 32 true (some tt) five 2).1 ≡ 2)
contexts_are_freed_example = contexts_are_freed zero_digest sha256 32 true (some tt) five 2
