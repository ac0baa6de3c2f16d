-- ===== src/Openssl/Freed.antt =====
-- What keys, signatures and certificates give back to OpenSSL.
use gicame.Prelude.{
  ℕ, ◌≤◌, ◌≡◌, ◌≢◌, refl, arith, Bool, true, false, ◌==◌, ltb, Bool-cases, inl, inr, Option, none,
  some, length, Outcome, done, threw, fault, ◌||◌,
}
use gicame.Rpc.{Bytes}
use gicame.Digest.{int_max}
use gicame.Openssl.{
  Heap, Act, put, free, free-put, free-put-put, free-allocate, pure, scoped, unwind, follow, ◌>>◌,
}
use gicame.Openssl.Key.{
  from_open_ssl, written_to_bio, to_pem, save_to_pem_file, from_pem, key_from_pem,
}
use gicame.Openssl.Signature.{
  construct, update, signature_in, finalize, destroy, sign, sign_to, Verdict, check, verify,
  unsigned_max,
}
use gicame.Openssl.Certificate.{to_der, get_name, from_der, long_max}

-- The action ends, by a result or by an exception, with every reference given back that it has taken.
abbrev pub Leaves {ℓ} : {A : Type ℓ} → Heap → Outcome A × Heap → Type 0
Leaves h (done a, h') = h' ≡ h
Leaves h (threw, h') = h' ≡ h
Leaves h (fault, h') = ⊥

-- The action ends with an object, which is all that it has taken, or with an exception.
abbrev pub Takes : Heap → Outcome ℕ × Heap → Type 0
Takes h (done p, h') = (p ≢ 0) × (h' ≡ put p h)
Takes h (threw, h') = h' ≡ h
Takes h (fault, h') = ⊥

-- What is allocated and then given back, before an end or an exception.
to_pem-Leaves : (bio : ℕ) (text : Option Bytes) (h : Heap) → Leaves h (to_pem bio text h)
unfolding to_pem written_to_bio
to_pem-Leaves bio none h = elim (Bool-cases (bio == 0)) [
  | inl e ↦ rw e refl
  | inr e ↦ rw (e, free-put bio h e) refl
]
to_pem-Leaves bio (some t) h = elim (Bool-cases (bio == 0)) [
  | inl e ↦ rw e refl
  | inr e ↦ rw (e, free-put bio h e) refl
]

save-Leaves : (file : ℕ) (ok : Bool) (h : Heap) → Leaves h (save_to_pem_file file ok h)
unfolding save_to_pem_file
save-Leaves file true h = elim (Bool-cases (file == 0)) [
  | inl e ↦ rw e refl
  | inr e ↦ rw (e, free-put file h e) refl
]
save-Leaves file false h = elim (Bool-cases (file == 0)) [
  | inl e ↦ rw e refl
  | inr e ↦ rw (e, free-put file h e) refl
]

key_from_pem-Takes : (size bio evp : ℕ) (h : Heap) → Takes h (key_from_pem size bio evp h)
unfolding key_from_pem from_pem from_open_ssl
key_from_pem-Takes size bio evp h = elim (Bool-cases (ltb int_max size || (size == 0))) [
  | inl bad ↦ rw bad refl
  | inr good ↦ rw good (elim (Bool-cases (bio == 0)) [
    | inl e ↦ rw e refl
    | inr e ↦ rw e (elim (Bool-cases (evp == 0)) [
      | inl z ↦ rw (z, free-put bio h e) refl
      | inr n ↦ rw (n, free-put-put bio evp h e, n) (ground arith, refl)
    ])
  ])
]

to_der-Leaves : (buffer : ℕ) (der : Option Bytes) (h : Heap) → Leaves h (to_der buffer der h)
unfolding to_der
to_der-Leaves buffer none h = refl
to_der-Leaves buffer (some d) h = rw (free-allocate buffer (pure d) h) refl

get_name-Leaves :
    (found : Bool) (string : ℕ) (name : Bytes) (h : Heap) → Leaves h (get_name found string name h)
unfolding get_name
get_name-Leaves false string name h = refl
get_name-Leaves true string name h = elim (Bool-cases (string == 0)) [
  | inl e ↦ rw e refl
  | inr e ↦ rw (e, free-put string h e) refl
]

from_der-Takes : (size cert : ℕ) (h : Heap) → Takes h (from_der size cert h)
unfolding from_der
from_der-Takes size cert h = elim (Bool-cases (ltb long_max size)) [
  | inl bad ↦ rw bad refl
  | inr good ↦
      rw good
        (elim (Bool-cases (cert == 0)) [ inl e ↦ rw e refl | inr e ↦ rw e (ground arith, refl) ])
]

pub unwind-Leaves {ℓ} :
    {A : Type ℓ} (ctx : ℕ) (h : Heap) (r : Outcome A × Heap)
    → (ctx == 0) ≡ false
    → Leaves (put ctx h) r
    → Leaves h (unwind r (free ctx))
unwind-Leaves ctx h (done a, h') e i = rw (i, free-put ctx h e) refl
unwind-Leaves ctx h (threw, h') e i = rw (i, free-put ctx h e) refl
unwind-Leaves ctx h (fault, h') e i = i

-- A context that is constructed, then used in a way that leaves no reference of its own, and
-- destroyed.
use_context-Leaves {ℓ} :
    {A : Type ℓ} (ctx : ℕ) (init : Bool) (use_it : Act A) (h : Heap)
    → Leaves (put ctx h) (use_it (put ctx h))
    → Leaves h (follow (construct ctx init h) (λ c. scoped use_it (destroy c)))
unfolding construct destroy
use_context-Leaves ctx false use_it h inner = elim (Bool-cases (ctx == 0)) [
  | inl e ↦ rw e refl
  | inr e ↦ rw (e, free-put ctx h e) refl
]
use_context-Leaves ctx true use_it h inner = elim (Bool-cases (ctx == 0)) [
  | inl e ↦ rw e refl
  | inr e ↦ rw e (unwind-Leaves ctx h (use_it (put ctx h)) e inner)
]

signature_in-Leaves :
    (space : ℕ) (s : Option Bytes) (h : Heap)
    → ((b : Bytes) → s ≡ some b → length b ≤ space)
    → Leaves h (signature_in space s h)
unfolding signature_in
signature_in-Leaves space none h fits = refl
signature_in-Leaves space (some b) h fits =
    let short : ltb space (length b) ≡ false = ground (arith, fits b refl) in rw short refl

sign-Leaves :
    (ctx : ℕ) (init updated : Bool) (size : ℕ) (s : Option Bytes) (h : Heap)
    → ((b : Bytes) → s ≡ some b → length b ≤ size)
    → Leaves h (sign ctx init updated size s h)
unfolding sign update finalize
sign-Leaves ctx init updated size s h fits =
    use_context-Leaves ctx init (update updated >> finalize size s) h (by_update updated)
  where
    by_update : (b : Bool) → Leaves (put ctx h) ((update b >> finalize size s) (put ctx h))
    by_update false = refl
    by_update true = elim (Bool-cases (ltb unsigned_max size)) [
      | inl e ↦ rw e refl
      | inr e ↦ rw e (signature_in-Leaves size s (put ctx h) fits)
    ]

sign_to-Leaves :
    (ctx : ℕ) (init updated : Bool) (space : ℕ) (s : Option Bytes) (h : Heap)
    → ((b : Bytes) → s ≡ some b → length b ≤ space)
    → Leaves h (sign_to ctx init updated space s h)
unfolding sign_to update
sign_to-Leaves ctx init updated space s h fits =
    use_context-Leaves ctx init (update updated >> signature_in space s) h (by_update updated)
  where
    by_update : (b : Bool) → Leaves (put ctx h) ((update b >> signature_in space s) (put ctx h))
    by_update false = refl
    by_update true = signature_in-Leaves space s (put ctx h) fits

verify-Leaves :
    (ctx : ℕ) (init updated : Bool) (size : ℕ) (v : Verdict) (h : Heap)
    → Leaves h (verify ctx init updated size v h)
unfolding verify update check
verify-Leaves ctx init updated size v h =
    use_context-Leaves ctx init (update updated >> check size v) h (by_update updated)
  where
    by_update : (b : Bool) → Leaves (put ctx h) ((update b >> check size v) (put ctx h))
    by_update false = refl
    by_update true = elim (Bool-cases (ltb unsigned_max size)) [
      | inl e ↦ rw e refl
      | inr e ↦ rw e refl
    ]

-- Whatever OpenSSL and the C library answer, a call that writes a key to PEM or to a file, reads one
-- from PEM, writes or reads a certificate, reads a name, signs or verifies ends by a result or by an
-- exception, and has then given back what it has taken from them, other than the object it returns.
-- The signature is as long as the key says, or fits the caller's buffer.
pub objects_are_freed :
    (p size n : ℕ) (ok init : Bool) (text : Option Bytes) (b : Bytes) (v : Verdict) (h : Heap)
    → ((s : Bytes) → text ≡ some s → length s ≤ size)
    → Leaves h (to_pem p text h)
      × Leaves h (save_to_pem_file p ok h)
      × Takes h (key_from_pem size p n h)
      × Leaves h (to_der p text h)
      × Takes h (from_der size n h)
      × Leaves h (get_name ok p b h)
      × Leaves h (sign p init ok size text h)
      × Leaves h (sign_to p init ok size text h)
      × Leaves h (verify p init ok size v h)
objects_are_freed p size n ok init text b v h fits = (
  to_pem-Leaves p text h,
  save-Leaves p ok h,
  key_from_pem-Takes size p n h,
  to_der-Leaves p text h,
  from_der-Takes size n h,
  get_name-Leaves ok p b h,
  sign-Leaves p init ok size text h fits,
  sign_to-Leaves p init ok size text h fits,
  verify-Leaves p init ok size v h,
)
