-- ===== src/Openssl.antt =====
-- The objects that src/crypto takes from OpenSSL and from the C library: their references by address,
-- and actions on them that may throw. What OpenSSL answers is an argument of the actions.
pub mod Key
pub mod Signature
pub mod Certificate
pub mod Freed
pub mod Store
pub mod Leaks
pub mod Session
use gicame.Prelude.{
  ℕ, ◌+◌, ◌-◌, ◌≡◌, ◌≢◌, ◌∙◌, refl, ap, arith, fun_ext, Bool-cases, inl, inr, Bool, true, false,
  ◌==◌, if◌then◌else◌, Outcome, done, threw, fault,
}

-- How many references to the object at an address have still to be given back; 0 is NULL.
abbrev pub Heap : Type 0
Heap = ℕ → ℕ

abbrev pub Act {ℓ} : Type ℓ → Type ℓ
Act A = Heap → Outcome A × Heap

abbrev pub put : ℕ → Heap → Heap
put p h x = if x == p then h x + 1 else h x

abbrev pub take_off : ℕ → Heap → Heap
take_off p h x = if x == p then h x - 1 else h x

abbrev pub pure {ℓ} : {A : Type ℓ} → A → Act A
pure a h = (done a, h)

abbrev pub throw {ℓ} : {A : Type ℓ} → Act A
throw h = (threw, h)

-- An answer that is an address, NULL for a failure.
abbrev pub allocate : ℕ → Act ℕ
allocate p h = (done p, if p == 0 then h else put p h)

-- Giving back a reference that nobody has is undefined behaviour; NULL is left alone.
unfoldable pub free : ℕ → Act (Unit {0})
free p h = if p == 0 then (done tt, h) else if h p == 0 then (fault, h) else (done tt, take_off p h)

abbrev pub follow {ℓ κ} :
    {A : Type ℓ} {B : Type κ} → Outcome A × Heap → (A → Act B) → Outcome B × Heap
follow (done a, h) f = f a h
follow (threw, h) f = (threw, h)
follow (fault, h) f = (fault, h)

infixl 5 ◌>>=◌ ◌>>◌
abbrev pub ◌>>=◌ {ℓ κ} : {A : Type ℓ} {B : Type κ} → Act A → (A → Act B) → Act B
m >>= f = λ h. follow (m h) f

abbrev pub ◌>>◌ {ℓ} : {B : Type ℓ} → Act (Unit {0}) → Act B → Act B
m >> k = m >>= λ _. k

-- The end of a scope: an object is destroyed also when an exception leaves the scope.
abbrev pub unwind {ℓ} : {A : Type ℓ} → Outcome A × Heap → Act (Unit {0}) → Outcome A × Heap
unwind (done a, h) d = follow (d h) (λ _. pure a)
unwind (threw, h) d = follow (d h) (λ _. throw)
unwind (fault, h) d = (fault, h)

abbrev pub scoped {ℓ} : {A : Type ℓ} → Act A → Act (Unit {0}) → Act A
scoped m d h = unwind (m h) d

pub take_off-put : (p : ℕ) (h : Heap) → take_off p (put p h) ≡ h
take_off-put p h = fun_ext (λ x. ground arith)

-- What was allocated last is given back.
pub free-put : (p : ℕ) (h : Heap) → (p == 0) ≡ false → free p (put p h) ≡ (done tt, h)
unfolding free
free-put p h e =
    let some_left : (put p h p == 0) ≡ false = ground arith in
    rw (e, some_left, take_off-put p h) refl

-- An object that is allocated, if it is, and at once given back.
pub free-allocate {ℓ} :
    {A : Type ℓ} (p : ℕ) (k : Act A) (h : Heap)
    → follow (free p (if p == 0 then h else put p h)) (λ _. k) ≡ k h
unfolding free
free-allocate p k h = elim (Bool-cases (p == 0)) [
  | inl e ↦ rw e refl
  | inr e ↦
      ap (λ b. follow (free p (if b then h else put p h)) (λ _. k)) e
      ∙ ap (λ r. follow r (λ _. k)) (free-put p h e)
]

-- An object is given back although another one was allocated after it.
pub free-put-put :
    (p q : ℕ) (h : Heap) → (p == 0) ≡ false → free p (put q (put p h)) ≡ (done tt, put q h)
unfolding free
free-put-put p q h e =
    let some_left : (put q (put p h) p == 0) ≡ false = ground arith in
    let back : take_off p (put q (put p h)) ≡ put q h = fun_ext (λ x. ground arith) in
    rw (e, some_left, back) refl
