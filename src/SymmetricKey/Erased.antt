-- ===== src/SymmetricKey/Erased.antt =====
-- What is left of a symmetric key.
use gicame.Prelude.{
  ℕ, zero, suc, Option, none, some, ◌+◌, ◌-◌, ◌≤◌, ◌≡◌, refl, ap₂, arith, ◌==◌, Bool, true, false,
  if◌then◌else◌, ltb, List, [], ◌∷◌, ◌++◌, take, drop, replicate, drop-all, length, length-take,
  Outcome, done, fault,
}
use gicame.Rpc.{Bytes}
use gicame.SymmetricKey.{
  SymmetricKey, create_symmetric_key, create_symmetric_key_take_ownership, delete_key, Event,
  copy_object, destroy_object, step, run,
}

-- How many objects share the buffer after the events, `none` once one is used without any.
abbrev pub owners_after : ℕ → List Event → Option ℕ
owners_after n [] = some n
owners_after zero (e ∷ es) = none
owners_after (suc n) (copy_object ∷ es) = owners_after (suc (suc n)) es
owners_after (suc n) (destroy_object ∷ es) = owners_after n es

abbrev pub none_left : ℕ → Bool
none_left zero = true
none_left (suc n) = false

-- A key that `n` objects share, of the size `w` in a buffer of the bytes `bs`: they are as they were while
-- there are objects, and else the first `w` are erased and the buffer is deleted.
abbrev pub SharedBy : ℕ → Bytes → ℕ → SymmetricKey → Type 0
SharedBy w bs n k =
    (k.key_size ≡ w)
    × (k.owners ≡ n)
    × (k.is_deleted ≡ none_left n)
    × (k.bytes ≡ (if none_left n then replicate w 0 ++ drop w bs else bs))

abbrev pub EndsIn : ℕ → Bytes → Option ℕ → Outcome SymmetricKey → Type 0
EndsIn w bs (some n) (done k) = SharedBy w bs n k
EndsIn w bs none fault = Unit
EndsIn _ _ _ _ = ⊥

run-EndsIn :
    (w : ℕ) (bs : Bytes) (es : List Event) (n : ℕ) (k : SymmetricKey)
    → SharedBy w bs n k
    → EndsIn w bs (owners_after n es) (run es k)
unfolding run step delete_key
run-EndsIn w bs [] n k s = s
run-EndsIn w bs (copy_object ∷ es) zero k (s, o, d, b) = rw o tt
run-EndsIn w bs (destroy_object ∷ es) zero k (s, o, d, b) = rw o tt
run-EndsIn w bs (copy_object ∷ es) (suc n) k (s, o, d, b) =
    let shared : (k.owners == 0) ≡ false = ground arith in
    rw shared
      (run-EndsIn w bs es (suc (suc n)) (record k { owners = k.owners + 1 }) (s, omega arith, d, b))
run-EndsIn w bs (destroy_object ∷ es) (suc zero) k (s, o, d, b) =
    let shared : (k.owners == 0) ≡ false = ground arith in
    let last : (k.owners == 1) ≡ true = ground arith in
    rw (shared, last)
      (run-EndsIn w bs es zero
        (record k {
          owners = 0;
          bytes = replicate k.key_size 0 ++ drop k.key_size k.bytes;
          is_deleted = true;
        })
        (s, refl, refl, ap₂ (λ m r. replicate m 0 ++ drop m r) s b))
run-EndsIn w bs (destroy_object ∷ es) (suc (suc n)) k (s, o, d, b) =
    let shared : (k.owners == 0) ≡ false = ground arith in
    let not_last : (k.owners == 1) ≡ false = ground arith in
    rw (shared, not_last)
      (run-EndsIn w bs es (suc n) (record k { owners = k.owners - 1 }) (s, omega arith, d, b))

create-SharedBy :
    (w size : ℕ) (buffer : Bytes)
    → w ≤ size
    → ((k : SymmetricKey) × (create_symmetric_key w buffer size ≡ done k)
        × SharedBy w (take w buffer) 1 k)
      × ((k : SymmetricKey) × (create_symmetric_key_take_ownership w buffer size ≡ done k)
          × SharedBy w buffer 1 k)
unfolding create_symmetric_key create_symmetric_key_take_ownership
create-SharedBy w size buffer fits =
    let enough : ltb size w ≡ false = ground arith in
    ((_, rw enough refl, (refl, refl, refl, refl)), (_, rw enough refl, (refl, refl, refl, refl)))

-- However a key's objects are copied and destroyed, its bytes stay as they are while one is left, and the
-- last one erases and deletes the buffer, once. A key that was copied from the caller's buffer is then
-- erased completely; of a buffer that was taken over, the bytes behind the key size are left in the
-- memory. `size`, the size of the buffer, is at least the key size.
pub last_owner_erases_key :
    (w size : ℕ) (buffer : Bytes) (es : List Event)
    → w ≤ size
    → length buffer ≡ size
    → ((k : SymmetricKey) × (create_symmetric_key w buffer size ≡ done k)
        × EndsIn w (take w buffer) (owners_after 1 es) (run es k)
        × (drop w (take w buffer) ≡ []))
      × ((k : SymmetricKey) × (create_symmetric_key_take_ownership w buffer size ≡ done k)
          × EndsIn w buffer (owners_after 1 es) (run es k))
last_owner_erases_key w size buffer es fits whole =
    let ((k, e, v), (l, f, u)) = create-SharedBy w size buffer fits in
    (
      (
        k,
        e,
        run-EndsIn w (take w buffer) es 1 k v,
        drop-all w (take w buffer) (omega (arith, length-take w buffer)),
      ),
      (l, f, run-EndsIn w buffer es 1 l u),
    )
