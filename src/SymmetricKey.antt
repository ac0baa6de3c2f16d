-- ===== src/SymmetricKey.antt =====
-- src/crypto/key/SymmetricKey.cpp: the buffer of a key, which the objects that are copies of one another
-- share, and which the last one of them erases and deletes.
pub mod Erased
use gicame.Prelude.{
  ℕ, ◌+◌, ◌-◌, ◌==◌, Bool, true, false, if◌then◌else◌, ltb, List, [], ◌∷◌, ◌++◌, take, drop,
  replicate, Outcome, done, threw, fault,
}
use gicame.Rpc.{Bytes}

-- `owners` is the use count of the shared pointer, `bytes` what the memory of the buffer holds, also
-- after the buffer is deleted.
pub record SymmetricKey : Type 0 where
  pub key_size : ℕ
  pub bytes : Bytes
  pub owners : ℕ
  pub is_deleted : Bool

-- `createSymmetricKey` for an algorithm with keys of `key_size` bytes, on a buffer of `size` bytes that it
-- reads from.
unfoldable pub create_symmetric_key : ℕ → Bytes → ℕ → Outcome SymmetricKey
create_symmetric_key key_size key_buffer size =
    if ltb size key_size
    then threw
    else done (record {
      key_size = key_size;
      bytes = take key_size key_buffer;
      owners = 1;
      is_deleted = false;
    })

-- `createSymmetricKeyTakeOwnership`
unfoldable pub create_symmetric_key_take_ownership : ℕ → Bytes → ℕ → Outcome SymmetricKey
create_symmetric_key_take_ownership key_size key_buffer size =
    if ltb size key_size
    then threw
    else done (record { key_size = key_size; bytes = key_buffer; owners = 1; is_deleted = false })

-- The deleter, by `Utilities::eraseMemory`.
unfoldable pub delete_key : SymmetricKey → SymmetricKey
delete_key k = record k {
  bytes = replicate k.key_size 0 ++ drop k.key_size k.bytes;
  is_deleted = true;
}

-- A copy is made of an object, or an object is destroyed; using a deleted buffer is undefined behaviour.
pub data Event : Type 0 where
  copy_object destroy_object : Event

unfoldable pub step : Event → SymmetricKey → Outcome SymmetricKey
unfolding delete_key
step copy_object k = if k.owners == 0 then fault else done (record k { owners = k.owners + 1 })
step destroy_object k =
    if k.owners == 0
    then fault
    else if k.owners == 1
    then done (delete_key (record k { owners = 0 }))
    else done (record k { owners = k.owners - 1 })

abbrev pub and_run :
    (SymmetricKey → Outcome SymmetricKey) → Outcome SymmetricKey → Outcome SymmetricKey
and_run rest (done k) = rest k
and_run rest threw = threw
and_run rest fault = fault

unfoldable pub run : List Event → SymmetricKey → Outcome SymmetricKey
unfolding step
run [] k = done k
run (e ∷ es) k = and_run (run es) (step e k)
