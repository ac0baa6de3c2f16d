-- ===== src/Examples/Keys.antt =====
-- Keys, signatures, certificates and key exchanges at concrete inputs.
use gicame.Prelude.{
  take, drop, ℕ, ◌+◌, ◌≤◌, ◌≡◌, ◌≢◌, refl, arith, true, false, Option, some, List, [], ◌∷◌, done,
  fault, length,
}
use gicame.Rpc.{Bytes}
use gicame.Openssl.{Heap, put}
use gicame.Openssl.Key.{to_pem, save_to_pem_file, key_from_pem}
use gicame.Openssl.Signature.{sign, sign_to, valid, verify}
use gicame.Openssl.Certificate.{to_der, from_der, get_name, set_name}
use gicame.Openssl.Freed.{Leaves, Takes, objects_are_freed}
use gicame.Openssl.Store.{adding_certificate, adding_crl}
use gicame.Openssl.Store
use gicame.Openssl.Leaks.{references_are_lost}
use gicame.Openssl.Store.Kept.{added}
use gicame.Openssl.Session
use gicame.SymmetricKey.{
  SymmetricKey, Event, copy_object, destroy_object, create_symmetric_key,
  create_symmetric_key_take_ownership, run,
}
use gicame.SymmetricKey.Erased.{EndsIn, last_owner_erases_key}
use gicame.Openssl.Session.Freed.{rejected_session_is_freed_twice}

-- Nothing is allocated yet.
abbrev empty : Heap
empty x = 0

abbrev text : Option Bytes
text = some (1 ∷ 2 ∷ [])

text_fits : (s : Bytes) → text ≡ some s → length s ≤ 256
text_fits s e = ground arith

objects_are_freed_example :
    Leaves empty (to_pem 7 text empty)
    × Leaves empty (save_to_pem_file 7 true empty)
    × Takes empty (key_from_pem 256 7 9 empty)
    × Leaves empty (to_der 7 text empty)
    × Takes empty (from_der 256 9 empty)
    × Leaves empty (get_name true 7 (65 ∷ []) empty)
    × Leaves empty (sign 7 true true 256 text empty)
    × Leaves empty (sign_to 7 true true 256 text empty)
    × Leaves empty (verify 7 true true 256 valid empty)
objects_are_freed_example = objects_are_freed 7 256 9 true true text (65 ∷ []) valid empty text_fits

abbrev store_calls : List Store.Call
store_calls = adding_certificate 5 true ∷ adding_crl 6 8 true ∷ adding_crl 6 9 false ∷ []

references_are_lost_example :
    ((h : Heap) × (Store.live 3 store_calls empty ≡ (done tt, h))
      × ((x : ℕ) → x ≢ 0 → h x ≡ 0 + added x store_calls))
    × ((set_name 4 true true empty).1 ≡ put 4 empty)
    × ((Session.compute_shared_secret 256 12 256 text empty).1 ≡ put 12 empty)
references_are_lost_example =
    references_are_lost 3 4 store_calls true true 256 12 256 text empty (omega arith) (omega arith)
      (omega arith) (omega arith)

-- The second call's numbers are rejected.
abbrev accepted_call : Session.Call
accepted_call = record {
  generator_size = 1;
  modulus_size = 256;
  dh_new = 3;
  p_bn = 4;
  g_bn = 5;
  set_ok = true;
  check_ok = true;
}

abbrev rejected_call : Session.Call
rejected_call = record accepted_call { dh_new = 6; set_ok = false }

rejected_session_is_freed_twice_example :
    Session.live (accepted_call ∷ rejected_call ∷ []) Session.new_exchange empty ≡ (fault, empty)
rejected_session_is_freed_twice_example =
    rejected_session_is_freed_twice (accepted_call ∷ rejected_call ∷ []) empty
      (omega arith, refl, (omega arith, refl, tt))

-- A key of two bytes, copied once: both objects are destroyed.
abbrev key_buffer : Bytes
key_buffer = 7 ∷ 8 ∷ 9 ∷ []

abbrev key_events : List Event
key_events = copy_object ∷ destroy_object ∷ destroy_object ∷ []

last_owner_erases_key_example :
    ((k : SymmetricKey) × (create_symmetric_key 2 key_buffer 3 ≡ done k)
      × EndsIn 2 (take 2 key_buffer) (some 0) (run key_events k)
      × (drop 2 (take 2 key_buffer) ≡ []))
    × ((k : SymmetricKey) × (create_symmetric_key_take_ownership 2 key_buffer 3 ≡ done k)
        × EndsIn 2 key_buffer (some 0) (run key_events k))
last_owner_erases_key_example = last_owner_erases_key 2 3 key_buffer key_events (omega arith) refl
