-- ===== src/Openssl/Leaks.antt =====
-- What X509Store and the names of an X509Certificate never give back.
use gicame.Prelude.{
  ℕ, ◌+◌, ◌≡◌, ◌≢◌, refl, arith, Bool, true, false, ◌==◌, Bool-cases, inl, inr, Option, none, some,
  List, [], Outcome, done, threw, fault, ltb, length, ◌≤◌,
}
use gicame.Openssl.{Heap, put}
use gicame.Rpc.{Bytes}
use gicame.Digest.{int_max}
use gicame.Openssl.Session.{secret_in, compute_shared_secret}
use gicame.Openssl.Certificate.{enter_name, set_name}
use gicame.Openssl.Store.{X509Store, construct_store, Call, run, close, live}
use gicame.Openssl.Store.Kept.{added, Ends, run-Ends, run-native, destroy-Kept}

set_name-keeps :
    (name : ℕ) (entered ok : Bool) (h : Heap)
    → (name == 0) ≡ false
    → (set_name name entered ok h).1 ≡ put name h
unfolding set_name enter_name
set_name-keeps name false ok h e = rw e refl
set_name-keeps name true false h e = rw e refl
set_name-keeps name true true h e = rw e refl

secret_in-keeps :
    (dh_size : ℕ) (secret : Option Bytes) (h : Heap) → (secret_in dh_size secret h).1 ≡ h
unfolding secret_in
secret_in-keeps dh_size none h = refl
secret_in-keeps dh_size (some s) h = elim (Bool-cases (ltb dh_size (length s))) [
  | inl e ↦ rw e refl
  | inr e ↦ rw e refl
]

compute_shared_secret-keeps :
    (size other dh_size : ℕ) (secret : Option Bytes) (h : Heap)
    → ltb int_max size ≡ false
    → (other == 0) ≡ false
    → (compute_shared_secret size other dh_size secret h).1 ≡ put other h
unfolding compute_shared_secret
compute_shared_secret-keeps size other dh_size secret h e f =
    rw (e, f) (secret_in-keeps dh_size secret (put other h))

-- What is never given back. A store whose calls are made in any order, their exceptions caught, and
-- which is then destroyed, has given back every reference that it has taken, of certificates, files
-- and lists, and its own memory, except one to each revocation list that was added to it:
-- `addCrlFromPemFile` keeps the reference that it got by reading the list, although the native store
-- takes another. `setSubjectName` and `setIssuerName` leave the name behind that they have made, also
-- where they succeed. `computeSharedSecret` leaves the number behind that it makes of the other peer's
-- component, which is at most INT_MAX long.
pub references_are_lost :
    (native name : ℕ) (cs : List Call) (entered ok : Bool) (size other dh_size : ℕ)
    (secret : Option Bytes) (g : Heap)
    → native ≢ 0
    → name ≢ 0
    → other ≢ 0
    → size ≤ int_max
    → ((h : Heap) × (live native cs g ≡ (done tt, h)) × ((x : ℕ) → x ≢ 0 → h x ≡ g x + added x cs))
      × ((set_name name entered ok g).1 ≡ put name g)
      × ((compute_shared_secret size other dh_size secret g).1 ≡ put other g)
unfolding live construct_store
references_are_lost native name cs entered ok size other dh_size secret g real named n fits =
    let e : (native == 0) ≡ false = ground arith in
    (
      rw e (
          by_run (run cs fresh (put native g))
            (run-Ends g cs fresh (put native g) (λ x n. ground arith))
            (run-native cs fresh (put native g))),
      set_name-keeps name entered ok g (ground arith),
      compute_shared_secret-keeps size other dh_size secret g (ground arith) (ground arith),
    )
  where
    fresh : X509Store
    fresh = record { native = native; taken = []; certs = [] }

    by_run :
        (r : Outcome (Unit {0}) × X509Store × Heap)
        → Ends (λ x. g x + added x cs) r
        → r.1.native ≡ native
        → (h : Heap) × (close r ≡ (done tt, h)) × ((x : ℕ) → x ≢ 0 → h x ≡ g x + added x cs)
    by_run (done _, s, h) k e = destroy-Kept (λ x. g x + added x cs) s h (ground (arith, real)) k
    by_run (threw, s, h) k e = destroy-Kept (λ x. g x + added x cs) s h (ground (arith, real)) k
    by_run (fault, s, h) k e = elim k [ ]
