-- ===== src/Openssl/Store.antt =====
-- src/crypto/certificate/X509Store.cpp. As OpenSSL documents, X509_STORE_add_cert and
-- X509_STORE_add_crl take references of their own where they succeed, and X509_STORE_free gives them back.
pub mod Kept
use gicame.Prelude.{
  ℕ, Bool, false, not, ◌||◌, ◌==◌, if◌then◌else◌, List, [], ◌∷◌, Outcome, done, threw, fault,
}
use gicame.Openssl.{Heap, Act, put, pure, throw, allocate, free, ◌>>=◌, ◌>>◌}

-- `taken` are the objects of which the native store has references, `certs` those of the set.
pub record X509Store : Type 0 where
  pub native : ℕ
  pub taken : List ℕ
  pub certs : List ℕ

-- The constructor
unfoldable pub construct_store : ℕ → Act X509Store
construct_store native = allocate native >>= λ s.
    if s == 0 then throw else pure (record { native = s; taken = []; certs = [] })

abbrev pub is_in : ℕ → List ℕ → Bool
is_in x [] = false
is_in x (y ∷ ys) = (x == y) || is_in x ys

-- An insertion in a `std::set` of shared pointers.
abbrev pub insert : ℕ → List ℕ → Heap → List ℕ × Heap
insert c cs h = if is_in c cs then (cs, h) else (c ∷ cs, put c h)

-- `addCertificate`, by whether X509_STORE_add_cert succeeds.
unfoldable pub add_certificate : ℕ → Bool → X509Store → Heap → Outcome (Unit {0}) × X509Store × Heap
add_certificate cert ok s h =
    let (cs, h') = insert cert s.certs h in
    if not ok
    then (threw, record s { certs = cs }, h')
    else (done tt, record s { certs = cs; taken = cert ∷ s.taken }, put cert h')

-- PEM_read_X509_CRL on the file that is open; the file is closed.
unfoldable pub read_crl : ℕ → ℕ → Act (Unit {0})
read_crl file crl = allocate file >>= λ f. allocate crl >>= λ _. free f

-- What follows in `addCrlFromPemFile`.
unfoldable pub add_crl : ℕ → Bool → X509Store → Heap → Outcome (Unit {0}) × X509Store × Heap
add_crl crl ok s h =
    if crl == 0
    then (threw, s, h)
    else if not ok
    then (let (o, h') = (free crl >> throw) h in (o, s, h'))
    else (done tt, record s { taken = crl ∷ s.taken }, put crl h)

-- `addCrlFromPemFile`, by the file, the list that is read from it, and whether it could be added.
unfoldable pub add_crl_from_pem_file :
    ℕ → ℕ → Bool → X509Store → Heap → Outcome (Unit {0}) × X509Store × Heap
unfolding add_crl read_crl
add_crl_from_pem_file file crl ok s h =
    if file == 0 then (threw, s, h) else add_crl crl ok s ((read_crl file crl h).1)

-- `verify`, by the context, whether it can be initialised, and whether X509_verify_cert returns 1.
unfoldable pub verify_certificate : ℕ → Bool → Bool → Act Bool
verify_certificate ctx init ok = allocate ctx >>= λ c.
    if c == 0 then throw else if not init then (free c >> throw) else (free c >> pure ok)

abbrev pub free_all : List ℕ → Act (Unit {0})
free_all [] = pure tt
free_all (p ∷ ps) = free p >> free_all ps

-- The destructor: the native store, then the set.
unfoldable pub destroy_store : X509Store → Act (Unit {0})
destroy_store s =
    if s.native == 0
    then free_all s.certs
    else (free_all s.taken >> (free s.native >> free_all s.certs))

pub data Call : Type 0 where
  adding_certificate : ℕ → Bool → Call
  adding_crl : ℕ → ℕ → Bool → Call

unfoldable pub step : Call → X509Store → Heap → Outcome (Unit {0}) × X509Store × Heap
unfolding add_certificate add_crl_from_pem_file
step (adding_certificate c ok) s h = add_certificate c ok s h
step (adding_crl f c ok) s h = add_crl_from_pem_file f c ok s h

-- The caller catches an exception, and goes on.
abbrev pub resume :
    (X509Store → Heap → Outcome (Unit {0}) × X509Store × Heap)
    → Outcome (Unit {0}) × X509Store × Heap
    → Outcome (Unit {0}) × X509Store × Heap
resume rest (done _, s, h) = rest s h
resume rest (threw, s, h) = rest s h
resume rest (fault, s, h) = (fault, s, h)

unfoldable pub run : List Call → X509Store → Heap → Outcome (Unit {0}) × X509Store × Heap
unfolding step
run [] s h = (done tt, s, h)
run (c ∷ cs) s h = resume (run cs) (step c s h)

abbrev pub close : Outcome (Unit {0}) × X509Store × Heap → Outcome (Unit {0}) × Heap
close (done _, s, h) = destroy_store s h
close (threw, s, h) = destroy_store s h
close (fault, s, h) = (fault, h)

-- The life of a store.
unfoldable pub live : ℕ → List Call → Act (Unit {0})
unfolding construct_store run destroy_store
live native cs = construct_store native >>= λ s h. close (run cs s h)
