-- ===== src/Openssl/Store/Kept.antt =====
-- The references that an X509Store has over its life, and those that it loses.
use gicame.Prelude.{
  ℕ, ◌+◌, ◌≡◌, ◌≢◌, ◌∙◌, refl, ap, arith, Bool, true, false, not, ◌&&◌, ◌==◌, if◌then◌else◌,
  Bool-cases, inl, inr, List, [], ◌∷◌, Outcome, done, threw, fault,
}
use gicame.Openssl.{Heap, put, take_off, free, free-put, free-put-put}
use gicame.Openssl.Store.{
  X509Store, is_in, insert, add_certificate, add_crl, read_crl, add_crl_from_pem_file, free_all,
  destroy_store, Call, adding_certificate, adding_crl, step, resume, run,
}

abbrev pub count : ℕ → List ℕ → ℕ
count x [] = 0
count x (y ∷ ys) = if x == y then count x ys + 1 else count x ys

free_all-count :
    (ps : List ℕ) (h g : Heap)
    → ((x : ℕ) → x ≢ 0 → h x ≡ g x + count x ps)
    → (h' : Heap) × (free_all ps h ≡ (done tt, h')) × ((x : ℕ) → x ≢ 0 → h' x ≡ g x)
unfolding free
free_all-count [] h g e = (h, refl, λ x n. omega (arith, e x n))
free_all-count (p ∷ ps) h g e = elim (Bool-cases (p == 0)) [
  | inl z ↦ rw z (free_all-count ps h g (λ x n. ground (arith, e x n)))
  | inr n ↦
      let held : (h p == 0) ≡ false = ground (arith, e p (ground arith)) in
      rw (n, held) (free_all-count ps (take_off p h) g (λ x nx. ground (arith, e x nx)))
]

-- How many calls have added the revocation list at `x`.
abbrev pub added : ℕ → List Call → ℕ
added x [] = 0
added x (adding_certificate c ok ∷ cs) = added x cs
added x (adding_crl f c ok ∷ cs) =
    if ok && not (f == 0) && (x == c) then added x cs + 1 else added x cs

-- The references that the store has, and those that are lost.
abbrev pub Kept : Heap → X509Store → Heap → Type 0
Kept g s h =
    (x : ℕ)
    → x ≢ 0
    → h x ≡ g x + count x s.taken + count x s.certs + (if x == s.native then 1 else 0)

read_crl-put :
    (f c : ℕ) (h : Heap)
    → (f == 0) ≡ false
    → read_crl f c h ≡ (done tt, if c == 0 then h else put c h)
unfolding read_crl
read_crl-put f c h e = elim (Bool-cases (c == 0)) [
  | inl z ↦ rw z (ap (λ b. free f (if b then h else put f h)) e ∙ free-put f h e)
  | inr n ↦ rw n (ap (λ b. free f (put c (if b then h else put f h))) e ∙ free-put-put f c h e)
]

read_then_add :
    (f c : ℕ) (ok : Bool) (s : X509Store) (h : Heap)
    → (f == 0) ≡ false
    → add_crl_from_pem_file f c ok s h ≡ add_crl c ok s (if c == 0 then h else put c h)
unfolding add_crl_from_pem_file
read_then_add f c ok s h e =
    ap (λ b. if b then (threw, s, h) else add_crl c ok s ((read_crl f c h).1)) e
    ∙ ap (λ r. add_crl c ok s (r.1)) (read_crl-put f c h e)

read_nothing :
    (f c : ℕ) (ok : Bool) (s : X509Store) (h : Heap)
    → (f == 0) ≡ true
    → add_crl_from_pem_file f c ok s h ≡ (threw, s, h)
unfolding add_crl_from_pem_file
read_nothing f c ok s h e =
    ap (λ b. if b then (threw, s, h) else add_crl c ok s ((read_crl f c h).1)) e

-- What a call ends in, by the references `g` that the store is not to give back.
abbrev pub Ends : Heap → Outcome (Unit {0}) × X509Store × Heap → Type 0
Ends g (done _, s, h) = Kept g s h
Ends g (threw, s, h) = Kept g s h
Ends g (fault, s, h) = ⊥

add_crl-Ends :
    (g : Heap) (f c : ℕ) (ok : Bool) (s : X509Store) (h : Heap)
    → Kept g s h
    → (f == 0) ≡ false
    → Ends
        (λ x. g x + added x (adding_crl f c ok ∷ []))
        (add_crl c ok s (if c == 0 then h else put c h))
unfolding add_crl
add_crl-Ends g f c false s h k e = elim (Bool-cases (c == 0)) [
  | inl z ↦ rw z (λ x n. ground (arith, k x n))
  | inr z ↦ rw (z, free-put c h z) (λ x n. ground (arith, k x n))
]
add_crl-Ends g f c true s h k e = elim (Bool-cases (c == 0)) [
  | inl z ↦ rw z (λ x n. ground (arith, k x n))
  | inr z ↦ rw (z, e) (λ x n. ground (arith, k x n))
]

insert-Kept :
    (g : Heap) (c : ℕ) (s : X509Store) (h : Heap)
    → Kept g s h
    → let (cs, h') = insert c s.certs h in Kept g (record s { certs = cs }) h'
insert-Kept g c s h k = elim (Bool-cases (is_in c s.certs)) [
  | inl e ↦ rw e k
  | inr e ↦ rw e (λ x n. ground (arith, k x n))
]

step-Ends :
    (g : Heap) (c : Call) (s : X509Store) (h : Heap)
    → Kept g s h
    → Ends (λ x. g x + added x (c ∷ [])) (step c s h)
unfolding step add_certificate
step-Ends g (adding_certificate c false) s h k = λ x n. ground (arith, insert-Kept g c s h k x n)
step-Ends g (adding_certificate c true) s h k = λ x n. ground (arith, insert-Kept g c s h k x n)
step-Ends g (adding_crl f c ok) s h k = elim (Bool-cases (f == 0)) [
  | inl e ↦ rw (read_nothing f c ok s h e) (λ x n. ground (arith, k x n))
  | inr e ↦ rw (read_then_add f c ok s h e) (add_crl-Ends g f c ok s h k e)
]

added-cons : (c : Call) (cs : List Call) (x : ℕ) → added x (c ∷ []) + added x cs ≡ added x (c ∷ cs)
added-cons (adding_certificate c ok) cs x = omega arith
added-cons (adding_crl f c ok) cs x = ground arith

Ends-ext :
    (f g : Heap) (r : Outcome (Unit {0}) × X509Store × Heap)
    → ((x : ℕ) → f x ≡ g x)
    → Ends f r
    → Ends g r
Ends-ext f g (done _, s, h) e k = λ x n. omega (arith, e x, k x n)
Ends-ext f g (threw, s, h) e k = λ x n. omega (arith, e x, k x n)
Ends-ext f g (fault, s, h) e k = k

pub run-Ends :
    (g : Heap) (cs : List Call) (s : X509Store) (h : Heap)
    → Kept g s h
    → Ends (λ x. g x + added x cs) (run cs s h)
unfolding run
run-Ends g [] s h k = λ x n. omega (arith, k x n)
run-Ends g (c ∷ cs) s h k = by_step (step c s h) (step-Ends g c s h k) (λ s' h' k'.
    Ends-ext _ _ (run cs s' h') (λ x. omega (arith, added-cons c cs x))
      (run-Ends (λ x. g x + added x (c ∷ [])) cs s' h' k'))
  where
    by_step :
        (r : Outcome (Unit {0}) × X509Store × Heap)
        → Ends (λ x. g x + added x (c ∷ [])) r
        → ((s' : X509Store) (h' : Heap)
            → Kept (λ x. g x + added x (c ∷ [])) s' h'
            → Ends (λ x. g x + added x (c ∷ cs)) (run cs s' h'))
        → Ends (λ x. g x + added x (c ∷ cs)) (resume (run cs) r)
    by_step (done _, s', h') k' rest = rest s' h' k'
    by_step (threw, s', h') k' rest = rest s' h' k'
    by_step (fault, s', h') k' rest = k'

add_crl-native :
    (c : ℕ) (ok : Bool) (s : X509Store) (h : Heap) → (add_crl c ok s h).1.native ≡ s.native
unfolding add_crl
add_crl-native c false s h = elim (Bool-cases (c == 0)) [ inl z ↦ rw z refl | inr z ↦ rw z refl ]
add_crl-native c true s h = elim (Bool-cases (c == 0)) [ inl z ↦ rw z refl | inr z ↦ rw z refl ]

step-native : (c : Call) (s : X509Store) (h : Heap) → (step c s h).1.native ≡ s.native
unfolding step add_certificate
step-native (adding_certificate c false) s h = refl
step-native (adding_certificate c true) s h = refl
step-native (adding_crl f c ok) s h = elim (Bool-cases (f == 0)) [
  | inl e ↦ rw (read_nothing f c ok s h e) refl
  | inr e ↦ rw (read_then_add f c ok s h e) (add_crl-native c ok s _)
]

pub run-native : (cs : List Call) (s : X509Store) (h : Heap) → (run cs s h).1.native ≡ s.native
unfolding run
run-native [] s h = refl
run-native (c ∷ cs) s h = by_step (step c s h) (step-native c s h) (run-native cs)
  where
    by_step :
        (r : Outcome (Unit {0}) × X509Store × Heap)
        → r.1.native ≡ s.native
        → ((s' : X509Store) (h' : Heap) → (run cs s' h').1.native ≡ s'.native)
        → (resume (run cs) r).1.native ≡ s.native
    by_step (done _, s', h') e rest = rest s' h' ∙ e
    by_step (threw, s', h') e rest = rest s' h' ∙ e
    by_step (fault, s', h') e rest = e

pub destroy-Kept :
    (g : Heap) (s : X509Store) (h : Heap)
    → s.native ≢ 0
    → Kept g s h
    → (h' : Heap) × (destroy_store s h ≡ (done tt, h')) × ((x : ℕ) → x ≢ 0 → h' x ≡ g x)
unfolding destroy_store free
destroy-Kept g s h real k =
    let (h1, e1, k1) =
      free_all-count s.taken h (λ x. g x + count x s.certs + (if x == s.native then 1 else 0))
        (λ x n. omega (arith, k x n)) in
    let (h3, e3, k3) =
      free_all-count s.certs (take_off s.native h1) g (λ x n. ground (arith, k1 x n)) in
    let native : (s.native == 0) ≡ false = ground arith in
    let held : (h1 s.native == 0) ≡ false = ground (arith, k1 s.native real) in
    (h3, rw (native, e1, native, held) e3, k3)
