-- ===== src/Openssl/Session/Freed.antt =====
-- When the session of a key exchange is freed once, and when twice.
use gicame.Prelude.{
  ℕ, ◌+◌, ◌-◌, ◌≤◌, ◌≡◌, ◌≢◌, ◌∙◌, refl, ap, sym, subst, arith, fun_ext, Bool, true, false, not,
  ◌||◌, ◌==◌, ltb, if◌then◌else◌, Bool-cases, inl, inr, ◌⊎◌, List, [], ◌∷◌, Outcome, done, threw,
  fault,
}
use gicame.Digest.{int_max}
use gicame.Openssl.{Heap, put, take_off, free, follow, throw, ◌>>◌}
use gicame.Openssl.Session.{
  DiffieHellman, new_exchange, destroy_exchange, Call, set_parameters, new_session, created, renew,
  create_session, resume, live, is_rejected, any_rejected, Sound,
}

-- The heap after an allocation that may have failed, and after a reference that may be NULL is given
-- back.
abbrev with : ℕ → Heap → Heap
with p h x = if p == 0 then h x else if x == p then h x + 1 else h x

abbrev without : ℕ → Heap → Heap
without p h x = if p == 0 then h x else if x == p then h x - 1 else h x

allocated : (p : ℕ) (h : Heap) → (if p == 0 then h else put p h) ≡ with p h
allocated p h = elim (Bool-cases (p == 0)) [
  | inl e ↦ rw e (fun_ext (λ x. ground arith))
  | inr e ↦ rw e (fun_ext (λ x. ground arith))
]

free-held : (p : ℕ) (h : Heap) → (p ≡ 0) ⊎ (h p ≢ 0) → free p h ≡ (done tt, without p h)
unfolding free
free-held p h (inl z) =
    let e : (p == 0) ≡ true = ground arith in
    rw e (ap (λ r. (done tt, r)) (fun_ext (λ x. ground arith)))
free-held p h (inr n) = elim (Bool-cases (p == 0)) [
  | inl e ↦ rw e (ap (λ r. (done tt, r)) (fun_ext (λ x. ground arith)))
  | inr e ↦
      let held : (h p == 0) ≡ false = ground arith in
      rw (e, held) (ap (λ r. (done tt, r)) (fun_ext (λ x. ground arith)))
]

-- An object is given back although another one was allocated after it.
free-with : (p q : ℕ) (h : Heap) → free p (with q (with p h)) ≡ (done tt, with q h)
free-with p q h =
    free-held p (with q (with p h)) (ground arith)
    ∙ ap (λ r. (done tt, r)) (fun_ext (λ x. ground arith))

-- The heap of an exchange that has a session, or none; `g` are the references of others.
abbrev Holds : Heap → DiffieHellman → Heap → Type 0
Holds g d h = h ≡ with (d.dh) g

free_session : (g : Heap) (d : ℕ) → free d (with d g) ≡ (done tt, g)
free_session g d =
    free-held d (with d g) (ground arith) ∙ ap (λ r. (done tt, r)) (fun_ext (λ x. ground arith))

-- The heap after the two numbers are allocated.
abbrev numbered : ℕ → ℕ → Heap → Heap
numbered p q h =
    if q == 0 then if p == 0 then h else put p h else put q (if p == 0 then h else put p h)

numbered-with : (p q : ℕ) (h : Heap) → numbered p q h ≡ with q (with p h)
numbered-with p q h = allocated q (if p == 0 then h else put p h) ∙ ap (with q) (allocated p h)

-- The failure of DH_set0_pqg frees all that was allocated.
rejected :
    (d p q : ℕ) (h : Heap)
    → (free d >> (free p >> (free q >> throw))) (numbered p q (with d h)) ≡ throw {A = Unit {0}} h
rejected d p q h =
    ap (free d >> (free p >> (free q >> throw))) (numbered-with p q (with d h))
    ∙ ap (λ r. follow r (λ _. free p >> (free q >> throw)))
        (free-held d (with q (with p (with d h))) (ground arith)
          ∙ ap (λ r. (done tt, r)) {y = with q (with p h)} (fun_ext (λ x. ground arith)))
    ∙ ap (λ r. follow r (λ _. free q >> throw)) (free-with p q h)
    ∙ ap (λ r. follow r (λ _. throw)) (free_session h q)

-- What DH_set0_pqg has been given is the DH object's.
handed_over :
    (p q : ℕ) (h : Heap)
    → (p == 0) ≡ false
    → (q == 0) ≡ false
    → take_off q (take_off p (numbered p q h)) ≡ h
handed_over p q h e f = rw (e, f) (fun_ext (λ x. ground arith))

-- What the parameters of a new DH object end in.
abbrev SetTo : Bool → ℕ → Heap → Outcome (Unit {0}) × Heap → Type 0
SetTo true d g (threw, h) = h ≡ g
SetTo false d g (done _, h) = h ≡ with d g
SetTo false d g (threw, h) = h ≡ with d g
SetTo _ _ _ _ = ⊥

accepted-SetTo :
    (b : Bool) (d : ℕ) (g h : Heap)
    → h ≡ with d g
    → SetTo false d g (if b then done tt else threw, h)
accepted-SetTo true d g h e = e
accepted-SetTo false d g h e = e

set_parameters-SetTo :
    (c : Call) (g : Heap)
    → c.generator_size ≤ int_max
    → (c.dh_new == 0) ≡ false
    → SetTo (is_rejected c) c.dh_new g (set_parameters c (with (c.dh_new) g))
unfolding set_parameters
set_parameters-SetTo c g fits new =
    let short : ltb int_max c.generator_size ≡ false = ground arith in
    elim (Bool-cases (ltb int_max c.modulus_size)) [
      | inl long ↦ rw (new, long) refl
      | inr ok ↦
          rw (new, ok, short)
            (elim (Bool-cases ((c.p_bn == 0) || (c.g_bn == 0) || not c.set_ok)) [
              | inl bad ↦
                  rw bad
                    (subst (SetTo true c.dh_new g) (sym (rejected c.dh_new c.p_bn c.g_bn g)) refl)
              | inr good ↦ rw good (
                  accepted-SetTo c.check_ok c.dh_new g _
                    (handed_over c.p_bn c.g_bn (with (c.dh_new) g) (ground arith) (ground arith)))
            ])
    ]

-- What a call of `createSession` ends in, on an exchange that has a session or none.
abbrev CreatesTo : Bool → ℕ → Heap → Outcome (Unit {0}) × DiffieHellman × Heap → Type 0
CreatesTo true n g (threw, d, h) = (d.dh ≡ n) × (n ≢ 0) × (h ≡ g)
CreatesTo false n g (done _, d, h) = Holds g d h
CreatesTo false n g (threw, d, h) = Holds g d h
CreatesTo _ _ _ _ = ⊥

new_session-CreatesTo :
    (c : Call) (g : Heap)
    → c.generator_size ≤ int_max
    → CreatesTo (is_rejected c) c.dh_new g (new_session c g)
unfolding new_session
new_session-CreatesTo c g fits = elim (Bool-cases (c.dh_new == 0)) [
  | inl e ↦ rw e (fun_ext (λ x. refl))
  | inr e ↦
      let begun : put c.dh_new g ≡ with (c.dh_new) g = fun_ext (λ x. ground arith) in
      let made : new_session c g ≡ created c.dh_new (set_parameters c (with (c.dh_new) g)) =
        ap
          (λ b.
            if b
            then (threw, record { dh = 0 }, g)
            else created c.dh_new (set_parameters c (put c.dh_new g)))
          e
        ∙ ap (λ h. created c.dh_new (set_parameters c h)) begun in
      subst (CreatesTo (is_rejected c) c.dh_new g) (sym made)
        (by_set (is_rejected c) _ (set_parameters-SetTo c g fits e) e)
]
  where
    by_set :
        (b : Bool) (r : Outcome (Unit {0}) × Heap)
        → SetTo b c.dh_new g r
        → (c.dh_new == 0) ≡ false
        → CreatesTo b c.dh_new g (created c.dh_new r)
    by_set true (threw, h) k e = (refl, ground arith, k)
    by_set false (done _, h) k e = k
    by_set false (threw, h) k e = k
    by_set true (done _, h) k e = k
    by_set true (fault, h) k e = k
    by_set false (fault, h) k e = k

create_session-CreatesTo :
    (c : Call) (g : Heap) (d : DiffieHellman)
    → c.generator_size ≤ int_max
    → CreatesTo (is_rejected c) c.dh_new g (create_session c d (with (d.dh) g))
unfolding create_session
create_session-CreatesTo c g d fits =
    subst (CreatesTo (is_rejected c) c.dh_new g) (ap (renew c d) (sym (free_session g d.dh)))
      (new_session-CreatesTo c g fits)

freed_again : (g : Heap) (p : ℕ) → p ≢ 0 → g p ≡ 0 → free p g ≡ (fault, g)
unfolding free
freed_again g p n z =
    let e : (p == 0) ≡ false = ground arith in
    let f : (g p == 0) ≡ true = ground arith in rw (e, f) refl

-- An exchange whose pointer dangles: whatever is called next frees it again.
dangling_faults :
    (cs : List Call) (g : Heap) (d : DiffieHellman)
    → d.dh ≢ 0
    → g d.dh ≡ 0
    → live cs d g ≡ (fault, g)
unfolding live create_session destroy_exchange
dangling_faults [] g d n z = freed_again g d.dh n z
dangling_faults (c ∷ cs) g d n z = ap (λ r. resume (live cs) (renew c d r)) (freed_again g d.dh n z)

live-EndsIn :
    (cs : List Call) (g : Heap) (d : DiffieHellman)
    → Sound g cs
    → live cs d (with (d.dh) g) ≡ (if any_rejected cs then fault else done tt, g)
unfolding live destroy_exchange
live-EndsIn [] g d s = free_session g d.dh
live-EndsIn (c ∷ cs) g d (fits, fresh, s) =
    by_call (is_rejected c) (create_session c d (with (d.dh) g))
      (create_session-CreatesTo c g d fits) (λ d'. live-EndsIn cs g d' s)
  where
    by_call :
        (b : Bool) (r : Outcome (Unit {0}) × DiffieHellman × Heap)
        → CreatesTo b c.dh_new g r
        → ((d' : DiffieHellman)
            → live cs d' (with (d'.dh) g) ≡ (if any_rejected cs then fault else done tt, g))
        → resume (live cs) r ≡ (if b || any_rejected cs then fault else done tt, g)
    by_call true (threw, d', h') (e, n, k) rest =
        ap (live cs d') k ∙ dangling_faults cs g d' (ground arith) (ap g e ∙ fresh)
    by_call false (done _, d', h') k rest = ap (live cs d') k ∙ rest d'
    by_call false (threw, d', h') k rest = ap (live cs d') k ∙ rest d'
    by_call true (done _, d', h') k rest = elim k [ ]
    by_call true (fault, d', h') k rest = elim k [ ]
    by_call false (fault, d', h') k rest = elim k [ ]

-- The life of a key exchange whose exceptions are caught, on generators of at most INT_MAX bytes and new DH
-- objects at free addresses. If OpenSSL accepts the numbers of each call, the destructor leaves not one
-- object behind. If it once rejects them, or could not make them, the object is freed twice,
-- undefined behaviour, whatever is called afterwards: `createSession` frees it, throws, and keeps the
-- pointer, which the next call or the destructor frees again.
pub rejected_session_is_freed_twice :
    (cs : List Call) (g : Heap)
    → Sound g cs
    → live cs new_exchange g ≡ (if any_rejected cs then fault else done tt, g)
rejected_session_is_freed_twice cs g s =
    ap (live cs new_exchange) (fun_ext (λ x. refl)) ∙ live-EndsIn cs g new_exchange s
