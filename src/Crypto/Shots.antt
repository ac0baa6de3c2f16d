-- ===== src/Crypto/Shots.antt =====
-- An update of at most INT_MAX bytes is one call of EVP_EncryptUpdate or EVP_DecryptUpdate.
use gicame.Prelude.{
  ℕ, zero, suc, ◌+◌, ◌-◌, ◌≤◌, ◌<◌, ◌≡◌, refl, sym, ap, ◌∙◌, arith, ◌==◌, ltb, if◌then◌else◌, some,
  [], ◌∷◌, ◌++◌, length, take, drop, min, take-all, drop-all, tabulate-eq, get_or, length-append,
  Outcome, done, threw, fault, ◌>>=◌,
}
use gicame.Memory.{Mem, copy_in, splice}
use gicame.Rpc.{Bytes}
use gicame.Crypto.{Evp, int_max, after_shot, update_loop, resize}

pub copy_in-done :
    (m : Mem) (off : ℕ) (bs : Bytes)
    → off + length bs ≤ m.size
    → copy_in m off bs ≡ done (record m { cell = splice m.cell off bs })
unfolding copy_in
copy_in-done m off bs h = ground arith

pub copy_in-fault :
    (m : Mem) (off : ℕ) (bs : Bytes) → m.size < off + length bs → copy_in m off bs ≡ fault
unfolding copy_in
copy_in-fault m off bs h = ground arith

-- Bytes written at the start of a buffer that has room for them are read back.
pub resize-splice :
    (o : Bytes) (m : Mem)
    → length o ≤ m.size
    → resize (length o) (record m { cell = splice m.cell 0 o }) ≡ o
resize-splice o m room = tabulate-eq (length o) o _ 0 refl (λ i lt. ground arith)

get_or-append :
    (o p : Bytes) (i : ℕ)
    → get_or (o ++ p) i 0 ≡ (if ltb i (length o) then get_or o i 0 else get_or p (i - length o) 0)
get_or-append [] p i =
    let e : i - 0 ≡ i = omega arith in ap (λ k. get_or p k 0) (sym e) ∙ ground arith
get_or-append (x ∷ o) p zero = ground arith
get_or-append (x ∷ o) p (suc i) =
    let e : suc i - suc (length o) ≡ i - length o = omega arith in
    get_or-append o p i ∙ rw e (ground arith)

-- Two runs of bytes, one behind the other.
pub resize-splice-splice :
    (o p : Bytes) (m : Mem)
    → length o + length p ≤ m.size
    → resize (length o + length p) (record m { cell = splice (splice m.cell 0 o) (length o) p })
      ≡ o ++ p
resize-splice-splice o p m room =
    tabulate-eq (length o + length p) (o ++ p) _ 0 (length-append o p) (λ i lt.
      let e : get_or (o ++ p) i 0
          ≡ (if ltb i (length o) then get_or o i 0 else get_or p (i - length o) 0) =
        get_or-append o p i in
      ground arith)

module _ (evp : Evp) where
  open evp use {Ctx}

  update_loop-nil :
      (n : ℕ) (c : Ctx) (off shot : ℕ) (m : Mem)
      → update_loop evp n c [] off shot m ≡ done (shot, c, m)
  unfolding update_loop
  update_loop-nil zero c off shot m = refl
  update_loop-nil (suc n) c off shot m = refl

  -- The loop goes on after a shot.
  abbrev then_loop : ℕ → Bytes → ℕ → ℕ × Ctx × Mem → Outcome (ℕ × Ctx × Mem)
  then_loop n s i r = update_loop evp n (r.1) s (0 + i) (0 + r.0) (r.2)

  then_loop-nil :
      (c' : Ctx) (k n i : ℕ) (q : Outcome Mem)
      → let one : Mem → Outcome (ℕ × Ctx × Mem) = λ m'. done (k, c', m') in
        ((q >>= one) >>= then_loop n [] i) ≡ (q >>= one)
  then_loop-nil c' k n i (done m') =
      let zeros : 0 + k ≡ k = omega arith in
      update_loop-nil n c' (0 + i) (0 + k) m' ∙ ap (λ z. done (z, c', m')) zeros
  then_loop-nil c' k n i threw = refl
  then_loop-nil c' k n i fault = refl

  -- The first shot takes everything.
  shot_of_all :
      (c c' : Ctx) (source o : Bytes) (m : Mem) (n i : ℕ)
      → take i source ≡ source
      → drop i source ≡ []
      → evp.update c source ≡ some (o, c')
      → (after_shot evp (evp.update c (take i source)) 0 m >>= then_loop n (drop i source) i)
        ≡ (copy_in m 0 o >>= λ m'. done (length o, c', m'))
  unfolding after_shot
  shot_of_all c c' source o m n i all gone e =
      ap (λ s. after_shot evp (evp.update c s) 0 m >>= then_loop n (drop i source) i) all
      ∙ ap (λ s. after_shot evp (evp.update c source) 0 m >>= then_loop n s i) gone
      ∙ ap (λ u. after_shot evp u 0 m >>= then_loop n [] i) e
      ∙ then_loop-nil c' (length o) n i (copy_in m 0 o)

  pub loop_in_one_shot :
      (c c' : Ctx) (source o : Bytes) (m : Mem)
      → 0 < length source
      → length source ≤ int_max
      → evp.update c source ≡ some (o, c')
      → update_loop evp (length source) c source 0 0 m
        ≡ (copy_in m 0 o >>= λ m'. done (length o, c', m'))
  unfolding update_loop
  loop_in_one_shot c c' [] o m pos fits e = absurd (omega arith)
  loop_in_one_shot c c' (x ∷ xs) o m pos fits e =
      let k : ℕ = length (x ∷ xs) in
      let n : min int_max k ≡ k = omega arith in
      let all : take k (x ∷ xs) ≡ x ∷ xs = take-all k (x ∷ xs) (omega arith) in
      let gone : drop k (x ∷ xs) ≡ [] = drop-all k (x ∷ xs) (omega arith) in
      let taken : Outcome (ℕ × Ctx × Mem) =
        after_shot evp (evp.update c (take (min int_max k) (x ∷ xs))) 0 m
        >>= then_loop (length xs) (drop (min int_max k) (x ∷ xs)) (min int_max k) in
      let go : (if k == 0 then done (0, c, m) else taken) ≡ taken = ground arith in
      go ∙ shot_of_all c c' (x ∷ xs) o m (length xs) (min int_max k) (rw n all) (rw n gone) e
