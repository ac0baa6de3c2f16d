-- ===== src/Transfer/Objects.antt =====
-- An object that is sent arrives, however the calls below split its bytes.
use gicame.Prelude.{
  ℕ, zero, suc, ◌+◌, ◌-◌, ◌≤◌, ◌<◌, ◌≡◌, refl, ap, ◌∙◌, subst, arith, true, ◌==◌, ltb,
  if◌then◌else◌, Option, some, List, [], ◌∷◌, ◌++◌, length, take, drop, min, Bool-cases, inl, inr,
  done, threw, append_assoc, length-take, length-drop, take-append-drop,
}
use gicame.Memory.{size_mod}
use gicame.Rpc.{Bytes, to_le, from_le}
use gicame.Rpc.Words.{length-to_le, from_le-to_le}
use gicame.Transfer.{
  size_bytes, and_then, send_loop, send_object, Received, receive_loop, receive_sized,
  receive_object,
}

-- Every call moves at least a byte.
abbrev pub AllMove : List ℕ → Type 0
AllMove [] = Unit
AllMove (k ∷ ks) = (1 ≤ k) × AllMove ks

drop-none : (k : ℕ) (xs : Bytes) → (length (drop k xs) == 0) ≡ true → take k xs ≡ xs
drop-none zero [] h = refl
drop-none zero (x ∷ xs) h = absurd (ground arith)
drop-none (suc k) [] h = refl
drop-none (suc k) (x ∷ xs) h = ap (λ r. x ∷ r) (drop-none k xs h)

send_loop-sends :
    (ks : List ℕ) (left sent : Bytes)
    → AllMove ks
    → length left < length ks
    → (ks' : List ℕ) × (send_loop ks left sent ≡ some (ks', sent ++ left))
      × AllMove ks'
      × (length ks ≤ length ks' + length left + 1)
unfolding send_loop
send_loop-sends [] left sent all enough = absurd (omega arith)
send_loop-sends (k ∷ ks) left sent (pos, all) enough =
    elim (Bool-cases (length (drop k left) == 0)) [
      | inl last ↦ (ks, rw (last, drop-none k left last) refl, all, omega arith)
      | inr more ↦
          let (ks', e, all', n) =
            send_loop-sends ks (drop k left) (sent ++ take k left) all
              (ground (arith, length-drop k left)) in
          (
            ks',
            rw more (
                e
                ∙ ap (λ bs. some (ks', bs))
                    (append_assoc sent (take k left) (drop k left)
                      ∙ ap (λ r. sent ++ r) (take-append-drop k left))),
            all',
            ground (arith, n, length-drop k left),
          )
    ]

-- While every call of `send` moves at least a byte, `sendObject` returns, and has sent the size of
-- the object in eight bytes and then the object.
pub send_object-sends :
    (ks : List ℕ) (object : Bytes)
    → AllMove ks
    → length object + 10 ≤ length ks
    → (ks' : List ℕ) × (send_object ks object
        ≡ some (ks', to_le size_bytes (length object) ++ object))
unfolding send_object
send_object-sends ks object all enough =
    let (k1, e1, all1, n1) =
      send_loop-sends ks (to_le size_bytes (length object)) [] all
        (omega (arith, length-to_le size_bytes (length object), enough)) in
    let (k2, e2, all2, n2) =
      send_loop-sends k1 object (to_le size_bytes (length object)) all1
        (omega (arith, length-to_le size_bytes (length object), enough, n1)) in
    (k2, ap (λ o. and_then o (λ r. send_loop (r.0) object (r.1))) e1 ∙ e2)

pub take-min : (k : ℕ) (xs ys : Bytes) → take (min k (length xs)) (xs ++ ys) ≡ take k xs
take-min zero xs ys = let e : min zero (length xs) ≡ 0 = omega arith in rw e refl
take-min (suc k) [] ys = let e : min (suc k) zero ≡ 0 = omega arith in rw e refl
take-min (suc k) (x ∷ xs) ys =
    let e : min (suc k) (suc (length xs)) ≡ suc (min k (length xs)) = omega arith in
    rw e (ap (λ r. x ∷ r) (take-min k xs ys))

pub drop-min : (k : ℕ) (xs ys : Bytes) → drop (min k (length xs)) (xs ++ ys) ≡ drop k xs ++ ys
drop-min zero xs ys = let e : min zero (length xs) ≡ 0 = omega arith in rw e refl
drop-min (suc k) [] ys = let e : min (suc k) zero ≡ 0 = omega arith in rw e refl
drop-min (suc k) (x ∷ xs) ys =
    let e : min (suc k) (suc (length xs)) ≡ suc (min k (length xs)) = omega arith in
    rw e (drop-min k xs ys)

left_over : (k : ℕ) (xs : Bytes) → length xs - length (take k xs) ≡ length (drop k xs)
left_over k xs = omega (arith, length-take k xs, length-drop k xs)

-- One call of `receive`, by what it moves.
abbrev after_call : ℕ → List ℕ → Bytes → Bytes → Bytes → Bytes → Option Received
after_call n ks got now stream rest =
    if n - length now == 0
    then some (record { calls = ks; bytes = got ++ now; stream = stream })
    else receive_loop ks (n - length now) (got ++ now) stream

drop-empty : (k : ℕ) (xs : Bytes) → (length (drop k xs) == 0) ≡ true → drop k xs ≡ []
drop-empty k xs h = of (drop k xs) h
  where
    of : (ys : Bytes) → (length ys == 0) ≡ true → ys ≡ []
    of [] e = refl
    of (y ∷ ys) e = absurd (ground arith)

receive_loop-receives :
    (ks : List ℕ) (object got rest : Bytes)
    → AllMove ks
    → length object < length ks
    → (ks' : List ℕ) × (receive_loop ks (length object) got (object ++ rest)
        ≡ some (record { calls = ks'; bytes = got ++ object; stream = rest }))
      × AllMove ks'
      × (length ks ≤ length ks' + length object + 1)
unfolding receive_loop
receive_loop-receives [] object got rest all enough = absurd (omega arith)
receive_loop-receives (k ∷ ks) object got rest (pos, all) enough =
    elim (Bool-cases (length (drop k object) == 0)) [
      | inl last ↦ (
        ks,
        rw
            (
              take-min k object rest,
              drop-min k object rest,
              left_over k object,
              last,
              drop-none k object last,
              drop-empty k object last,
            )
            refl,
        all,
        omega arith,
      )
      | inr more ↦
          let (ks', e, all', n) =
            receive_loop-receives ks (drop k object) (got ++ take k object) rest all
              (ground (arith, length-drop k object)) in
          (
            ks',
            rw (take-min k object rest, drop-min k object rest, left_over k object, more)
                (e
                  ∙ ap (λ bs. some (record { calls = ks'; bytes = bs; stream = rest }))
                      (append_assoc got (take k object) (drop k object)
                        ∙ ap (λ r. got ++ r) (take-append-drop k object))),
            all',
            ground (arith, n, length-drop k object),
          )
    ]

receive_sized-object :
    (ks : List ℕ) (header object rest : Bytes) (buffer_size : ℕ) {ks' : List ℕ}
    → from_le header ≡ length object
    → receive_loop ks (length object) [] (object ++ rest)
      ≡ some (record { calls = ks'; bytes = object; stream = rest })
    → receive_sized buffer_size (record { calls = ks; bytes = header; stream = object ++ rest })
      ≡ some
          (if ltb buffer_size (length object) then (threw, object ++ rest) else (done object, rest))
unfolding receive_sized
receive_sized-object ks header object rest buffer_size v e =
    elim (Bool-cases (ltb buffer_size (length object))) [
      | inl big ↦ rw (v, big) refl
      | inr fits ↦ rw (v, fits, e) refl
    ]

-- What `sendObject` has sent, `receiveObject` gives back: while every call of `receive` moves at
-- least a byte, and the object fits the buffer, it returns exactly the object and leaves what follows
-- it; an object larger than the buffer makes it throw before a byte of the object is read.
pub receive_object-sent :
    (ks : List ℕ) (object rest : Bytes) (buffer_size : ℕ)
    → AllMove ks
    → length object + 10 ≤ length ks
    → length object < size_mod
    → receive_object ks buffer_size ((to_le size_bytes (length object) ++ object) ++ rest)
      ≡ some
          (if ltb buffer_size (length object) then (threw, object ++ rest) else (done object, rest))
unfolding receive_object
receive_object-sent ks object rest buffer_size all enough fits =
    let header : Bytes = to_le size_bytes (length object) in
    let l : length header ≡ size_bytes = length-to_le size_bytes (length object) in
    let v : from_le header ≡ length object = from_le-to_le size_bytes (length object) fits in
    let (k1, e1, all1, n1) =
      receive_loop-receives ks header [] (object ++ rest) all (omega (arith, l, enough)) in
    let (k2, e2, all2, n2) =
      receive_loop-receives k1 object [] rest all1 (omega (arith, l, enough, n1)) in
    ap (λ bs. and_then (receive_loop ks size_bytes [] bs) (receive_sized buffer_size))
      (append_assoc header object rest)
    ∙ ap (λ o. and_then o (receive_sized buffer_size))
        (subst
          (λ n.
            receive_loop ks n [] (header ++ (object ++ rest))
            ≡ some (record { calls = k1; bytes = header; stream = object ++ rest }))
          l e1)
    ∙ receive_sized-object k1 header object rest buffer_size v e2

-- While every call of `send` moves at least a byte, `sendObject` returns, and has sent the size of the
-- object in eight bytes and then the object. From these bytes `receiveObject`, while every call of
-- `receive` moves at least a byte, returns too: where the object fits the buffer, with exactly the
-- object, and leaves what follows it; on a larger object it throws before a byte of it is read.
pub object_is_transferred :
    (ks ls : List ℕ) (object rest : Bytes) (buffer_size : ℕ)
    → AllMove ks
    → AllMove ls
    → length object + 10 ≤ length ks
    → length object + 10 ≤ length ls
    → length object < size_mod
    → (ks' : List ℕ) × (sent : Bytes) × (send_object ks object ≡ some (ks', sent))
      × (sent ≡ to_le size_bytes (length object) ++ object)
      × (receive_object ls buffer_size (sent ++ rest)
          ≡ some (
              if ltb buffer_size (length object)
              then (threw, object ++ rest)
              else (done object, rest)))
object_is_transferred ks ls object rest buffer_size k l enough enough' fits =
    let (ks', e) = send_object-sends ks object k enough in
    (ks', _, e, refl, receive_object-sent ls object rest buffer_size l enough' fits)
