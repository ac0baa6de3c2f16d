-- ===== src/Transfer/TextLoops.antt =====
-- The loops of headers/dataTransfer/TextSender.h and TextReceiver.h.
use gicame.Prelude.{
  ℕ, suc, ◌+◌, ◌-◌, ◌≤◌, ◌<◌, ◌≡◌, refl, sym, ap, ◌∙◌, arith, true, false, ltb, some, List, [], ◌∷◌,
  ◌++◌, length, take, drop, Bool-cases, inl, inr, append_assoc, append-nil, length-take,
  length-drop, length-append, take-append, drop-append, take-all, drop-all, take-append-drop,
}
use gicame.Rpc.{Bytes}
use gicame.Transfer.{send_text_loop, store_at, receive_text_loop}
use gicame.Transfer.Objects.{AllMove, take-min, drop-min}

drop-beyond : (xs ys : Bytes) (n : ℕ) → drop (length xs + n) (xs ++ ys) ≡ drop n ys
drop-beyond [] ys n = ap (λ m. drop m ys) (omega arith)
drop-beyond (x ∷ xs) ys n =
    let next : suc (length xs) + n ≡ suc (length xs + n) = omega arith in
    ap (λ m. drop m (x ∷ (xs ++ ys))) next ∙ drop-beyond xs ys n

-- A call of `send` that does not end the loop.
send_text_loop-more :
    (k : ℕ) (ks : List ℕ) (left sent buffer : Bytes) (n : ℕ)
    → drop n buffer ≡ left
    → ltb (n + length (take k left)) (length buffer) ≡ true
    → send_text_loop (k ∷ ks) buffer n sent
      ≡ send_text_loop ks buffer (n + length (take k left)) (sent ++ take k left)
unfolding send_text_loop
send_text_loop-more k ks left sent buffer n part more = rw (part, more) refl

-- One that ends it.
send_text_loop-last :
    (k : ℕ) (ks : List ℕ) (left sent buffer : Bytes) (n : ℕ)
    → drop n buffer ≡ left
    → take k left ≡ left
    → n + length left ≡ length buffer
    → send_text_loop (k ∷ ks) buffer n sent ≡ some (ks, length buffer, sent ++ left)
unfolding send_text_loop
send_text_loop-last k ks left sent buffer n part whole ended =
    let last : ltb (length buffer) (length buffer) ≡ false = ground arith in
    rw (part, whole, ended, last) refl

-- One loop of the sender, of whose buffer `gone` is sent and `left` is not.
pub send_text_loop-sends :
    (ks : List ℕ) (gone left sent : Bytes) {buffer : Bytes} {n : ℕ}
    → buffer ≡ gone ++ left
    → n ≡ length gone
    → AllMove ks
    → length left < length ks
    → (ks' : List ℕ) × (send_text_loop ks buffer n sent ≡ some (ks', length buffer, sent ++ left))
      × AllMove ks'
      × (length ks ≤ length ks' + length left + 1)
send_text_loop-sends [] gone left sent b c all enough = absurd (omega arith)
send_text_loop-sends (k ∷ ks) gone left sent {buffer} {n} b c (pos, all) enough =
    let part : drop n buffer ≡ left = rw (c, b) (drop-append gone left) in
    let lb : length buffer ≡ length gone + length left = ap length b ∙ length-append gone left in
    elim (Bool-cases (ltb (n + length (take k left)) (length buffer))) [
      | inl more ↦
          let b' : buffer ≡ (gone ++ take k left) ++ drop k left =
            b
            ∙ sym (
                append_assoc gone (take k left) (drop k left)
                ∙ ap (λ r. gone ++ r) (take-append-drop k left)) in
          let (ks', e, all', m) =
            send_text_loop-sends ks (gone ++ take k left) (drop k left) (sent ++ take k left)
              {buffer = buffer} {n = n + length (take k left)} b'
              (omega (arith, c, length-append gone (take k left))) all
              (ground (arith, length-drop k left, length-take k left, lb, c, more)) in
          (
            ks',
            send_text_loop-more k ks left sent buffer n part more
                ∙ e
                ∙ ap (λ bs. some (ks', length buffer, bs))
                    (append_assoc sent (take k left) (drop k left)
                      ∙ ap (λ r. sent ++ r) (take-append-drop k left)),
            all',
            ground (arith, m, length-drop k left, length-take k left, lb, c, more),
          )
      | inr last ↦
          let full : length left ≤ k = ground (arith, length-take k left, lb, c, last) in
          let whole : take k left ≡ left = take-all k left full in
          let ended : n + length left ≡ length buffer = omega (arith, lb, c) in
          (ks, send_text_loop-last k ks left sent buffer n part whole ended, all, omega arith)
    ]

-- What the first `got` bytes of a string, and then the next ones, make of it.
store_at-append :
    (got now tail text : Bytes)
    → text ≡ got ++ tail
    → store_at (length got) now text ≡ (got ++ now) ++ drop (length now) tail
store_at-append got now tail text t =
    rw (t, take-append got tail, drop-beyond got tail (length now))
      (sym (append_assoc got now (drop (length now) tail)))

-- A call of `receive` that does not end the loop, and one that does.
receive_text_loop-more :
    (k : ℕ) (ks : List ℕ) (left rest text : Bytes) (size n : ℕ)
    → size - n ≡ length left
    → ltb (n + length (take k left)) size ≡ true
    → receive_text_loop (k ∷ ks) size n text (left ++ rest)
      ≡ receive_text_loop ks size
          (n + length (take k left))
          (store_at n (take k left) text)
          (drop k left ++ rest)
unfolding receive_text_loop
receive_text_loop-more k ks left rest text size n room more =
    rw (room, take-min k left rest, drop-min k left rest, more) refl

receive_text_loop-last :
    (k : ℕ) (ks : List ℕ) (left rest text : Bytes) (size n : ℕ)
    → size - n ≡ length left
    → ltb (n + length (take k left)) size ≡ false
    → receive_text_loop (k ∷ ks) size n text (left ++ rest)
      ≡ some (record {
        calls = ks;
        bytes = store_at n (take k left) text;
        stream = drop k left ++ rest;
      })
unfolding receive_text_loop
receive_text_loop-last k ks left rest text size n room last =
    rw (room, take-min k left rest, drop-min k left rest, last) refl

-- One loop of the receiver, which has stored `got` in its text and waits for `left`.
pub receive_text_loop-receives :
    (ks : List ℕ) (got left tail rest : Bytes) {size n : ℕ} {text : Bytes}
    → size ≡ length got + length left
    → n ≡ length got
    → text ≡ got ++ tail
    → length tail ≡ length left
    → AllMove ks
    → length left < length ks
    → (ks' : List ℕ) × (receive_text_loop ks size n text (left ++ rest)
        ≡ some (record { calls = ks'; bytes = got ++ left; stream = rest }))
      × AllMove ks'
      × (length ks ≤ length ks' + length left + 1)
receive_text_loop-receives [] got left tail rest z c t l all enough = absurd (omega arith)
receive_text_loop-receives (k ∷ ks) got left tail rest {size} {n} {text} z c t l (pos, all) enough =
    let room : size - n ≡ length left = omega (arith, z, c) in
    let stored : store_at n (take k left) text
        ≡ (got ++ take k left) ++ drop (length (take k left)) tail =
      ap (λ m. store_at m (take k left) text) c ∙ store_at-append got (take k left) tail text t in
    elim (Bool-cases (ltb (n + length (take k left)) size)) [
      | inl more ↦
          let (ks', e, all', m) =
            receive_text_loop-receives ks (got ++ take k left) (drop k left)
              (drop (length (take k left)) tail) rest {size = size} {n = n + length (take k left)}
              {text = store_at n (take k left) text}
              (omega
                (arith, z, length-append got (take k left), length-take k left, length-drop k left))
              (omega (arith, c, length-append got (take k left))) stored
              (omega (
                arith,
                l,
                length-take k left,
                length-drop k left,
                length-drop (length (take k left)) tail,
              ))
              all (ground (arith, length-drop k left, length-take k left, z, c, more)) in
          (
            ks',
            receive_text_loop-more k ks left rest text size n room more
                ∙ e
                ∙ ap (λ bs. some (record { calls = ks'; bytes = bs; stream = rest }))
                    (append_assoc got (take k left) (drop k left)
                      ∙ ap (λ r. got ++ r) (take-append-drop k left)),
            all',
            ground (arith, m, length-drop k left, length-take k left, z, c, more),
          )
      | inr last ↦
          let full : length left ≤ k = ground (arith, length-take k left, z, c, last) in
          let whole : take k left ≡ left = take-all k left full in
          let filled : store_at n (take k left) text ≡ got ++ left =
            stored
            ∙ ap (λ bs. (got ++ bs) ++ drop (length bs) tail) whole
            ∙ ap (λ bs. (got ++ left) ++ bs) (drop-all (length left) tail (omega (arith, l)))
            ∙ append-nil (got ++ left) in
          (
            ks,
            receive_text_loop-last k ks left rest text size n room last
                ∙ ap (λ bs. some (record { calls = ks; bytes = bs; stream = drop k left ++ rest }))
                    filled
                ∙ ap (λ bs. some (record { calls = ks; bytes = got ++ left; stream = bs ++ rest }))
                    (drop-all k left full),
            all,
            omega arith,
          )
    ]
