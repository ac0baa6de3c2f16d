-- ===== src/Transfer/Texts.antt =====
-- A text that `sendText` sends arrives, however the calls below split its bytes.
use gicame.Prelude.{
  ℕ, ◌+◌, ◌≤◌, ◌<◌, ◌≡◌, refl, sym, ap, ◌∙◌, arith, ltb, if◌then◌else◌, some, List, [], ◌++◌,
  length, replicate, Bool-cases, inl, inr, done, threw, append_assoc, length-replicate,
}
use gicame.Memory.{size_mod}
use gicame.Rpc.{Bytes, to_le, from_le}
use gicame.Rpc.Words.{length-to_le, from_le-to_le}
use gicame.Transfer.{
  size_bytes, and_then, send_text_body, send_text, receive_text_loop, receive_text_sized,
  receive_text,
}
use gicame.Transfer.Objects.{AllMove}
use gicame.Transfer.TextLoops.{send_text_loop-sends, receive_text_loop-receives}

receive_text_sized-text :
    (ks : List ℕ) (header text rest : Bytes) (max_text_size : ℕ) {ks' : List ℕ}
    → from_le header ≡ length text
    → receive_text_loop ks (length text) 0 (replicate (length text) 0) (text ++ rest)
      ≡ some (record { calls = ks'; bytes = text; stream = rest })
    → receive_text_sized max_text_size
        (record { calls = ks; bytes = header; stream = text ++ rest })
      ≡ some (if ltb max_text_size (length text) then (threw, text ++ rest) else (done text, rest))
unfolding receive_text_sized
receive_text_sized-text ks header text rest max_text_size v e =
    elim (Bool-cases (ltb max_text_size (length text))) [
      | inl big ↦ rw (v, big) refl
      | inr allowed ↦ rw (v, allowed, e) refl
    ]

receive_text-sent :
    (memory : Bytes) (ks : List ℕ) (text rest : Bytes) (max_text_size : ℕ)
    → length memory ≡ size_bytes
    → AllMove ks
    → length text + 10 ≤ length ks
    → length text < size_mod
    → receive_text memory ks max_text_size ((to_le size_bytes (length text) ++ text) ++ rest)
      ≡ some (if ltb max_text_size (length text) then (threw, text ++ rest) else (done text, rest))
unfolding receive_text
receive_text-sent memory ks text rest max_text_size m all enough fits =
    let header : Bytes = to_le size_bytes (length text) in
    let l : length header ≡ size_bytes = length-to_le size_bytes (length text) in
    let v : from_le header ≡ length text = from_le-to_le size_bytes (length text) fits in
    let (k1, e1, all1, n1) =
      receive_text_loop-receives ks [] header memory (text ++ rest) {size = size_bytes} {n = 0}
        {text = memory} (omega (arith, l)) refl refl (m ∙ sym l) all (omega (arith, l, enough)) in
    let (k2, e2, all2, n2) =
      receive_text_loop-receives k1 [] text (replicate (length text) 0) rest {size = length text}
        {n = 0} {text = replicate (length text) 0} (omega arith) refl refl
        (length-replicate (length text) 0) all1 (omega (arith, l, enough, n1)) in
    ap
      (λ bs.
        and_then (receive_text_loop ks size_bytes 0 memory bs) (receive_text_sized max_text_size))
      (append_assoc header text rest)
    ∙ ap (λ o. and_then o (receive_text_sized max_text_size)) e1
    ∙ receive_text_sized-text k1 header text rest max_text_size v e2

-- Of a text of less than 2 ^ 64 bytes. While every call below moves at least a byte, however the calls on
-- both sides split the bytes, `sendText` and `receiveText` return after at most ten calls more than the
-- text has bytes, whatever the variable for the size holds at first: `sendText` with the number of bytes of the text, having sent its size in
-- eight bytes and then the text; from these bytes `receiveText` fills a string of that size with
-- exactly the text, and leaves what follows it, or it throws, before a byte of the text is read, where
-- the text is larger than it allows.
pub text_arrives :
    (memory : Bytes) (ks ls : List ℕ) (text rest : Bytes) (max_text_size : ℕ)
    → length memory ≡ size_bytes
    → AllMove ks
    → AllMove ls
    → length text + 10 ≤ length ks
    → length text + 10 ≤ length ls
    → length text < size_mod
    → (ks' : List ℕ) × (sent : Bytes) × (send_text ks text ≡ some (ks', length text, sent))
      × (sent ≡ to_le size_bytes (length text) ++ text)
      × (receive_text memory ls max_text_size (sent ++ rest)
          ≡ some (
              if ltb max_text_size (length text) then (threw, text ++ rest) else (done text, rest)))
unfolding send_text send_text_body
text_arrives memory ks ls text rest max_text_size m all all' enough enough' fits =
    let header : Bytes = to_le size_bytes (length text) in
    let l : length header ≡ size_bytes = length-to_le size_bytes (length text) in
    let (k1, e1, all1, n1) =
      send_text_loop-sends ks [] header [] {buffer = header} {n = 0} refl refl all
        (omega (arith, l, enough)) in
    let (k2, e2, all2, n2) =
      send_text_loop-sends k1 [] text header {buffer = text} {n = 0} refl refl all1
        (omega (arith, l, enough, n1)) in
    (
      k2,
      header ++ text,
      ap (λ o. and_then o (send_text_body text)) e1 ∙ e2,
      refl,
      receive_text-sent memory ls text rest max_text_size m all' enough' fits,
    )
