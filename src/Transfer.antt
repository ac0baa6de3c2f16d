-- ===== src/Transfer.antt =====
-- headers/dataTransfer: objects and texts behind their sizes, over a sender and a receiver that may
-- move fewer bytes than asked for. How many bytes each call would move is a
-- list; `none` says that the loop still runs when the list ends.
pub mod Objects
pub mod TextLoops
pub mod Texts
use gicame.Prelude.{
  ℕ, ◌+◌, ◌-◌, Bool, true, false, ◌==◌, ltb, if◌then◌else◌, Option, none, some, List, [], ◌∷◌, ◌++◌,
  length, take, drop, min, replicate, Outcome, done, threw,
}
use gicame.Rpc.{Bytes, to_le, from_le}

abbrev pub and_then {ℓ κ} : {A : Type ℓ} {B : Type κ} → Option A → (A → Option B) → Option B
and_then none f = none
and_then (some a) f = f a

-- A loop of `sendObject`: the bytes left to send, and those sent.
unfoldable pub send_loop : List ℕ → Bytes → Bytes → Option (List ℕ × Bytes)
send_loop [] left sent = none
send_loop (k ∷ ks) left sent =
    let next = send_loop ks (drop k left) (sent ++ take k left) in
    if length (drop k left) == 0 then some (ks, sent ++ take k left) else next

abbrev pub size_bytes : ℕ
size_bytes = 8

unfoldable pub send_object : List ℕ → Bytes → Option (List ℕ × Bytes)
unfolding send_loop to_le
send_object ks object =
    and_then (send_loop ks (to_le size_bytes (length object)) [])
      (λ r. send_loop (r.0) object (r.1))

-- What a loop of the receiver ends in.
pub record Received : Type 0 where
  pub calls : List ℕ
  pub bytes : Bytes
  pub stream : Bytes

-- A loop of `receiveObject`, that still wants `n` bytes.
unfoldable pub receive_loop : List ℕ → ℕ → Bytes → Bytes → Option Received
receive_loop [] n got stream = none
receive_loop (k ∷ ks) n got stream =
    let now : Bytes = take (min k n) stream in
    let next = receive_loop ks (n - length now) (got ++ now) (drop (min k n) stream) in
    if n - length now == 0
    then some (record { calls = ks; bytes = got ++ now; stream = drop (min k n) stream })
    else next

-- `receiveObject` once the size is received, into a buffer of `buffer_size` bytes: the object, or an
-- exception, and what is left of the stream.
unfoldable pub receive_sized : ℕ → Received → Option (Outcome Bytes × Bytes)
unfolding receive_loop from_le
receive_sized buffer_size h =
    if ltb buffer_size (from_le h.bytes)
    then some (threw, h.stream)
    else and_then (receive_loop h.calls (from_le h.bytes) [] h.stream)
        (λ r. some (done r.bytes, r.stream))

unfoldable pub receive_object : List ℕ → ℕ → Bytes → Option (Outcome Bytes × Bytes)
unfolding receive_loop receive_sized
receive_object ks buffer_size stream =
    and_then (receive_loop ks size_bytes [] stream) (receive_sized buffer_size)

-- TextSender.h: a loop of `sendText` over a buffer of which `n` bytes are sent, and what has been sent in
-- all. It ends in the calls that are left, the count of the loop and what has been sent.
unfoldable pub send_text_loop : List ℕ → Bytes → ℕ → Bytes → Option (List ℕ × ℕ × Bytes)
send_text_loop [] buffer n sent = none
send_text_loop (k ∷ ks) buffer n sent =
    let now : Bytes = take k (drop n buffer) in
    let next = send_text_loop ks buffer (n + length now) (sent ++ now) in
    if ltb (n + length now) (length buffer) then next else some (ks, n + length now, sent ++ now)

-- What follows the loop that sends the size.
unfoldable pub send_text_body : Bytes → List ℕ × ℕ × Bytes → Option (List ℕ × ℕ × Bytes)
unfolding send_text_loop
send_text_body text (ks, n, sent) = send_text_loop ks text 0 sent

-- `sendText`, which returns the count of its second loop.
unfoldable pub send_text : List ℕ → Bytes → Option (List ℕ × ℕ × Bytes)
unfolding send_text_loop send_text_body to_le
send_text ks text =
    and_then (send_text_loop ks (to_le size_bytes (length text)) 0 []) (send_text_body text)

-- Bytes stored from the offset `n` on.
abbrev pub store_at : ℕ → Bytes → Bytes → Bytes
store_at n now text = take n text ++ (now ++ drop (n + length now) text)

-- TextReceiver.h: a loop of `receiveText`, that has stored `n` of `size` bytes in `text`.
unfoldable pub receive_text_loop : List ℕ → ℕ → ℕ → Bytes → Bytes → Option Received
receive_text_loop [] size n text stream = none
receive_text_loop (k ∷ ks) size n text stream =
    let asked : ℕ = min k (size - n) in
    let now : Bytes = take asked stream in
    let next =
      receive_text_loop ks size (n + length now) (store_at n now text) (drop asked stream) in
    if ltb (n + length now) size
    then next
    else some (record { calls = ks; bytes = store_at n now text; stream = drop asked stream })

-- `receiveText` once the size is received: a string of so many '\0's is filled.
unfoldable pub receive_text_sized : ℕ → Received → Option (Outcome Bytes × Bytes)
unfolding receive_text_loop from_le
receive_text_sized max_text_size h =
    let size : ℕ = from_le h.bytes in
    if ltb max_text_size size
    then some (threw, h.stream)
    else and_then (receive_text_loop h.calls size 0 (replicate size 0) h.stream)
        (λ r. some (done r.bytes, r.stream))

-- `receiveText`; `memory` is what the variable for the size holds at first.
unfoldable pub receive_text : Bytes → List ℕ → ℕ → Bytes → Option (Outcome Bytes × Bytes)
unfolding receive_text_loop receive_text_sized
receive_text memory ks max_text_size stream =
    and_then (receive_text_loop ks size_bytes 0 memory stream) (receive_text_sized max_text_size)
