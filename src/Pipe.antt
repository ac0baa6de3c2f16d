-- ===== src/Pipe.antt =====
-- src/os/NamedPipe.cpp, POSIX branch, and the transfer of objects (headers/dataTransfer) over a pipe.
-- What the kernel answers is an argument: `none` where a call fails.
pub mod Life
pub mod Lost
use gicame.Prelude.{
  ℕ, ◌+◌, ◌-◌, Bool, true, false, ltb, if◌then◌else◌, Option, none, some, List, [], ◌∷◌, ◌++◌,
  length, Outcome, done, threw, fault,
}
use gicame.Memory.{size_mod, add_size}
use gicame.Rpc.{Bytes, from_le}
use gicame.Transfer.{and_then}

pub data State : Type 0 where
  disconnected created connected : State

-- `fd` is `none` for -1.
pub record NamedPipe : Type 0 where
  pub fd : Option ℕ
  pub state : State

unfoldable pub make_pipe : NamedPipe
make_pipe = record { fd = none; state = disconnected }

-- `close`: the object, and the descriptor that it gives back.
unfoldable pub close : NamedPipe → NamedPipe × Option ℕ
close p = (record { fd = none; state = disconnected }, p.fd)

-- `create`, by whether `mkfifo` succeeds.
unfoldable pub create : Bool → NamedPipe → Bool × NamedPipe
unfolding close
create ok p = if ok then (true, record p { state = created }) else (false, (close p).0)

-- `open` of a pipe that is not connected.
unfoldable pub open_unconnected : Option ℕ → NamedPipe → Bool × NamedPipe
unfolding close
open_unconnected none p = (false, (close (record p { fd = none })).0)
open_unconnected (some d) p = (true, record { fd = some d; state = connected })

unfoldable pub open_pipe : Option ℕ → NamedPipe → Bool × NamedPipe
unfolding open_unconnected
open_pipe answer p = elim p.state [ connected ↦ (true, p) | _ ↦ open_unconnected answer p ]

-- `~size_t(0)`, which `send` and `receive` return for a failure.
abbrev pub no_count : ℕ
no_count = size_mod - 1

-- `send` on a connected pipe, by what `write` returns.
unfoldable pub write_to : Option ℕ → NamedPipe → Outcome ℕ × NamedPipe
unfolding close
write_to none p = (done no_count, (close p).0)
write_to (some n) p = (done n, p)

unfoldable pub send : Option ℕ → NamedPipe → Outcome ℕ × NamedPipe
unfolding write_to
send answer p = elim p.state [ connected ↦ write_to answer p | _ ↦ (threw, p) ]

unfoldable pub is_sender_connected : NamedPipe → Bool
is_sender_connected p = elim p.state [ connected ↦ true | _ ↦ false ]

-- `receive` on a connected pipe, by what `read` stores: the count, and the bytes.
unfoldable pub read_from : Option Bytes → NamedPipe → Outcome (ℕ × Bytes) × NamedPipe
unfolding close
read_from none p = (done (no_count, []), (close p).0)
read_from (some bs) p = (done (length bs, bs), p)

unfoldable pub receive : Option Bytes → NamedPipe → Outcome (ℕ × Bytes) × NamedPipe
unfolding read_from
receive answer p = elim p.state [ connected ↦ read_from answer p | _ ↦ (threw, p) ]

unfoldable pub unlink : NamedPipe → Outcome NamedPipe
unfolding close
unlink p = elim p.state [ connected ↦ threw | disconnected ↦ done p | created ↦ done (close p).0 ]

-- A loop of `sendObject` over a pipe, `n` bytes to send and `sent` counted so far; the answers are
-- those to the calls of `write`, and `none` says that it still runs when they end.
unfoldable pub send_loop : List (Option ℕ) → ℕ → ℕ → NamedPipe → Option (Outcome ℕ × NamedPipe)
unfolding send
send_loop [] n sent p = none
send_loop (a ∷ answers) n sent p = elim (send a p).0 [
  | threw ↦ some (threw, (send a p).1)
  | fault ↦ some (fault, (send a p).1)
  | done c ↦
      let rest = send_loop answers n (add_size sent c) (send a p).1 in
      if ltb (add_size sent c) n then rest else some (done (add_size sent c), (send a p).1)
]

-- What follows the loop that sends the size.
unfoldable pub send_body :
    List (Option ℕ) → ℕ → Outcome ℕ × NamedPipe → Option (Outcome ℕ × NamedPipe)
unfolding send_loop
send_body answers size (done c, p) = send_loop answers size 0 p
send_body answers size (threw, p) = some (threw, p)
send_body answers size (fault, p) = some (fault, p)

-- `sendObject` over a pipe, with the answers in each of its loops.
unfoldable pub send_object :
    List (Option ℕ) → List (Option ℕ) → ℕ → NamedPipe → Option (Outcome ℕ × NamedPipe)
unfolding send_loop send_body
send_object header_answers answers size p =
    and_then (send_loop header_answers 8 0 p) (send_body answers size)

-- A loop of `receiveObject` over a pipe: the count so far, and the bytes that the buffer has got.
unfoldable pub receive_loop :
    List (Option Bytes) → ℕ → ℕ → Bytes → NamedPipe → Option (Outcome Bytes × NamedPipe)
unfolding receive
receive_loop [] n count got p = none
receive_loop (a ∷ answers) n count got p = elim (receive a p).0 [
  | threw ↦ some (threw, (receive a p).1)
  | fault ↦ some (fault, (receive a p).1)
  | done cb ↦
      let rest = receive_loop answers n (add_size count (cb.0)) (got ++ cb.1) (receive a p).1 in
      if ltb (add_size count (cb.0)) n then rest else some (done (got ++ cb.1), (receive a p).1)
]

-- What follows the loop that receives the size: with fewer than its eight bytes, the size is read
-- before it is set.
unfoldable pub receive_body :
    List (Option Bytes) → ℕ → Outcome Bytes × NamedPipe → Option (Outcome Bytes × NamedPipe)
unfolding receive_loop
receive_body answers buffer_size (done header, p) =
    if ltb (length header) 8
    then some (fault, p)
    else if ltb buffer_size (from_le header)
    then some (threw, p)
    else receive_loop answers (from_le header) 0 [] p
receive_body answers buffer_size (threw, p) = some (threw, p)
receive_body answers buffer_size (fault, p) = some (fault, p)

-- `receiveObject` over a pipe into a buffer of `buffer_size` bytes: what the buffer has got.
unfoldable pub receive_object :
    List (Option Bytes) → List (Option Bytes) → ℕ → NamedPipe → Option (Outcome Bytes × NamedPipe)
unfolding receive_loop receive_body
receive_object header_answers answers buffer_size p =
    and_then (receive_loop header_answers 8 0 [] p) (receive_body answers buffer_size)
