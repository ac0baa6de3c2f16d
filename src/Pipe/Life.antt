-- ===== src/Pipe/Life.antt =====
-- What the state of a pipe says of its descriptor (src/os/NamedPipe.cpp), over any calls.
use gicame.Prelude.{
  ℕ, ◌≢◌, refl, Bool, true, false, Option, none, some, List, [], ◌∷◌, Outcome, done,
}
use gicame.Rpc.{Bytes}
use gicame.Pipe.{
  NamedPipe, State, disconnected, created, connected, close, create, open_pipe, open_unconnected,
  send, write_to, receive, read_from, unlink,
}

-- The calls, with the answers of the kernel.
pub data Call : Type 0 where
  create_call : Bool → Call
  open_call : Option ℕ → Call
  send_call : Option ℕ → Call
  receive_call : Option Bytes → Call
  close_call : Call
  unlink_call : Call

-- The object that is left by `unlink`, also where it throws.
abbrev pub left_by : NamedPipe → Outcome NamedPipe → NamedPipe
left_by p (done p') = p'
left_by p _ = p

unfoldable pub step : Call → NamedPipe → NamedPipe
unfolding create open_pipe open_unconnected send write_to receive read_from close unlink
step (create_call ok) p = (create ok p).1
step (open_call answer) p = (open_pipe answer p).1
step (send_call answer) p = (send answer p).1
step (receive_call answer) p = (receive answer p).1
step close_call p = (close p).0
step unlink_call p = left_by p (unlink p)

unfoldable pub run : List Call → NamedPipe → NamedPipe
unfolding step
run [] p = p
run (c ∷ cs) p = run cs (step c p)

abbrev pub Agree : State → Option ℕ → Type 0
Agree connected (some d) = Unit
Agree connected none = ⊥
Agree _ none = Unit
Agree _ (some d) = ⊥

-- `create` is not called on a pipe that is connected.
abbrev pub Allowed : List Call → NamedPipe → Type 0
Allowed [] p = Unit
Allowed (create_call ok ∷ cs) p = (p.state ≢ connected) × Allowed cs (step (create_call ok) p)
Allowed (c ∷ cs) p = Allowed cs (step c p)

step-Agree :
    (c : Call) (s : State) (fd : Option ℕ)
    → Agree s fd
    → Allowed (c ∷ []) (record { fd = fd; state = s })
    → let p = step c (record { fd = fd; state = s }) in Agree p.state p.fd
unfolding step
step-Agree (create_call true) connected fd v (a, _) = absurd (a refl)
step-Agree (create_call true) disconnected none v a = tt
step-Agree (create_call true) disconnected (some d) v a = v
step-Agree (create_call true) created none v a = tt
step-Agree (create_call true) created (some d) v a = v
step-Agree (create_call false) s fd v a = tt
step-Agree (open_call none) connected fd v a = v
step-Agree (open_call none) disconnected fd v a = tt
step-Agree (open_call none) created fd v a = tt
step-Agree (open_call (some d)) connected fd v a = v
step-Agree (open_call (some d)) disconnected fd v a = tt
step-Agree (open_call (some d)) created fd v a = tt
step-Agree (send_call none) connected fd v a = tt
step-Agree (send_call (some n)) connected fd v a = v
step-Agree (send_call answer) disconnected fd v a = v
step-Agree (send_call answer) created fd v a = v
step-Agree (receive_call none) connected fd v a = tt
step-Agree (receive_call (some n)) connected fd v a = v
step-Agree (receive_call answer) disconnected fd v a = v
step-Agree (receive_call answer) created fd v a = v
step-Agree close_call s fd v a = tt
step-Agree unlink_call connected fd v a = v
step-Agree unlink_call disconnected fd v a = v
step-Agree unlink_call created fd v a = tt

Allowed-head :
    (c : Call) (cs : List Call) (p : NamedPipe)
    → Allowed (c ∷ cs) p
    → Allowed (c ∷ []) p × Allowed cs (step c p)
Allowed-head (create_call ok) cs p (a, as') = ((a, tt), as')
Allowed-head (open_call answer) cs p a = (tt, a)
Allowed-head (send_call answer) cs p a = (tt, a)
Allowed-head (receive_call answer) cs p a = (tt, a)
Allowed-head close_call cs p a = (tt, a)
Allowed-head unlink_call cs p a = (tt, a)

-- Over any calls, while `create` is not called on a connected pipe, the pipe has a descriptor exactly
-- while it is connected.
pub run-Agree :
    (cs : List Call) (p : NamedPipe)
    → Allowed cs p
    → Agree p.state p.fd
    → Agree (run cs p).state (run cs p).fd
unfolding run
run-Agree [] p a v = v
run-Agree (c ∷ cs) p a v =
    let (a', as') = Allowed-head c cs p a in
    run-Agree cs (step c p) as' (step-Agree c p.state p.fd v a')
