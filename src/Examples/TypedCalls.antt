-- ===== src/Examples/TypedCalls.antt =====
-- A typed remote call at concrete inputs: a function that subtracts its second argument from its first.
use gicame.Prelude.{ℕ, ◌-◌, ◌≡◌, refl, arith, List, [], ◌∷◌, Outcome, done, threw}
use gicame.Rpc.{to_le, make_server}
use gicame.Serializer.{CppType, fundamental}
use gicame.Remote.{Arg, types, left_to_right, register_function, get_call, server_peer}
use gicame.Remote.Build.{AllFit}
use gicame.Remote.EndToEnd.{remote_call_returns}

abbrev uint16 : CppType
uint16 = fundamental 2

abbrev arguments : List Arg
arguments = record { type = uint16; value = 700 } ∷ record { type = uint16; value = 300 } ∷ []

abbrev subtract : List ℕ → Outcome ℕ
subtract (a ∷ b ∷ []) = done (a - b)
subtract _ = threw

abbrev second : List ℕ → Outcome ℕ
second (a ∷ b ∷ []) = done b
second _ = threw

arguments-AllFit : AllFit arguments
arguments-AllFit = (omega arith, (omega arith, tt))

remote_call_returns_example :
    get_call 7 uint16 arguments (
      server_peer (register_function left_to_right (types arguments) uint16 subtract 7 make_server))
    ≡ done 400
unfolding to_le
remote_call_returns_example =
    remote_call_returns make_server 7 uint16 arguments subtract 400 (omega arith) (omega arith)
      arguments-AllFit (omega arith) refl (omega arith)
