-- ===== src/Examples/Network.antt =====
-- Sockets and pipes at concrete inputs.
use gicame.Prelude.{
  ◌≡◌, ◌↔◌, ◌&&◌, ◌++◌, replicate, false, ◌==◌, if◌then◌else◌, refl, arith, true, none, some, List,
  [], ◌∷◌, done, threw,
}
use gicame.Addresses.{
  Word, word_eq, netmask, match_subnet, get_subnet, broadcast_address, is_broadcast_address,
}
use gicame.Addresses.Subnets.{one_broadcast_address}
use gicame.Sockets.{
  TcpSocket, af_inet, af_inet6, construct, construct_listening, listen_to, bind_and_listen,
  accept_request, from_sockfd, closed_socket, closed_listening, moved_from,
}
use gicame.Sockets.World.{
  World, absent, tcp, listener, step, create, move_to, create_listener, listen, accept, close,
  Event, new_socket, move_socket, new_listener, listen_on, accept_from, close_object,
  destroy_object, run,
}
use gicame.Sockets.Valid.{IsValid, AllGranted, Keeps}
use gicame.Sockets.Runs.{run-Keeps}
use gicame.Sockets.Reused.{failed_listen_closes_other}
use gicame.Rpc.{to_le}
use gicame.Pipe.{receive_object}
use gicame.Pipe.Lost.{open_on, shut, failed_read_is_lost}

-- No socket yet.
abbrev empty : World
empty = record { objects = λ i. absent; is_open = λ d. false; bad_closes = 0 }

empty-IsValid : IsValid empty
empty-IsValid = record {
  owned = record {
    held = λ i p. absurd (omega arith);
    unique = λ i j p e. absurd (omega arith);
    counted = λ d p. cc;
  };
  idle = λ i. tt;
}

abbrev events : List Event
events =
    new_socket 0 af_inet (some 3)
    ∷ move_socket 0 1
    ∷ new_listener 2 af_inet6
    ∷ listen_on 2 (some 4) true true
    ∷ accept_from 2 3 (some 5)
    ∷ close_object 1
    ∷ destroy_object 1
    ∷ []

events-AllGranted : AllGranted events empty
unfolding step create construct move_to moved_from create_listener construct_listening listen
    listen_to bind_and_listen accept accept_request from_sockfd close closed_socket closed_listening
events-AllGranted = (
  (omega arith, refl),
  (tt, (tt, (((omega arith, refl), (refl, refl)), ((omega arith, refl), (tt, (tt, tt)))))),
)

run-Keeps_example : Keeps empty (run events empty)
run-Keeps_example = run-Keeps events empty events-AllGranted empty-IsValid

-- One listening socket.
abbrev one_listener : World
one_listener = record {
  objects = λ i. if i == 0 then listener (construct_listening af_inet) else absent;
  is_open = λ d. false;
  bad_closes = 0;
}

failed_listen_closes_other_example :
    let w' =
      run
        (listen_on 0 (some 3) false true ∷ new_socket 1 af_inet (some 3) ∷ destroy_object 0 ∷ [])
        one_listener in
    (s : TcpSocket) × (w'.objects 1 ≡ tcp s) × (s.sockfd ≡ 3) × (w'.is_open 3 ≡ false)
unfolding construct_listening
failed_listen_closes_other_example =
    failed_listen_closes_other one_listener 0 1 3 (construct_listening af_inet) af_inet false true
      refl refl refl (omega arith) refl

failed_read_is_lost_example :
    (receive_object (some (to_le 8 3) ∷ []) (none ∷ []) 10 (open_on 4) ≡ some (done [], shut))
    × (receive_object
          (some (to_le 8 3) ∷ [])
          (some (7 ∷ []) ∷ some (8 ∷ []) ∷ none ∷ none ∷ [])
          10
          (open_on 4)
        ≡ some (threw, shut))
failed_read_is_lost_example =
    failed_read_is_lost 4 3 10 ((7 ∷ []) ∷ (8 ∷ []) ∷ []) none [] (omega arith) (omega arith)
      (omega arith) (omega arith) (omega arith)

-- 192.168.1.7 and 192.168.1.9, in the subnet of NETMASK_24BIT.
abbrev octet_192 : Word
octet_192 = replicate 6 false ++ replicate 2 true

abbrev octet_168 : Word
octet_168 = replicate 3 false ++ (true ∷ false ∷ true ∷ false ∷ true ∷ [])

abbrev prefix : Word
prefix = octet_192 ++ (octet_168 ++ (true ∷ replicate 7 false))

abbrev seven : Word
seven = prefix ++ (replicate 3 true ++ replicate 5 false)

abbrev nine : Word
nine = prefix ++ (true ∷ false ∷ false ∷ true ∷ replicate 4 false)

one_broadcast_address_example :
    ((match_subnet nine (netmask 24) seven && is_broadcast_address (netmask 24) seven)
      ≡ word_eq seven (broadcast_address (netmask 24) nine))
    × (match_subnet (get_subnet (netmask 24) seven) (netmask 24) seven ≡ true)
    × ((match_subnet nine (netmask 24) seven ≡ true)
        ↔ (get_subnet (netmask 24) seven ≡ get_subnet (netmask 24) nine))
unfolding netmask
one_broadcast_address_example = one_broadcast_address seven nine (netmask 24) refl refl
