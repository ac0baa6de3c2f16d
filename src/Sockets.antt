-- ===== src/Sockets.antt =====
-- src/network/TcpSocket.cpp and src/network/TcpListeningSocket.cpp, POSIX branch: the objects and the
-- descriptors that they hold. What the kernel answers to a call is an argument, `none` for a negative
-- descriptor or count; an operation returns its result beside the object as it leaves it, also where
-- it throws.
pub mod World
pub mod Owned
pub mod Valid
pub mod Moves
pub mod Runs
pub mod Reused
use gicame.Prelude.{
  ℕ, ◌+◌, ◌-◌, Bool, true, false, not, ◌&&◌, ◌==◌, ltb, if◌then◌else◌, Option, none, some, List,
  ◌++◌, drop, length, Outcome, done, threw,
}

pub data SocketStatus : Type 0 where
  connected closed ss_error : SocketStatus

pub data Family : Type 0 where
  af_inet af_inet6 : Family

-- `sockfd` is 0 where there is no descriptor.
pub record TcpSocket : Type 0 where
  pub sockfd : ℕ
  pub socket_status : SocketStatus
  pub sin_family : Family
  pub flag_reception_blocking : Bool

-- The overloads of `connectTo`, by the address that they take.
pub data Address : Type 0 where
  text_address ipv4_address ipv6_address : Address

abbrev pub int_max : ℕ
int_max = 2147483647

unfoldable pub is_status_connected : SocketStatus → Bool
is_status_connected connected = true
is_status_connected _ = false

-- `TcpSocket(ipv)`, by the answer of `socket`.
unfoldable pub construct : Family → Option ℕ → Outcome TcpSocket
construct family none = threw
construct family (some d) = done (record {
  sockfd = d;
  socket_status = closed;
  sin_family = family;
  flag_reception_blocking = false;
})

-- `fromSockfd`
unfoldable pub from_sockfd : Option ℕ → SocketStatus → Family → Outcome TcpSocket
from_sockfd none status family = threw
from_sockfd (some d) status family = done (record {
  sockfd = d;
  socket_status = status;
  sin_family = family;
  flag_reception_blocking = false;
})

-- What the move constructor leaves of its source.
unfoldable pub moved_from : TcpSocket → TcpSocket
moved_from s = record s { sockfd = 0 }

-- `isConnected`, by the test of the error code that `getsockopt` stores.
unfoldable pub is_connected : Bool → TcpSocket → Bool
unfolding is_status_connected
is_connected no_error s = is_status_connected s.socket_status && no_error

unfoldable pub accepts_address : Address → Family → Bool
accepts_address text_address family = true
accepts_address ipv4_address af_inet = true
accepts_address ipv4_address af_inet6 = false
accepts_address ipv6_address af_inet = false
accepts_address ipv6_address af_inet6 = true

-- `connectTo`, by the tests of the error code before and after, and whether `connect` returns 0.
unfoldable pub connect_to : Address → Bool → Bool → Bool → TcpSocket → Outcome Bool × TcpSocket
unfolding is_connected accepts_address
connect_to address no_error ok no_error' s =
    if is_connected no_error s
    then (threw, s)
    else if not (accepts_address address s.sin_family)
    then (threw, s)
    else (
      done (
          is_connected no_error' (record s { socket_status = if ok then connected else ss_error })),
      record s { socket_status = if ok then connected else ss_error },
    )

-- The end of `send` and `receive`: the count that the kernel answers.
unfoldable pub transferred : Option ℕ → TcpSocket → Outcome ℕ × TcpSocket
transferred none s = (threw, record s { socket_status = ss_error })
transferred (some n) s = (done n, s)

-- `send` and `receive`, which differ in the call of the kernel alone.
unfoldable pub send : ℕ → Bool → Option ℕ → TcpSocket → Outcome ℕ × TcpSocket
unfolding is_connected transferred
send size no_error answer s =
    if ltb int_max size
    then (threw, s)
    else if not (is_connected no_error s)
    then (threw, s)
    else transferred answer s

unfoldable pub receive : ℕ → Bool → Option ℕ → TcpSocket → Outcome ℕ × TcpSocket
unfolding is_connected transferred
receive size no_error answer s =
    if ltb int_max size
    then (threw, s)
    else if not (is_connected no_error s)
    then (threw, s)
    else transferred answer s

-- What `close` leaves of the object; it closes the descriptor if that is positive.
unfoldable pub closed_socket : TcpSocket → TcpSocket
closed_socket s = record s { sockfd = 0; socket_status = closed }

unfoldable pub set_reception_blocking : Bool → TcpSocket → TcpSocket
set_reception_blocking b s = record s { flag_reception_blocking = b }

-- `getPeerIPv4`, by the answer of `getpeername`.
unfoldable pub get_peer_ipv4 : Option ℕ → TcpSocket → Outcome ℕ
get_peer_ipv4 answer s = elim s.sin_family [
  | af_inet ↦ elim answer [ none ↦ threw | some address ↦ done address ]
  | af_inet6 ↦ threw
]

pub record TcpListeningSocket : Type 0 where
  pub sockfd : ℕ
  pub listening : Bool
  pub sin_family : Family

unfoldable pub construct_listening : Family → TcpListeningSocket
construct_listening family = record { sockfd = 0; listening = false; sin_family = family }

-- What `listenTo` ends in: it closes the descriptor `shut` again, if any.
pub record Listened : Type 0 where
  pub result : Outcome Bool
  pub socket : TcpListeningSocket
  pub opened : Option ℕ
  pub shut : Option ℕ

-- `listenTo` once `socket` has returned `d`.
unfoldable pub bind_and_listen : Bool → Bool → ℕ → TcpListeningSocket → Listened
bind_and_listen bind_ok listen_ok d s =
    if not bind_ok
    then record { result = threw; socket = record s { sockfd = d }; opened = some d; shut = some d }
    else if not listen_ok
    then record { result = threw; socket = record s { sockfd = d }; opened = some d; shut = some d }
    else record {
      result = done true;
      socket = record s { sockfd = d; listening = true };
      opened = some d;
      shut = none;
    }

-- `listenTo`; where `socket` fails, the descriptor that is stored is negative, so not positive.
unfoldable pub listen_to : Option ℕ → Bool → Bool → TcpListeningSocket → Listened
unfolding bind_and_listen
listen_to answer bind_ok listen_ok s =
    if s.listening
    then record { result = threw; socket = s; opened = none; shut = none }
    else (elim answer [
      | none ↦ record {
        result = threw;
        socket = record s { sockfd = 0 };
        opened = none;
        shut = none;
      }
      | some d ↦ bind_and_listen bind_ok listen_ok d s
    ])

-- `acceptRequest`, by the answer of `accept`.
unfoldable pub accept_request : Option ℕ → TcpListeningSocket → Outcome TcpSocket
unfolding from_sockfd
accept_request none s = threw
accept_request (some d) s = from_sockfd (some d) connected s.sin_family

unfoldable pub closed_listening : TcpListeningSocket → TcpListeningSocket
closed_listening s = record s { sockfd = 0; listening = false }

-- `getSockOptions`, by the bytes that getsockopt writes to the caller's value.
unfoldable pub get_sock_options : Option (List ℕ) → List ℕ → Bool × List ℕ
get_sock_options none out_value = (false, out_value)
get_sock_options (some bs) out_value = (true, bs ++ drop (length bs) out_value)

-- `setSockOptions`, by whether setsockopt returns 0.
unfoldable pub set_sock_options : Bool → TcpSocket → Bool × TcpSocket
set_sock_options ok s = (ok, s)
