-- ===== src/Sockets/Moves.antt =====
-- Every operation on a socket keeps the invariant of the descriptors.
use gicame.Prelude.{
  ℕ, ◌≡◌, refl, sym, ap, ◌∙◌, subst, arith, Bool, true, false, ◌==◌, if◌then◌else◌, Option, none,
  some, Outcome, done, threw, fault, Bool-cases, inl, inr, ◌⊎◌,
}
use gicame.Sockets
use gicame.Sockets.{
  TcpSocket, TcpListeningSocket, Family, Address, connect_to, send, receive, set_reception_blocking,
  closed_socket, closed_listening, listen_to, bind_and_listen, accept_request, from_sockfd,
  construct, construct_listening, moved_from, transferred, connected,
}
use gicame.Sockets.World.{
  World, Object, absent, tcp, listener, put, shut_positive, update, create, move_to, on_socket,
  create_listener, listen, listened, accept, made, close,
}
use gicame.Sockets.Owned.{fd_of, hand_over-IsOwned}
use gicame.Sockets.Valid.{
  Idle, IsValid, Fresh, Listens, Keeps, Idle-put, put-Keeps, acquire-Keeps, release-Keeps,
}

pub on_socket-Keeps :
    (i : ℕ) (f : TcpSocket → TcpSocket) (o : Object) (w : World)
    → IsValid w
    → w.objects i ≡ o
    → ((s : TcpSocket) → (f s).sockfd ≡ s.sockfd)
    → Keeps w (on_socket i f o w)
unfolding on_socket
on_socket-Keeps i f absent w v e same = (v, refl)
on_socket-Keeps i f (tcp s) w v e same = put-Keeps i (tcp (f s)) w v tt (same s ∙ sym (ap fd_of e))
on_socket-Keeps i f (listener l) w v e same = (v, refl)

pub made-Keeps :
    (i : ℕ) (o : Outcome TcpSocket) (answer : Option ℕ) (w : World)
    → IsValid w
    → Fresh answer w
    → fd_of (w.objects i) ≡ 0
    → ((s : TcpSocket) → o ≡ done s → answer ≡ some s.sockfd)
    → Keeps w (made i o answer w)
made-Keeps i threw answer w v fresh z d = (v, refl)
made-Keeps i fault answer w v fresh z d = (v, refl)
made-Keeps i (done s) none w v fresh z d = cc (d s refl)
made-Keeps i (done s) (some n) w v fresh z d =
    acquire-Keeps i n (tcp s) w v fresh tt z (ground (arith, d s refl))

pub create-Keeps :
    (i : ℕ) (o : Object) (family : Family) (answer : Option ℕ) (w : World)
    → IsValid w
    → w.objects i ≡ o
    → Fresh answer w
    → Keeps w (create i o family answer w)
unfolding create construct
create-Keeps i absent family none w v e fresh = (v, refl)
create-Keeps i absent family (some d) w v e fresh =
    acquire-Keeps i d _ w v fresh tt (ap fd_of e) refl
create-Keeps i (tcp s) family answer w v e fresh = (v, refl)
create-Keeps i (listener l) family answer w v e fresh = (v, refl)

pub accept-Keeps :
    (j : ℕ) (o o' : Object) (answer : Option ℕ) (w : World)
    → IsValid w
    → w.objects j ≡ o'
    → Fresh answer w
    → Keeps w (accept j o o' answer w)
unfolding accept accept_request from_sockfd
accept-Keeps j absent o' answer w v e fresh = (v, refl)
accept-Keeps j (tcp s) o' answer w v e fresh = (v, refl)
accept-Keeps j (listener l) absent none w v e fresh = (v, refl)
accept-Keeps j (listener l) absent (some d) w v e fresh =
    acquire-Keeps j d _ w v fresh tt (ap fd_of e) refl
accept-Keeps j (listener l) (tcp s) answer w v e fresh = (v, refl)
accept-Keeps j (listener l) (listener l') answer w v e fresh = (v, refl)

pub create_listener-Keeps :
    (i : ℕ) (o : Object) (family : Family) (w : World)
    → IsValid w
    → w.objects i ≡ o
    → Keeps w (create_listener i o family w)
unfolding create_listener construct_listening
create_listener-Keeps i absent family w v e = put-Keeps i _ w v (λ _. refl) (sym (ap fd_of e))
create_listener-Keeps i (tcp s) family w v e = (v, refl)
create_listener-Keeps i (listener l) family w v e = (v, refl)

pub move_to-Keeps :
    (i j : ℕ) (o o' : Object) (w : World)
    → IsValid w
    → w.objects i ≡ o
    → w.objects j ≡ o'
    → Keeps w (move_to i j o o' w)
unfolding move_to moved_from
move_to-Keeps i j absent o' w v e e' = (v, refl)
move_to-Keeps i j (listener l) o' w v e e' = (v, refl)
move_to-Keeps i j (tcp s) (tcp t) w v e e' = (v, refl)
move_to-Keeps i j (tcp s) (listener l) w v e e' = (v, refl)
move_to-Keeps i j (tcp s) absent w v e e' = (
  record {
    owned =
        hand_over-IsOwned i j (tcp s) (tcp (record s { sockfd = 0 })) w v.owned
          (λ same. cc (e, e', ap w.objects same)) (ap fd_of e') (sym (ap fd_of e)) refl;
    idle = λ k. idle_after k (Bool-cases (j == k));
  },
  refl,
)
  where
    idle_after :
        (k : ℕ)
        → (((j == k) ≡ true) ⊎ ((j == k) ≡ false))
        → Idle (update (update w.objects i (tcp (record s { sockfd = 0 }))) j (tcp s) k)
    idle_after k (inl at_j) = rw at_j tt
    idle_after k (inr other) = rw other (Idle-put i (tcp (record s { sockfd = 0 })) w tt v k)

pub listen-Keeps :
    (i : ℕ) (o : Object) (answer : Option ℕ) (bind_ok listen_ok : Bool) (w : World)
    → IsValid w
    → w.objects i ≡ o
    → Fresh answer w
    → Listens answer bind_ok listen_ok
    → Keeps w (listen i o answer bind_ok listen_ok w)
unfolding listen listen_to bind_and_listen
listen-Keeps i absent answer b l' w v e fresh ok = (v, refl)
listen-Keeps i (tcp s) answer b l' w v e fresh ok = (v, refl)
listen-Keeps i (listener l) answer b l' w v e fresh ok = by_flag l.listening refl
  where
    no_fd : l.listening ≡ false → l.sockfd ≡ 0
    no_fd off = ground (arith, v.idle i, e)

    from_answer :
        (a : Option ℕ)
        → l.listening ≡ false
        → Fresh a w
        → Listens a b l'
        → Keeps w (
            listened i
              (elim a [
                | none ↦ record {
                  result = threw;
                  socket = record l { sockfd = 0 };
                  opened = none;
                  shut = none;
                }
                | some d ↦ bind_and_listen b l' d l
              ])
              w)
    from_answer none off f k = put-Keeps i _ w v (λ _. refl) (ground (arith, no_fd off, e))
    from_answer (some d) off f (kb, kl) =
        rw (kb, kl)
          (acquire-Keeps i d (listener (record l { sockfd = d; listening = true })) w v f (λ on. cc)
            (ground (arith, no_fd off, e)) refl)

    by_flag :
        (f : Bool)
        → l.listening ≡ f
        → Keeps w (
            listened i
              (if f
                then record { result = threw; socket = l; opened = none; shut = none }
                else (elim answer [
                  | none ↦ record {
                    result = threw;
                    socket = record l { sockfd = 0 };
                    opened = none;
                    shut = none;
                  }
                  | some d ↦ bind_and_listen b l' d l
                ]))
              w)
    by_flag true on = put-Keeps i (listener l) w v (λ off. cc) (sym (ap fd_of e))
    by_flag false off = from_answer answer off fresh ok

pub close-Keeps :
    (i : ℕ) (o : Object) (w : World) → IsValid w → w.objects i ≡ o → Keeps w (close i o w)
unfolding close closed_socket closed_listening
close-Keeps i absent w v e = (v, refl)
close-Keeps i (tcp s) w v e =
    subst
      (λ d.
        Keeps w (
          put i (tcp (record s { sockfd = 0; socket_status = Sockets.closed }))
            (shut_positive d w)))
      (ap fd_of e)
      (release-Keeps i (tcp (record s { sockfd = 0; socket_status = Sockets.closed })) w v tt refl)
close-Keeps i (listener l) w v e =
    subst
      (λ d.
        Keeps w (put i (listener (record l { sockfd = 0; listening = false })) (shut_positive d w)))
      (ap fd_of e)
      (release-Keeps i (listener (record l { sockfd = 0; listening = false })) w v (λ _. refl) refl)
