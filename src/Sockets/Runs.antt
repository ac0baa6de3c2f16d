-- ===== src/Sockets/Runs.antt =====
-- Any operations on any number of sockets of a process.
use gicame.Prelude.{ℕ, ◌≡◌, refl, sym, ap, ◌∙◌, arith, Bool, true, ◌==◌, Option, List, [], ◌∷◌}
use gicame.Sockets.{
  TcpSocket, closed_socket, closed_listening, connect_to, send, receive, transferred, Address,
}
use gicame.Sockets.World.{
  World, Object, absent, tcp, listener, Event, new_socket, move_socket, connect_socket, send_on,
  receive_on, set_blocking, new_listener, listen_on, accept_from, close_object, destroy_object,
  close, step, run,
}
use gicame.Sockets.Owned.{fd_of}
use gicame.Sockets.Valid.{IsValid, Granted, AllGranted, Keeps, put-Keeps}
use gicame.Sockets.Moves.{
  on_socket-Keeps, create-Keeps, accept-Keeps, create_listener-Keeps, move_to-Keeps, listen-Keeps,
  close-Keeps,
}

connect_to-sockfd :
    (a : Address) (e ok e' : Bool) (s : TcpSocket) → ((connect_to a e ok e' s).1).sockfd ≡ s.sockfd
unfolding connect_to
connect_to-sockfd a e ok e' s = ground arith

send-sockfd :
    (n : ℕ) (e : Bool) (answer : Option ℕ) (s : TcpSocket)
    → ((send n e answer s).1).sockfd ≡ s.sockfd
unfolding send transferred
send-sockfd n e answer s = ground arith

receive-sockfd :
    (n : ℕ) (e : Bool) (answer : Option ℕ) (s : TcpSocket)
    → ((receive n e answer s).1).sockfd ≡ s.sockfd
unfolding receive transferred
receive-sockfd n e answer s = ground arith

fd_of-close :
    (i : ℕ) (o : Object) (w : World) → w.objects i ≡ o → fd_of ((close i o w).objects i) ≡ 0
unfolding close closed_socket closed_listening
fd_of-close i absent w e = ap fd_of e
fd_of-close i (tcp s) w e = let same : (i == i) ≡ true = ground arith in rw same refl
fd_of-close i (listener l) w e = let same : (i == i) ≡ true = ground arith in rw same refl

step-Keeps : (e : Event) (w : World) → Granted e w → IsValid w → Keeps w (step e w)
unfolding step
step-Keeps (new_socket i family answer) w g v =
    create-Keeps i (w.objects i) family answer w v refl g
step-Keeps (move_socket i j) w g v = move_to-Keeps i j (w.objects i) (w.objects j) w v refl refl
step-Keeps (connect_socket i a e ok e') w g v =
    on_socket-Keeps i _ (w.objects i) w v refl (connect_to-sockfd a e ok e')
step-Keeps (send_on i n e answer) w g v =
    on_socket-Keeps i _ (w.objects i) w v refl (send-sockfd n e answer)
step-Keeps (receive_on i n e answer) w g v =
    on_socket-Keeps i _ (w.objects i) w v refl (receive-sockfd n e answer)
step-Keeps (set_blocking i b) w g v = on_socket-Keeps i _ (w.objects i) w v refl (λ s. refl)
step-Keeps (new_listener i family) w g v = create_listener-Keeps i (w.objects i) family w v refl
step-Keeps (listen_on i answer b l) w (f, ok) v =
    listen-Keeps i (w.objects i) answer b l w v refl f ok
step-Keeps (accept_from i j answer) w g v =
    accept-Keeps j (w.objects i) (w.objects j) answer w v refl g
step-Keeps (close_object i) w g v = close-Keeps i (w.objects i) w v refl
step-Keeps (destroy_object i) w g v =
    let (v', closes) = close-Keeps i (w.objects i) w v refl in
    let (v'', closes') =
      put-Keeps i absent (close i (w.objects i) w) v' tt
        (sym (fd_of-close i (w.objects i) w refl)) in
    (v'', closes' ∙ closes)

-- While the kernel gives fresh positive descriptors, and no `listenTo` fails after it got one, every
-- sequence of operations on any sockets keeps the descriptors in order: each one that an object
-- holds is open, no two objects hold the same, each one open is held by an object, and the system's
-- `close` is never called on one that is not open.
pub run-Keeps : (es : List Event) (w : World) → AllGranted es w → IsValid w → Keeps w (run es w)
unfolding run
run-Keeps [] w g v = (v, refl)
run-Keeps (e ∷ es) w (g, gs) v =
    let (v', closes) = step-Keeps e w g v in
    let (v'', closes') = run-Keeps es (step e w) gs v' in (v'', closes' ∙ closes)
