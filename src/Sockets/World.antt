-- ===== src/Sockets/World.antt =====
-- Any number of sockets and listening sockets of a process, by numbers, and the descriptors that the
-- kernel holds for them.
use gicame.Prelude.{
  ℕ, ◌+◌, Bool, true, false, ◌==◌, ltb, if◌then◌else◌, Option, none, some, List, [], ◌∷◌, Outcome,
  done,
}
use gicame.Sockets.{
  TcpSocket, TcpListeningSocket, Family, Address, construct, moved_from, connect_to, send, receive,
  closed_socket, set_reception_blocking, construct_listening, listen_to, Listened, accept_request,
  closed_listening,
}

pub data Object : Type 0 where
  absent : Object
  tcp : TcpSocket → Object
  listener : TcpListeningSocket → Object

-- `is_open` are the descriptors that the kernel holds; `bad_closes` counts the calls of the system's
-- `close` on a descriptor that is not open.
pub record World : Type 0 where
  pub objects : ℕ → Object
  pub is_open : ℕ → Bool
  pub bad_closes : ℕ

abbrev pub update {ℓ} : {A : Type ℓ} → (ℕ → A) → ℕ → A → ℕ → A
update f i a j = if i == j then a else f j

abbrev pub put : ℕ → Object → World → World
put i o w = record w { objects = update w.objects i o }

abbrev pub opened : Option ℕ → World → World
opened none w = w
opened (some d) w = record w { is_open = update w.is_open d true }

-- `::close(d)`
abbrev pub shut : ℕ → World → World
shut d w = record w {
  is_open = update w.is_open d false;
  bad_closes = if w.is_open d then w.bad_closes else w.bad_closes + 1;
}

abbrev pub shut_if : Option ℕ → World → World
shut_if none w = w
shut_if (some d) w = shut d w

-- `if (sockfd > 0) ::close(sockfd)`
abbrev pub shut_positive : ℕ → World → World
shut_positive d w = if ltb 0 d then shut d w else w

-- The operations, with what the kernel answers to each. A constructor makes the object with the
-- first number; `move_socket i j` makes `j` of `i`, and `accept_from i j` makes `j`.
pub data Event : Type 0 where
  new_socket : ℕ → Family → Option ℕ → Event
  move_socket : ℕ → ℕ → Event
  connect_socket : ℕ → Address → Bool → Bool → Bool → Event
  send_on : ℕ → ℕ → Bool → Option ℕ → Event
  receive_on : ℕ → ℕ → Bool → Option ℕ → Event
  set_blocking : ℕ → Bool → Event
  new_listener : ℕ → Family → Event
  listen_on : ℕ → Option ℕ → Bool → Bool → Event
  accept_from : ℕ → ℕ → Option ℕ → Event
  close_object : ℕ → Event
  destroy_object : ℕ → Event

abbrev pub made : ℕ → Outcome TcpSocket → Option ℕ → World → World
made i (done s) answer w = put i (tcp s) (opened answer w)
made i _ answer w = w

unfoldable pub create : ℕ → Object → Family → Option ℕ → World → World
create i absent family answer w = made i (construct family answer) answer w
create i _ family answer w = w

unfoldable pub move_to : ℕ → ℕ → Object → Object → World → World
move_to i j (tcp s) absent w = put j (tcp s) (put i (tcp (moved_from s)) w)
move_to i j _ _ w = w

unfoldable pub on_socket : ℕ → (TcpSocket → TcpSocket) → Object → World → World
on_socket i f (tcp s) w = put i (tcp (f s)) w
on_socket i f _ w = w

unfoldable pub create_listener : ℕ → Object → Family → World → World
create_listener i absent family w = put i (listener (construct_listening family)) w
create_listener i _ family w = w

abbrev pub listened : ℕ → Listened → World → World
listened i l w = put i (listener l.socket) (shut_if l.shut (opened l.opened w))

unfoldable pub listen : ℕ → Object → Option ℕ → Bool → Bool → World → World
listen i (listener l) answer bind_ok listen_ok w =
    listened i (listen_to answer bind_ok listen_ok l) w
listen i _ answer bind_ok listen_ok w = w

unfoldable pub accept : ℕ → Object → Object → Option ℕ → World → World
accept j (listener l) absent answer w = made j (accept_request answer l) answer w
accept j _ _ answer w = w

unfoldable pub close : ℕ → Object → World → World
close i absent w = w
close i (tcp s) w = put i (tcp (closed_socket s)) (shut_positive s.sockfd w)
close i (listener l) w = put i (listener (closed_listening l)) (shut_positive l.sockfd w)

unfoldable pub step : Event → World → World
unfolding create construct move_to moved_from on_socket connect_to send receive
    set_reception_blocking create_listener construct_listening listen listen_to accept
    accept_request close closed_socket closed_listening
step (new_socket i family answer) w = create i (w.objects i) family answer w
step (move_socket i j) w = move_to i j (w.objects i) (w.objects j) w
step (connect_socket i address e ok e') w =
    on_socket i (λ s. (connect_to address e ok e' s).1) (w.objects i) w
step (send_on i size e answer) w = on_socket i (λ s. (send size e answer s).1) (w.objects i) w
step (receive_on i size e answer) w = on_socket i (λ s. (receive size e answer s).1) (w.objects i) w
step (set_blocking i b) w = on_socket i (set_reception_blocking b) (w.objects i) w
step (new_listener i family) w = create_listener i (w.objects i) family w
step (listen_on i answer bind_ok listen_ok) w = listen i (w.objects i) answer bind_ok listen_ok w
step (accept_from i j answer) w = accept j (w.objects i) (w.objects j) answer w
step (close_object i) w = close i (w.objects i) w
step (destroy_object i) w = put i absent (close i (w.objects i) w)

unfoldable pub run : List Event → World → World
unfolding step
run [] w = w
run (e ∷ es) w = run es (step e w)
