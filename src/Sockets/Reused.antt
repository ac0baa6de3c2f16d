-- ===== src/Sockets/Reused.antt =====
-- A `listenTo` that fails: the descriptor that it has closed stays in the object.
use gicame.Prelude.{
  ℕ, ◌<◌, ◌≡◌, ◌≢◌, refl, sym, ap, ◌∙◌, subst, arith, Bool, true, false, ◌&&◌, some, [], ◌∷◌,
}
use gicame.Sockets.{
  Family, TcpListeningSocket, listen_to, construct, bind_and_listen, TcpSocket, closed_listening,
}
use gicame.Sockets
use gicame.Sockets.World.{
  World, absent, tcp, listener, put, shut, shut_positive, opened, new_socket, listen_on,
  destroy_object, listen, close, create, step, run,
}

abbrev new_tcp : ℕ → Family → TcpSocket
new_tcp d family = record {
  sockfd = d;
  socket_status = Sockets.closed;
  sin_family = family;
  flag_reception_blocking = false;
}

listen-fails :
    (i d : ℕ) (l : TcpListeningSocket) (bind_ok listen_ok : Bool) (w : World)
    → l.listening ≡ false
    → (bind_ok && listen_ok) ≡ false
    → listen i (listener l) (some d) bind_ok listen_ok w
      ≡ put i (listener (record l { sockfd = d })) (shut d (opened (some d) w))
unfolding listen listen_to bind_and_listen
listen-fails i d l false listen_ok w off fails = rw off refl
listen-fails i d l true false w off fails = rw off refl
listen-fails i d l true true w off fails = cc

-- `listenTo` gets the descriptor `d` and fails in `bind` or `listen`; the kernel gives `d`, which is
-- free again, to a new socket; then the failed listening socket is destroyed. This closes the
-- descriptor of the new socket, which still holds it.
pub failed_listen_closes_other :
    (w : World) (i j d : ℕ) (l : TcpListeningSocket) (family : Family) (bind_ok listen_ok : Bool)
    → w.objects i ≡ listener l
    → l.listening ≡ false
    → w.objects j ≡ absent
    → 0 < d
    → (bind_ok && listen_ok) ≡ false
    → let w' =
        run
          (listen_on i (some d) bind_ok listen_ok
            ∷ new_socket j family (some d)
            ∷ destroy_object i
            ∷ [])
          w in
      (s : TcpSocket) × (w'.objects j ≡ tcp s) × (s.sockfd ≡ d) × (w'.is_open d ≡ false)
unfolding run step create construct close
failed_listen_closes_other w i j d l family bind_ok listen_ok at_i off at_j pos fails =
    subst Reused
      (sym (
        ap (run (new_socket j family (some d) ∷ destroy_object i ∷ [])) first
        ∙ ap (run (destroy_object i ∷ [])) second
        ∙ third))
      (new_tcp d family, ground arith, refl, ground arith)
  where
    apart : i ≢ j
    apart same = cc (at_i, at_j, ap w.objects same)

    Reused : World → Type 0
    Reused w' = (s : TcpSocket) × (w'.objects j ≡ tcp s) × (s.sockfd ≡ d) × (w'.is_open d ≡ false)

    w1 : World
    w1 = put i (listener (record l { sockfd = d })) (shut d (opened (some d) w))

    w2 : World
    w2 = put j (tcp (new_tcp d family)) (opened (some d) w1)

    w3 : World
    w3 =
        put i absent
          (put i (listener (closed_listening (record l { sockfd = d }))) (shut_positive d w2))

    first : step (listen_on i (some d) bind_ok listen_ok) w ≡ w1
    first =
        ap (λ o. listen i o (some d) bind_ok listen_ok w) at_i
        ∙ listen-fails i d l bind_ok listen_ok w off fails

    free : w1.objects j ≡ absent
    free = ground (arith, apart)

    second : step (new_socket j family (some d)) w1 ≡ w2
    second = ap (λ o. create j o family (some d) w1) free

    kept : w2.objects i ≡ listener (record l { sockfd = d })
    kept = ground (arith, apart)

    third : step (destroy_object i) w2 ≡ w3
    third = ap (λ o. put i absent (close i o w2)) kept
