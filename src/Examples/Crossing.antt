-- ===== src/Examples/Crossing.antt =====
-- A remote call over two rings of 80 cells, at concrete inputs.
use mathlib.Core.List.{flatten}
use gicame.Prelude.{
  length, ℕ, false, ◌≡◌, refl, arith, true, some, List, [], ◌∷◌, ◌++◌, done, replicate, ap, ◌∙◌,
  done-injective, >>=-eq-done,
}
use gicame.Ring.{
  Ring, circular_buffer_size, has_elems, has_free_space, chunk_size, first_part, next_index,
  circular_buffer_free_space, load_tail, load_head, write_first, write_rest, store_head, read_first,
  read_rest, store_tail,
}
use gicame.Memory.{copy_in, copy_out, splice}
use gicame.Ring.Inv.{IsValid}
use gicame.Ring.System.{
  next_push, next_pop, Policy, spin, Thread, producer_thread, consumer_thread, System, run, start,
  step,
}
use gicame.Rpc.{
  Bytes, RpcServer, RpcFunction, make_server, register_rpc_function, one_shot, serialize, to_le,
  write_words, set_params, total_size,
}
use gicame.Rpc.Format.{built}
use gicame.Adapter.{
  send_all, receive_all, receive_vectors, request_buffer, asked_sizes, call_over_queues, send,
  receive,
}

abbrev empty_ring : Ring
empty_ring = record {
  buffer = record { size = 80; cell = λ i. 0 };
  capacity = 80;
  head = 0;
  tail = 0;
  cached_head = 0;
  cached_tail = 0;
}

empty_ring-IsValid : IsValid empty_ring
unfolding circular_buffer_size
empty_ring-IsValid = omega arith

abbrev echo : RpcFunction
echo r params = done params

abbrev server : RpcServer
server = register_rpc_function echo 7 make_server

server-echo : server.fun_store 7 ≡ some echo
unfolding register_rpc_function
server-echo = refl

abbrev two_args : List Bytes
two_args = (1 ∷ 2 ∷ []) ∷ (3 ∷ []) ∷ []

abbrev request_bytes : Bytes
request_bytes = serialize (built 7 two_args)

abbrev pushing : List Thread
pushing = replicate 6 producer_thread

abbrev popping : List Thread
popping = replicate 7 consumer_thread

-- Between two calls of each thread, by the bytes written, the indices and the calls that are left.
abbrev between : (ℕ → ℕ) → ℕ → ℕ → ℕ → List Bytes → List ℕ → Bytes → System
between cell head tail seen calls requests received = record {
  ring = record {
    buffer = record { size = 80; cell = cell };
    capacity = 80;
    head = head;
    tail = tail;
    cached_head = seen;
    cached_tail = 0;
  };
  producer = next_push;
  pending = [];
  calls = calls;
  consumer = next_pop;
  remaining = 0;
  requests = requests;
  staged = [];
  received = received;
  data_present = false;
  data_free = false;
}

abbrev whole_buffer : Bytes
whole_buffer = request_buffer (built 7 two_args) (1 ∷ 2 ∷ 3 ∷ [])

abbrev with_both : ℕ → ℕ
with_both = splice (λ i. 0) 0 whole_buffer

pushed_both :
    run spin pushing (between (λ i. 0) 0 0 0 (whole_buffer ∷ []) (57 ∷ 3 ∷ []) [])
    ≡ done (between with_both 60 0 0 [] (57 ∷ 3 ∷ []) [])
unfolding start set_params run step has_elems has_free_space chunk_size first_part next_index
    circular_buffer_size circular_buffer_free_space load_tail load_head write_first write_rest
    store_head read_first read_rest store_tail copy_in copy_out send_all receive_all send receive
    request_buffer serialize to_le write_words
pushed_both = refl

popped_request :
    run spin popping (between with_both 60 0 0 [] (57 ∷ 3 ∷ []) [])
    ≡ done (between with_both 60 57 60 [] (3 ∷ []) request_bytes)
unfolding start set_params run step has_elems has_free_space chunk_size first_part next_index
    circular_buffer_size circular_buffer_free_space load_tail load_head write_first write_rest
    store_head read_first read_rest store_tail copy_in copy_out send_all receive_all send receive
    request_buffer serialize to_le write_words
popped_request = refl

popped_both :
    run spin popping (between with_both 60 57 60 [] (3 ∷ []) request_bytes)
    ≡ done (between with_both 60 60 60 [] [] whole_buffer)
unfolding start set_params run step has_elems has_free_space chunk_size first_part next_index
    circular_buffer_size circular_buffer_free_space load_tail load_head write_first write_rest
    store_head read_first read_rest store_tail copy_in copy_out send_all receive_all send receive
    request_buffer serialize to_le write_words
popped_both = refl

run_then :
    (p : Policy) (xs ys : List Thread) (s : System) {t : System}
    → run p xs s ≡ done t
    → run p (xs ++ ys) s ≡ run p ys t
unfolding run
run_then p [] ys s e = ap (run p ys) (done-injective e)
run_then p (x ∷ xs) ys s e =
    let (u, first, rest) = >>=-eq-done (step p x s) (run p xs) e in
    rw first (run_then p xs ys u rest)

abbrev schedule : List Thread
schedule = pushing ++ (popping ++ popping)

there_ran :
    run spin schedule (between (λ i. 0) 0 0 0 (whole_buffer ∷ []) (57 ∷ 3 ∷ []) [])
    ≡ done (between with_both 60 60 60 [] [] whole_buffer)
there_ran =
    run_then spin pushing _ _ pushed_both ∙ run_then spin popping _ _ popped_request ∙ popped_both

abbrev with_result : ℕ → ℕ
with_result = splice (λ i. 0) 0 (1 ∷ 2 ∷ 3 ∷ [])

pushed_result :
    run spin pushing (between (λ i. 0) 0 0 0 ((1 ∷ 2 ∷ 3 ∷ []) ∷ []) (3 ∷ []) [])
    ≡ done (between with_result 3 0 0 [] (3 ∷ []) [])
unfolding start set_params run step has_elems has_free_space chunk_size first_part next_index
    circular_buffer_size circular_buffer_free_space load_tail load_head write_first write_rest
    store_head read_first read_rest store_tail copy_in copy_out send_all receive_all send receive
    serialize to_le write_words
pushed_result = refl

popped_result :
    run spin popping (between with_result 3 0 0 [] (3 ∷ []) [])
    ≡ done (between with_result 3 3 3 [] [] (1 ∷ 2 ∷ 3 ∷ []))
unfolding start set_params run step has_elems has_free_space chunk_size first_part next_index
    circular_buffer_size circular_buffer_free_space load_tail load_head write_first write_rest
    store_head read_first read_rest store_tail copy_in copy_out send_all receive_all send receive
    serialize to_le write_words
popped_result = refl

back_ran :
    run spin (pushing ++ popping) (between (λ i. 0) 0 0 0 ((1 ∷ 2 ∷ 3 ∷ []) ∷ []) (3 ∷ []) [])
    ≡ done (between with_result 3 3 3 [] [] (1 ∷ 2 ∷ 3 ∷ []))
back_ran = run_then spin pushing popping _ pushed_result ∙ popped_result

abbrev there_end : System
there_end = between with_both 60 60 60 [] [] whole_buffer

abbrev back_end : System
back_end = between with_result 3 3 3 [] [] (1 ∷ 2 ∷ 3 ∷ [])

call_over_queues_example :
    (one_shot server (record {
      incoming = flatten (receive_vectors (asked_sizes (built 7 two_args)) there_end.received);
      sent = [];
    })
      ≡ done (true, record { incoming = []; sent = 1 ∷ 2 ∷ 3 ∷ [] }))
    × (receive_vectors (3 ∷ []) back_end.received ≡ (1 ∷ 2 ∷ 3 ∷ []) ∷ [])
    × ((send whole_buffer).1 ≡ length there_end.received)
    × ((send (1 ∷ 2 ∷ 3 ∷ [])).1 ≡ length back_end.received)
unfolding start send_all receive_all send receive request_buffer asked_sizes total_size serialize
    set_params to_le write_words circular_buffer_size
call_over_queues_example =
    call_over_queues spin spin schedule (pushing ++ popping) empty_ring empty_ring server 7 two_args
      {f = echo} {result = 1 ∷ 2 ∷ 3 ∷ []} {a = there_end} {b = back_end} empty_ring-IsValid
      empty_ring-IsValid refl refl (omega arith) (omega arith) (omega arith) server-echo refl
      there_ran refl refl back_ran refl refl
