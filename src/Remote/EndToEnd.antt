-- ===== src/Remote/EndToEnd.antt =====
-- A typed call from the client's lambda to the function that the server has registered, and back.
use gicame.Prelude.{
  ℕ, ◌^◌, ◌<◌, ◌≡◌, refl, sym, ap, ◌∙◌, arith, some, List, [], ◌∷◌, ◌++◌, length, take, take-all,
  append-nil, Outcome, done, ◌>>=◌, ◌==◌, if◌then◌else◌, true, Bool,
}
use gicame.Memory.{size_mod}
use gicame.Rpc.{
  Bytes, RpcServer, Exchanger, RpcFunction, max_param_count, dump, serialize, one_shot,
  register_rpc_function, send_exe_request, receive, send, RpcExecutionRequest,
}
use gicame.Rpc.Calls.{one_shot-built}
use gicame.Rpc.Format.{built, build-built}
use gicame.Streams.{memory_stream}
use gicame.Serializer.{CppType, void_type, fundamental, unsupported, Fits, from_buffer}
use gicame.Serializer.Laws.{
  bytes_of, length-bytes_of, to_bytes-Fits, from_buffer-bytes_of, serialized_size-Fits,
}
use gicame.Remote.{
  Arg, types, values, EvaluationOrder, left_to_right, evaluate, wrap, register_function, reply_size,
  to_reply, get_call, server_peer, build_args,
}
use gicame.Remote.Build.{AllFit, dumped, length-dumped, build_args-build}
use gicame.Remote.Arguments.{evaluate-left_to_right}

-- The bytes of a reply, a byte for `void`.
abbrev reply_of : CppType → ℕ → Bytes
reply_of void_type v = 0 ∷ []
reply_of t v = bytes_of t v

to_reply-reply_of : (ret : CppType) (v : ℕ) → Fits ret v → to_reply ret v ≡ done (reply_of ret v)
unfolding to_reply
to_reply-reply_of void_type v f = refl
to_reply-reply_of (fundamental w) v f = to_bytes-Fits (fundamental w) v f
to_reply-reply_of unsupported v f = absurd f

reply_size-reply_of :
    (ret : CppType) (v : ℕ) → Fits ret v → reply_size ret ≡ done (length (reply_of ret v))
unfolding reply_size
reply_size-reply_of void_type v f = refl
reply_size-reply_of (fundamental w) v f =
    serialized_size-Fits (fundamental w) v f ∙ ap done (sym (length-bytes_of (fundamental w) v))
reply_size-reply_of unsupported v f = absurd f

from_buffer-reply_of :
    (ret : CppType) (v : ℕ) → Fits ret v → from_buffer ret (reply_of ret v) ≡ done v
unfolding from_buffer
from_buffer-reply_of void_type v f = ap done (sym f)
from_buffer-reply_of (fundamental w) v f = from_buffer-bytes_of (fundamental w) v f
from_buffer-reply_of unsupported v f = absurd f

-- The client gets its result from a peer that answers with the reply.
get_call-reply :
    (function_id : ℕ) (ret : CppType) (args : List Arg) (v : ℕ) (peer : Bytes → Outcome Bytes)
    → length args < max_param_count
    → AllFit args
    → length (dump (dumped args)) < size_mod
    → Fits ret v
    → peer (serialize (built function_id (dumped args)) ++ dump (dumped args))
      ≡ done (reply_of ret v)
    → get_call function_id ret args peer ≡ done v
unfolding get_call send_exe_request receive send
get_call-reply function_id ret args v peer few fit small fits answered =
    let made : build_args function_id args
        ≡ done (built function_id (dumped args), dump (dumped args)) =
      build_args-build function_id args fit small
      ∙ build-built function_id (dumped args) (omega (arith, length-dumped args)) in
    let all : take (length (reply_of ret v)) (reply_of ret v) ≡ reply_of ret v =
      take-all (length (reply_of ret v)) (reply_of ret v) (omega arith) in
    rw (reply_size-reply_of ret v fits, made, answered, all) (from_buffer-reply_of ret v fits)

-- A round that has sent `result`, and what a round has sent.
abbrev one_round : Bytes → Outcome (Bool × Exchanger)
one_round result = done (true, record { incoming = []; sent = result })

abbrev sent_of : Outcome (Bool × Exchanger) → Outcome Bytes
sent_of o = o >>= λ bx. done ((bx.1).sent)

-- The server's answer to the bytes of a call, by the arguments that its function sees.
server_peer-registered :
    (s : RpcServer) (order : EvaluationOrder) (function_id : ℕ) (ret : CppType) (args : List Arg)
    (f : List ℕ → Outcome ℕ) (seen : List ℕ) (v : ℕ)
    → function_id < 256 ^ 4
    → length args < max_param_count
    → length (dump (dumped args)) < size_mod
    → evaluate order (types args) (memory_stream (dump (dumped args))) ≡ done seen
    → f seen ≡ done v
    → Fits ret v
    → server_peer
        (register_function order (types args) ret f function_id s)
        (serialize (built function_id (dumped args)) ++ dump (dumped args))
      ≡ done (reply_of ret v)
unfolding server_peer register_function register_rpc_function wrap
server_peer-registered s order function_id ret args f seen v id_fits few small evaluated called
      fits =
    let server : RpcServer = register_function order (types args) ret f function_id s in
    let g : RpcFunction = wrap order (types args) ret f in
    let r : RpcExecutionRequest = built function_id (dumped args) in
    let found : (if function_id == function_id then some g else s.fun_store function_id) ≡ some g =
      ground arith in
    let returned : g r (dump (dumped args)) ≡ done (reply_of ret v) =
      rw (evaluated, called) (to_reply-reply_of ret v fits) in
    ap (λ bs. one_shot server (record { incoming = bs; sent = [] }) >>= λ bx. done ((bx.1).sent))
      (ap (λ bs. serialize r ++ bs) (sym (append-nil (dump (dumped args)))))
    ∙ ap (λ o. o >>= λ bx. done ((bx.1).sent))
        (one_shot-built server function_id (dumped args) [] [] id_fits
          (omega (arith, length-dumped args)) small found)
    ∙ ap (λ (o : Outcome Bytes). sent_of (o >>= one_round)) returned

-- Where the compiler evaluates the arguments of a call from the left to the right, a remote call of up
-- to five fundamental arguments returns to the client what the function that the server has
-- registered returns on these very arguments, also `void`: sizes, streams, request, server round and
-- reply included.
pub remote_call_returns :
    (s : RpcServer) (function_id : ℕ) (ret : CppType) (args : List Arg) (f : List ℕ → Outcome ℕ)
    (v : ℕ)
    → function_id < 256 ^ 4
    → length args < max_param_count
    → AllFit args
    → length (dump (dumped args)) < size_mod
    → f (values args) ≡ done v
    → Fits ret v
    → get_call function_id ret args
        (server_peer (register_function left_to_right (types args) ret f function_id s))
      ≡ done v
remote_call_returns s function_id ret args f v id_fits few fit small called fits =
    get_call-reply function_id ret args v _ few fit small fits (
      server_peer-registered s left_to_right function_id ret args f (values args) v id_fits few
        small (evaluate-left_to_right args fit) called fits)
