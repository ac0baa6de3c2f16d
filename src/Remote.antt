-- ===== src/Remote.antt =====
-- The typed ends of a remote call: headers/rpc/RerBuilding.h, RpcServer::registerFunctionInternal of
-- headers/rpc/RpcServer.h and RpcClient::get of headers/rpc/RpcClient.h.
pub mod Build
pub mod Arguments
pub mod EndToEnd
use gicame.Prelude.{
  ℕ, zero, suc, ◌+◌, ◌==◌, Bool, true, false, if◌then◌else◌, List, [], ◌∷◌, ◌++◌, length, take,
  replicate, reverse, Outcome, done, threw, ◌>>=◌,
}
use gicame.Memory.{add_size}
use gicame.Rpc.{
  Bytes, RpcExecutionRequest, make_rer, serialize, send_exe_request, Exchanger, RpcServer,
  RpcFunction, register_rpc_function, one_shot,
}
use gicame.Streams.{MemoryStream, memory_stream}
use gicame.Serializer.{
  CppType, void_type, fundamental, unsupported, serialized_size, to_stream, to_bytes, from_stream,
  from_buffer,
}

-- An argument, with its type.
pub record Arg : Type 0 where
  pub type : CppType
  pub value : ℕ

abbrev pub types : List Arg → List CppType
types [] = []
types (a ∷ args) = a.type ∷ types args

abbrev pub values : List Arg → List ℕ
values [] = []
values (a ∷ args) = a.value ∷ values args

-- `{ serializer.serializedSize(args)... }`
unfoldable pub arg_sizes : List Arg → Outcome (List ℕ)
arg_sizes [] = done []
arg_sizes (a ∷ args) = serialized_size a.type >>= λ n. arg_sizes args >>= λ ns. done (n ∷ ns)

-- The loop over the sizes: they go to `rer.params`, and are added up.
unfoldable pub put_sizes : List ℕ → List ℕ → List ℕ
put_sizes [] ps = ps
put_sizes (n ∷ ns) [] = []
put_sizes (n ∷ ns) (p ∷ ps) = n ∷ put_sizes ns ps

unfoldable pub sum_sizes : List ℕ → ℕ → ℕ
sum_sizes [] total = total
sum_sizes (n ∷ ns) total = sum_sizes ns (add_size total n)

-- `serializer.serialize(args, memoryOStream)...`, from the left to the right.
unfoldable pub write_args : List Arg → MemoryStream → Outcome MemoryStream
write_args [] out = done out
write_args (a ∷ args) out = to_stream a.type a.value out >>= λ s. write_args args s

-- `build` of at least one argument, the sizes known.
unfoldable pub build_sized :
    RpcExecutionRequest → List Arg → List ℕ → Outcome (RpcExecutionRequest × Bytes)
unfolding put_sizes sum_sizes write_args memory_stream
build_sized r args sizes =
    write_args args (memory_stream (replicate (sum_sizes sizes 0) 0)) >>= λ out.
    done (record r { params = put_sizes sizes r.params }, out.buf.buffer)

-- `build` of the arguments
unfoldable pub build_args : ℕ → List Arg → Outcome (RpcExecutionRequest × Bytes)
unfolding make_rer arg_sizes build_sized
build_args function_id args = make_rer function_id (length args) >>= λ r.
    if length args == 0 then done (r, []) else arg_sizes args >>= build_sized r args

-- The order in which a compiler evaluates the arguments of a call, which C++ leaves open.
pub data EvaluationOrder : Type 0 where
  left_to_right right_to_left : EvaluationOrder

unfoldable pub read_args : List CppType → MemoryStream → Outcome (List ℕ)
read_args [] s = done []
read_args (t ∷ ts) s = from_stream t s >>= λ vs. read_args ts (vs.1) >>= λ rest. done (vs.0 ∷ rest)

-- `serializer.deserialize<Args>(memoryIStream)...`, the arguments of a call.
unfoldable pub evaluate : EvaluationOrder → List CppType → MemoryStream → Outcome (List ℕ)
unfolding read_args
evaluate left_to_right ts s = read_args ts s
evaluate right_to_left ts s = read_args (reverse ts) s >>= λ vs. done (reverse vs)

-- The value that the function returns, for the reply.
unfoldable pub to_reply : CppType → ℕ → Outcome Bytes
to_reply void_type v = done (0 ∷ [])
to_reply (fundamental w) v = to_bytes (fundamental w) v
to_reply unsupported v = to_bytes unsupported v

-- The lambda of `registerFunctionInternal`.
unfoldable pub wrap : EvaluationOrder → List CppType → CppType → (List ℕ → Outcome ℕ) → RpcFunction
unfolding evaluate to_reply memory_stream
wrap order ts ret f r params =
    evaluate order ts (memory_stream params) >>= λ vs. f vs >>= λ v. to_reply ret v

-- `registerFunction`
unfoldable pub register_function :
    EvaluationOrder → List CppType → CppType → (List ℕ → Outcome ℕ) → ℕ → RpcServer → RpcServer
unfolding wrap register_rpc_function
register_function order ts ret f function_id s =
    register_rpc_function (wrap order ts ret f) function_id s

-- `replySize`
unfoldable pub reply_size : CppType → Outcome ℕ
reply_size void_type = done 1
reply_size (fundamental w) = serialized_size (fundamental w)
reply_size unsupported = serialized_size unsupported

-- The client's exchanger, whose peer answers `answer` to what is sent.
abbrev pub answering : Bytes → Exchanger
answering answer = record { incoming = answer; sent = [] }

-- The lambda of `get`, on an exchanger whose peer answers to the request by `peer`.
unfoldable pub get_call : ℕ → CppType → List Arg → (Bytes → Outcome Bytes) → Outcome ℕ
unfolding build_args reply_size serialize send_exe_request
get_call function_id ret args peer = reply_size ret >>= λ n. build_args function_id args >>= λ rd.
    peer (serialize (rd.0) ++ rd.1) >>= λ answer.
    from_buffer ret ((send_exe_request (rd.0) (rd.1) n (answering answer)).0)

-- What a server sends in one round on a request.
unfoldable pub server_peer : RpcServer → Bytes → Outcome Bytes
unfolding one_shot
server_peer s request =
    one_shot s (record { incoming = request; sent = [] }) >>= λ bx. done ((bx.1).sent)
