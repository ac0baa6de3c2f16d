-- ===== src/Rpc.antt =====
-- headers/rpc and src/rpc: the request that a client sends, and the server that serves it.
-- A data exchanger is the list of the bytes that its peer has sent and those sent to it; `receive`
-- returns fewer bytes than asked for only where the peer has sent no more, and the functions that a
-- server calls are parameters.
pub mod Words
pub mod Format
pub mod Calls
pub mod Runs
use gicame.Prelude.{
  ℕ, zero, suc, ◌+◌, ◌-◌, ◌*◌, ◌/◌, ◌%◌, ◌^◌, Bool, true, false, not, ◌&&◌, if◌then◌else◌, ◌==◌,
  ltb, Outcome, done, threw, fault, ◌>>=◌, Option, none, some, List, [], ◌∷◌, ◌++◌, length, take,
  drop, replicate,
}
use gicame.Memory.{add_size}

abbrev pub Bytes : Type 0
Bytes = List ℕ

-- The object representation of an unsigned integer of `n` bytes on a little-endian machine.
unfoldable pub to_le : ℕ → ℕ → Bytes
to_le zero x = []
to_le (suc n) x = (x % 256) ∷ to_le n (x / 256)

unfoldable pub from_le : Bytes → ℕ
from_le [] = 0
from_le (b ∷ bs) = b + 256 * from_le bs

-- `params` are the sizes of the `MAX_PARAM_COUNT` parameters.
pub record RpcExecutionRequest : Type 0 where
  pub magic : ℕ
  pub function_id : ℕ
  pub params : List ℕ
  pub param_count : ℕ

abbrev pub rer_magic : ℕ
rer_magic = 3735928559

abbrev pub max_param_count : ℕ
max_param_count = 6

-- `sizeof(RpcExecutionRequest)`, which is packed.
abbrev pub rer_size : ℕ
rer_size = 57

-- The constructor with a function and a count.
unfoldable pub make_rer : ℕ → ℕ → Outcome RpcExecutionRequest
make_rer function_id param_count =
    if ltb max_param_count param_count
    then threw
    else done (record {
      magic = rer_magic;
      function_id = function_id;
      params = replicate max_param_count 0;
      param_count = param_count;
    })

unfoldable pub check_integrity : RpcExecutionRequest → Bool
check_integrity r = (r.magic == rer_magic) && ltb r.param_count max_param_count

unfoldable pub write_words : List ℕ → Bytes
write_words [] = []
write_words (p ∷ ps) = to_le 8 p ++ write_words ps

unfoldable pub read_words : ℕ → Bytes → List ℕ
read_words zero bs = []
read_words (suc n) bs = from_le (take 8 bs) ∷ read_words n (drop 8 bs)

unfoldable pub serialize : RpcExecutionRequest → Bytes
serialize r =
    to_le 4 r.magic ++ (to_le 4 r.function_id ++ (write_words r.params ++ to_le 1 r.param_count))

unfoldable pub deserialize : Bytes → RpcExecutionRequest
deserialize bs = record {
  magic = from_le (take 4 bs);
  function_id = from_le (take 4 (drop 4 bs));
  params = read_words max_param_count (drop 8 bs);
  param_count = from_le (take 1 (drop 56 bs));
}

-- `rer.params[paramIndex].size = serBufferSizes[paramIndex]`, for each argument as it is serialized.
unfoldable pub set_params : List Bytes → List ℕ → List ℕ
set_params [] ps = ps
set_params (a ∷ args) [] = []
set_params (a ∷ args) (p ∷ ps) = length a ∷ set_params args ps

abbrev pub dump : List Bytes → Bytes
dump [] = []
dump (a ∷ args) = a ++ dump args

-- `RerBuilding::build`, on the arguments as they are serialized.
unfoldable pub build : ℕ → List Bytes → Outcome (RpcExecutionRequest × Bytes)
unfolding make_rer set_params
build function_id args = make_rer function_id (length args) >>= λ r.
    done (record r { params = set_params args r.params }, dump args)

-- A data exchanger.
pub record Exchanger : Type 0 where
  pub incoming : Bytes
  pub sent : Bytes

unfoldable pub receive : ℕ → Exchanger → Bytes × Exchanger
receive n x = (take n x.incoming, record x { incoming = drop n x.incoming })

unfoldable pub send : Bytes → Exchanger → Exchanger
send bs x = record x { sent = x.sent ++ bs }

-- `RpcClient::sendExeRequest`
unfoldable pub send_exe_request : RpcExecutionRequest → Bytes → ℕ → Exchanger → Bytes × Exchanger
unfolding serialize receive send
send_exe_request r params reply_size x = receive reply_size (send (serialize r ++ params) x)

pub data InvalidRequestReason : Type 0 where
  rer_integrity_check_failed invalid_function_id bad_parameters : InvalidRequestReason

abbrev pub RpcFunction : Type 0
RpcFunction = RpcExecutionRequest → Bytes → Outcome Bytes

-- The functions by their ids, and the handler of invalid requests.
pub record RpcServer : Type 0 where
  pub fun_store : ℕ → Option RpcFunction
  pub invalid_request_event_handler : RpcExecutionRequest → InvalidRequestReason → Outcome Bool

-- The constructor, with the default handler.
unfoldable pub make_server : RpcServer
make_server = record { fun_store = λ i. none; invalid_request_event_handler = λ r reason. threw }

unfoldable pub register_rpc_function : RpcFunction → ℕ → RpcServer → RpcServer
register_rpc_function f function_id s = record s {
  fun_store = λ i. if function_id == i then some f else s.fun_store i;
}

-- The loop that adds up the sizes, with `n` rounds left.
unfoldable pub total_size : ℕ → List ℕ → ℕ → ℕ
total_size zero ps total = total
total_size (suc n) [] total = total
total_size (suc n) (p ∷ ps) total = total_size n ps (add_size total p)

-- The invocation, and the sending of its result.
unfoldable pub invoke :
    RpcFunction → RpcExecutionRequest → Bytes → Exchanger → Outcome (Bool × Exchanger)
unfolding send
invoke f r params x = f r params >>= λ result. done (true, send result x)

abbrev pub refuse :
    RpcServer → RpcExecutionRequest → InvalidRequestReason → Exchanger → Outcome (Bool × Exchanger)
refuse s r reason x = s.invalid_request_event_handler r reason >>= λ b. done (b, x)

-- `oneShot` with what has been received of `total` bytes of parameters.
unfoldable pub invoke_with :
    RpcServer
    → RpcFunction
    → RpcExecutionRequest
    → ℕ
    → Bytes × Exchanger
    → Outcome (Bool × Exchanger)
unfolding invoke
invoke_with s f r total (params, x) =
    if length params == total then invoke f r params x else refuse s r bad_parameters x

-- `oneShot` once the function is found.
unfoldable pub receive_and_invoke :
    RpcServer → RpcFunction → RpcExecutionRequest → Exchanger → Outcome (Bool × Exchanger)
unfolding total_size receive invoke invoke_with
receive_and_invoke s f r x =
    let total : ℕ = total_size r.param_count r.params 0 in
    if ltb 0 total then invoke_with s f r total (receive total x) else invoke f r [] x

-- `oneShot` with an intact or a damaged request.
unfoldable pub serve : RpcServer → RpcExecutionRequest → Exchanger → Outcome (Bool × Exchanger)
unfolding check_integrity receive_and_invoke
serve s r x =
    if check_integrity r
    then (elim (s.fun_store r.function_id) [
      | none ↦ refuse s r invalid_function_id x
      | some f ↦ receive_and_invoke s f r x
    ])
    else refuse s r rer_integrity_check_failed x

-- `oneShot` with what has been received of the request.
unfoldable pub serve_received : RpcServer → Bytes × Exchanger → Outcome (Bool × Exchanger)
unfolding serve deserialize
serve_received s (bs, x) =
    if length bs == rer_size then serve s (deserialize bs) x else done (false, x)

unfoldable pub one_shot : RpcServer → Exchanger → Outcome (Bool × Exchanger)
unfolding receive serve_received
one_shot s x = serve_received s (receive rer_size x)

-- `run`, with the answers of `isConnected` in the order of the rounds; where they end it still runs.
unfoldable pub run : List Bool → RpcServer → Exchanger → Outcome Exchanger
unfolding one_shot
run [] s x = done x
run (false ∷ cs) s x = done x
run (true ∷ cs) s x = one_shot s x >>= λ bx. if bx.0 then run cs s (bx.1) else done (bx.1)
