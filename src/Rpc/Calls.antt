-- ===== src/Rpc/Calls.antt =====
-- A call from the client to the server (src/rpc/RpcClient.cpp, src/rpc/RpcServer.cpp).
use gicame.Prelude.{
  ℕ, ◌^◌, ◌<◌, ◌≡◌, refl, sym, ap, ◌∙◌, arith, Bool, true, false, some, List, [], ◌∷◌, ◌++◌, length,
  done, ◌>>=◌, ltb, ◌==◌, if◌then◌else◌,
}
use gicame.Memory.{size_mod}
use gicame.Rpc.{
  Bytes, RpcExecutionRequest, rer_size, max_param_count, serialize, build, dump, check_integrity,
  total_size, Exchanger, receive, send, RpcServer, RpcFunction, one_shot, serve, receive_and_invoke,
  serve_received, invoke_with, invoke, refuse, rer_integrity_check_failed,
}
use gicame.Rpc.Words.{take-at, drop-at}
use gicame.Rpc.Format.{
  IsRer, built, built-IsRer, build-built, total_size-built, length-serialize, deserialize-serialize,
}

if-true {ℓ} : {A : Type ℓ} {b : Bool} (x y : A) → b ≡ true → (if b then x else y) ≡ x
if-true x y e = rw e refl

-- What waits for the server when a request, its parameters and then `rest` have been sent to it.
abbrev pub arrived : RpcExecutionRequest → Bytes → Bytes → Bytes → Exchanger
arrived r params rest sent = record { incoming = serialize r ++ (params ++ rest); sent = sent }

receive-append :
    {n : ℕ} (bs rest sent : Bytes)
    → length bs ≡ n
    → receive n (record { incoming = bs ++ rest; sent = sent })
      ≡ (bs, record { incoming = rest; sent = sent })
unfolding receive
receive-append bs rest sent n = rw (take-at bs rest n, drop-at bs rest n) refl

one_shot-serve :
    (s : RpcServer) (r : RpcExecutionRequest) (bs sent : Bytes)
    → IsRer r
    → one_shot s (record { incoming = serialize r ++ bs; sent = sent })
      ≡ serve s r (record { incoming = bs; sent = sent })
unfolding one_shot serve_received
one_shot-serve s r bs sent v =
    let n : length (serialize r) ≡ rer_size = length-serialize r v.six in
    let whole : (length (serialize r) == rer_size) ≡ true = ground (arith, n) in
    ap (serve_received s) (receive-append (serialize r) bs sent n)
    ∙ if-true _ _ whole
    ∙ ap (λ q. serve s q (record { incoming = bs; sent = sent })) (deserialize-serialize r v)

receive_and_invoke-params :
    (s : RpcServer) (f : RpcFunction) (r : RpcExecutionRequest) (params rest sent : Bytes)
    → total_size r.param_count r.params 0 ≡ length params
    → receive_and_invoke s f r (record { incoming = params ++ rest; sent = sent })
      ≡ invoke f r params (record { incoming = rest; sent = sent })
unfolding receive_and_invoke invoke_with
receive_and_invoke-params s f r [] rest sent e = rw e refl
receive_and_invoke-params s f r (p ∷ ps) rest sent e =
    let some_bytes : ltb 0 (total_size r.param_count r.params 0) ≡ true = ground (arith, e) in
    let whole : (length (p ∷ ps) == total_size r.param_count r.params 0) ≡ true =
      ground (arith, e) in
    if-true _ _ some_bytes
    ∙ ap (invoke_with s f r _) (receive-append (p ∷ ps) rest sent (sym e))
    ∙ if-true _ _ whole

serve-registered :
    (s : RpcServer) (function_id : ℕ) (args : List Bytes) (x : Exchanger) {f : RpcFunction}
    → length args < max_param_count
    → s.fun_store function_id ≡ some f
    → serve s (built function_id args) x ≡ receive_and_invoke s f (built function_id args) x
unfolding serve check_integrity
serve-registered s function_id args x few found =
    let c : ltb (length args) 6 ≡ true = ground arith in rw (c, found) refl

serve-refuse :
    (s : RpcServer) (function_id : ℕ) (args : List Bytes) (x : Exchanger)
    → length args ≡ max_param_count
    → serve s (built function_id args) x
      ≡ refuse s (built function_id args) rer_integrity_check_failed x
unfolding serve check_integrity
serve-refuse s function_id args x six =
    let c : ltb (length args) 6 ≡ false = ground arith in rw c refl

pub one_shot-built :
    (s : RpcServer) (function_id : ℕ) (args : List Bytes) (rest sent : Bytes) {f : RpcFunction}
    → function_id < 256 ^ 4
    → length args < max_param_count
    → length (dump args) < size_mod
    → s.fun_store function_id ≡ some f
    → one_shot s (arrived (built function_id args) (dump args) rest sent) ≡ (
        f (built function_id args) (dump args) >>= λ result.
        done (true, record { incoming = rest; sent = sent ++ result }))
unfolding invoke send
one_shot-built s function_id args rest sent {f} id_fits few fits found =
    one_shot-serve s (built function_id args) (dump args ++ rest) sent
      (built-IsRer function_id args id_fits (omega arith) fits)
    ∙ serve-registered s function_id args _ few found
    ∙ receive_and_invoke-params s f (built function_id args) (dump args) rest sent
        (total_size-built function_id args (omega arith) fits)

-- A call of up to five arguments arrives: the server finds the function by its id, hands it the
-- request and exactly the bytes of all arguments, leaves what the peer has sent after them, and sends
-- exactly what the function returns; where the function throws, so does the server.
pub call_is_served :
    (s : RpcServer) (function_id : ℕ) (args : List Bytes) (rest sent : Bytes) {f : RpcFunction}
    → function_id < 256 ^ 4
    → length args < max_param_count
    → length (dump args) < size_mod
    → s.fun_store function_id ≡ some f
    → (r : RpcExecutionRequest) × (build function_id args ≡ done (r, dump args))
      × (r.function_id ≡ function_id)
      × (one_shot s (arrived r (dump args) rest sent) ≡ (
          f r (dump args) >>= λ result.
          done (true, record { incoming = rest; sent = sent ++ result })))
call_is_served s function_id args rest sent id_fits few fits found = (
  built function_id args,
  build-built function_id args (omega arith),
  refl,
  one_shot-built s function_id args rest sent id_fits few fits found,
)

-- A call of six arguments, which `build` and the constructor of the request allow, is refused by every
-- server whatever functions it has: its integrity check asks for fewer than six, so the handler of
-- invalid requests decides, and the bytes of the arguments are left in the stream.
pub six_arguments_refused :
    (s : RpcServer) (function_id : ℕ) (args : List Bytes) (rest sent : Bytes)
    → function_id < 256 ^ 4
    → length args ≡ max_param_count
    → length (dump args) < size_mod
    → (r : RpcExecutionRequest) × (build function_id args ≡ done (r, dump args))
      × (one_shot s (arrived r (dump args) rest sent) ≡ (
          s.invalid_request_event_handler r rer_integrity_check_failed >>= λ b.
          done (b, record { incoming = dump args ++ rest; sent = sent })))
six_arguments_refused s function_id args rest sent id_fits six fits =
    let r : RpcExecutionRequest = built function_id args in
    (
      r,
      build-built function_id args (omega arith),
      one_shot-serve s r (dump args ++ rest) sent
            (built-IsRer function_id args id_fits (omega arith) fits)
          ∙ serve-refuse s function_id args _ six,
    )
