-- ===== src/Rpc/Runs.antt =====
-- What a server does on a stream of calls, and on any bytes at all (src/rpc/RpcServer.cpp).
use gicame.Prelude.{
  ℕ, ◌^◌, ◌<◌, ◌≡◌, ◌≢◌, sym, ap, ◌∙◌, Bool, true, false, some, List, [], ◌∷◌, ◌++◌, length, take,
  drop, replicate, append_assoc, append-nil, Outcome, done, threw, fault, ◌>>=◌, if◌then◌else◌, ◌⊎◌,
}
use gicame.Memory.{size_mod}
use gicame.Rpc.{
  Bytes, RpcExecutionRequest, rer_size, max_param_count, serialize, dump, check_integrity,
  total_size, Exchanger, RpcServer, RpcFunction, one_shot, run, InvalidRequestReason,
}
use gicame.Rpc.Format.{built}
use gicame.Rpc.Calls.{one_shot-built}

pub record RemoteCall : Type 0 where
  pub function_id : ℕ
  pub args : List Bytes
  pub result : Bytes

-- The call fits a request, and its function is registered and returns the result.
pub record IsServed (s : RpcServer) (c : RemoteCall) : Type 0 where
  pub function : RpcFunction
  pub id_fits : c.function_id < 256 ^ 4
  pub few : length c.args < max_param_count
  pub args_fit : length (dump c.args) < size_mod
  pub found : s.fun_store c.function_id ≡ some function
  pub returned : function (built c.function_id c.args) (dump c.args) ≡ done c.result

abbrev pub AllServed : RpcServer → List RemoteCall → Type 0
AllServed s [] = Unit
AllServed s (c ∷ cs) = IsServed s c × AllServed s cs

-- The bytes of the requests, and those of the results.
abbrev pub requests : List RemoteCall → Bytes
requests [] = []
requests (c ∷ cs) = (serialize (built c.function_id c.args) ++ dump c.args) ++ requests cs

abbrev pub results : List RemoteCall → Bytes
results [] = []
results (c ∷ cs) = c.result ++ results cs

-- The server that stays connected for as many rounds as there are calls serves each of them: it ends
-- having read exactly the requests, and has sent the results in the order of the calls, where each
-- call fits a request, its function is registered and the function returns.
pub run_serves :
    (s : RpcServer) (cs : List RemoteCall) (rest sent : Bytes)
    → AllServed s cs
    → run (replicate (length cs) true) s (record { incoming = requests cs ++ rest; sent = sent })
      ≡ done (record { incoming = rest; sent = sent ++ results cs })
unfolding run
run_serves s [] rest sent v =
    ap (λ bs. done (record { incoming = rest; sent = bs })) (sym (append-nil sent))
run_serves s (c ∷ cs) rest sent (v, vs) =
    let r : RpcExecutionRequest = built c.function_id c.args in
    let split : requests (c ∷ cs) ++ rest ≡ serialize r ++ (dump c.args ++ (requests cs ++ rest)) =
      append_assoc (serialize r ++ dump c.args) (requests cs) rest
      ∙ append_assoc (serialize r) (dump c.args) (requests cs ++ rest) in
    let served : one_shot s (record { incoming = requests (c ∷ cs) ++ rest; sent = sent })
        ≡ done (true, record { incoming = requests cs ++ rest; sent = sent ++ c.result }) =
      ap (λ bs. one_shot s (record { incoming = bs; sent = sent })) split
      ∙ one_shot-built s c.function_id c.args (requests cs ++ rest) sent v.id_fits v.few v.args_fit
          v.found
      ∙ ap
          (λ o. o >>= λ result.
            done (true, record { incoming = requests cs ++ rest; sent = sent ++ result }))
          v.returned in
    ap (λ o. o >>= λ bx. if bx.0 then run (replicate (length cs) true) s (bx.1) else done (bx.1))
      served
    ∙ run_serves s cs rest (sent ++ c.result) vs
    ∙ ap (λ bs. done (record { incoming = rest; sent = bs }))
        (append_assoc sent c.result (results cs))

-- The bytes behind the request, as many as it announces, and what follows them.
abbrev pub params_of : RpcExecutionRequest → Exchanger → Bytes
params_of r x = take (total_size r.param_count r.params 0) (drop rer_size x.incoming)

abbrev pub rest_of : RpcExecutionRequest → Exchanger → Bytes
rest_of r x = drop (total_size r.param_count r.params 0) (drop rer_size x.incoming)

-- What a round that has sent something has done.
pub record Answered (s : RpcServer) (r : RpcExecutionRequest) (x x' : Exchanger) : Type 0 where
  pub function : RpcFunction
  pub result : Bytes
  pub intact : check_integrity r ≡ true
  pub found : s.fun_store r.function_id ≡ some function
  pub whole : length (params_of r x) ≡ total_size r.param_count r.params 0
  pub returned : function r (params_of r x) ≡ done result
  pub answered : x'.sent ≡ x.sent ++ result
  pub consumed : x'.incoming ≡ rest_of r x

-- A round that ends in an exception: the handler of invalid requests, or the function that was
-- called, has ended in it (`o` or `o'`).
abbrev pub Fails :
    RpcServer → RpcExecutionRequest → Exchanger → Outcome Bool → Outcome Bytes → Type 0
Fails s r x o o' =
    ((reason : InvalidRequestReason) × (s.invalid_request_event_handler r reason ≡ o))
    ⊎ ((f : RpcFunction) × (s.fun_store r.function_id ≡ some f) × (f r (params_of r x) ≡ o'))

-- A round that has sent nothing: the peer has not sent a whole request, or the handler has decided.
abbrev pub Unanswered : RpcServer → RpcExecutionRequest → Exchanger → Bool → Type 0
Unanswered s r x b =
    ((length (take rer_size x.incoming) ≢ rer_size) × (b ≡ false))
    ⊎ ((reason : InvalidRequestReason) × (s.invalid_request_event_handler r reason ≡ done b))

abbrev pub Guarded :
    RpcServer → RpcExecutionRequest → Exchanger → Outcome (Bool × Exchanger) → Type 0
Guarded s r x (done (b, x')) =
    ((x'.sent ≡ x.sent) × Unanswered s r x b) ⊎ ((b ≡ true) × Answered s r x x')
Guarded s r x threw = Fails s r x threw threw
Guarded s r x fault = Fails s r x fault fault

-- What the server has once it has received a request.
abbrev requested : Exchanger → Exchanger
requested x = record x { incoming = drop rer_size x.incoming }
