-- ===== src/Examples/Remote.antt =====
-- Remote calls at concrete inputs: a server with one function, which sends back its parameters.
use gicame.Prelude.{◌≡◌, refl, arith, true, some, List, [], ◌∷◌, ◌++◌, done, ◌>>=◌}
use gicame.Rpc.{
  Bytes, RpcExecutionRequest, build, dump, RpcServer, RpcFunction, make_server,
  register_rpc_function, one_shot, run, Exchanger, rer_integrity_check_failed,
}
use gicame.Rpc.Format.{built}
use gicame.Rpc.Calls.{one_shot-built, arrived, call_is_served, six_arguments_refused}
use gicame.Rpc.Runs.{RemoteCall, AllServed, requests, run_serves}

abbrev echo : RpcFunction
echo r params = done params

abbrev server : RpcServer
server = register_rpc_function echo 7 make_server

abbrev two_args : List Bytes
two_args = (1 ∷ 2 ∷ []) ∷ (3 ∷ []) ∷ []

abbrev six_args : List Bytes
six_args = (1 ∷ []) ∷ (2 ∷ []) ∷ (3 ∷ []) ∷ (4 ∷ []) ∷ (5 ∷ []) ∷ (6 ∷ []) ∷ []

echo_found : server.fun_store 7 ≡ some echo
unfolding register_rpc_function
echo_found = refl

call_is_served_example :
    (r : RpcExecutionRequest) × (build 7 two_args ≡ done (r, 1 ∷ 2 ∷ 3 ∷ []))
    × (r.function_id ≡ 7)
    × (one_shot server (arrived r (1 ∷ 2 ∷ 3 ∷ []) (9 ∷ []) [])
        ≡ done (true, record { incoming = 9 ∷ []; sent = 1 ∷ 2 ∷ 3 ∷ [] }))
call_is_served_example =
    call_is_served server 7 two_args (9 ∷ []) [] (omega arith) (omega arith) (omega arith)
      echo_found

six_arguments_refused_example :
    (r : RpcExecutionRequest) × (build 7 six_args ≡ done (r, dump six_args))
    × (one_shot server (arrived r (dump six_args) [] []) ≡ (
        server.invalid_request_event_handler r rer_integrity_check_failed >>= λ b.
        done (b, record { incoming = dump six_args; sent = [] })))
six_arguments_refused_example =
    six_arguments_refused server 7 six_args [] [] (omega arith) refl (omega arith)

abbrev calls : List RemoteCall
calls = record { function_id = 7; args = two_args; result = 1 ∷ 2 ∷ 3 ∷ [] } ∷ []

calls-AllServed : AllServed server calls
calls-AllServed = (
  record {
    function = echo;
    id_fits = omega arith;
    few = omega arith;
    args_fit = omega arith;
    found = echo_found;
    returned = refl;
  },
  tt,
)

run_serves_example :
    run (true ∷ []) server (record { incoming = requests calls ++ (9 ∷ []); sent = [] })
    ≡ done (record { incoming = 9 ∷ []; sent = 1 ∷ 2 ∷ 3 ∷ [] })
run_serves_example = run_serves server calls (9 ∷ []) [] calls-AllServed

-- A request with its parameters, and a byte after them.
abbrev asking : Exchanger
asking = arrived (built 7 two_args) (1 ∷ 2 ∷ 3 ∷ []) (9 ∷ []) []

asking-is_answered :
    one_shot server asking ≡ done (true, record { incoming = 9 ∷ []; sent = 1 ∷ 2 ∷ 3 ∷ [] })
asking-is_answered =
    one_shot-built server 7 two_args (9 ∷ []) [] (omega arith) (omega arith) (omega arith)
      echo_found
