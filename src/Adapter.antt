-- ===== src/Adapter.antt =====
-- headers/concurrency/IDataExchangerQueueAdapter.h: a queue as a data exchanger, and a remote call over a
-- pair of queues of bytes, one for each direction.
use mathlib.Core.List.{flatten}
use gicame.Prelude.{
  ℕ, ◌+◌, ◌^◌, ◌<◌, ◌≡◌, refl, sym, ap, ◌∙◌, arith, Bool, true, some, List, [], ◌∷◌, ◌++◌,
  append-nil, length, length-append, length-take, length-drop, take, drop, take-all,
  take-append-drop, ltb, if◌then◌else◌, Bool-cases, inl, inr, done,
}
use gicame.Memory.{size_mod}
use gicame.Ring.{Ring}
use gicame.Ring.Inv.{IsValid, contents}
use gicame.Ring.System.{Policy, Thread, System, run, start}
use gicame.Ring.System.Inv.{total}
use gicame.Ring.System.Fifo.{run_delivers}
use gicame.Rpc.{
  Bytes, RpcExecutionRequest, rer_size, RpcServer, RpcFunction, serialize, dump, one_shot,
  max_param_count, total_size,
}
use gicame.Rpc.Format.{built, built-IsRer, length-serialize, total_size-built}
use gicame.Rpc.Calls.{one_shot-built}

-- `send`: the call of `push`, and what is returned.
unfoldable pub send : Bytes → Bytes × ℕ
send bs = (bs, length bs)

-- `receive`: the call of `pop`, and what is returned.
unfoldable pub receive : ℕ → ℕ × ℕ
receive n = (n, n)

-- `isSenderConnected` and `isReceiverConnected`
abbrev pub is_always_connected : Bool
is_always_connected = true

-- The calls of `push` of one side that sends each of these buffers, and those of `pop` of the other.
unfoldable pub send_all : List Bytes → List Bytes
unfolding send
send_all [] = []
send_all (bs ∷ rest) = (send bs).0 ∷ send_all rest

unfoldable pub receive_all : List ℕ → List ℕ
unfolding receive
receive_all [] = []
receive_all (n ∷ rest) = (receive n).0 ∷ receive_all rest

-- `IReceiver::receive(size)` for each of these sizes, over the bytes that the calls of `pop` have stored:
-- each vector is resized to the count that `receive` returns.
unfoldable pub receive_vectors : List ℕ → Bytes → List Bytes
unfolding receive
receive_vectors [] popped = []
receive_vectors (n ∷ rest) popped =
    take ((receive n).1) (take n popped) ∷ receive_vectors rest (drop n popped)

-- The buffer that `RpcClient::sendExeRequest` sends.
unfoldable pub request_buffer : RpcExecutionRequest → Bytes → Bytes
unfolding serialize
request_buffer r params = serialize r ++ params

-- The sizes that `RpcServer::oneShot` asks for, once it has read this request.
unfoldable pub asked_sizes : RpcExecutionRequest → List ℕ
unfolding total_size
asked_sizes r =
    let n : ℕ = total_size r.param_count r.params 0 in rer_size ∷ (if ltb 0 n then n ∷ [] else [])

send_all-eq : (bss : List Bytes) → send_all bss ≡ bss
unfolding send_all send
send_all-eq [] = refl
send_all-eq (bs ∷ rest) = ap (λ r. bs ∷ r) (send_all-eq rest)

receive_all-eq : (ns : List ℕ) → receive_all ns ≡ ns
unfolding receive_all receive
receive_all-eq [] = refl
receive_all-eq (n ∷ rest) = ap (λ r. n ∷ r) (receive_all-eq rest)

receive_vectors-flatten :
    (ns : List ℕ) (bs : Bytes) → total ns ≡ length bs → flatten (receive_vectors ns bs) ≡ bs
unfolding receive_vectors receive flatten
receive_vectors-flatten [] [] e = refl
receive_vectors-flatten [] (b ∷ bs) e = absurd (omega arith)
receive_vectors-flatten (n ∷ ns) bs e =
    let whole : take n (take n bs) ≡ take n bs =
      take-all n (take n bs) (omega (arith, length-take n bs)) in
    let rest : total ns ≡ length (drop n bs) = omega (arith, e, length-drop n bs) in
    rw (whole, receive_vectors-flatten ns (drop n bs) rest) (take-append-drop n bs)

total-asked_sizes :
    (r : RpcExecutionRequest) (n : ℕ)
    → total_size r.param_count r.params 0 ≡ n
    → total (asked_sizes r) ≡ rer_size + n
unfolding asked_sizes
total-asked_sizes r n e = rw e (elim (Bool-cases (ltb 0 n)) [
  | inl some_bytes ↦ rw some_bytes (omega arith)
  | inr nothing ↦ rw nothing (ground arith)
])

-- A buffer that is sent over an empty queue has arrived when all of it has been received.
buffer_arrives :
    (p : Policy) (ts : List Thread) (r : Ring) (bs : Bytes) (ns : List ℕ) {s : System}
    → IsValid r
    → contents r ≡ []
    → total ns ≡ length bs
    → run p ts (start r (send_all (bs ∷ [])) (receive_all ns)) ≡ done s
    → s.remaining ≡ 0
    → s.requests ≡ []
    → s.received ≡ bs
unfolding flatten
buffer_arrives p ts r bs ns v e whole ran left asked =
    run_delivers p ts r (send_all (bs ∷ [])) (receive_all ns) v ran left asked
    ∙ rw (send_all-eq (bs ∷ []), receive_all-eq ns, e, append-nil bs)
        (take-all (total ns) bs (omega (arith, whole)))

-- A remote call over two valid, empty queues, whatever their wait policies and however the threads are
-- scheduled: the client sends one buffer, of the request and the bytes of up to five arguments, to the
-- one, and receives the result from the other. The server receives the request, and then as many bytes as
-- it announces, if any. Once the calls of `pop` have returned, the vectors that the server has received
-- make it serve exactly this call and send exactly the result of its function, the client's vector is
-- exactly this result, and what `send` has returned to either side is the number of bytes that the other
-- one has received. The id of the function fits four bytes, the sizes of the arguments add up to less
-- than 2 ^ 64, and the function is registered and returns.
pub call_over_queues :
    (p q : Policy) (ts us : List Thread) (there back : Ring) (s : RpcServer) (function_id : ℕ)
    (args : List Bytes) {f : RpcFunction} {result : Bytes} {a b : System}
    → IsValid there
    → IsValid back
    → contents there ≡ []
    → contents back ≡ []
    → function_id < 256 ^ 4
    → length args < max_param_count
    → length (dump args) < size_mod
    → s.fun_store function_id ≡ some f
    → f (built function_id args) (dump args) ≡ done result
    → run p ts (
        start there
          (send_all (request_buffer (built function_id args) (dump args) ∷ []))
          (receive_all (asked_sizes (built function_id args))))
      ≡ done a
    → a.remaining ≡ 0
    → a.requests ≡ []
    → run q us (start back (send_all (result ∷ [])) (receive_all (length result ∷ []))) ≡ done b
    → b.remaining ≡ 0
    → b.requests ≡ []
    → (one_shot s (record {
      incoming = flatten (receive_vectors (asked_sizes (built function_id args)) a.received);
      sent = [];
    })
        ≡ done (true, record { incoming = []; sent = result }))
      × (receive_vectors (length result ∷ []) b.received ≡ result ∷ [])
      × ((send (request_buffer (built function_id args) (dump args))).1 ≡ length a.received)
      × ((send result).1 ≡ length b.received)
unfolding send request_buffer receive_vectors receive
call_over_queues p q ts us there back s function_id args {f} {result} {a} {b} v w e d id_fits few
      fits found gives ran la ra ran' lb rb =
    let r : RpcExecutionRequest = built function_id args in
    let buffer : Bytes = request_buffer r (dump args) in
    let six : length (serialize r) ≡ rer_size =
      length-serialize r ((built-IsRer function_id args id_fits (omega arith) fits).six) in
    let asked : total (asked_sizes r) ≡ length buffer =
      total-asked_sizes r (length (dump args))
        (total_size-built function_id args (omega arith) fits)
      ∙ omega (arith, six, length-append (serialize r) (dump args)) in
    let came : a.received ≡ buffer =
      buffer_arrives p ts there buffer (asked_sizes r) v e asked ran la ra in
    let went : b.received ≡ result =
      buffer_arrives q us back result (length result ∷ []) w d (omega arith) ran' lb rb in
    (
      ap (λ bs. one_shot s (record { incoming = bs; sent = [] }))
            (receive_vectors-flatten (asked_sizes r) a.received (asked ∙ ap length (sym came))
              ∙ came
              ∙ ap (λ bs. serialize r ++ bs) (sym (append-nil (dump args))))
          ∙ one_shot-built s function_id args [] [] id_fits few fits found
          ∙ rw gives refl,
      rw went (
          rw (take-all (length result) result (omega arith))
            (rw (take-all (length result) result (omega arith)) refl)),
      ap length (sym came),
      ap length (sym went),
    )
