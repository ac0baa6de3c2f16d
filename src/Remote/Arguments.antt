-- ===== src/Remote/Arguments.antt =====
-- headers/rpc/RpcServer.h: the arguments that a registered function is called with.
use gicame.Prelude.{
  ◌≡◌, refl, sym, ap, ◌∙◌, List, [], ◌∷◌, ◌++◌, append_assoc, append-nil, reverse, done, ◌>>=◌,
}
use gicame.Rpc.{Bytes, dump}
use gicame.Streams.{memory_stream}
use gicame.Streams.Laws.{at}
use gicame.Serializer.{from_stream}
use gicame.Serializer.Laws.{bytes_of, from_stream-at}
use gicame.Remote.{Arg, types, values, read_args, evaluate, left_to_right, right_to_left}
use gicame.Remote.Build.{AllFit, dumped}

read_args-at :
    (args : List Arg) (before rest : Bytes)
    → AllFit args
    → read_args (types args) (at before (dump (dumped args) ++ rest)) ≡ done (values args)
unfolding read_args
read_args-at [] before rest v = refl
read_args-at (a ∷ args) before rest (f, v) =
    let bs : Bytes = bytes_of a.type a.value in
    let split : (bs ++ dump (dumped args)) ++ rest ≡ bs ++ (dump (dumped args) ++ rest) =
      append_assoc bs (dump (dumped args)) rest in
    ap
      (λ l. from_stream a.type (at before l) >>= λ vs.
        read_args (types args) (vs.1) >>= λ r. done (vs.0 ∷ r))
      split
    ∙ ap (λ o. o >>= λ vs. read_args (types args) (vs.1) >>= λ r. done (vs.0 ∷ r))
        (from_stream-at a.type a.value before (dump (dumped args) ++ rest) f)
    ∙ ap (λ o. o >>= λ r. done (a.value ∷ r)) (read_args-at args (before ++ bs) rest v)

read_args-dump :
    (args : List Arg)
    → AllFit args
    → read_args (types args) (memory_stream (dump (dumped args))) ≡ done (values args)
unfolding memory_stream
read_args-dump args v =
    ap (λ bs. read_args (types args) (at [] bs)) (sym (append-nil (dump (dumped args))))
    ∙ read_args-at args [] [] v

pub evaluate-left_to_right :
    (args : List Arg)
    → AllFit args
    → evaluate left_to_right (types args) (memory_stream (dump (dumped args))) ≡ done (values args)
unfolding evaluate
evaluate-left_to_right args v = read_args-dump args v

pub evaluate-right_to_left :
    (args : List Arg)
    → AllFit args
    → reverse (types args) ≡ types args
    → evaluate right_to_left (types args) (memory_stream (dump (dumped args)))
      ≡ done (reverse (values args))
unfolding evaluate
evaluate-right_to_left args v same =
    ap (λ ts. read_args ts (memory_stream (dump (dumped args))) >>= λ vs. done (reverse vs)) same
    ∙ ap (λ o. o >>= λ vs. done (reverse vs)) (read_args-dump args v)
