-- ===== src/Remote/Build.antt =====
-- headers/rpc/RerBuilding.h: what `build` makes through the stream is the request of the arguments'
-- bytes.
use gicame.Prelude.{
  ℕ, zero, suc, ◌+◌, ◌≤◌, ◌<◌, ◌≡◌, refl, ap, ◌∙◌, arith, false, ◌==◌, if◌then◌else◌, List, [], ◌∷◌,
  ◌++◌, length, drop, replicate, length-replicate, length-append, append_assoc, append-nil, Outcome,
  done, threw, fault, ◌>>=◌,
}
use gicame.Memory.{size_mod, add_size}
use gicame.Rpc.{Bytes, RpcExecutionRequest, make_rer, set_params, dump, build}
use gicame.Streams.{memory_stream}
use gicame.Streams.Laws.{at}
use gicame.Serializer.{Fits}
use gicame.Serializer.Laws.{bytes_of, size_of, length-bytes_of, serialized_size-Fits, to_stream-at}
use gicame.Remote.{Arg, arg_sizes, put_sizes, sum_sizes, write_args, build_sized, build_args}

abbrev pub AllFit : List Arg → Type 0
AllFit [] = Unit
AllFit (a ∷ args) = Fits a.type a.value × AllFit args

-- The bytes of each argument.
abbrev pub dumped : List Arg → List Bytes
dumped [] = []
dumped (a ∷ args) = bytes_of a.type a.value ∷ dumped args

pub length-dumped : (args : List Arg) → length (dumped args) ≡ length args
length-dumped [] = refl
length-dumped (a ∷ args) = ap suc (length-dumped args)

abbrev sizes : List Arg → List ℕ
sizes [] = []
sizes (a ∷ args) = size_of a.type ∷ sizes args

arg_sizes-sizes : (args : List Arg) → AllFit args → arg_sizes args ≡ done (sizes args)
unfolding arg_sizes
arg_sizes-sizes [] v = refl
arg_sizes-sizes (a ∷ args) (f, v) =
    rw (serialized_size-Fits a.type a.value f, arg_sizes-sizes args v) refl

put_sizes-set_params :
    (args : List Arg) (ps : List ℕ) → put_sizes (sizes args) ps ≡ set_params (dumped args) ps
unfolding put_sizes set_params
put_sizes-set_params [] ps = refl
put_sizes-set_params (a ∷ args) [] = refl
put_sizes-set_params (a ∷ args) (p ∷ ps) =
    rw (length-bytes_of a.type a.value, put_sizes-set_params args ps) refl

sum_sizes-dumped :
    (args : List Arg) (total : ℕ)
    → total + length (dump (dumped args)) < size_mod
    → sum_sizes (sizes args) total ≡ total + length (dump (dumped args))
unfolding sum_sizes
sum_sizes-dumped [] total h = omega arith
sum_sizes-dumped (a ∷ args) total h =
    let l : length (dump (dumped (a ∷ args))) ≡ size_of a.type + length (dump (dumped args)) =
      length-append (bytes_of a.type a.value) (dump (dumped args))
      ∙ ap (λ (n : ℕ). n + length (dump (dumped args))) (length-bytes_of a.type a.value) in
    let e : add_size total (size_of a.type) ≡ total + size_of a.type = omega arith in
    ap (sum_sizes (sizes args)) e
    ∙ sum_sizes-dumped args (total + size_of a.type) (omega arith)
    ∙ omega arith

drop-drop : (m n : ℕ) (xs : Bytes) → drop n (drop m xs) ≡ drop (m + n) xs
drop-drop zero n xs = let e : 0 + n ≡ n = omega arith in rw e refl
drop-drop (suc m) zero [] = let e : suc m + 0 ≡ suc m = omega arith in rw e refl
drop-drop (suc m) (suc n) [] = let e : suc m + suc n ≡ suc (m + suc n) = omega arith in rw e refl
drop-drop (suc m) n (x ∷ xs) =
    let e : suc m + n ≡ suc (m + n) = omega arith in rw e (drop-drop m n xs)

length-drop-le : (m n : ℕ) (xs : Bytes) → m + n ≤ length xs → n ≤ length (drop m xs)
length-drop-le zero n xs h = omega arith
length-drop-le (suc m) n [] h = absurd (omega arith)
length-drop-le (suc m) n (x ∷ xs) h = length-drop-le m n xs (omega arith)

write_args-at :
    (args : List Arg) (before rest : Bytes)
    → AllFit args
    → length (dump (dumped args)) ≤ length rest
    → write_args args (at before rest)
      ≡ done (at (before ++ dump (dumped args)) (drop (length (dump (dumped args))) rest))
unfolding write_args
write_args-at [] before rest v fits = rw (append-nil before) refl
write_args-at (a ∷ args) before rest (f, v) fits =
    let bs : Bytes = bytes_of a.type a.value in
    let l : length (bs ++ dump (dumped args)) ≡ size_of a.type + length (dump (dumped args)) =
      length-append bs (dump (dumped args))
      ∙ ap (λ (n : ℕ). n + length (dump (dumped args))) (length-bytes_of a.type a.value) in
    ap (λ o. o >>= λ s. write_args args s) (to_stream-at a.type a.value before rest f (omega arith))
    ∙ write_args-at args (before ++ bs) (drop (size_of a.type) rest) v
        (length-drop-le (size_of a.type) _ rest (omega arith))
    ∙ rw
        (
          l,
          drop-drop (size_of a.type) (length (dump (dumped args))) rest,
          append_assoc before bs (dump (dumped args)),
        )
        refl

abbrev zeros : ℕ → Bytes
zeros n = replicate n 0

drop-replicate : (n : ℕ) → drop n (zeros n) ≡ []
drop-replicate zero = refl
drop-replicate (suc n) = drop-replicate n

build_sized-dumped :
    (r : RpcExecutionRequest) (args : List Arg)
    → AllFit args
    → length (dump (dumped args)) < size_mod
    → build_sized r args (sizes args)
      ≡ done (record r { params = set_params (dumped args) r.params }, dump (dumped args))
unfolding build_sized memory_stream
build_sized-dumped r args v fits =
    let total : sum_sizes (sizes args) 0 ≡ length (dump (dumped args)) =
      sum_sizes-dumped args 0 (omega arith) ∙ omega arith in
    let n : ℕ = length (dump (dumped args)) in
    let written : write_args args (at [] (replicate n 0)) ≡ done (at (dump (dumped args)) []) =
      write_args-at args [] (replicate n 0) v (omega (arith, length-replicate {A = ℕ} n 0))
      ∙ ap (λ bs. done (at (dump (dumped args)) bs)) (drop-replicate n) in
    rw (total, put_sizes-set_params args r.params)
      (ap
          (λ o. o >>= λ out.
            done (record r { params = set_params (dumped args) r.params }, out.buf.buffer))
          written
        ∙ ap (λ bs. done (record r { params = set_params (dumped args) r.params }, bs))
            (append-nil (dump (dumped args))))

-- `build`, through the sizes, the buffer and the stream, makes the request and the bytes of the
-- arguments, each of them whole and in order; it throws for more than six arguments.
pub build_args-build :
    (function_id : ℕ) (args : List Arg)
    → AllFit args
    → length (dump (dumped args)) < size_mod
    → build_args function_id args ≡ build function_id (dumped args)
unfolding build_args build set_params
build_args-build function_id [] v fits = refl
build_args-build function_id (a ∷ args) v fits =
    rw (length-dumped args) (made (make_rer function_id (length (a ∷ args))))
  where
    made :
        (o : Outcome RpcExecutionRequest)
        → (o >>= λ r.
            if length (a ∷ args) == 0
            then done (r, [])
            else arg_sizes (a ∷ args) >>= build_sized r (a ∷ args))
          ≡ (o >>= λ r. done (
            record r { params = set_params (dumped (a ∷ args)) r.params },
            dump (dumped (a ∷ args)),
          ))
    made threw = refl
    made fault = refl
    made (done r) =
        let some_args : (length (a ∷ args) == 0) ≡ false = ground arith in
        rw (some_args, arg_sizes-sizes (a ∷ args) v) (build_sized-dumped r (a ∷ args) v fits)
