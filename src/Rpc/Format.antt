-- ===== src/Rpc/Format.antt =====
-- A request and its bytes (headers/rpc/RpcCommon.h), and the request that RerBuilding.h builds.
use gicame.Prelude.{
  ℕ, suc, ◌+◌, ◌^◌, ◌≤◌, ◌<◌, ◌≡◌, refl, ap, ◌∙◌, subst, arith, List, [], ◌∷◌, ◌++◌, length, take,
  drop, replicate, length-append, done, false, ltb,
}
use gicame.Memory.{size_mod, add_size}
use gicame.Rpc.{
  Bytes, to_le, from_le, write_words, read_words, RpcExecutionRequest, rer_size, rer_magic,
  max_param_count, serialize, deserialize, build, make_rer, set_params, dump, total_size,
}
use gicame.Rpc.Words.{from_le-to_le, drop-at, AllWords, length-write_words, read_words-write_words}

-- Every member fits its type.
pub record IsRer (r : RpcExecutionRequest) : Type 0 where
  pub magic_fits : r.magic < 256 ^ 4
  pub function_fits : r.function_id < 256 ^ 4
  pub six : length r.params ≡ max_param_count
  pub sizes_fit : AllWords r.params
  pub count_fits : r.param_count < 256

pub length-serialize :
    (r : RpcExecutionRequest) → length r.params ≡ max_param_count → length (serialize r) ≡ rer_size
unfolding serialize to_le
length-serialize r six = omega (
  arith,
  six,
  length-append (write_words r.params) (to_le 1 r.param_count),
  length-write_words r.params,
)

abbrev of_parts : ℕ → ℕ → List ℕ → ℕ → RpcExecutionRequest
of_parts m f ps c = record { magic = m; function_id = f; params = ps; param_count = c }

of_equal_parts :
    {m m' f f' c c' : ℕ} {ps ps' : List ℕ}
    → m ≡ m'
    → f ≡ f'
    → ps ≡ ps'
    → c ≡ c'
    → of_parts m f ps c ≡ of_parts m' f' ps' c'
of_equal_parts m f ps c = cc

-- `deserialize` gives back the request that `serialize` has written, member for member, while every
-- member fits its type.
pub deserialize-serialize : (r : RpcExecutionRequest) → IsRer r → deserialize (serialize r) ≡ r
unfolding serialize deserialize to_le
deserialize-serialize r v =
    let count_at : drop 48 (write_words r.params ++ to_le 1 r.param_count) ≡ to_le 1 r.param_count =
      drop-at {n = 48} (write_words r.params) _
        (omega (arith, length-write_words r.params, v.six)) in
    let sizes : read_words 6 (write_words r.params ++ to_le 1 r.param_count) ≡ r.params =
      subst (λ n. read_words n (write_words r.params ++ to_le 1 r.param_count) ≡ r.params) v.six
        (read_words-write_words r.params _ v.sizes_fit) in
    let count : from_le (take 1 (drop 48 (write_words r.params ++ to_le 1 r.param_count)))
        ≡ r.param_count =
      ap (λ bs. from_le (take 1 bs)) count_at ∙ from_le-to_le 1 r.param_count v.count_fits in
    of_equal_parts (from_le-to_le 4 r.magic v.magic_fits)
      (from_le-to_le 4 r.function_id v.function_fits) sizes count

-- The request that `build` makes.
abbrev pub built : ℕ → List Bytes → RpcExecutionRequest
built function_id args = record {
  magic = rer_magic;
  function_id = function_id;
  params = set_params args (replicate max_param_count 0);
  param_count = length args;
}

length-set_params : (args : List Bytes) (ps : List ℕ) → length (set_params args ps) ≡ length ps
unfolding set_params
length-set_params [] ps = refl
length-set_params (a ∷ args) [] = refl
length-set_params (a ∷ args) (p ∷ ps) = ap suc (length-set_params args ps)

set_params-AllWords :
    (args : List Bytes) (ps : List ℕ)
    → length (dump args) < size_mod
    → AllWords ps
    → AllWords (set_params args ps)
unfolding set_params
set_params-AllWords [] ps h w = w
set_params-AllWords (a ∷ args) [] h w = tt
set_params-AllWords (a ∷ args) (p ∷ ps) h (q, w) = (
  omega (arith, length-append a (dump args)),
  set_params-AllWords args ps (omega (arith, length-append a (dump args))) w,
)

-- The sizes that the server adds up are those of all the arguments.
total_size-set_params :
    (args : List Bytes) (ps : List ℕ) (total : ℕ)
    → length args ≤ length ps
    → total + length (dump args) < size_mod
    → total_size (length args) (set_params args ps) total ≡ total + length (dump args)
unfolding set_params total_size
total_size-set_params [] ps total le h = omega arith
total_size-set_params (a ∷ args) [] total le h = absurd (omega arith)
total_size-set_params (a ∷ args) (p ∷ ps) total le h =
    let l : length (a ++ dump args) ≡ length a + length (dump args) = length-append a (dump args) in
    let e : add_size total (length a) ≡ total + length a = omega arith in
    rw e
      (total_size-set_params args ps (total + length a) (omega arith) (omega arith) ∙ omega arith)

pub build-built :
    (function_id : ℕ) (args : List Bytes)
    → length args ≤ max_param_count
    → build function_id args ≡ done (built function_id args, dump args)
unfolding build make_rer
build-built function_id args le =
    let few : ltb 6 (length args) ≡ false = ground arith in rw few refl

pub built-IsRer :
    (function_id : ℕ) (args : List Bytes)
    → function_id < 256 ^ 4
    → length args ≤ max_param_count
    → length (dump args) < size_mod
    → IsRer (built function_id args)
built-IsRer function_id args id_fits le fits = record {
  magic_fits = omega arith;
  function_fits = id_fits;
  six = length-set_params args (replicate max_param_count 0);
  sizes_fit =
      set_params-AllWords args (replicate max_param_count 0) fits (
        omega arith,
        (omega arith, (omega arith, (omega arith, (omega arith, (omega arith, tt))))),
      );
  count_fits = omega arith;
}

pub total_size-built :
    (function_id : ℕ) (args : List Bytes)
    → length args ≤ max_param_count
    → length (dump args) < size_mod
    → total_size (built function_id args).param_count (built function_id args).params 0
      ≡ length (dump args)
total_size-built function_id args le fits =
    total_size-set_params args (replicate max_param_count 0) 0 le (omega arith) ∙ omega arith
