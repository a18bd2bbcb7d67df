-- ===== src/Vm/Params.antt =====
-- src/vm/context.rs: a new context and the arguments that it takes; the parameters are those of
-- src/vm/method.rs.
mod Examples
use ruruby.Prelude.{
  ℕ, zero, suc, ◌+◌, ◌-◌, Bool, true, false, not, Option, none, some, List, [], ◌∷◌, ◌++◌, ltb, leb,
  ◌==◌, if◌then◌else◌, length, take, drop, replicate,
}
use Prim.Native.Nat.{min}
use mathlib.Core.Option
use ruruby.Prelude.Parts.{overwrite}
use ruruby.Value.{nil_value, is_nil, uninitialized_value}
use ruruby.Vm.{Context, Memory, returns, Exec, ◌>>=◌, unwrap, pure}
use ruruby.Vm.Locals.{index_mut, lvar_array_size}

-- `ISeqParams`: how many parameters there are of each kind. The keywords are not modelled.
pub record ISeqParams : Type 0 where
  pub req : ℕ
  pub opt : ℕ
  pub rest : Option Bool
  pub post : ℕ

-- A rest parameter takes a place only where it is bound.
unfoldable pub rest_len : ISeqParams → ℕ
rest_len params = elim params.rest [ some true ↦ 1 | _ ↦ 0 ]

-- `Context::new`, of a method or of a block.
unfoldable pub new : ℕ → ℕ → Option ℕ → Bool → Context
new self_value lvar_num outer is_method = record {
  self_value = self_value;
  lvar_ary = replicate lvar_array_size uninitialized_value;
  lvar_vec =
      (if ltb lvar_array_size lvar_num
        then replicate (lvar_num - lvar_array_size) uninitialized_value
        else []);
  outer = outer;
  is_method = is_method;
}

-- `list[first..last].copy_from_slice(slice)` with as many places as the slice has elements.
unfoldable pub copy_range : List ℕ → ℕ → List ℕ → Option (List ℕ)
unfolding overwrite
copy_range list first slice =
    if leb (first + length slice) (length list) then some (overwrite list first slice) else none

unfoldable pub copy_parts : Context → ℕ → List ℕ → List ℕ → Option Context
unfolding Option.bind copy_range
copy_parts c index to_ary to_vec = Option.bind (copy_range c.lvar_ary index to_ary) (λ ary.
    Option.bind (copy_range c.lvar_vec 0 to_vec)
      (λ vec. some (record c { lvar_ary = ary; lvar_vec = vec })))

unfoldable pub copy_from_slice : Context → ℕ → List ℕ → Option Context
unfolding Option.bind copy_range copy_parts
copy_from_slice c index slice =
    if leb (index + length slice) lvar_array_size
    then Option.bind (copy_range c.lvar_ary index slice) (λ ary. some (record c { lvar_ary = ary }))
    else (if leb lvar_array_size index
        then Option.bind (copy_range c.lvar_vec (index - lvar_array_size) slice)
            (λ vec. some (record c { lvar_vec = vec }))
        else copy_parts c index (take (lvar_array_size - index) slice)
            (drop (lvar_array_size - index) slice))

unfoldable pub copy_from_slice0 : Context → List ℕ → Option Context
unfolding Option.bind copy_range copy_parts
copy_from_slice0 c slice =
    if leb (length slice) lvar_array_size
    then Option.bind (copy_range c.lvar_ary 0 slice) (λ ary. some (record c { lvar_ary = ary }))
    else copy_parts c 0 (take lvar_array_size slice) (drop lvar_array_size slice)

-- `fill`, of the `n` places from `i` on.
unfoldable pub fill : ℕ → ℕ → ℕ → Context → Option Context
unfolding Option.bind index_mut
fill zero i val c = some c
fill (suc n) i val c = Option.bind (index_mut c i val) (fill n (suc i) val)

unfoldable pub fill_arguments_opt : Context → List ℕ → ℕ → Option Context
unfolding Option.bind copy_from_slice0 fill
fill_arguments_opt c args req_len =
    if leb req_len (length args)
    then copy_from_slice0 c (take req_len args)
    else Option.bind (copy_from_slice0 c args)
        (fill (req_len - length args) (length args) nil_value)

-- The arguments behind `first` go to the post parameters, from `post_pos` on. The flag says that a hash
-- of keywords is still to be placed.
unfoldable pub fill_post : Context → List ℕ → ℕ → ℕ → ℕ → ℕ → Bool → Option (Context × Bool)
unfolding Option.bind copy_from_slice index_mut
fill_post c args first post_pos post_len kw_arg kw =
    if post_len == 0
    then some (c, kw)
    else Option.bind (copy_from_slice c post_pos (drop first args)) (λ c'.
      if kw
      then Option.bind (index_mut c' (post_pos + post_len - 1) kw_arg) (λ c''. some (c'', false))
      else some (c', false))

-- The first `req_opt` arguments go to the required and optional parameters.
unfoldable pub fill_req : Context → List ℕ → ℕ → ℕ → ℕ → Bool → Option (Context × Bool)
unfolding Option.bind copy_from_slice0 index_mut fill
fill_req c args req_opt req_len kw_arg kw =
    if req_opt == 0
    then some (c, kw)
    else Option.bind (copy_from_slice0 c (take (req_opt - (if kw then 1 else 0)) args)) (λ c1.
      Option.bind (if kw then index_mut c1 (req_opt - 1) kw_arg else some c1) (λ c2.
        Option.bind
          (if ltb req_opt req_len then fill (req_len - req_opt) req_opt nil_value c2 else some c2)
          (λ c3. some (c3, false))))

-- How many arguments there are besides the post ones, a hash of keywords included. Too few are a panic.
unfoldable pub arg_len : ℕ → ℕ → Bool → Option ℕ
arg_len args_len post_len kw =
    let n = args_len + (if kw then 1 else 0) in if leb post_len n then some (n - post_len) else none

-- The elements of the rest parameter.
unfoldable pub rest_values : List ℕ → ℕ → ℕ → ℕ → Bool → List ℕ
rest_values args optreq_len n kw_arg kw =
    if leb n optreq_len
    then []
    else (if kw
        then take (n - 1 - optreq_len) (drop optreq_len args) ++ kw_arg ∷ []
        else take (n - optreq_len) (drop optreq_len args))

-- The parameters but the rest one.
unfoldable pub fill_fixed : Context → List ℕ → ISeqParams → ℕ → ℕ → Option (Context × Bool)
unfolding Option.bind fill_post fill_req
fill_fixed c args params kw_arg n =
    let optreq_len = params.req + params.opt in
    let post_pos = optreq_len + rest_len params in
    Option.bind (fill_post c args n post_pos params.post kw_arg (not (is_nil kw_arg)))
      (λ r. fill_req r.0 args (min optreq_len n) params.req kw_arg r.1)

module _ {W : Type 0} (array_from : List ℕ → Exec (Memory W) ℕ) where
  unfoldable pub fill_arguments : List ℕ → ISeqParams → ℕ → Context → Exec (Memory W) Context
  unfolding ◌>>=◌ unwrap arg_len fill_fixed rest_values index_mut
  fill_arguments args params kw_arg c =
      unwrap (arg_len (length args) params.post (not (is_nil kw_arg))) >>= λ n.
      unwrap (fill_fixed c args params kw_arg n) >>= λ r.
      if rest_len params == 1
      then (array_from (rest_values args (params.req + params.opt) n kw_arg r.1) >>= λ ary.
          unwrap (index_mut r.0 (params.req + params.opt) ary))
      else pure r.0
