-- ===== src/Vm/Spread.antt =====
-- src/vm/context.rs: how `fill_arguments` spreads the arguments over the parameters.
use ruruby.Prelude.{
  ℕ, ◌+◌, ◌-◌, ◌≤◌, ◌≡◌, refl, subst, ap, ◌∙◌, inl, inr, List, ◌++◌, Bool, false, Option, some,
  arith, length, take, drop, replicate, length-take, length-drop, length-replicate, ◌==◌, le→leb,
  gt→leb, ge→ltb, Bool-cases, ==→eq,
}
use ruruby.Prelude.Parts.{
  overwrite, overwrite-nothing, overwrite-front, overwrite-behind, drop-all, take-all,
  length-overwrite, replicate-surplus,
}
use Prim.Native.Nat.{min}
use mathlib.Core.Option
use mathlib.Core.List.{append-nil}
use ruruby.Value.{nil_value, is_nil}
use ruruby.Vm.{Context, Memory, Exec, returns, unwrap, ◌>>=◌}
use ruruby.Vm.Locals.{lvar_array_size}
use ruruby.Vm.Params.{
  ISeqParams, rest_len, arg_len, copy_from_slice0, fill, fill_post, fill_req, fill_fixed,
  fill_arguments, fill_arguments_opt,
}
use ruruby.Vm.Filled.{
  lvars, Wrote, Wrote-bind, le_or_gt, copy_from_slice_lem, copy_from_slice0_lem, fill_lem,
}

-- The outcome of a part of the work, with no hash of keywords to place.
Placed : Option (Context × Bool) → List ℕ → Type 0
Placed r vals =
    (c' : Context) × (r ≡ some (c', false))
    × (length c'.lvar_ary ≡ lvar_array_size)
    × (lvars c' ≡ vals)

fill_post_lem :
    (c : Context) (args : List ℕ) (first post_pos post_len : ℕ)
    → length c.lvar_ary ≡ lvar_array_size
    → first + post_len ≡ length args
    → post_pos + post_len ≤ length (lvars c)
    → Placed
        (fill_post c args first post_pos post_len nil_value false)
        (overwrite (lvars c) post_pos (drop first args))
unfolding fill_post Option.bind Placed Wrote
fill_post_lem c args first post_pos post_len four parts room = elim (Bool-cases (post_len == 0)) [
  | inl none_left ↦
      rw
        (
          none_left,
          drop-all first args (omega (arith, ==→eq post_len 0 none_left)),
          overwrite-nothing (lvars c) post_pos,
        )
        (c, refl, four, refl)
  | inr some_left ↦ rw some_left (
      let w =
        copy_from_slice_lem c post_pos (drop first args) four
          (omega (arith, length-drop first args)) in
      (w.0, rw (w.1) refl, w.2, w.3))
]

fill_req_lem :
    (c : Context) (args : List ℕ) (n req_len : ℕ)
    → length c.lvar_ary ≡ lvar_array_size
    → n ≤ length args
    → n ≤ length (lvars c)
    → req_len ≤ n
    → Placed (fill_req c args n req_len nil_value false) (overwrite (lvars c) 0 (take n args))
unfolding fill_req Option.bind Placed Wrote
fill_req_lem c args n req_len four h room enough = elim (Bool-cases (n == 0)) [
  | inl no_args ↦
      rw (no_args, ==→eq n 0 no_args, overwrite-nothing (lvars c) 0) (c, refl, four, refl)
  | inr some_args ↦
      rw (some_args, ge→ltb n req_len enough, minus_none)
        (let w = copy_from_slice0_lem c (take n args) four (omega (arith, length-take n args)) in
          (w.0, rw (w.1) refl, w.2, w.3))
]
  where
    minus_none : n - 0 ≡ n
    minus_none = omega arith

arg_len_lem :
    (args_len post_len n : ℕ) → n + post_len ≡ args_len → arg_len args_len post_len false ≡ some n
unfolding arg_len
arg_len_lem args_len post_len n h =
    rw (le→leb post_len (args_len + 0) (omega arith)) (ap some (omega arith))

fill_fixed_lem :
    (args : List ℕ) (params : ISeqParams) (c : Context) (n : ℕ)
    → rest_len params ≡ 0
    → length c.lvar_ary ≡ lvar_array_size
    → n + params.post ≡ length args
    → params.req ≤ n
    → n ≤ params.req + params.opt
    → params.req + params.opt + params.post ≤ length (lvars c)
    → Placed
        (fill_fixed c args params nil_value n)
        (overwrite (overwrite (lvars c) (params.req + params.opt) (drop n args)) 0 (take n args))
unfolding fill_fixed Option.bind Placed is_nil
fill_fixed_lem args params c n no_rest four parts enough few room =
    let pos = params.req + params.opt in
    let w = fill_post_lem c args n pos params.post four parts room in
    let w2 =
      fill_req_lem (w.0) args n params.req (w.2) (omega arith)
        (omega (
          arith,
          ap length (w.3),
          length-overwrite (lvars c) pos (drop n args) (omega (arith, length-drop n args)),
        ))
        enough in
    rw (no_rest, pos_only, in_front, w.1, w2.1)
      (w2.0, refl, w2.2, w2.3 ∙ ap (λ xs. overwrite xs 0 (take n args)) (w.3))
  where
    pos_only : params.req + params.opt + 0 ≡ params.req + params.opt
    pos_only = omega arith

    in_front : min (params.req + params.opt) n ≡ n
    in_front = omega arith

-- Where no rest parameter is bound and no hash of keywords is passed, and there are as many arguments as
-- the required and post parameters need and no more than there are parameters, the last arguments go to
-- the post parameters, in order, and the others to the required and optional ones from the first on; all
-- other variables keep their values. The variables are those of the array and the vector, in this order,
-- where the array has its four places and there are enough of them for the parameters.
pub fill_arguments_lem :
    {W : Type 0} (array_from : List ℕ → Exec (Memory W) ℕ) (args : List ℕ) (params : ISeqParams)
    (c : Context) (n : ℕ) (m : Memory W)
    → rest_len params ≡ 0
    → length c.lvar_ary ≡ lvar_array_size
    → n + params.post ≡ length args
    → params.req ≤ n
    → n ≤ params.req + params.opt
    → params.req + params.opt + params.post ≤ length (lvars c)
    → (c' : Context) × (fill_arguments array_from args params nil_value c m ≡ returns c' m)
      × (lvars c'
          ≡ overwrite (overwrite (lvars c) (params.req + params.opt) (drop n args)) 0 (take n args))
unfolding fill_arguments ◌>>=◌ unwrap Placed is_nil
fill_arguments_lem array_from args params c n m no_rest four parts enough few room =
    let w = fill_fixed_lem args params c n no_rest four parts enough few room in
    (w.0, rw (arg_len_lem (length args) params.post n parts, w.1, no_rest) refl, w.3)

-- Where the array of a context has its four places and there are variables enough for the parameters,
-- `fill_arguments_opt` gives the required parameters the first arguments, and `nil` where there are too
-- few; arguments beyond them are dropped, and the other variables keep their values. The variables are
-- those of the array and the vector, in this order.
pub fill_arguments_opt_lem :
    (c : Context) (args : List ℕ) (req_len : ℕ)
    → length c.lvar_ary ≡ lvar_array_size
    → req_len ≤ length (lvars c)
    → Wrote
        (fill_arguments_opt c args req_len)
        (take req_len args ++ replicate (req_len - length args) nil_value ++ drop req_len (lvars c))
unfolding fill_arguments_opt
fill_arguments_opt_lem c args req_len four room = elim (le_or_gt req_len (length args)) [
  | inl enough ↦ rw (le→leb req_len (length args) enough) (
      rw (replicate-surplus req_len (length args) nil_value enough, append-nil (take req_len args))
        (subst (Wrote (copy_from_slice0 c (take req_len args)))
          (overwrite-front req_len (lvars c) (take req_len args)
            (omega (arith, length-take req_len args)))
          (copy_from_slice0_lem c (take req_len args) four
            (omega (arith, length-take req_len args)))))
  | inr few ↦ rw (gt→leb req_len (length args) few) (
      rw (take-all req_len args (omega arith)) (
        Wrote-bind (copy_from_slice0 c args) (fill (req_len - length args) (length args) nil_value)
          (overwrite (lvars c) 0 args)
          (args ++ replicate (req_len - length args) nil_value ++ drop req_len (lvars c))
          (copy_from_slice0_lem c args four (omega arith))
          (λ c' four' vals.
            subst (Wrote (fill (req_len - length args) (length args) nil_value c'))
              (ap (λ xs. overwrite xs (length args) nils) vals
                ∙ overwrite-behind (lvars c) args nils
                ∙ ap (λ n. args ++ nils ++ drop n (lvars c))
                    (omega (arith, length-replicate (req_len - length args) nil_value)))
              (fill_lem (req_len - length args) (length args) nil_value c' four'
                (omega (arith, ap length vals, length-overwrite (lvars c) 0 args (omega arith)))))))
]
  where
    nils : List ℕ
    nils = replicate (req_len - length args) nil_value
