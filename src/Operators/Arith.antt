-- ===== src/Operators/Arith.antt =====
-- src/vm/executor.rs: `eval_add` to `eval_bitnot`. The right operand comes first.
use ruruby.Prelude.{ℕ, ◌^◌, ◌&&◌, leb, ltb, if◌then◌else◌}
use ruruby.Prelude.Int.{ℤ, pos, pos_part, neg_part, ◌+ℤ◌}
use ruruby.Prelude.Outcome.{RubyError}
use ruruby.Value.{Rv, is_packed_fixnum, is_packed_num, as_packed_fixnum, as_packed_flonum}
use ruruby.Value.Pack.{integer, float, unpack}
use ruruby.Value.Access.{is_zero}
use ruruby.Value.Store.{ObjectStore}
use ruruby.Vm.{Exec, RubyErrorKind, ◌>>=◌, raise, unwrap, returns}
use ruruby.Operators.{Machine, lift}
use ruruby.Operators.Integers.{◌-ℤ◌, ◌*ℤ◌, div_trunc, pow, i64_result}

module _ (p : Machine) where
  open p use {heap, builtin, f64, calls, overflow_checks}
  open calls use {
    fallback_for_binop, send_neg, rem_floor, array_push, id_bitand, id_bitor, id_bitxor,
  }

  abbrev pub Store : Type 0
  Store = ObjectStore.Store heap

  -- `Value::integer(i)` and `Value::float(f)`.
  unfoldable pub new_integer : ℤ → Exec Store ℕ
  new_integer i s = let r = integer builtin heap i s in returns r.0 r.1

  unfoldable pub new_float : ℕ → Exec Store ℕ
  new_float f s = let r = float builtin heap f s in returns r.0 r.1

  -- `i64` operations that can overflow, on their exact values.
  unfoldable pub wrapped : ℤ → Exec Store ℕ
  unfolding i64_result new_integer
  wrapped i = i64_result overflow_checks i >>= new_integer

  unfoldable pub unpacked : ℕ → Exec Store Rv
  unpacked w s = lift (unpack heap s w) s

  -- The macro `eval_op`: packed numbers are computed on, others are sent the method `id`.
  unfoldable pub eval_op : (ℤ → ℤ → ℤ) → (ℕ → ℕ → ℕ) → ℕ → ℕ → ℕ → Exec Store ℕ
  unfolding wrapped new_float
  eval_op op f_op id rhs lhs =
      if is_packed_fixnum lhs
      then (if is_packed_fixnum rhs
          then wrapped (op (as_packed_fixnum lhs) (as_packed_fixnum rhs))
          else (if is_packed_num rhs
              then new_float (f_op (f64.of_i64 (as_packed_fixnum lhs)) (as_packed_flonum rhs))
              else fallback_for_binop id lhs rhs))
      else (if is_packed_num lhs
          then (if is_packed_fixnum rhs
              then new_float (f_op (as_packed_flonum lhs) (f64.of_i64 (as_packed_fixnum rhs)))
              else (if is_packed_num rhs
                  then new_float (f_op (as_packed_flonum lhs) (as_packed_flonum rhs))
                  else fallback_for_binop id lhs rhs))
          else fallback_for_binop id lhs rhs)

  -- The macro `eval_op_i`, for an immediate right operand.
  unfoldable pub eval_op_i : (ℤ → ℤ → ℤ) → (ℕ → ℕ → ℕ) → ℕ → ℕ → ℤ → Exec Store ℕ
  unfolding wrapped new_float new_integer
  eval_op_i op f_op id lhs i =
      if is_packed_fixnum lhs
      then wrapped (op (as_packed_fixnum lhs) i)
      else (if is_packed_num lhs
          then new_float (f_op (as_packed_flonum lhs) (f64.of_i64 i))
          else (new_integer i >>= λ rhs. fallback_for_binop id lhs rhs))

  unfoldable pub eval_add : ℕ → ℕ → Exec Store ℕ
  unfolding eval_op
  eval_add rhs lhs = eval_op ◌+ℤ◌ f64.add 5 rhs lhs

  unfoldable pub eval_sub : ℕ → ℕ → Exec Store ℕ
  unfolding eval_op
  eval_sub rhs lhs = eval_op ◌-ℤ◌ f64.sub 6 rhs lhs

  unfoldable pub eval_mul : ℕ → ℕ → Exec Store ℕ
  unfolding eval_op
  eval_mul rhs lhs = eval_op ◌*ℤ◌ f64.mul 7 rhs lhs

  unfoldable pub eval_addi : ℕ → ℤ → Exec Store ℕ
  unfolding eval_op_i
  eval_addi lhs i = eval_op_i ◌+ℤ◌ f64.add 5 lhs i

  unfoldable pub eval_subi : ℕ → ℤ → Exec Store ℕ
  unfolding eval_op_i
  eval_subi lhs i = eval_op_i ◌-ℤ◌ f64.sub 6 lhs i

  unfoldable pub eval_div : ℕ → ℕ → Exec Store ℕ
  unfolding eval_op is_zero lift
  eval_div rhs lhs s =
      ((λ t. lift (is_zero heap t rhs) t) >>= λ z.
      if z
      then raise (RubyErrorKind.runtime_err RubyError.zero_div)
      else eval_op div_trunc f64.div 15 rhs lhs)
        s

  -- `rem_floorf64`.
  unfoldable pub rem_floorf64 : ℕ → ℕ → ℕ
  rem_floorf64 a b =
      if f64.lt (f64.of_i64 (pos 0)) a && f64.lt b (f64.of_i64 (pos 0))
      then f64.add (f64.add (f64.rem (f64.sub a (f64.of_i64 (pos 1))) b) b) (f64.of_i64 (pos 1))
      else (if f64.lt a (f64.of_i64 (pos 0)) && f64.lt (f64.of_i64 (pos 0)) b
          then f64.sub (f64.add (f64.rem (f64.add a (f64.of_i64 (pos 1))) b) b) (f64.of_i64 (pos 1))
          else f64.rem a b)

  -- Two numbers by their unpacked values; `other` is for values that are none.
  unfoldable pub on_numbers :
      (ℤ → ℤ → Exec Store ℕ) → (ℕ → ℕ → ℕ) → Exec Store ℕ → Rv → Rv → Exec Store ℕ
  unfolding new_float
  on_numbers op f_op other (Rv.integer l) (Rv.integer r) = op l r
  on_numbers op f_op other (Rv.integer l) (Rv.float r) = new_float (f_op (f64.of_i64 l) r)
  on_numbers op f_op other (Rv.float l) (Rv.integer r) = new_float (f_op l (f64.of_i64 r))
  on_numbers op f_op other (Rv.float l) (Rv.float r) = new_float (f_op l r)
  on_numbers op f_op other _ _ = other

  unfoldable pub eval_rem : ℕ → ℕ → Exec Store ℕ
  unfolding unpacked on_numbers rem_floorf64 new_integer ◌>>=◌
  eval_rem rhs lhs = do
    l ← unpacked lhs
    r ← unpacked rhs
    on_numbers (λ i j. unwrap (rem_floor i j) >>= new_integer) rem_floorf64
        (fallback_for_binop 10 lhs rhs) l r

  -- An exponent of 0 to `u32::MAX` is a power of `i64`, another one of `f64`.
  unfoldable pub int_pow : ℤ → ℤ → Exec Store ℕ
  unfolding wrapped new_float
  int_pow l r =
      if leb (neg_part r) 0 && ltb (pos_part r) (2 ^ 32)
      then wrapped (pow l (pos_part r))
      else new_float (f64.powf (f64.of_i64 l) (f64.of_i64 r))

  unfoldable pub eval_exp : ℕ → ℕ → Exec Store ℕ
  unfolding unpacked on_numbers int_pow ◌>>=◌
  eval_exp rhs lhs = do
    l ← unpacked lhs
    r ← unpacked rhs
    on_numbers int_pow f64.powf (fallback_for_binop 8 lhs rhs) l r

  unfoldable pub negated : ℕ → Rv → Exec Store ℕ
  unfolding wrapped new_float
  negated lhs (Rv.integer i) = wrapped (pos 0 -ℤ i)
  negated lhs (Rv.float f) = new_float (f64.neg f)
  negated lhs _ = send_neg lhs

  unfoldable pub eval_neg : ℕ → Exec Store ℕ
  unfolding unpacked negated ◌>>=◌
  eval_neg lhs = unpacked lhs >>= negated lhs
