-- ===== src/Operators/Compare.antt =====
-- src/vm/executor.rs: `eval_ge` to `eval_lti`, `eval_eqi` and `eval_compare`.
use Prim.Native.Nat.{Ordering}
use ruruby.Prelude.{ℕ, ◌+◌, Bool, false, not, Option, none, some, ◌==◌, if◌then◌else◌}
use ruruby.Prelude.Int.{ℤ, pos, negsuc, pos_part, neg_part, ltb_ℤ}
use ruruby.Value.{
  Rv, nil_value, to_bool, is_packed_fixnum, is_packed_num, as_packed_fixnum, as_packed_flonum,
}
use ruruby.Real.{compare_ℤ}
use ruruby.Vm.{Exec, ◌>>=◌, pure}
use ruruby.Operators.{Machine}
use ruruby.Operators.Arith.{Store, new_integer, unpacked}

abbrev pub eq_ℤ : ℤ → ℤ → Bool
eq_ℤ a b = pos_part a + neg_part b == pos_part b + neg_part a

-- A comparison on integers and on floats, with the name of its method.
pub record Comparison : Type 0 where
  pub ints : ℤ → ℤ → Bool
  pub floats : ℕ → ℕ → Bool
  pub id : ℕ

module _ (p : Machine) where
  open p use {f64, calls}
  open calls use {fallback_for_binop}

  abbrev pub ge : Comparison
  ge = record { ints = λ a b. not (ltb_ℤ a b); floats = λ x y. f64.le y x; id = 14 }

  abbrev pub gt : Comparison
  gt = record { ints = λ a b. ltb_ℤ b a; floats = λ x y. f64.lt y x; id = 13 }

  abbrev pub le : Comparison
  le = record { ints = λ a b. not (ltb_ℤ b a); floats = λ x y. f64.le x y; id = 17 }

  abbrev pub lt : Comparison
  lt = record { ints = λ a b. ltb_ℤ a b; floats = λ x y. f64.lt x y; id = 16 }

  module _ (c : Comparison) where
    -- `fallback_for_binop(..).map(|x| x.to_bool())`.
    unfoldable pub fallback_test : ℕ → ℕ → Exec (Store p) Bool
    fallback_test lhs rhs = fallback_for_binop c.id lhs rhs >>= λ x. pure (to_bool x)

    unfoldable pub cmp_values : ℕ → ℕ → Rv → Rv → Exec (Store p) Bool
    unfolding fallback_test
    cmp_values lhs rhs (Rv.integer l) (Rv.integer r) = pure (c.ints l r)
    cmp_values lhs rhs (Rv.float l) (Rv.integer r) = pure (c.floats l (f64.of_i64 r))
    cmp_values lhs rhs (Rv.integer l) (Rv.float r) = pure (c.floats (f64.of_i64 l) r)
    cmp_values lhs rhs (Rv.float l) (Rv.float r) = pure (c.floats l r)
    cmp_values lhs rhs _ _ = fallback_test lhs rhs

    -- The macro `eval_cmp`.
    unfoldable pub eval_cmp : ℕ → ℕ → Exec (Store p) Bool
    unfolding fallback_test cmp_values unpacked
    eval_cmp rhs lhs =
        if is_packed_fixnum lhs
        then (if is_packed_fixnum rhs
            then pure (c.ints (as_packed_fixnum lhs) (as_packed_fixnum rhs))
            else (if is_packed_num rhs
                then pure (c.floats (f64.of_i64 (as_packed_fixnum lhs)) (as_packed_flonum rhs))
                else fallback_test lhs rhs))
        else (if is_packed_num lhs
            then (if is_packed_fixnum rhs
                then pure (c.floats (as_packed_flonum lhs) (f64.of_i64 (as_packed_fixnum rhs)))
                else (if is_packed_num rhs
                    then pure (c.floats (as_packed_flonum lhs) (as_packed_flonum rhs))
                    else fallback_test lhs rhs))
            else (unpacked p lhs >>= λ l. unpacked p rhs >>= λ r. cmp_values lhs rhs l r))

    unfoldable pub cmp_i_values : ℕ → ℤ → Rv → Exec (Store p) Bool
    unfolding fallback_test new_integer
    cmp_i_values lhs i (Rv.integer l) = pure (c.ints l i)
    cmp_i_values lhs i (Rv.float l) = pure (c.floats l (f64.of_i64 i))
    cmp_i_values lhs i _ = new_integer p i >>= λ rhs. fallback_test lhs rhs

    -- The macro `eval_cmp_i`.
    unfoldable pub eval_cmp_i : ℕ → ℤ → Exec (Store p) Bool
    unfolding cmp_i_values unpacked
    eval_cmp_i lhs i =
        if is_packed_fixnum lhs
        then pure (c.ints (as_packed_fixnum lhs) i)
        else (if is_packed_num lhs
            then pure (c.floats (as_packed_flonum lhs) (f64.of_i64 i))
            else (unpacked p lhs >>= cmp_i_values lhs i))

  -- `Value::equal_i`.
  unfoldable pub eval_eqi : ℕ → ℤ → Bool
  eval_eqi lhs i =
      if is_packed_fixnum lhs
      then eq_ℤ (as_packed_fixnum lhs) i
      else (if is_packed_num lhs then f64.eq (as_packed_flonum lhs) (f64.of_i64 i) else false)

  -- `ord as i64`.
  abbrev pub ordering_value : Ordering → ℤ
  ordering_value Ordering.lt = negsuc 0
  ordering_value Ordering.eq = pos 0
  ordering_value Ordering.gt = pos 1

  unfoldable pub of_ordering : Option Ordering → Exec (Store p) ℕ
  unfolding new_integer
  of_ordering (some ord) = new_integer p (ordering_value ord)
  of_ordering none = pure nil_value

  unfoldable pub compare_integer : ℤ → Rv → Exec (Store p) ℕ
  unfolding of_ordering compare_ℤ
  compare_integer l (Rv.integer r) = of_ordering (some (compare_ℤ l r))
  compare_integer l (Rv.float r) = of_ordering (f64.partial_cmp (f64.of_i64 l) r)
  compare_integer l _ = pure nil_value

  unfoldable pub compare_float : ℕ → Rv → Exec (Store p) ℕ
  unfolding of_ordering
  compare_float l (Rv.integer r) = of_ordering (f64.partial_cmp l (f64.of_i64 r))
  compare_float l (Rv.float r) = of_ordering (f64.partial_cmp l r)
  compare_float l _ = pure nil_value

  unfoldable pub compare_values : ℕ → ℕ → Rv → Exec (Store p) ℕ
  unfolding compare_integer compare_float unpacked
  compare_values rhs lhs (Rv.integer l) = unpacked p rhs >>= compare_integer l
  compare_values rhs lhs (Rv.float l) = unpacked p rhs >>= compare_float l
  compare_values rhs lhs _ = fallback_for_binop 18 lhs rhs

  unfoldable pub eval_compare : ℕ → ℕ → Exec (Store p) ℕ
  unfolding unpacked compare_values new_integer
  eval_compare rhs lhs =
      if rhs == lhs then new_integer p (pos 0) else (unpacked p lhs >>= compare_values rhs lhs)
