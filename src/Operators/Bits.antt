-- ===== src/Operators/Bits.antt =====
-- src/vm/executor.rs: `eval_shl` to `eval_bitnot`.
use Prim.Native.Nat.{bit_and, bit_or, bit_xor}
use ruruby.Prelude.{ℕ, ◌*◌, ◌^◌, Bool, true, false, not, ◌&&◌, Option, none, some, if◌then◌else◌}
use ruruby.Prelude.Int.{ℤ, as_i64, as_u64}
use ruruby.Prelude.Outcome.{RubyError}
use ruruby.Value.{
  ObjKind, RValue, Rv, true_value, false_value, to_bool, is_packed_fixnum, as_packed_fixnum,
}
use ruruby.Value.Pack.{bool}
use ruruby.Value.Access.{as_rvalue}
use ruruby.Vm.{Exec, RubyErrorKind, ◌>>=◌, pure, raise}
use ruruby.Operators.{Machine}
use ruruby.Operators.Integers.{complement, shift_right, bitwise, shift_count}
use ruruby.Operators.Arith.{Store, new_integer, unpacked}

-- `lhs.as_array()`.
abbrev pub is_array : Option RValue → Bool
is_array none = false
is_array (some v) = elim v.kind [ ObjKind.array elements ↦ true | _ ↦ false ]

module _ (p : Machine) where
  open p use {heap, calls, overflow_checks}
  open calls use {fallback_for_binop, array_push, id_bitand, id_bitor, id_bitxor}

  -- The shift of two fixnums; a count below 0 or above 63 is an overflow.
  unfoldable pub shifted : (ℤ → ℕ → ℤ) → ℕ → ℕ → Exec (Store p) ℕ
  unfolding shift_count new_integer ◌>>=◌
  shifted op rhs lhs = shift_count overflow_checks (as_packed_fixnum rhs) >>= λ n.
      new_integer p (op (as_packed_fixnum lhs) n)

  abbrev both_fixnums : ℕ → ℕ → Bool
  both_fixnums lhs rhs = is_packed_fixnum lhs && is_packed_fixnum rhs

  unfoldable pub eval_shl : ℕ → ℕ → Exec (Store p) ℕ
  unfolding shifted as_rvalue
  eval_shl rhs lhs s =
      if both_fixnums lhs rhs
      then shifted (λ i n. as_i64 (as_u64 i * 2 ^ n)) rhs lhs s
      else (if is_array (as_rvalue heap s lhs)
          then (array_push lhs rhs >>= λ u. pure lhs) s
          else fallback_for_binop 9 lhs rhs s)

  unfoldable pub eval_shr : ℕ → ℕ → Exec (Store p) ℕ
  unfolding shifted
  eval_shr rhs lhs =
      if both_fixnums lhs rhs then shifted shift_right rhs lhs else fallback_for_binop 24 lhs rhs

  -- `&`, `|` and `^` of two values that are not both fixnums: `nil` is like `false`.
  unfoldable pub bitand_of : ℕ → ℕ → Rv → Rv → Exec (Store p) ℕ
  unfolding new_integer
  bitand_of lhs rhs Rv.true_val r = pure (bool (to_bool rhs))
  bitand_of lhs rhs Rv.false_val r = pure false_value
  bitand_of lhs rhs (Rv.integer i) (Rv.integer j) = new_integer p (bitwise bit_and i j)
  bitand_of lhs rhs Rv.nil r = pure false_value
  bitand_of lhs rhs _ r = fallback_for_binop id_bitand lhs rhs

  unfoldable pub bitor_of : ℕ → ℕ → Rv → Rv → Exec (Store p) ℕ
  unfolding new_integer
  bitor_of lhs rhs Rv.true_val r = pure true_value
  bitor_of lhs rhs Rv.false_val r = pure (bool (to_bool rhs))
  bitor_of lhs rhs (Rv.integer i) (Rv.integer j) = new_integer p (bitwise bit_or i j)
  bitor_of lhs rhs Rv.nil r = pure (bool (to_bool rhs))
  bitor_of lhs rhs _ r = fallback_for_binop id_bitor lhs rhs

  unfoldable pub bitxor_of : ℕ → ℕ → Rv → Rv → Exec (Store p) ℕ
  unfolding new_integer
  bitxor_of lhs rhs Rv.true_val r = pure (bool (not (to_bool rhs)))
  bitxor_of lhs rhs Rv.false_val r = pure (bool (to_bool rhs))
  bitxor_of lhs rhs (Rv.integer i) (Rv.integer j) = new_integer p (bitwise bit_xor i j)
  bitxor_of lhs rhs Rv.nil r = pure (bool (to_bool rhs))
  bitxor_of lhs rhs _ r = fallback_for_binop id_bitxor lhs rhs

  -- Both operands unpacked, the left one first.
  unfoldable pub by_values : (ℕ → ℕ → Rv → Rv → Exec (Store p) ℕ) → ℕ → ℕ → Exec (Store p) ℕ
  unfolding unpacked ◌>>=◌
  by_values op rhs lhs = do l ← unpacked p lhs; r ← unpacked p rhs; op lhs rhs l r

  unfoldable pub eval_bitand : ℕ → ℕ → Exec (Store p) ℕ
  unfolding new_integer by_values bitand_of
  eval_bitand rhs lhs =
      if both_fixnums lhs rhs
      then new_integer p (bitwise bit_and (as_packed_fixnum lhs) (as_packed_fixnum rhs))
      else by_values bitand_of rhs lhs

  unfoldable pub eval_bitor : ℕ → ℕ → Exec (Store p) ℕ
  unfolding new_integer by_values bitor_of
  eval_bitor rhs lhs =
      if both_fixnums lhs rhs
      then new_integer p (bitwise bit_or (as_packed_fixnum lhs) (as_packed_fixnum rhs))
      else by_values bitor_of rhs lhs

  unfoldable pub eval_bitxor : ℕ → ℕ → Exec (Store p) ℕ
  unfolding by_values bitxor_of
  eval_bitxor rhs lhs = by_values bitxor_of rhs lhs

  unfoldable pub bitandi_of : ℕ → ℤ → Rv → Exec (Store p) ℕ
  unfolding new_integer ◌>>=◌
  bitandi_of lhs i Rv.true_val = pure true_value
  bitandi_of lhs i Rv.false_val = pure false_value
  bitandi_of lhs i (Rv.integer l) = new_integer p (bitwise bit_and l i)
  bitandi_of lhs i Rv.nil = pure false_value
  bitandi_of lhs i _ = new_integer p i >>= λ rhs. fallback_for_binop id_bitand lhs rhs

  unfoldable pub bitori_of : ℕ → ℤ → Rv → Exec (Store p) ℕ
  unfolding new_integer ◌>>=◌
  bitori_of lhs i Rv.true_val = pure true_value
  bitori_of lhs i Rv.false_val = pure true_value
  bitori_of lhs i (Rv.integer l) = new_integer p (bitwise bit_or l i)
  bitori_of lhs i Rv.nil = pure true_value
  bitori_of lhs i _ = new_integer p i >>= λ rhs. fallback_for_binop id_bitor lhs rhs

  unfoldable pub eval_bitandi : ℕ → ℤ → Exec (Store p) ℕ
  unfolding new_integer unpacked bitandi_of ◌>>=◌
  eval_bitandi lhs i =
      if is_packed_fixnum lhs
      then new_integer p (bitwise bit_and (as_packed_fixnum lhs) i)
      else (unpacked p lhs >>= bitandi_of lhs i)

  unfoldable pub eval_bitori : ℕ → ℤ → Exec (Store p) ℕ
  unfolding new_integer unpacked bitori_of ◌>>=◌
  eval_bitori lhs i =
      if is_packed_fixnum lhs
      then new_integer p (bitwise bit_or (as_packed_fixnum lhs) i)
      else (unpacked p lhs >>= bitori_of lhs i)

  unfoldable pub bitnot_of : Rv → Exec (Store p) ℕ
  unfolding new_integer
  bitnot_of (Rv.integer i) = new_integer p (complement i)
  bitnot_of _ = raise (RubyErrorKind.runtime_err RubyError.undefined_op)

  unfoldable pub eval_bitnot : ℕ → Exec (Store p) ℕ
  unfolding unpacked bitnot_of ◌>>=◌
  eval_bitnot lhs = unpacked p lhs >>= bitnot_of
