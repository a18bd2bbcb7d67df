-- ===== src/Operators/Immediate.antt =====
-- src/vm/executor.rs: the operators with an immediate operand against those on two values.
use ruruby.Prelude.{ℕ, ◌≡◌, refl, ap, arith, Bool-cases, inl, inr}
use ruruby.Prelude.Int.{ℤ, ◌+ℤ◌, IsI32}
use ruruby.Value.{Rv, is_packed_fixnum, is_packed_num, as_packed_fixnum}
use ruruby.Value.Pack.{integer, fixnum_word}
use ruruby.Value.Classify.{fits_fixnum_iff}
use ruruby.Vm.{Ended, returns, raises, panics, ◌>>=◌}
use ruruby.Operators.{Machine, lift}
use ruruby.Operators.Integers.{◌-ℤ◌}
use ruruby.Value.Fields.{fixnum_word_lem}
use ruruby.Value.RoundTrip.{unpack_fixnum}
use ruruby.Operators.Arith.{
  Store, new_integer, eval_op, eval_op_i, unpacked, eval_add, eval_sub, eval_addi, eval_subi,
}
use ruruby.Operators.Compare.{Comparison, eval_cmp, eval_cmp_i, cmp_values, cmp_i_values}
use ruruby.Operators.Exact.{IsFixnum, fixnum-read, fixnum-packed}

IsI32-IsFixnum : (i : ℤ) → IsI32 i → IsFixnum i
IsI32-IsFixnum i h = (omega arith, omega arith)

module _ (p : Machine) (i : ℤ) (small : IsI32 i) where
  open p use {heap, builtin}

  -- An immediate operand is a fixnum, which takes no space on the heap.
  integer-small : (s : Store p) → integer builtin heap i s ≡ (fixnum_word i, s)
  unfolding integer
  integer-small s =
      let f = IsI32-IsFixnum i small in
      let fits = (fits_fixnum_iff i (omega arith, omega arith)).1 f in rw (fits, integer) refl

  read_small : as_packed_fixnum (fixnum_word i) ≡ i
  read_small = fixnum-read i (IsI32-IsFixnum i small)

  eval_op_i-eval_op :
      (op : ℤ → ℤ → ℤ) (f_op : ℕ → ℕ → ℕ) (id lhs : ℕ) (s : Store p)
      → eval_op_i p op f_op id lhs i s ≡ eval_op p op f_op id (fixnum_word i) lhs s
  unfolding eval_op_i eval_op ◌>>=◌ new_integer
  eval_op_i-eval_op op f_op id lhs s = elim (Bool-cases (is_packed_fixnum lhs)) [
    | inl f ↦ rw (f, fixnum-packed i, read_small, eval_op_i, eval_op) refl
    | inr f ↦ elim (Bool-cases (is_packed_num lhs)) [
      | inl n ↦ rw (f, n, fixnum-packed i, read_small, eval_op_i, eval_op) refl
      | inr n ↦
          rw (f, n, eval_op_i, eval_op)
            (ap (λ r. p.calls.fallback_for_binop id lhs r.0 r.1) (integer-small s))
    ]
  ]

  unpacked-small : (s : Store p) → unpacked p (fixnum_word i) s ≡ returns (Rv.integer i) s
  unfolding unpacked lift
  unpacked-small s =
      rw (unpack_fixnum heap s (fixnum_word i) (omega (arith, fixnum_word_lem i)), read_small) refl

  module _ (c : Comparison) (lhs : ℕ) where
    cmp_i_values-cmp_values :
        (l : Rv) (s : Store p)
        → cmp_i_values p c lhs i l s ≡ cmp_values p c lhs (fixnum_word i) l (Rv.integer i) s
    unfolding cmp_i_values cmp_values new_integer ◌>>=◌
    cmp_i_values-cmp_values (Rv.integer l) s = refl
    cmp_i_values-cmp_values (Rv.float l) s = refl
    cmp_i_values-cmp_values _ s = rw (integer-small s) refl

    eval_cmp_i-eval_cmp :
        (s : Store p) → eval_cmp_i p c lhs i s ≡ eval_cmp p c (fixnum_word i) lhs s
    unfolding eval_cmp_i eval_cmp ◌>>=◌
    eval_cmp_i-eval_cmp s = elim (Bool-cases (is_packed_fixnum lhs)) [
      | inl f ↦ rw (f, fixnum-packed i, read_small, eval_cmp_i, eval_cmp) refl
      | inr f ↦ elim (Bool-cases (is_packed_num lhs)) [
        | inl n ↦ rw (f, n, fixnum-packed i, read_small, eval_cmp_i, eval_cmp) refl
        | inr n ↦ rw (f, n, eval_cmp_i, eval_cmp) (go (unpacked p lhs s))
      ]
    ]
      where
        go :
            (r : Ended (Store p) Rv)
            → elim r [
              | returns x t ↦ cmp_i_values p c lhs i x t
              | raises e t ↦ raises e t
              | panics ↦ panics
            ]
              ≡ elim r [
                | returns x t ↦
                    (unpacked p (fixnum_word i) >>= λ y. cmp_values p c lhs (fixnum_word i) x y) t
                | raises e t ↦ raises e t
                | panics ↦ panics
              ]
        go (returns l t) = rw (◌>>=◌, unpacked-small t) (cmp_i_values-cmp_values l t)
        go (raises e t) = refl
        go panics = refl

  -- An operator with an immediate operand does the same as the operator on the fixnum of that operand,
  -- whatever the other operand is: `+`, `-`, and each of `<`, `<=`, `>` and `>=`.
  pub immediate-operators :
      (c : Comparison) (lhs : ℕ) (s : Store p)
      → (eval_addi p lhs i s ≡ eval_add p (fixnum_word i) lhs s)
        × (eval_subi p lhs i s ≡ eval_sub p (fixnum_word i) lhs s)
        × (eval_cmp_i p c lhs i s ≡ eval_cmp p c (fixnum_word i) lhs s)
  unfolding eval_add eval_sub eval_addi eval_subi
  immediate-operators c lhs s = (
    eval_op_i-eval_op ◌+ℤ◌ p.f64.add 5 lhs s,
    eval_op_i-eval_op ◌-ℤ◌ p.f64.sub 6 lhs s,
    eval_cmp_i-eval_cmp c lhs s,
  )
