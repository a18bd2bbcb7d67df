-- ===== src/Operators/Divide.antt =====
-- src/vm/executor.rs: quotients of fixnums.
use native.Mathlib.Nat.{div-le_self, div-add-mod, mod-lt}
use ruruby.Prelude.{
  ℕ, zero, ◌+◌, ◌*◌, ◌/◌, ◌%◌, ◌^◌, ◌<◌, ◌≤◌, ◌≡◌, refl, ap, ◌∙◌, false, arith, ◌==◌, eq→==, ne→==,
}
use ruruby.Prelude.Int.{ℤ, pos, negsuc, pos_part, neg_part, IsI64}
use ruruby.Prelude.Outcome.{ok, RubyError}
use ruruby.Value.{Rv}
use ruruby.Value.Fields.{fixnum_word_lem}
use ruruby.Value.Pack.{is_zero_f64, fixnum_word}
use ruruby.Value.Access.{is_zero}
use ruruby.Value.RoundTrip.{unpack_fixnum}
use ruruby.Vm.{◌>>=◌, RubyErrorKind, raises}
use ruruby.Operators.{Machine, lift}
use ruruby.Operators.Integers.{abs, div_trunc}
use ruruby.Operators.Arith.{Store, eval_div}
use ruruby.Operators.Exact.{IsFixnum, fixnum-read, eval_op-fixnums, Gives, Gives-wrapped}

-- The sign of a quotient.
abbrev pub HasSign : ℤ → ℤ → ℤ → Type 0
HasSign (pos a) (pos b) q = neg_part q ≡ 0
HasSign (pos a) (negsuc b) q = pos_part q ≡ 0
HasSign (negsuc a) (pos b) q = pos_part q ≡ 0
HasSign (negsuc a) (negsuc b) q = neg_part q ≡ 0

-- `q` is the quotient of `a` and `b`, rounded towards 0.
abbrev pub IsTruncated : ℤ → ℤ → ℤ → Type 0
IsTruncated a b q = (r : ℕ) × (abs b * abs q + r ≡ abs a) × (r < abs b) × HasSign a b q

div_trunc-abs : (a b : ℤ) → abs (div_trunc a b) ≡ abs a / abs b
unfolding div_trunc
div_trunc-abs (pos a) (pos b) = ground arith
div_trunc-abs (pos a) (negsuc b) = ground arith
div_trunc-abs (negsuc a) (pos b) = ground arith
div_trunc-abs (negsuc a) (negsuc b) = ground arith

div_trunc-HasSign : (a b : ℤ) → HasSign a b (div_trunc a b)
unfolding div_trunc
div_trunc-HasSign (pos a) (pos b) = refl
div_trunc-HasSign (pos a) (negsuc b) = ground arith
div_trunc-HasSign (negsuc a) (pos b) = ground arith
div_trunc-HasSign (negsuc a) (negsuc b) = refl

div_trunc-IsTruncated : (a b : ℤ) → zero < abs b → IsTruncated a b (div_trunc a b)
div_trunc-IsTruncated a b h = (
  abs a % abs b,
  ap (λ (q : ℕ). abs b * q + abs a % abs b) (div_trunc-abs a b) ∙ div-add-mod (abs a) (abs b),
  mod-lt (abs a) h,
  div_trunc-HasSign a b,
)

div_trunc-IsI64 : (a b : ℤ) → IsFixnum a → IsI64 (div_trunc a b)
div_trunc-IsI64 a b h =
    let small = div-le_self (abs a) (abs b) in
    let size = div_trunc-abs a b in
    let less : abs a ≤ 2 ^ 62 = ground arith in (ground arith, ground arith)

module _ (p : Machine) where
  open p use {heap}

  is_zero_cases :
      (i : ℤ)
      → elim (Rv.integer i) [
        | Rv.float f ↦ ok (is_zero_f64 f)
        | Rv.integer (pos n) ↦ ok (n == 0)
        | _ ↦ ok false
      ]
        ≡ ok (abs i == 0)
  is_zero_cases (pos n) = ground arith
  is_zero_cases (negsuc n) = ground arith

  is_zero-fixnum :
      (i : ℤ) (s : Store p) → IsFixnum i → is_zero heap s (fixnum_word i) ≡ ok (abs i == 0)
  unfolding is_zero
  is_zero-fixnum i s h =
      rw (unpack_fixnum heap s (fixnum_word i) (omega (arith, fixnum_word_lem i)), fixnum-read i h)
        (is_zero_cases i)

  nonzero : (j : ℤ) → zero < abs j → (abs j == 0) ≡ false
  nonzero j l = ne→== (abs j) 0 (omega arith)

  -- The quotient of two fixnums is rounded towards 0, so it differs from Ruby's, which is rounded
  -- down, where just one of them is negative; a divisor of 0 raises an error.
  pub eval_div-fixnums :
      (i j : ℤ) (s : Store p)
      → heap.IsReady s
      → IsFixnum i
      → IsFixnum j
      → (abs j ≡ 0
          → eval_div p (fixnum_word j) (fixnum_word i) s
            ≡ raises (RubyErrorKind.runtime_err RubyError.zero_div) s)
        × (zero < abs j
            → (q : ℤ) × Gives p (eval_div p (fixnum_word j) (fixnum_word i)) q s
              × IsTruncated i j q)
  unfolding eval_div lift ◌>>=◌
  eval_div-fixnums i j s ready hi hj = (
    λ z. rw (is_zero-fixnum j s hj, eq→== (abs j) 0 z, eval_div, ◌>>=◌) refl,
    λ l. (
      div_trunc i j,
      Gives-wrapped p (eval_div p (fixnum_word j) (fixnum_word i)) (div_trunc i j) s ready
          (div_trunc-IsI64 i j hi)
          (rw (is_zero-fixnum j s hj, nonzero j l, eval_div, ◌>>=◌)
            (eval_op-fixnums p div_trunc p.f64.div 15 i j s hi hj)),
      div_trunc-IsTruncated i j l,
    ),
  )
