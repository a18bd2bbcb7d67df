-- ===== src/Real.antt =====
-- src/value/real.rs: real values. A float is its 64-bit pattern, and the operations on `f64` are a
-- parameter. An overflow of `i64` is a panic, `none`, where the build checks overflow; else it wraps
-- around.
pub mod Range
mod Examples
use Prim.Native.Nat.{Ordering, compare}
use ruruby.Prelude.{ℕ, ◌+◌, Bool, true, false, not, ◌&&◌, Option, none, some, ◌==◌, if◌then◌else◌}
use ruruby.Prelude.Int.{ℤ, pos, negsuc, pos_part, neg_part, sub_ℕ, ◌+ℤ◌, as_i64, as_u64, ltb_ℤ}

pub data Real : Type 0 where
  integer : ℤ → Real
  float : ℕ → Real

-- The operations of `f64`: `i as f64`, `+`, `-`, `/`, `-f`, `partial_cmp`, `f < 0.0`,
-- `f == 0.0`. Besides them, whether the build checks overflow.
pub record Floats : Type 0 where
  pub of_integer : ℤ → ℕ
  pub add : ℕ → ℕ → ℕ
  pub sub : ℕ → ℕ → ℕ
  pub div : ℕ → ℕ → ℕ
  pub neg : ℕ → ℕ
  pub compare_floats : ℕ → ℕ → Option Ordering
  pub is_below_zero : ℕ → Bool
  pub is_zero_float : ℕ → Bool
  pub overflow_checks : Bool

-- `i1 + i2`, `i1 - i2` and `-i` on `i64`, where they wrap around.
unfoldable pub wrapping_add : ℤ → ℤ → ℤ
wrapping_add a b = as_i64 (as_u64 (a +ℤ b))

abbrev exact_sub : ℤ → ℤ → ℤ
exact_sub a b = sub_ℕ (pos_part a + neg_part b) (neg_part a + pos_part b)

unfoldable pub wrapping_sub : ℤ → ℤ → ℤ
wrapping_sub a b = as_i64 (as_u64 (exact_sub a b))

abbrev eqb_ℤ : ℤ → ℤ → Bool
eqb_ℤ a b = pos_part a + neg_part b == pos_part b + neg_part a

unfoldable pub compare_ℤ : ℤ → ℤ → Ordering
compare_ℤ a b = compare (pos_part a + neg_part b) (pos_part b + neg_part a)

module _ (f : Floats) where
  open f use {of_integer, neg, compare_floats, is_below_zero, is_zero_float}

  unfoldable pub is_negative : Real → Bool
  is_negative (Real.integer i) = ltb_ℤ i (pos 0)
  is_negative (Real.float u) = is_below_zero u

  unfoldable pub is_zero_real : Real → Bool
  is_zero_real (Real.integer (pos n)) = n == 0
  is_zero_real (Real.integer (negsuc n)) = false
  is_zero_real (Real.float u) = is_zero_float u

  -- `exact` is the exact result, and `i` what an operation on `i64` leaves of it.
  unfoldable pub checked : ℤ → ℤ → Option Real
  checked exact i = if f.overflow_checks && not (eqb_ℤ exact i) then none else some (Real.integer i)

  unfoldable pub add_real : Real → Real → Option Real
  unfolding wrapping_add checked
  add_real (Real.integer i) (Real.integer j) = checked (i +ℤ j) (wrapping_add i j)
  add_real (Real.integer i) (Real.float g) = some (Real.float (f.add (of_integer i) g))
  add_real (Real.float g) (Real.integer i) = some (Real.float (f.add g (of_integer i)))
  add_real (Real.float g) (Real.float h) = some (Real.float (f.add g h))

  unfoldable pub sub_real : Real → Real → Option Real
  unfolding wrapping_sub checked
  sub_real (Real.integer i) (Real.integer j) = checked (exact_sub i j) (wrapping_sub i j)
  sub_real (Real.integer i) (Real.float g) = some (Real.float (f.sub (of_integer i) g))
  sub_real (Real.float g) (Real.integer i) = some (Real.float (f.sub g (of_integer i)))
  sub_real (Real.float g) (Real.float h) = some (Real.float (f.sub g h))

  unfoldable pub div_real : Real → Real → Real
  div_real (Real.integer i) (Real.integer j) = Real.float (f.div (of_integer i) (of_integer j))
  div_real (Real.integer i) (Real.float g) = Real.float (f.div (of_integer i) g)
  div_real (Real.float g) (Real.integer i) = Real.float (f.div g (of_integer i))
  div_real (Real.float g) (Real.float h) = Real.float (f.div g h)

  unfoldable pub neg_real : Real → Option Real
  unfolding wrapping_sub checked
  neg_real (Real.integer i) = checked (exact_sub (pos 0) i) (wrapping_sub (pos 0) i)
  neg_real (Real.float g) = some (Real.float (neg g))

  unfoldable pub partial_cmp : Real → Real → Option Ordering
  unfolding compare_ℤ
  partial_cmp (Real.integer i) (Real.integer j) = some (compare_ℤ i j)
  partial_cmp (Real.integer i) (Real.float g) = compare_floats (of_integer i) g
  partial_cmp (Real.float g) (Real.integer i) = compare_floats g (of_integer i)
  partial_cmp (Real.float g) (Real.float h) = compare_floats g h

  -- `<` and `<=`, by `partial_cmp`.
  abbrev pub is_less : Option Ordering → Bool
  is_less (some Ordering.lt) = true
  is_less _ = false

  abbrev pub is_less_equal : Option Ordering → Bool
  is_less_equal (some Ordering.lt) = true
  is_less_equal (some Ordering.eq) = true
  is_less_equal _ = false

  unfoldable pub included : Real → Real → Real → Bool → Bool
  unfolding partial_cmp
  included x start end exclude =
      is_less_equal (partial_cmp start x)
      && (if exclude then is_less (partial_cmp x end) else is_less_equal (partial_cmp x end))
