-- ===== src/Operators/Integers.antt =====
-- The operations of `i64`, on integers.
use ruruby.Prelude.{ℕ, zero, suc, ◌+◌, ◌*◌, ◌/◌, ◌%◌, ◌^◌, Bool, ◌&&◌, ltb, leb, if◌then◌else◌}
use ruruby.Prelude.Int.{ℤ, pos, negsuc, pos_part, neg_part, sub_ℕ, as_i64, as_u64}
use ruruby.Vm.{Exec, pure, panics}

infixl 65 ◌-ℤ◌
infixl 70 ◌*ℤ◌
abbrev pub ◌-ℤ◌ : ℤ → ℤ → ℤ
a -ℤ b = sub_ℕ (pos_part a + neg_part b) (neg_part a + pos_part b)

abbrev pub ◌*ℤ◌ : ℤ → ℤ → ℤ
a *ℤ b =
    sub_ℕ (pos_part a * pos_part b + neg_part a * neg_part b)
      (pos_part a * neg_part b + neg_part a * pos_part b)

abbrev pub abs : ℤ → ℕ
abs a = pos_part a + neg_part a

-- The quotient of `/`, which is rounded towards 0.
unfoldable pub div_trunc : ℤ → ℤ → ℤ
div_trunc (pos a) (pos b) = pos (a / b)
div_trunc (pos a) (negsuc b) = sub_ℕ 0 (a / suc b)
div_trunc (negsuc a) (pos b) = sub_ℕ 0 (suc a / b)
div_trunc (negsuc a) (negsuc b) = pos (suc a / suc b)

unfoldable pub pow : ℤ → ℕ → ℤ
pow a zero = pos 1
pow a (suc n) = a *ℤ pow a n

abbrev pub fits_i64 : ℤ → Bool
fits_i64 i = ltb (pos_part i) (2 ^ 63) && leb (neg_part i) (2 ^ 63)

-- `!i`.
abbrev pub complement : ℤ → ℤ
complement (pos n) = negsuc n
complement (negsuc n) = pos n

-- `i >> n`, which keeps the sign.
abbrev pub shift_right : ℤ → ℕ → ℤ
shift_right (pos i) n = pos (i / 2 ^ n)
shift_right (negsuc i) n = negsuc (i / 2 ^ n)

abbrev pub bitwise : (ℕ → ℕ → ℕ) → ℤ → ℤ → ℤ
bitwise op a b = as_i64 (op (as_u64 a) (as_u64 b))

module _ {S : Type 0} (overflow_checks : Bool) where
  -- The result of an operation whose exact value is given.
  unfoldable pub i64_result : ℤ → Exec S ℤ
  i64_result i =
      if fits_i64 i
      then pure i
      else (if overflow_checks then (λ s. panics) else pure (as_i64 (as_u64 i)))

  -- The count of a shift: 0 to 63, else an overflow; without checks its six lowest bits count.
  unfoldable pub shift_count : ℤ → Exec S ℕ
  shift_count i =
      if leb (neg_part i) 0 && ltb (pos_part i) 64
      then pure (pos_part i)
      else (if overflow_checks then (λ s. panics) else pure (as_u64 i % 64))
