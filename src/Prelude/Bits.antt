-- ===== src/Prelude/Bits.antt =====
-- `&`, `|` and `^` on fields of bits: what the operations do to a high part and a low part.
use Prim.Native.Nat.{
  ℕ, zero, suc, ◌+◌, ◌-◌, ◌*◌, ◌/◌, ◌%◌, ◌^◌, ◌≤◌, ◌<◌, min, max, digits, bitwise, bit_and, bit_or,
  bit_and-bitwise, bit_or-bitwise,
}
use mathlib.Core.Path.{◌≡◌, refl, ap}
use native.Mathlib.Nat.{le_refl, pow-suc, one-le-pow}
use native.Mathlib.Omega.{arith}
use mathlib.Core.Bool.{Bool, true, ◌&&◌}

module _ (z : ℕ → ℕ) (f : ℕ → ℕ → ℕ) where
  -- The count of digits to go does not matter, once it is large enough.
  digits_count : (n m a b : ℕ) → a ≤ n → a ≤ m → digits z f n a b ≡ digits z f m a b
  digits_count zero zero a b p q = refl
  digits_count zero (suc m) zero b p q = refl
  digits_count (suc n) zero zero b p q = refl
  digits_count zero (suc m) (suc a) b p q = absurd (omega arith)
  digits_count (suc n) zero (suc a) b p q = absurd (omega arith)
  digits_count (suc n) (suc m) zero b p q = refl
  digits_count (suc n) (suc m) (suc a) b p q =
      rw (digits_count n m (suc a / 2) (b / 2) (omega arith) (omega arith))

  digits-suc :
      (a b : ℕ)
      → bitwise z f (suc a) b ≡ bitwise z f (suc a / 2) (b / 2) * 2 + f (suc a % 2) (b % 2)
  digits-suc a b =
      omega (arith, digits_count a (suc a / 2) (suc a / 2) (b / 2) (omega arith) (le_refl _))

pub and_step : (a b : ℕ) → bit_and a b ≡ bit_and (a / 2) (b / 2) * 2 + min (a % 2) (b % 2)
and_step zero b = simp bit_and-bitwise (omega arith)
and_step (suc a) b = simp bit_and-bitwise (digits-suc (λ y. 0) min a b)

pub or_step : (a b : ℕ) → bit_or a b ≡ bit_or (a / 2) (b / 2) * 2 + max (a % 2) (b % 2)
or_step zero b = simp bit_or-bitwise (omega arith)
or_step (suc a) b = simp bit_or-bitwise (digits-suc (λ y. y) max a b)

scale-suc : (q k : ℕ) → q * 2 ^ suc k ≡ 2 * (q * 2 ^ k)
scale-suc q k = omega (arith, ap (λ (t : ℕ). q * t) (pow-suc 2 k))

pub and_zero : (n a : ℕ) → a ≤ n → bit_and a 0 ≡ 0
and_zero n zero h = refl
and_zero zero (suc a) h = absurd (omega arith)
and_zero (suc n) (suc a) h = omega (arith, and_step (suc a) 0, and_zero n (suc a / 2) (omega arith))

or_zero : (n a : ℕ) → a ≤ n → bit_or a 0 ≡ a
or_zero n zero h = refl
or_zero zero (suc a) h = absurd (omega arith)
or_zero (suc n) (suc a) h = omega (arith, or_step (suc a) 0, or_zero n (suc a / 2) (omega arith))

-- A word `q * 2 ^ k + r` with `r < 2 ^ k` has the fields `q` and `r`, and `&` works on each.
pub and_fields :
    (k q r s t : ℕ)
    → r < 2 ^ k
    → t < 2 ^ k
    → bit_and (q * 2 ^ k + r) (s * 2 ^ k + t) ≡ bit_and q s * 2 ^ k + bit_and r t
and_fields zero q r s t hr ht = ground arith
and_fields (suc k) q r s t hr ht = ground (
  arith,
  and_step (q * 2 ^ suc k + r) (s * 2 ^ suc k + t),
  and_step r t,
  scale-suc q k,
  scale-suc s k,
  scale-suc (bit_and q s) k,
  pow-suc 2 k,
  and_fields k q (r / 2) s (t / 2) (omega (arith, pow-suc 2 k)) (omega (arith, pow-suc 2 k)),
)

-- So does `|`.
pub or_fields :
    (k q r s t : ℕ)
    → r < 2 ^ k
    → t < 2 ^ k
    → bit_or (q * 2 ^ k + r) (s * 2 ^ k + t) ≡ bit_or q s * 2 ^ k + bit_or r t
or_fields zero q r s t hr ht = ground arith
or_fields (suc k) q r s t hr ht = ground (
  arith,
  or_step (q * 2 ^ suc k + r) (s * 2 ^ suc k + t),
  or_step r t,
  scale-suc q k,
  scale-suc s k,
  scale-suc (bit_or q s) k,
  pow-suc 2 k,
  or_fields k q (r / 2) s (t / 2) (omega (arith, pow-suc 2 k)) (omega (arith, pow-suc 2 k)),
)

-- A mask of `k` ones keeps the remainder.
pub and_ones : (k r : ℕ) → r < 2 ^ k → bit_and r (2 ^ k - 1) ≡ r
and_ones zero r h = ground (arith, and_zero r r)
and_ones (suc k) r h = ground (
  arith,
  and_step r (2 ^ suc k - 1),
  pow-suc 2 k,
  one-le-pow k 2,
  and_ones k (r / 2) (omega (arith, pow-suc 2 k)),
)

pub or_none : (a : ℕ) → bit_or a 0 ≡ a
or_none a = or_zero a a (le_refl a)

pub none_or : (a : ℕ) → bit_or 0 a ≡ a
none_or a = bit_or-bitwise 0 a

pub and_none : (a : ℕ) → bit_and a 0 ≡ 0
and_none a = and_zero a a (le_refl a)

-- `w & (2 ^ k - 1)`.
pub and_low : (k w : ℕ) → bit_and w (2 ^ k - 1) ≡ w % 2 ^ k
and_low k w = ground (
  arith,
  one-le-pow k 2,
  and_fields k (w / 2 ^ k) (w % 2 ^ k) 0 (2 ^ k - 1),
  and_none (w / 2 ^ k),
  and_ones k (w % 2 ^ k),
)

-- A test of every number below a bound, by evaluation.
unfoldable pub for_all_below : ℕ → (ℕ → Bool) → Bool
for_all_below zero p = true
for_all_below (suc n) p = p n && for_all_below n p

pub for_all_below_sound :
    (n : ℕ) (p : ℕ → Bool) (x : ℕ) → for_all_below n p ≡ true → x < n → p x ≡ true
unfolding for_all_below
for_all_below_sound zero p x h lt = absurd (omega arith)
for_all_below_sound (suc n) p x h lt = ground (arith, for_all_below_sound n p x)
