-- ===== src/Real/Range.antt =====
-- src/value/real.rs on integers: membership of ranges.
use ruruby.Prelude.{◌+◌, ◌<◌, ◌≡◌, ◌↔◌, Bool, true, false, arith, if◌then◌else◌}
use ruruby.Prelude.Int.{ℤ, ◌≤ℤ◌, pos_part, neg_part}
use ruruby.Real.{Real, Floats, included, partial_cmp, compare_ℤ}

infix 50 ◌<ℤ◌
-- `a < b`.
abbrev pub ◌<ℤ◌ : ℤ → ℤ → Type 0
a <ℤ b = pos_part a + neg_part b < pos_part b + neg_part a

-- An integer is in a range of integers exactly when it is not below the start and, as `exclude`
-- says, below the end or not above it.
pub included_iff :
    (f : Floats) (x start end : ℤ) (exclude : Bool)
    → (included f (Real.integer x) (Real.integer start) (Real.integer end) exclude ≡ true)
      ↔ ((start ≤ℤ x) × (if exclude then x <ℤ end else x ≤ℤ end))
unfolding included partial_cmp compare_ℤ
included_iff f x start end true = ground arith
included_iff f x start end false = ground arith
