-- ===== src/Real/Examples.antt =====
-- src/value/real.rs on small integers, with floats that do nothing.
use ruruby.Prelude.{◌-◌, ◌^◌, ◌≡◌, ◌↔◌, refl, true, false, none, some, if◌then◌else◌}
use ruruby.Prelude.Int.{ℤ, pos, negsuc, ◌≤ℤ◌}
use ruruby.Real.{Real, Floats, included, add_real, sub_real}
use ruruby.Real.Range.{◌<ℤ◌, included_iff}

abbrev floats : Floats
floats = record {
  of_integer = λ i. 0;
  add = λ a b. 0;
  sub = λ a b. 0;
  div = λ a b. 0;
  neg = λ a. a;
  compare_floats = λ a b. none;
  is_below_zero = λ a. false;
  is_zero_float = λ a. true;
  overflow_checks = false;
}

included_iff_example :
    (included floats (Real.integer (pos 3)) (Real.integer (negsuc 0)) (Real.integer (pos 3)) false
      ≡ true)
    ↔ ((negsuc 0 ≤ℤ pos 3) × (if false then pos 3 <ℤ pos 3 else pos 3 ≤ℤ pos 3))
included_iff_example = included_iff floats (pos 3) (negsuc 0) (pos 3) false

abbrev largest : ℤ
largest = pos (2 ^ 63 - 1)

wrapped :
    add_real floats (Real.integer largest) (Real.integer (pos 1))
    ≡ some (Real.integer (negsuc (2 ^ 63 - 1)))
unfolding add_real
wrapped = refl

overflowed :
    add_real
      (record floats { overflow_checks = true })
      (Real.integer largest)
      (Real.integer (pos 1))
    ≡ none
unfolding add_real
overflowed = refl

back :
    sub_real floats (Real.integer (pos 1)) (Real.integer (pos 3)) ≡ some (Real.integer (negsuc 1))
unfolding sub_real
back = refl
