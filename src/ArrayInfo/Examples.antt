-- ===== src/ArrayInfo/Examples.antt =====
-- src/value/array.rs on arrays of numbers; 0 is `nil`, and every number is its own integer.
use ruruby.Prelude.{◌≡◌, refl, Bool, true, false, List, [], ◌∷◌, none, some, arith, leb}
use ruruby.Prelude.Int.{ℤ, pos, negsuc}
use ruruby.Prelude.Outcome.{Outcome, ok, panic}
use ruruby.ArrayInfo.{ValueView, Answer, get_elem1, set_elem1, set_elem3, get_by_range, retain}
use ruruby.ArrayInfo.Index.{element, get_elem1-index}
use ruruby.ArrayInfo.Write.{Writes, set_elem1_lem}
use ruruby.ArrayInfo.Retain.{filter, retain-filter}

abbrev numbers : ValueView
numbers = record {
  Value = ℤ;
  nil = pos 0;
  as_integer = λ v. some v;
  as_float = λ v. none;
  trunc = λ f. pos f;
  as_range = λ v. none;
  as_array = λ v. none;
}

abbrev one_two_three : List ℤ
one_two_three = pos 1 ∷ pos 2 ∷ pos 3 ∷ []

get_elem1-index_example :
    get_elem1 numbers one_two_three (negsuc 0)
    ≡ ok (Answer.value (element numbers one_two_three (negsuc 0)))
get_elem1-index_example = get_elem1-index numbers one_two_three (negsuc 0) (negsuc 0) refl

set_elem1_lem_example :
    Writes numbers one_two_three (pos 9) (some 5) (set_elem1 numbers one_two_three (pos 5) (pos 9))
set_elem1_lem_example =
    set_elem1_lem numbers one_two_three (pos 5) (pos 5) (pos 9) refl (omega arith, omega arith)

abbrev is_small : ℤ → Bool
is_small (pos n) = leb n 2
is_small (negsuc n) = true

abbrev small_test : ℤ → Outcome Bool
small_test i = ok (is_small i)

abbrev is_passing : (i : ℤ) → small_test i ≡ ok (is_small i)
is_passing i = refl

retain-filter_example :
    retain small_test (pos 5 ∷ one_two_three) ≡ ok (filter is_small (pos 5 ∷ one_two_three))
retain-filter_example = retain-filter small_test is_small is_passing (pos 5 ∷ one_two_three)

last : get_elem1 numbers one_two_three (negsuc 0) ≡ ok (Answer.value (pos 3))
unfolding get_elem1
last = get_elem1-index_example

-- A range that ends far before the start panics: the end wraps around.
far_end : get_by_range numbers one_two_three (pos 0) (negsuc 4) false ≡ panic
unfolding get_by_range
far_end = refl

-- A range that starts before the array reads as empty.
far_start : get_by_range numbers one_two_three (negsuc 9) (pos 1) false ≡ ok (Answer.new_array [])
unfolding get_by_range
far_start = refl

-- The replacement of a part behind the end panics.
far_write : set_elem3 numbers one_two_three (pos 5) (pos 1) (pos 9) ≡ panic
unfolding set_elem3
far_write = refl
