-- ===== src/Value/Examples.antt =====
-- src/value/value.rs on the heap of src/alloc.rs.
use ruruby.Prelude.{◌-◌, ◌*◌, ◌^◌, ◌≡◌, refl, [], arith}
use ruruby.Prelude.Int.{pos, negsuc}
use ruruby.Prelude.Outcome.{ok}
use ruruby.Value.Samples.{builtin, empty_heap, empty_heap-IsHeap, next_page, heap, large}
use ruruby.Value.{Rv, is_packed_value, is_packed_fixnum, as_packed_fixnum, to_bool}
use ruruby.Value.Pack.{
  pack, unpack, fits_fixnum, fixnum_word, fits_flonum, flonum_word, integer, float,
}
use ruruby.Value.RoundTrip.{stored, unpack-pack}
use ruruby.Value.Access.{Agrees, accessors-unpack}
use ruruby.Value.Classify.{is_truthy, to_bool-pack}
use ruruby.Alloc.{alloc}

unpack-pack_example :
    unpack heap (pack builtin heap large empty_heap).1 (pack builtin heap large empty_heap).0
    ≡ ok (stored large)
unpack-pack_example =
    unpack-pack heap builtin empty_heap ([], empty_heap-IsHeap, next_page) large
      (omega arith, omega arith)

to_bool-pack_example : to_bool (pack builtin heap large empty_heap).0 ≡ is_truthy large
to_bool-pack_example =
    to_bool-pack builtin heap empty_heap ([], empty_heap-IsHeap, next_page) large
      (omega arith, omega arith)

packed_one : (integer builtin heap (pos 1) empty_heap).0 ≡ 3
unfolding integer fits_fixnum fixnum_word
packed_one = refl

packed_minus_one : (integer builtin heap (negsuc 0) empty_heap).0 ≡ 2 ^ 64 - 1
unfolding integer fits_fixnum fixnum_word
packed_minus_one = refl

first_object : (integer builtin heap (pos (2 ^ 62)) empty_heap).0 ≡ 2 ^ 18
unfolding integer fits_fixnum alloc
first_object = refl

-- 2 ^ -255 is packed to the word of 0.0.
lost : (float builtin heap (3 * 2 ^ 60) empty_heap).0 ≡ (float builtin heap 0 empty_heap).0
unfolding float fits_flonum flonum_word
lost = refl

abbrev seven : unpack heap empty_heap 7 ≡ ok (Rv.integer (pos 3))
unfolding unpack is_packed_value is_packed_fixnum as_packed_fixnum
seven = refl

accessors-unpack_example : Agrees heap empty_heap 7 (Rv.integer (pos 3))
accessors-unpack_example = accessors-unpack heap empty_heap 7 (Rv.integer (pos 3)) seven
