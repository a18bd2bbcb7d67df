-- ===== src/Value/Pack.antt =====
-- src/value/value.rs: the constructors of `Value`, `RV::pack` and `Value::unpack`.
use Prim.Native.Nat.{bit_and, bit_or, bit_xor}
use ruruby.Prelude.{ℕ, ◌+◌, ◌*◌, ◌/◌, ◌%◌, ◌^◌, Bool, true, false, ◌||◌, none, ◌==◌, if◌then◌else◌}
use ruruby.Prelude.Int.{ℤ, as_u64}
use ruruby.Prelude.Outcome.{Outcome, ok, panic}
use ruruby.Value.{
  ObjKind, RValue, Rv, uninitialized_value, tag_symbol, true_value, false_value, nil_value, mask1,
  mask2, zero_flonum, rotate_left3, is_packed_fixnum, is_packed_num, is_packed_symbol,
  is_packed_value, as_packed_fixnum, as_packed_flonum, as_packed_symbol,
}
use ruruby.Value.Store.{ObjectStore}

-- `BuiltinClass`: the classes that the interpreter creates at startup.
pub record BuiltinClass : Type 0 where
  pub integer : ℕ
  pub float : ℕ

abbrev pub new_integer : BuiltinClass → ℤ → RValue
new_integer b i = record { class = b.integer; var_table = none; kind = ObjKind.integer i }

abbrev pub new_float : BuiltinClass → ℕ → RValue
new_float b f = record { class = b.float; var_table = none; kind = ObjKind.float f }

abbrev pub bool : Bool → ℕ
bool true = true_value
bool false = false_value

unfoldable pub symbol : ℕ → ℕ
symbol id = bit_or (id * 2 ^ 32 % 2 ^ 64) tag_symbol

-- The test of `Value::integer`: bits 62 and 63 agree.
unfoldable pub fits_fixnum : ℤ → Bool
fits_fixnum num =
    let top = bit_xor (as_u64 num / 2 ^ 62) (as_u64 num / 2 ^ 63) in bit_and top 1 == 0

unfoldable pub fixnum_word : ℤ → ℕ
fixnum_word num = bit_or (as_u64 num * 2 % 2 ^ 64) 1

-- `num == 0.0`.
abbrev pub is_zero_f64 : ℕ → Bool
is_zero_f64 u = u == 0 || u == 2 ^ 63

-- The test of `Value::float` on the three exponent bits below the highest.
unfoldable pub fits_flonum : ℕ → Bool
fits_flonum u = let exp = bit_and (u / 2 ^ 60) 7 + 1 in bit_and exp 6 == 4

unfoldable pub flonum_word : ℕ → ℕ
flonum_word u = rotate_left3 (bit_or (bit_and u mask1) mask2)

module _ (b : BuiltinClass) (h : ObjectStore) where
  open h use {Store, alloc, read}

  unfoldable pub integer : ℤ → Store → ℕ × Store
  integer num s = if fits_fixnum num then (fixnum_word num, s) else alloc (new_integer b num) s

  unfoldable pub float : ℕ → Store → ℕ × Store
  float u s =
      if is_zero_f64 u
      then (zero_flonum, s)
      else (if fits_flonum u then (flonum_word u, s) else alloc (new_float b u) s)

  unfoldable pub pack : Rv → Store → ℕ × Store
  pack Rv.uninitialized s = (uninitialized_value, s)
  pack Rv.nil s = (nil_value, s)
  pack Rv.true_val s = (true_value, s)
  pack Rv.false_val s = (false_value, s)
  pack (Rv.integer num) s = integer num s
  pack (Rv.float num) s = float num s
  pack (Rv.symbol id) s = (symbol id, s)
  pack (Rv.object info) s = (info, s)

module _ (h : ObjectStore) where
  open h use {Store, read}

  -- The branch of `unpack` for an address.
  abbrev pub unpack_object : ObjKind → ℕ → Outcome Rv
  unpack_object ObjKind.invalid w = panic
  unpack_object (ObjKind.integer i) w = ok (Rv.integer i)
  unpack_object (ObjKind.float f) w = ok (Rv.float f)
  unpack_object _ w = ok (Rv.object w)

  -- The branch of `unpack` for the constants; any other word is unreachable.
  abbrev pub unpack_constant : ℕ → Outcome Rv
  unpack_constant w =
      if w == nil_value
      then ok Rv.nil
      else (if w == true_value
          then ok Rv.true_val
          else (if w == false_value
              then ok Rv.false_val
              else (if w == uninitialized_value then ok Rv.uninitialized else panic)))

  unfoldable pub unpack : Store → ℕ → Outcome Rv
  unpack s w =
      if is_packed_value w
      then (if is_packed_fixnum w
          then ok (Rv.integer (as_packed_fixnum w))
          else (if is_packed_num w
              then ok (Rv.float (as_packed_flonum w))
              else (if is_packed_symbol w
                  then ok (Rv.symbol (as_packed_symbol w))
                  else unpack_constant w)))
      else unpack_object (read s w).kind w
