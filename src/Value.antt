-- ===== src/Value.antt =====
-- src/value/value.rs and src/value/rvalue.rs: `Value`, a 64-bit word that is a fixnum, a flonum,
-- a symbol, a constant or the address of an `RValue`. The children build, read and relate them.
--
-- A word is a native number below 2 ^ 64. An `f64` is its bit pattern (`f64::to_bits`), and
-- `x == 0.0` holds of the patterns of 0.0 and -0.0. An `i64` is an integer in range.
pub mod Store
pub mod Pack
pub mod Fields
pub mod Classify
pub mod Access
pub mod RoundTrip
pub mod Samples
mod Examples
use Prim.Native.Nat.{bit_and, bit_or}
use ruruby.Prelude.{
  ℕ, suc, ◌+◌, ◌-◌, ◌*◌, ◌/◌, ◌%◌, ◌^◌, Bool, not, ◌&&◌, List, Option, ◌==◌, if◌then◌else◌,
}
use ruruby.Prelude.Int.{ℤ, pos, negsuc, as_i64}

-- The constants of packed values, and the masks of the flonum encoding.
abbrev pub uninitialized_value : ℕ
uninitialized_value = 0x04

abbrev pub tag_symbol : ℕ
tag_symbol = 0x0c

abbrev pub true_value : ℕ
true_value = 0x14

abbrev pub false_value : ℕ
false_value = 0x1c

abbrev pub nil_value : ℕ
nil_value = 0x24

-- !(0b0110 << 60), 0b0100 << 60 and (0b1000 << 60) | 0b10.
abbrev pub mask1 : ℕ
mask1 = 2 ^ 64 - 1 - 6 * 2 ^ 60

abbrev pub mask2 : ℕ
mask2 = 4 * 2 ^ 60

abbrev pub zero_flonum : ℕ
zero_flonum = 8 * 2 ^ 60 + 2

-- `ObjKind`. A part that is a Rust object of another module is an opaque number.
pub data ObjKind : Type 0 where
  invalid ordinary : ObjKind
  integer : ℤ → ObjKind
  float : ℕ → ObjKind
  complex : ℕ → ℕ → ObjKind
  module_obj : ℕ → ObjKind
  string : List ℕ → ObjKind
  array : List ℕ → ObjKind
  range : ℕ → ℕ → Bool → ObjKind
  splat : ℕ → ObjKind
  hash : List (ℕ × ℕ) → ObjKind
  proc regexp method fiber enumerator time exception : ℕ → ObjKind

-- `RValue`: the class (a `Module` is a word), the instance variables, the kind.
pub record RValue : Type 0 where
  pub class : ℕ
  pub var_table : Option (List (ℕ × ℕ))
  pub kind : ObjKind

-- The decoded form `Rv`. `object` holds a reference to the `RValue`, which is its address.
pub data Rv : Type 0 where
  uninitialized nil true_val false_val : Rv
  integer : ℤ → Rv
  float : ℕ → Rv
  symbol : ℕ → Rv
  object : ℕ → Rv

unfoldable pub is_packed_fixnum : ℕ → Bool
is_packed_fixnum w = bit_and w 1 == 1

unfoldable pub is_packed_flonum : ℕ → Bool
is_packed_flonum w = bit_and w 3 == 2

unfoldable pub is_packed_num : ℕ → Bool
is_packed_num w = not (bit_and w 3 == 0)

unfoldable pub is_packed_symbol : ℕ → Bool
is_packed_symbol w = bit_and w 0xff == tag_symbol

unfoldable pub is_packed_value : ℕ → Bool
is_packed_value w = not (bit_and w 7 == 0)

unfoldable pub is_uninitialized : ℕ → Bool
is_uninitialized w = w == uninitialized_value

unfoldable pub is_nil : ℕ → Bool
is_nil w = w == nil_value

unfoldable pub is_false_val : ℕ → Bool
is_false_val w = w == false_value

unfoldable pub to_bool : ℕ → Bool
unfolding is_nil is_false_val is_uninitialized
to_bool w = not (is_nil w) && not (is_false_val w) && not (is_uninitialized w)

-- `>> 1` of an `i64`, which keeps the sign.
abbrev pub shr1 : ℤ → ℤ
shr1 (pos n) = pos (n / 2)
shr1 (negsuc n) = negsuc (n / 2)

unfoldable pub as_packed_fixnum : ℕ → ℤ
as_packed_fixnum w = shr1 (as_i64 w)

abbrev pub rotate_left3 : ℕ → ℕ
rotate_left3 x = x * 8 % 2 ^ 64 + x / 2 ^ 61

abbrev pub rotate_right3 : ℕ → ℕ
rotate_right3 x = x / 8 + x % 8 * 2 ^ 61

unfoldable pub as_packed_flonum : ℕ → ℕ
as_packed_flonum w =
    if w == zero_flonum
    then 0
    else (let bit = 2 - bit_and (w / 2 ^ 63) 1 in
        rotate_right3 (bit_or (bit_and w (2 ^ 64 - 1 - 3)) bit))

unfoldable pub as_packed_symbol : ℕ → ℕ
as_packed_symbol w = w / 2 ^ 32 % 2 ^ 32
