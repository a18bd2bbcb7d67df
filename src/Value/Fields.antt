-- ===== src/Value/Fields.antt =====
-- The words of src/value/value.rs read as fields: each mask, shift and rotation as arithmetic.
use Prim.Native.Nat.{bit_and, bit_or, bit_xor}
use ruruby.Prelude.{
  ℕ, ◌+◌, ◌-◌, ◌*◌, ◌/◌, ◌%◌, ◌^◌, ◌<◌, ◌≡◌, refl, ◌⊎◌, inl, inr, true, ◌||◌, not, arith, ◌==◌,
  if◌then◌else◌,
}
use ruruby.Prelude.Bits.{
  and_fields, or_fields, and_low, and_none, none_or, or_none, for_all_below, for_all_below_sound,
  and_ones,
}
use ruruby.Prelude.Int.{ℤ, pos, negsuc, IsI64, as_u64, as_u64-lt}
use ruruby.Value.{
  is_packed_fixnum, is_packed_num, is_packed_symbol, is_packed_value, as_packed_fixnum,
  as_packed_flonum, zero_flonum, mask1, mask2, rotate_left3, rotate_right3,
}
use ruruby.Value.Pack.{fits_fixnum, fixnum_word, fits_flonum, flonum_word, symbol}

pub is_packed_fixnum_lem : (w : ℕ) → is_packed_fixnum w ≡ (w % 2 == 1)
unfolding is_packed_fixnum
is_packed_fixnum_lem w = ground (arith, and_low 1 w)

pub is_packed_num_lem : (w : ℕ) → is_packed_num w ≡ not (w % 4 == 0)
unfolding is_packed_num
is_packed_num_lem w = ground (arith, and_low 2 w)

pub is_packed_symbol_lem : (w : ℕ) → is_packed_symbol w ≡ (w % 256 == 12)
unfolding is_packed_symbol
is_packed_symbol_lem w = ground (arith, and_low 8 w)

pub is_packed_value_lem : (w : ℕ) → is_packed_value w ≡ not (w % 8 == 0)
unfolding is_packed_value
is_packed_value_lem w = ground (arith, and_low 3 w)

top_table :
    for_all_below 4
      (λ t. if bit_and (bit_xor t (t / 2)) 1 == 0 then t == 0 || t == 3 else t == 1 || t == 2)
    ≡ true
unfolding for_all_below
top_table = refl

pub fits_fixnum_lem :
    (num : ℤ)
    → let t = as_u64 num / 2 ^ 62 in
      (if fits_fixnum num then t == 0 || t == 3 else t == 1 || t == 2) ≡ true
unfolding fits_fixnum
fits_fixnum_lem num = ground (
  arith,
  as_u64-lt num,
  for_all_below_sound 4
      (λ t. if bit_and (bit_xor t (t / 2)) 1 == 0 then t == 0 || t == 3 else t == 1 || t == 2)
      (as_u64 num / 2 ^ 62) top_table,
)

pub fixnum_word_lem : (num : ℤ) → fixnum_word num ≡ as_u64 num * 2 % 2 ^ 64 + 1
unfolding fixnum_word
fixnum_word_lem num =
    let q = as_u64 num % 2 ^ 63 in
    ground (arith, or_fields 1 q 0 0 1 (omega arith) (omega arith), or_none q)

pub symbol_lem : (id : ℕ) → id < 2 ^ 32 → symbol id ≡ id * 2 ^ 32 + 12
unfolding symbol
symbol_lem id h = ground (arith, or_fields 32 id 0 0 12 (omega arith) (omega arith), or_none id)

flonum_table :
    for_all_below 16 (λ q.
      if bit_and (bit_and q 7 + 1) 6 == 4 then q == 3 || q == 4 || q == 11 || q == 12 else true)
    ≡ true
unfolding for_all_below
flonum_table = refl

pub fits_flonum_lem :
    (u : ℕ)
    → u < 2 ^ 64
    → fits_flonum u ≡ true
    → let q = u / 2 ^ 60 in (q == 3 || q == 4 || q == 11 || q == 12) ≡ true
unfolding fits_flonum
fits_flonum_lem u h fits = ground (
  arith,
  for_all_below_sound 16
      (λ q.
        if bit_and (bit_and q 7 + 1) 6 == 4 then q == 3 || q == 4 || q == 11 || q == 12 else true)
      (u / 2 ^ 60) flonum_table,
)

pub flonum_cases :
    (u : ℕ)
    → u < 2 ^ 64
    → fits_flonum u ≡ true
    → (u / 2 ^ 60 ≡ 3) ⊎ (u / 2 ^ 60 ≡ 4) ⊎ (u / 2 ^ 60 ≡ 11) ⊎ (u / 2 ^ 60 ≡ 12)
flonum_cases u h fits = ground (arith, fits_flonum_lem u h fits)

-- The word before the rotation: the four high bits are replaced, the others kept.
masked :
    (q r : ℕ)
    → r < 2 ^ 60
    → bit_or (bit_and (q * 2 ^ 60 + r) mask1) mask2 ≡ bit_or (bit_and q 9) 4 * 2 ^ 60 + r
masked q r h = ground (
  arith,
  and_fields 60 q r 9 (2 ^ 60 - 1) h (omega arith),
  and_ones 60 r h,
  or_fields 60 (bit_and q 9) r 4 0 h (omega arith),
  or_none r,
)

pub flonum_word_lem :
    (q r : ℕ)
    → r < 2 ^ 60
    → flonum_word (q * 2 ^ 60 + r) ≡ rotate_left3 (bit_or (bit_and q 9) 4 * 2 ^ 60 + r)
unfolding flonum_word
flonum_word_lem q r h = rw (masked q r h)

pub as_packed_flonum_lem :
    (w : ℕ)
    → w < 2 ^ 64
    → as_packed_flonum w
      ≡ (if w == zero_flonum then 0 else rotate_right3 (w / 4 * 4 + (2 - w / 2 ^ 63)))
unfolding as_packed_flonum
as_packed_flonum_lem w h =
    let q = w / 4 in
    let sign = 2 - w / 2 ^ 63 in
    ground (
      arith,
      and_low 1 (w / 2 ^ 63),
      and_fields 2 q (w % 4) (2 ^ 62 - 1) 0 (omega arith) (omega arith),
      and_ones 62 q (omega arith),
      and_none (w % 4),
      or_fields 2 q 0 0 sign (omega arith) (omega arith),
      or_none q,
      none_or sign,
    )

-- A flonum decodes to the float that it encodes, but for the pattern that encodes to the word of 0.0.
module _ (r : ℕ) (h : r < 2 ^ 60) where
  flonum_3 :
      as_packed_flonum (flonum_word (3 * 2 ^ 60 + r)) ≡ (if r == 0 then 0 else 3 * 2 ^ 60 + r)
  flonum_3 =
      rw (flonum_word_lem 3 r h) (ground (arith, as_packed_flonum_lem ((2 ^ 60 + r) * 8 + 2)))

  flonum_4 : as_packed_flonum (flonum_word (4 * 2 ^ 60 + r)) ≡ 4 * 2 ^ 60 + r
  flonum_4 = rw (flonum_word_lem 4 r h) (ground (arith, as_packed_flonum_lem (r * 8 + 2)))

  flonum_11 : as_packed_flonum (flonum_word (11 * 2 ^ 60 + r)) ≡ 11 * 2 ^ 60 + r
  flonum_11 =
      rw (flonum_word_lem 11 r h) (ground (arith, as_packed_flonum_lem ((2 ^ 60 + r) * 8 + 6)))

  flonum_12 : as_packed_flonum (flonum_word (12 * 2 ^ 60 + r)) ≡ 12 * 2 ^ 60 + r
  flonum_12 = rw (flonum_word_lem 12 r h) (ground (arith, as_packed_flonum_lem (r * 8 + 6)))

-- The pattern of 2 ^ -255, whose flonum word is the word of 0.0.
abbrev pub lost_pattern : ℕ
lost_pattern = 3 * 2 ^ 60

pub as_packed_flonum-flonum_word :
    (u : ℕ)
    → u < 2 ^ 64
    → fits_flonum u ≡ true
    → as_packed_flonum (flonum_word u) ≡ (if u == lost_pattern then 0 else u)
as_packed_flonum-flonum_word u h fits =
    let r = u % 2 ^ 60 in
    let e : u ≡ u / 2 ^ 60 * 2 ^ 60 + r = omega arith in
    elim (flonum_cases u h fits) [
      | inl q3 ↦ ground (arith, flonum_3 r (omega arith))
      | inr (inl q4) ↦ ground (arith, flonum_4 r (omega arith))
      | inr (inr (inl q11)) ↦ ground (arith, flonum_11 r (omega arith))
      | inr (inr (inr q12)) ↦ ground (arith, flonum_12 r (omega arith))
    ]

pub flonum_word-mod : (u : ℕ) → u < 2 ^ 64 → fits_flonum u ≡ true → flonum_word u % 4 ≡ 2
flonum_word-mod u h fits =
    let r = u % 2 ^ 60 in
    elim (flonum_cases u h fits) [
      | inl q ↦ ground (arith, flonum_word_lem 3 r (omega arith))
      | inr (inl q) ↦ ground (arith, flonum_word_lem 4 r (omega arith))
      | inr (inr (inl q)) ↦ ground (arith, flonum_word_lem 11 r (omega arith))
      | inr (inr (inr q)) ↦ ground (arith, flonum_word_lem 12 r (omega arith))
    ]

-- The sign bit and 62 bits of an integer that fits come back.
pub as_packed_fixnum-fixnum_word :
    (num : ℤ) → IsI64 num → fits_fixnum num ≡ true → as_packed_fixnum (fixnum_word num) ≡ num
unfolding as_packed_fixnum
as_packed_fixnum-fixnum_word (pos n) h fits =
    rw (fixnum_word_lem (pos n)) (ground (arith, fits_fixnum_lem (pos n)))
as_packed_fixnum-fixnum_word (negsuc n) h fits =
    rw (fixnum_word_lem (negsuc n)) (ground (arith, fits_fixnum_lem (negsuc n)))
