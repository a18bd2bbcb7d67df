-- ===== src/Value/RoundTrip.antt =====
-- `RV::pack` and `Value::unpack` of src/value/value.rs are inverse, but for two floats.
use ruruby.Prelude.{
  ℕ, ◌%◌, ◌^◌, ◌<◌, ◌≡◌, refl, true, false, ◌||◌, arith, ◌==◌, if◌then◌else◌, Bool-cases, inl, inr,
  ap, ==→eq,
}
use ruruby.Prelude.Int.{ℤ, IsI64}
use ruruby.Prelude.Outcome.{ok}
use ruruby.Value.{
  ObjKind, RValue, Rv, as_packed_fixnum, as_packed_flonum, as_packed_symbol, is_packed_value,
  is_packed_fixnum, is_packed_num, is_packed_symbol, zero_flonum, nil_value, true_value,
  false_value, uninitialized_value,
}
use ruruby.Value.Store.{ObjectStore, IsAddress}
use ruruby.Value.Pack.{
  BuiltinClass, new_integer, new_float, integer, float, symbol, pack, unpack, unpack_object,
  fits_fixnum, fixnum_word, fits_flonum, flonum_word, is_zero_f64,
}
use ruruby.Value.Fields.{
  is_packed_fixnum_lem, is_packed_num_lem, is_packed_symbol_lem, is_packed_value_lem,
  fixnum_word_lem, flonum_word-mod, as_packed_fixnum-fixnum_word, as_packed_flonum-flonum_word,
  symbol_lem, lost_pattern,
}

-- What a float reads as once packed: -0.0 loses its sign, and 2 ^ -255 becomes 0.0.
abbrev pub stored_float : ℕ → ℕ
stored_float u = if u == 2 ^ 63 || u == lost_pattern then 0 else u

abbrev pub stored : Rv → Rv
stored (Rv.float u) = Rv.float (stored_float u)
stored rv = rv

abbrev pub IsObject : ObjKind → Type 0
IsObject ObjKind.invalid = ⊥
IsObject (ObjKind.integer i) = ⊥
IsObject (ObjKind.float f) = ⊥
IsObject _ = Unit

stored_zero : (u : ℕ) → is_zero_f64 u ≡ true → stored_float u ≡ 0
stored_zero u z = ground arith

stored_flonum :
    (u : ℕ) → is_zero_f64 u ≡ false → stored_float u ≡ (if u == lost_pattern then 0 else u)
stored_flonum u z = ground arith

lost-fits : fits_flonum lost_pattern ≡ true
unfolding fits_flonum
lost-fits = refl

stored_large : (u : ℕ) → is_zero_f64 u ≡ false → fits_flonum u ≡ false → stored_float u ≡ u
stored_large u z large = elim (Bool-cases (u == lost_pattern)) [
  | inl e ↦ cc (ap fits_flonum (==→eq u lost_pattern e), lost-fits)
  | inr e ↦ ground arith
]

module _ (h : ObjectStore) where
  open h use {Store, IsReady, alloc, read}

  -- The low bits of a word decide how it is read.
  module _ (s : Store) (w : ℕ) where
    pub unpack_fixnum : w % 2 ≡ 1 → unpack h s w ≡ ok (Rv.integer (as_packed_fixnum w))
    unfolding unpack
    unpack_fixnum e = ground (arith, is_packed_value_lem w, is_packed_fixnum_lem w)

    unpack_flonum : w % 4 ≡ 2 → unpack h s w ≡ ok (Rv.float (as_packed_flonum w))
    unfolding unpack
    unpack_flonum e =
        ground (arith, is_packed_value_lem w, is_packed_fixnum_lem w, is_packed_num_lem w)

    unpack_low_symbol : w % 256 ≡ 12 → unpack h s w ≡ ok (Rv.symbol (as_packed_symbol w))
    unfolding unpack
    unpack_low_symbol e = ground (
      arith,
      is_packed_value_lem w,
      is_packed_fixnum_lem w,
      is_packed_num_lem w,
      is_packed_symbol_lem w,
    )

    unpack_address : w % 8 ≡ 0 → unpack h s w ≡ unpack_object h (read s w).kind w
    unfolding unpack
    unpack_address e = ground (arith, is_packed_value_lem w)

  -- An integer is an i64, a float a 64-bit pattern, a symbol a u32, and an object lies at an
  -- address where the store holds neither a number nor a freed cell.
  abbrev pub IsValid : Store → Rv → Type 0
  IsValid s (Rv.integer i) = IsI64 i
  IsValid s (Rv.float u) = u < 2 ^ 64
  IsValid s (Rv.symbol id) = id < 2 ^ 32
  IsValid s (Rv.object p) = IsAddress p × IsObject (read s p).kind
  IsValid s _ = Unit

  unpack_kept : (k : ObjKind) (w : ℕ) → IsObject k → unpack_object h k w ≡ ok (Rv.object w)
  unpack_kept ObjKind.invalid w o = absurd o
  unpack_kept (ObjKind.integer i) w o = absurd o
  unpack_kept (ObjKind.float f) w o = absurd o
  unpack_kept _ w o = refl

  module _ (b : BuiltinClass) (s : Store) (ready : IsReady s) where
    abbrev Reads : ℕ × Store → Rv → Type 0
    Reads r rv = unpack h r.1 r.0 ≡ ok rv

    boxed :
        (v : RValue) (rv : Rv) → unpack_object h v.kind (alloc v s).0 ≡ ok rv → Reads (alloc v s) rv
    boxed v rv e =
        let a = h.alloc-IsAddress v s ready in
        rw (unpack_address (alloc v s).1 (alloc v s).0 (omega arith), h.read-alloc v s ready) e

    pub unpack-integer : (i : ℤ) → IsI64 i → Reads (integer b h i s) (Rv.integer i)
    unfolding integer
    unpack-integer i v = elim (Bool-cases (fits_fixnum i)) [
      | inl fits ↦
          rw (fits, unpack_fixnum s (fixnum_word i) (omega (arith, fixnum_word_lem i)))
            (rw (as_packed_fixnum-fixnum_word i v fits))
      | inr large ↦ rw large (boxed (new_integer b i) (Rv.integer i) refl)
    ]

    unpack-float : (u : ℕ) → u < 2 ^ 64 → Reads (float b h u s) (Rv.float (stored_float u))
    unfolding float
    unpack-float u v = elim (Bool-cases (is_zero_f64 u)) [
      | inl z ↦
          rw (z, unpack_flonum s zero_flonum refl)
            (rw (stored_zero u z) (unfold as_packed_flonum in refl))
      | inr nz ↦ elim (Bool-cases (fits_flonum u)) [
        | inl fits ↦
            rw (nz, fits, unpack_flonum s (flonum_word u) (flonum_word-mod u v fits))
              (rw (stored_flonum u nz, as_packed_flonum-flonum_word u v fits))
        | inr large ↦ rw (nz, large) (boxed (new_float b u) _ (rw (stored_large u nz large)))
      ]
    ]

    unpack-symbol : (id : ℕ) → id < 2 ^ 32 → unpack h s (symbol id) ≡ ok (Rv.symbol id)
    unpack-symbol id v =
        rw (unpack_low_symbol s (symbol id) (omega (arith, symbol_lem id v)))
          (unfold as_packed_symbol in ground (arith, symbol_lem id v))

    unpack_constants :
        (unpack h s nil_value ≡ ok Rv.nil)
        × (unpack h s true_value ≡ ok Rv.true_val)
        × (unpack h s false_value ≡ ok Rv.false_val)
        × (unpack h s uninitialized_value ≡ ok Rv.uninitialized)
    unfolding unpack is_packed_value is_packed_fixnum is_packed_num is_packed_symbol
    unpack_constants = (refl, refl, refl, refl)

    -- Every valid `RV` that is packed, on a heap that can allocate, unpacks to itself, on every
    -- branch, with two exceptions among the floats: -0.0 and 2 ^ -255 unpack to 0.0.
    pub unpack-pack :
        (rv : Rv) → IsValid s rv → unpack h (pack b h rv s).1 (pack b h rv s).0 ≡ ok (stored rv)
    unfolding pack
    unpack-pack (Rv.integer i) v = unpack-integer i v
    unpack-pack (Rv.float u) v = unpack-float u v
    unpack-pack (Rv.symbol id) v = unpack-symbol id v
    unpack-pack (Rv.object p) v =
        rw (unpack_address s p (omega arith)) (unpack_kept (read s p).kind p v.1)
    unpack-pack Rv.nil v = unpack_constants.0
    unpack-pack Rv.true_val v = unpack_constants.1
    unpack-pack Rv.false_val v = unpack_constants.2
    unpack-pack Rv.uninitialized v = unpack_constants.3
