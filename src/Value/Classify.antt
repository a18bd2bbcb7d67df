-- ===== src/Value/Classify.antt =====
-- src/value/value.rs: which integers are packed, and the truth value of a packed word.
use ruruby.Prelude.{
  ℕ, ◌%◌, ◌^◌, ◌<◌, ◌≤◌, ◌≡◌, refl, ◌↔◌, ◌⊎◌, Bool, true, false, arith, Bool-cases, inl, inr,
}
use ruruby.Prelude.Int.{ℤ, pos, negsuc, IsI64, pos_part, neg_part}
use ruruby.Value.{Rv, RValue, to_bool, zero_flonum}
use ruruby.Value.Store.{ObjectStore}
use ruruby.Value.Pack.{
  BuiltinClass, new_integer, new_float, integer, float, symbol, pack, fits_fixnum, fixnum_word,
  fits_flonum, flonum_word, is_zero_f64,
}
use ruruby.Value.Fields.{fits_fixnum_lem, fixnum_word_lem, flonum_word-mod, symbol_lem}
use ruruby.Value.RoundTrip.{IsValid}

-- An i64 is packed exactly when it lies in -2 ^ 62 .. 2 ^ 62 - 1; no other is, and none of these is
-- allocated.
pub fits_fixnum_iff :
    (i : ℤ) → IsI64 i → (fits_fixnum i ≡ true) ↔ ((pos_part i < 2 ^ 62) × (neg_part i ≤ 2 ^ 62))
fits_fixnum_iff (pos n) h = ground (arith, fits_fixnum_lem (pos n))
fits_fixnum_iff (negsuc n) h = ground (arith, fits_fixnum_lem (negsuc n))

-- Ruby's truth: all but `nil`, `false` and the internal `Uninitialized`.
abbrev pub is_truthy : Rv → Bool
is_truthy Rv.nil = false
is_truthy Rv.false_val = false
is_truthy Rv.uninitialized = false
is_truthy _ = true

to_bool_low :
    (w : ℕ) → ((w % 4 ≡ 2) ⊎ (w % 2 ≡ 1)) ⊎ ((w % 64 ≡ 0) ⊎ (w % 256 ≡ 12)) → to_bool w ≡ true
unfolding to_bool
to_bool_low w (inl (inl e)) = ground arith
to_bool_low w (inl (inr e)) = ground arith
to_bool_low w (inr (inl e)) = ground arith
to_bool_low w (inr (inr e)) = ground arith

module _ (b : BuiltinClass) (h : ObjectStore) (s : h.Store) (ready : h.IsReady s) where
  boxed : (v : RValue) → to_bool (h.alloc v s).0 ≡ true
  boxed v = to_bool_low _ (inr (inl (h.alloc-IsAddress v s ready).1))

  to_bool-integer : (i : ℤ) → to_bool (integer b h i s).0 ≡ true
  unfolding integer
  to_bool-integer i = elim (Bool-cases (fits_fixnum i)) [
    | inl fits ↦
        rw fits (to_bool_low (fixnum_word i) (inl (inr (omega (arith, fixnum_word_lem i)))))
    | inr large ↦ rw large (boxed (new_integer b i))
  ]

  to_bool-float : (u : ℕ) → u < 2 ^ 64 → to_bool (float b h u s).0 ≡ true
  unfolding float
  to_bool-float u v = elim (Bool-cases (is_zero_f64 u)) [
    | inl z ↦ rw z (to_bool_low zero_flonum (inl (inl refl)))
    | inr nz ↦ elim (Bool-cases (fits_flonum u)) [
      | inl fits ↦
          rw (nz, fits) (to_bool_low (flonum_word u) (inl (inl (flonum_word-mod u v fits))))
      | inr large ↦ rw (nz, large) (boxed (new_float b u))
    ]
  ]

  -- The truth of a packed value is that of the value: 0, 0.0, symbols and all objects are true, and
  -- just `nil`, `false` and `Uninitialized` are not.
  pub to_bool-pack : (rv : Rv) → IsValid h s rv → to_bool (pack b h rv s).0 ≡ is_truthy rv
  unfolding pack
  to_bool-pack (Rv.integer i) v = to_bool-integer i
  to_bool-pack (Rv.float u) v = to_bool-float u v
  to_bool-pack (Rv.symbol id) v =
      to_bool_low (symbol id) (inr (inr (omega (arith, symbol_lem id v))))
  to_bool-pack (Rv.object p) v = to_bool_low p (inr (inl v.0.1))
  to_bool-pack Rv.true_val v = unfold to_bool in refl
  to_bool-pack Rv.nil v = unfold to_bool in refl
  to_bool-pack Rv.false_val v = unfold to_bool in refl
  to_bool-pack Rv.uninitialized v = unfold to_bool in refl
