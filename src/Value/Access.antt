-- ===== src/Value/Access.antt =====
-- src/value/value.rs: the accessors that test a word and read it.
use ruruby.Prelude.{
  ℕ, ◌%◌, ◌≡◌, refl, subst, sym, ◌∙◌, Bool, true, false, Option, none, some, arith, ◌==◌,
  if◌then◌else◌, Bool-cases, inl, inr,
}
use ruruby.Prelude.Int.{ℤ, pos}
use ruruby.Prelude.Outcome.{Outcome, ok, err, RubyError, ◌>>=◌}
use ruruby.Value.{
  ObjKind, RValue, Rv, nil_value, true_value, false_value, uninitialized_value, is_packed_value,
  is_packed_fixnum, is_packed_num, is_packed_flonum, is_packed_symbol, as_packed_fixnum,
  as_packed_flonum, as_packed_symbol,
}
use ruruby.Value.Store.{ObjectStore}
use ruruby.Prelude.Bits.{and_low}
use ruruby.Value.Fields.{is_packed_fixnum_lem, is_packed_num_lem, is_packed_value_lem}
use ruruby.Value.Pack.{unpack, unpack_object, unpack_constant, is_zero_f64}

is_packed_flonum_lem : (w : ℕ) → is_packed_flonum w ≡ (w % 4 == 2)
unfolding is_packed_flonum
is_packed_flonum_lem w = ground (arith, and_low 2 w)

module _ (h : ObjectStore) where
  open h use {Store, read}

  unfoldable pub as_rvalue : Store → ℕ → Option RValue
  unfolding is_packed_value
  as_rvalue s w = if is_packed_value w then none else some (read s w)

  unfoldable pub as_integer : Store → ℕ → Option ℤ
  unfolding as_rvalue
  as_integer s w = if is_packed_fixnum w then some (as_packed_fixnum w) else elim (as_rvalue s w) [
    | none ↦ none
    | some info ↦ elim info.kind [ ObjKind.integer i ↦ some i | _ ↦ none ]
  ]

  unfoldable pub as_float : Store → ℕ → Option ℕ
  unfolding as_rvalue
  as_float s w = if is_packed_flonum w then some (as_packed_flonum w) else elim (as_rvalue s w) [
    | none ↦ none
    | some info ↦ elim info.kind [ ObjKind.float f ↦ some f | _ ↦ none ]
  ]

  unfoldable pub as_symbol : ℕ → Option ℕ
  as_symbol w = if is_packed_symbol w then some (as_packed_symbol w) else none

  -- The tests that unpack; a word that does not unpack panics.
  unfoldable pub is_real : Store → ℕ → Outcome Bool
  is_real s w = unpack h s w >>= λ rv. elim rv [
    | Rv.float _ ↦ ok true
    | Rv.integer _ ↦ ok true
    | _ ↦ ok false
  ]

  unfoldable pub is_zero : Store → ℕ → Outcome Bool
  is_zero s w = unpack h s w >>= λ rv. elim rv [
    | Rv.float f ↦ ok (is_zero_f64 f)
    | Rv.integer (pos n) ↦ ok (n == 0)
    | _ ↦ ok false
  ]

  -- `expect_integer`; `trunc` is `f.trunc() as i64`.
  unfoldable pub expect_i64 : (ℕ → ℤ) → Store → ℕ → Outcome ℤ
  expect_i64 trunc s w = unpack h s w >>= λ rv. elim rv [
    | Rv.integer i ↦ ok i
    | Rv.float f ↦ ok (trunc f)
    | _ ↦ err RubyError.typeerr
  ]

  unfoldable pub expect_flonum : Store → ℕ → Outcome ℕ
  unfolding as_float
  expect_flonum s w = elim (as_float s w) [ some f ↦ ok f | none ↦ err RubyError.typeerr ]

  -- What an unpacked value is to `as_integer`, and to `as_float`.
  abbrev pub integer_of : Rv → Option ℤ
  integer_of (Rv.integer i) = some i
  integer_of _ = none

  abbrev pub float_of : Rv → Option ℕ
  float_of (Rv.float f) = some f
  float_of _ = none

  abbrev pub Agrees : Store → ℕ → Rv → Type 0
  Agrees s w rv = (as_integer s w ≡ integer_of rv) × (as_float s w ≡ float_of rv)

  abbrev kind_integer : ObjKind → Option ℤ
  kind_integer k = elim k [ ObjKind.integer i ↦ some i | _ ↦ none ]

  abbrev kind_float : ObjKind → Option ℕ
  kind_float k = elim k [ ObjKind.float f ↦ some f | _ ↦ none ]

  kinds_agree :
      (k : ObjKind) (w : ℕ) (rv : Rv)
      → unpack_object h k w ≡ ok rv
      → (kind_integer k ≡ integer_of rv) × (kind_float k ≡ float_of rv)
  kinds_agree ObjKind.invalid w rv e = cc e
  kinds_agree (ObjKind.integer i) w rv e = let q : Rv.integer i ≡ rv = cc e in rw (← q) (refl, refl)
  kinds_agree (ObjKind.float f) w rv e = let q : Rv.float f ≡ rv = cc e in rw (← q) (refl, refl)
  kinds_agree _ w rv e = let q : Rv.object w ≡ rv = cc e in rw (← q) (refl, refl)

  -- No number is unpacked.
  abbrev IsPlain : Outcome Rv → Type 0
  IsPlain (ok rv) = (integer_of rv ≡ none) × (float_of rv ≡ none)
  IsPlain _ = Unit

  if_IsPlain : (b : Bool) (x y : Outcome Rv) → IsPlain x → IsPlain y → IsPlain (if b then x else y)
  if_IsPlain true x y p q = p
  if_IsPlain false x y p q = q

  constants-IsPlain : (w : ℕ) → IsPlain (unpack_constant h w)
  constants-IsPlain w =
      if_IsPlain (w == nil_value) _ _ (refl, refl)
        (if_IsPlain (w == true_value) _ _ (refl, refl)
          (if_IsPlain (w == false_value) _ _ (refl, refl)
            (if_IsPlain (w == uninitialized_value) _ _ (refl, refl) tt)))

  module _ (s : Store) (w : ℕ) where
    fixnum-Agrees : is_packed_fixnum w ≡ true → Agrees s w (Rv.integer (as_packed_fixnum w))
    unfolding as_integer as_float as_rvalue
    fixnum-Agrees f =
        let nf : is_packed_flonum w ≡ false =
          ground (arith, is_packed_flonum_lem w, is_packed_fixnum_lem w) in
        let v : is_packed_value w ≡ true =
          ground (arith, is_packed_value_lem w, is_packed_fixnum_lem w) in
        (rw (f, as_integer) refl, rw (nf, v, as_float, as_rvalue) refl)

    flonum-Agrees :
        is_packed_fixnum w ≡ false
        → is_packed_num w ≡ true
        → Agrees s w (Rv.float (as_packed_flonum w))
    unfolding as_integer as_float as_rvalue
    flonum-Agrees f n =
        let nf : is_packed_flonum w ≡ true =
          ground (arith, is_packed_flonum_lem w, is_packed_fixnum_lem w, is_packed_num_lem w) in
        let v : is_packed_value w ≡ true =
          ground (arith, is_packed_value_lem w, is_packed_num_lem w) in
        (rw (f, v, as_integer, as_rvalue) refl, rw (nf, as_float) refl)

    neither :
        is_packed_fixnum w ≡ false
        → is_packed_num w ≡ false
        → is_packed_value w ≡ true
        → (as_integer s w ≡ none) × (as_float s w ≡ none)
    unfolding as_integer as_float as_rvalue
    neither f n v =
        let nf : is_packed_flonum w ≡ false =
          ground (arith, is_packed_flonum_lem w, is_packed_num_lem w) in
        (rw (f, v, as_integer, as_rvalue) refl, rw (nf, v, as_float, as_rvalue) refl)

    heap-Agrees :
        (rv : Rv)
        → is_packed_value w ≡ false
        → unpack_object h (read s w).kind w ≡ ok rv
        → Agrees s w rv
    unfolding as_integer as_float as_rvalue
    heap-Agrees rv v e =
        let f : is_packed_fixnum w ≡ false =
          ground (arith, is_packed_value_lem w, is_packed_fixnum_lem w) in
        let nf : is_packed_flonum w ≡ false =
          ground (arith, is_packed_flonum_lem w, is_packed_value_lem w) in
        let k = kinds_agree (read s w).kind w rv e in
        (rw (f, v, as_integer, as_rvalue) k.0, rw (nf, v, as_float, as_rvalue) k.1)

    -- Where a word unpacks, `as_integer` and `as_float` answer the number that it unpacks to, and
    -- nothing for any other value.
    pub accessors-unpack : (rv : Rv) → unpack h s w ≡ ok rv → Agrees s w rv
    unfolding unpack
    accessors-unpack rv e = elim (Bool-cases (is_packed_value w)) [
      | inr v ↦ heap-Agrees rv v (rw (v, unpack) at e)
      | inl v ↦ elim (Bool-cases (is_packed_fixnum w)) [
        | inl f ↦
            let q = rw (v, f, unpack) at e in
            let r : Rv.integer (as_packed_fixnum w) ≡ rv = cc q in
            subst (Agrees s w) r (fixnum-Agrees f)
        | inr f ↦ elim (Bool-cases (is_packed_num w)) [
          | inl n ↦
              let q = rw (v, f, n, unpack) at e in
              let r : Rv.float (as_packed_flonum w) ≡ rv = cc q in
              subst (Agrees s w) r (flonum-Agrees f n)
          | inr n ↦
              let q = rw (v, f, n, unpack) at e in
              let both = neither f n v in
              let p : IsPlain (ok rv) =
                subst IsPlain q
                  (if_IsPlain (is_packed_symbol w) _ _ (refl, refl) (constants-IsPlain w)) in
              (both.0 ∙ sym p.0, both.1 ∙ sym p.1)
        ]
      ]
    ]
