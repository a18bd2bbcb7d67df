-- ===== src/Operators/Exact.antt =====
-- src/vm/executor.rs: sums, differences and products of fixnums.
use ruruby.Prelude.{
  ℕ, ◌^◌, ◌<◌, ◌≤◌, ◌≡◌, refl, ◌∙◌, true, false, arith, if◌then◌else◌, Bool-cases, inl, inr,
}
use ruruby.Prelude.Int.{ℤ, pos_part, neg_part, ◌+ℤ◌, IsI64, as_i64, as_u64}
use ruruby.Prelude.Outcome.{ok}
use ruruby.Value.{Rv, is_packed_fixnum, as_packed_fixnum}
use ruruby.Value.Fields.{is_packed_fixnum_lem, fixnum_word_lem, as_packed_fixnum-fixnum_word}
use ruruby.Value.Pack.{integer, fixnum_word, unpack}
use ruruby.Value.Classify.{fits_fixnum_iff}
use ruruby.Value.RoundTrip.{unpack-integer}
use ruruby.Value.Store.{ObjectStore}
use ruruby.Vm.{Exec, returns, panics, ◌>>=◌}
use ruruby.Operators.{Machine}
use ruruby.Operators.Integers.{◌-ℤ◌, ◌*ℤ◌, fits_i64, i64_result}
use ruruby.Operators.Arith.{Store, new_integer, wrapped, eval_op, eval_add, eval_sub, eval_mul}

-- An integer of 63 bits, which a word holds.
abbrev pub IsFixnum : ℤ → Type 0
IsFixnum i = (pos_part i < 2 ^ 62) × (neg_part i ≤ 2 ^ 62)

pub IsFixnum-IsI64 : (i : ℤ) → IsFixnum i → IsI64 i
IsFixnum-IsI64 i h = (omega arith, omega arith)

pub fixnum-read : (i : ℤ) → IsFixnum i → as_packed_fixnum (fixnum_word i) ≡ i
fixnum-read i h =
    let v = IsFixnum-IsI64 i h in as_packed_fixnum-fixnum_word i v ((fits_fixnum_iff i v).1 h)

pub fixnum-packed : (i : ℤ) → is_packed_fixnum (fixnum_word i) ≡ true
fixnum-packed i = ground (arith, is_packed_fixnum_lem (fixnum_word i), fixnum_word_lem i)

pub fits_i64-IsI64 : (i : ℤ) → IsI64 i → fits_i64 i ≡ true
fits_i64-IsI64 i h = ground arith

module _ (p : Machine) where
  open p use {heap, builtin, overflow_checks}

  -- The operator returns this integer, as `Value::integer` builds it.
  abbrev pub Gives : Exec (Store p) ℕ → ℤ → ObjectStore.Store heap → Type 0
  Gives m i s =
      let r = integer builtin heap i s in
      (m s ≡ returns r.0 r.1) × (unpack heap r.1 r.0 ≡ ok (Rv.integer i))

  pub wrapped-exact : (i : ℤ) (s : Store p) → IsI64 i → wrapped p i s ≡ new_integer p i s
  unfolding wrapped i64_result ◌>>=◌
  wrapped-exact i s h = rw (fits_i64-IsI64 i h, ◌>>=◌, wrapped, i64_result) refl

  pub eval_op-fixnums :
      (op : ℤ → ℤ → ℤ) (f_op : ℕ → ℕ → ℕ) (id : ℕ) (i j : ℤ) (s : Store p)
      → IsFixnum i
      → IsFixnum j
      → eval_op p op f_op id (fixnum_word j) (fixnum_word i) s ≡ wrapped p (op i j) s
  unfolding eval_op
  eval_op-fixnums op f_op id i j s hi hj =
      rw (fixnum-packed i, fixnum-packed j, fixnum-read i hi, fixnum-read j hj, eval_op) refl

  pub Gives-wrapped :
      (m : Exec (Store p) ℕ) (i : ℤ) (s : Store p)
      → heap.IsReady s
      → IsI64 i
      → m s ≡ wrapped p i s
      → Gives m i s
  unfolding new_integer
  Gives-wrapped m i s ready h e = (e ∙ wrapped-exact i s h, unpack-integer heap builtin s ready i h)

  -- The sum and the difference of two fixnums are exact, with and without overflow checks: they never
  -- overflow an `i64`, and where they are no fixnums they are boxed. The value read back is the sum or
  -- the difference.
  pub eval_add-eval_sub :
      (i j : ℤ) (s : Store p)
      → heap.IsReady s
      → IsFixnum i
      → IsFixnum j
      → Gives (eval_add p (fixnum_word j) (fixnum_word i)) (i +ℤ j) s
        × Gives (eval_sub p (fixnum_word j) (fixnum_word i)) (i -ℤ j) s
  unfolding eval_add eval_sub
  eval_add-eval_sub i j s ready hi hj = (
    Gives-wrapped (eval_add p (fixnum_word j) (fixnum_word i)) (i +ℤ j) s ready
        (ground arith, ground arith) (eval_op-fixnums ◌+ℤ◌ p.f64.add 5 i j s hi hj),
    Gives-wrapped (eval_sub p (fixnum_word j) (fixnum_word i)) (i -ℤ j) s ready
        (ground arith, ground arith) (eval_op-fixnums ◌-ℤ◌ p.f64.sub 6 i j s hi hj),
  )

  -- The product of two fixnums is exact where it is an i64. Where it is none, a build with overflow
  -- checks panics, and one without goes on with the product modulo 2 ^ 64.
  pub eval_mul-overflow :
      (i j : ℤ) (s : Store p)
      → heap.IsReady s
      → IsFixnum i
      → IsFixnum j
      → (IsI64 (i *ℤ j) → Gives (eval_mul p (fixnum_word j) (fixnum_word i)) (i *ℤ j) s)
        × (fits_i64 (i *ℤ j) ≡ false
            → eval_mul p (fixnum_word j) (fixnum_word i) s
              ≡ (if overflow_checks then panics else new_integer p (as_i64 (as_u64 (i *ℤ j))) s))
  unfolding eval_mul wrapped i64_result ◌>>=◌
  eval_mul-overflow i j s ready hi hj =
      let e = eval_op-fixnums ◌*ℤ◌ p.f64.mul 7 i j s hi hj in
      (
        λ h. Gives-wrapped (eval_mul p (fixnum_word j) (fixnum_word i)) (i *ℤ j) s ready h e,
        λ n. e ∙ elim (Bool-cases overflow_checks) [
          | inl c ↦ rw (c, n, ◌>>=◌, wrapped, i64_result) refl
          | inr c ↦ rw (c, n, ◌>>=◌, wrapped, i64_result) refl
        ],
      )
