-- ===== src/ArrayInfo/Write.antt =====
-- src/value/array.rs: what `set_elem1` writes.
use Prim.Native.Nat.{max}
use ruruby.Prelude.{
  ℕ, zero, suc, ◌+◌, ◌-◌, ◌^◌, ◌≤◌, ◌<◌, ◌≡◌, refl, ap, sym, ◌∙◌, true, false, List, [], ◌∷◌, ◌++◌,
  Option, none, some, arith, ltb, ◌==◌, if◌then◌else◌, length, get_elem?, set, replicate,
  Bool-cases, inl, inr, length-append, length-set, length-replicate, get_elem?-set_self,
  get_elem?-set_ne, ==→eq, ==→ne, lt→ltb, ge→ltb, ◌%◌,
}
use native.Mathlib.Decide.{dec_lt}
use ruruby.Prelude.Int.{ℤ, pos, negsuc, IsI64, ltb_ℤ}
use ruruby.Prelude.Outcome.{Outcome, ok, err, RubyError}
use ruruby.ArrayInfo.{ValueView, get_array_index, put, set_by_index, set_elem1, expect_integer}
use ruruby.ArrayInfo.Index.{or_nil}

-- The place that an index names, in an array of `len` elements.
abbrev pub position : ℤ → ℕ → Option ℕ
position (pos n) len = some n
position (negsuc n) len = if ltb n len then some (len - 1 - n) else none

module _ (view : ValueView) where
  open view use {Value, nil, as_integer}

  abbrev padded : List Value → ℕ → Value → List Value
  padded v m val = (v ++ replicate m nil) ++ val ∷ []

  padded_elem :
      (v : List Value) (m : ℕ) (val : Value) (j : ℕ)
      → or_nil view (get_elem? (padded v m val) j)
        ≡ (if j == length v + m then val else or_nil view (get_elem? v j))
  padded_elem [] zero val zero = ground arith
  padded_elem [] zero val (suc j) = ground arith
  padded_elem [] (suc m) val zero = ground arith
  padded_elem [] (suc m) val (suc j) = padded_elem [] m val j ∙ ground arith
  padded_elem (x ∷ v) m val zero = ground arith
  padded_elem (x ∷ v) m val (suc j) = padded_elem v m val j ∙ ground arith

  set_elem :
      (v : List Value) (k : ℕ) (val : Value) (j : ℕ)
      → k < length v
      → or_nil view (get_elem? (set v k val) j)
        ≡ (if j == k then val else or_nil view (get_elem? v j))
  set_elem v k val j b = elim (Bool-cases (j == k)) [
    | inl t ↦ rw (t, ==→eq j k t) (ap (or_nil view) (get_elem?-set_self v k val b))
    | inr t ↦ rw t (ap (or_nil view) (get_elem?-set_ne v k j val (λ e. ==→ne j k t (sym e))))
  ]

  -- The vector after a write at `k`.
  pub record IsWritten (v : List Value) (k : ℕ) (val : Value) (w : List Value) : Type 0 where
    pub size : length w ≡ max (length v) (k + 1)
    pub elems :
        (j : ℕ)
        → or_nil view (get_elem? w j) ≡ (if j == k then val else or_nil view (get_elem? v j))

  -- The outcome of a write at a place, or at none.
  abbrev pub Writes : List Value → Value → Option ℕ → Outcome (List Value) → Type 0
  Writes v val none r = r ≡ err RubyError.internal
  Writes v val (some k) r = (w : List Value) × (r ≡ ok w) × IsWritten v k val w

  extended :
      (v : List Value) (n : ℕ) (val : Value)
      → length v ≤ n
      → IsWritten v n val (padded v (n - length v) val)
  extended v n val b =
      let at_end : length v + (n - length v) ≡ n = omega arith in
      record {
        size = omega (
          arith,
          length-append (v ++ replicate (n - length v) nil) (val ∷ []),
          length-append v (replicate (n - length v) nil),
          length-replicate (n - length v) nil,
        );
        elems = λ j.
            padded_elem v (n - length v) val j
            ∙ ap (λ m. if j == m then val else or_nil view (get_elem? v j)) at_end;
      }

  replaced : (v : List Value) (k : ℕ) (val : Value) → k < length v → IsWritten v k val (set v k val)
  replaced v k val b = record {
    size = omega (arith, length-set v k val);
    elems = λ j. set_elem v k val j b;
  }

  put_lem : (v : List Value) (k : ℕ) (val : Value) → k < length v → put v k val ≡ ok (set v k val)
  unfolding put
  put_lem v k val b = rw (lt→ltb k (length v) b) refl

  write_pos :
      (v : List Value) (n : ℕ) (val : Value)
      → n < 2 ^ 64
      → Writes v val (some n) (set_by_index view v (pos n) val)
  unfolding set_by_index get_array_index
  write_pos v n val small = elim (dec_lt n (length v)) [
    | yes h ↦
        let b : ltb_ℤ (pos n) (pos (length v)) ≡ true = ground arith in
        (set v n val, rw (b, set_by_index) (put_lem v n val h), replaced v n val h)
    | no h ↦
        let b : ltb_ℤ (pos n) (pos (length v)) ≡ false = ground arith in
        let m : n % 2 ^ 64 ≡ n = omega arith in
        (padded v (n - length v) val, rw (b, m, set_by_index) refl, extended v n val (omega arith))
  ]

  index_neg : (n len : ℕ) → n < len → get_array_index (negsuc n) len ≡ ok (len - 1 - n)
  unfolding get_array_index
  index_neg n len h = ground arith

  index_low : (n len : ℕ) → len ≤ n → get_array_index (negsuc n) len ≡ err RubyError.internal
  unfolding get_array_index
  index_low n len h = ground arith

  write_neg :
      (v : List Value) (n : ℕ) (val : Value)
      → Writes v val (position (negsuc n) (length v)) (set_by_index view v (negsuc n) val)
  unfolding set_by_index
  write_neg v n val =
      let b : ltb_ℤ (negsuc n) (pos (length v)) ≡ true = ground arith in
      elim (dec_lt n (length v)) [
        | yes h ↦
            let k = length v - 1 - n in
            let low : k < length v = omega arith in
            rw (lt→ltb n (length v) h) (
              set v k val,
              rw (b, index_neg n (length v) h, set_by_index) (put_lem v k val low),
              replaced v k val low,
            )
        | no h ↦
            rw (ge→ltb n (length v) (omega arith))
              (rw (b, index_low n (length v) (omega arith), set_by_index) refl)
      ]

  read_index :
      (v : List Value) (idx : Value) (i : ℤ) (val : Value)
      → as_integer idx ≡ some i
      → set_elem1 view v idx val ≡ set_by_index view v i val
  unfolding set_elem1 expect_integer
  read_index v idx i val e = rw (e, expect_integer, set_elem1) refl

  -- `set_elem1` with an integer, an `i64`, writes one element, the one that the index names. A
  -- write past the end extends the vector with `nil`s up to it; a negative index before the start
  -- is an error.
  pub set_elem1_lem :
      (v : List Value) (idx : Value) (i : ℤ) (val : Value)
      → as_integer idx ≡ some i
      → IsI64 i
      → Writes v val (position i (length v)) (set_elem1 view v idx val)
  set_elem1_lem v idx (pos n) val e b =
      rw (read_index v idx (pos n) val e) (write_pos v n val (omega (arith, b.0)))
  set_elem1_lem v idx (negsuc n) val e b =
      rw (read_index v idx (negsuc n) val e) (write_neg v n val)
