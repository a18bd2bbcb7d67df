-- ===== src/ArrayInfo/Index.antt =====
-- src/value/array.rs: which element an index reads.
use ruruby.Prelude.{
  ℕ, suc, ◌-◌, ◌≤◌, ◌<◌, ◌≡◌, refl, ap, ◌∙◌, List, [], ◌∷◌, ◌++◌, Option, none, some, arith, leb,
  if◌then◌else◌, length, get_elem?, Option-cases, inl, inr, length-append, get_elem?-none,
  get_elem?-lt, get_elem?-append_left, get_elem?-append_self, get_elem?-beyond, le→leb, gt→leb,
}
use ruruby.Prelude.Int.{ℤ, pos, negsuc}
use ruruby.Prelude.Outcome.{ok, ◌>>=◌}
use native.Mathlib.Decide.{dec_lt}
use ruruby.ArrayInfo.{ValueView, Answer, get_array_index, unwrap_or, at, get_by_index, get_elem1}

abbrev pub reverse : {A : Type 0} → List A → List A
reverse [] = []
reverse (x ∷ xs) = reverse xs ++ x ∷ []

length-reverse : {A : Type 0} (xs : List A) → length (reverse xs) ≡ length xs
length-reverse [] = refl
length-reverse (x ∷ xs) = omega (arith, length-append (reverse xs) (x ∷ []), length-reverse xs)

get_elem?-reverse :
    {A : Type 0} (xs : List A) (n : ℕ)
    → n < length xs
    → get_elem? (reverse xs) n ≡ get_elem? xs (length xs - 1 - n)
get_elem?-reverse [] n b = absurd (omega arith)
get_elem?-reverse (x ∷ xs) n b = elim (dec_lt n (length xs)) [
  | yes h ↦
      let e : suc (length xs) - 1 - n ≡ suc (length xs - 1 - n) = omega arith in
      rw (get_elem?-append_left (reverse xs) (x ∷ []) n (omega (arith, length-reverse xs)), e)
        (get_elem?-reverse xs n h)
  | no h ↦
      let i : n ≡ length (reverse xs) = omega (arith, length-reverse xs) in
      let e : suc (length xs) - 1 - n ≡ 0 = omega arith in
      rw e (rw i (get_elem?-append_self (reverse xs) x []))
]

index_back : (n len : ℕ) → n < len → unwrap_or (get_array_index (negsuc n) len) len ≡ len - 1 - n
unfolding get_array_index
index_back n len h = ground arith

index_out : (n len : ℕ) → len ≤ n → unwrap_or (get_array_index (negsuc n) len) len ≡ len
unfolding get_array_index
index_out n len h = ground arith

module _ (view : ValueView) where
  open view use {Value, nil, as_integer}

  -- An element, or `nil` where there is none.
  abbrev pub or_nil : Option Value → Value
  or_nil none = nil
  or_nil (some x) = x

  -- Ruby's `v[i]`: from the front by a natural number, from the back by a negative one.
  abbrev pub element : List Value → ℤ → Value
  element v (pos n) = or_nil (get_elem? v n)
  element v (negsuc n) = or_nil (get_elem? (reverse v) n)

  get_from :
      (v : List Value) (k : ℕ)
      → (if leb (length v) k then ok (Answer.value nil) else (at v k >>= λ x. ok (Answer.value x)))
        ≡ ok (Answer.value (or_nil (get_elem? v k)))
  unfolding at
  get_from v k = elim (Option-cases (get_elem? v k)) [
    | inl e ↦ rw (e, le→leb (length v) k (get_elem?-none v k e)) refl
    | inr (x, e) ↦ rw (e, gt→leb (length v) k (get_elem?-lt v k e), at) refl
  ]

  get_back :
      (v : List Value) (n : ℕ)
      → get_by_index view v (negsuc n) ≡ ok (Answer.value (or_nil (get_elem? (reverse v) n)))
  unfolding get_by_index
  get_back v n = elim (dec_lt n (length v)) [
    | yes h ↦
        rw (get_elem?-reverse v n h, index_back n (length v) h, get_by_index)
          (get_from v (length v - 1 - n))
    | no h ↦
        rw
          (
            get_elem?-beyond (reverse v) n (omega (arith, length-reverse v)),
            index_out n (length v) (omega arith),
            get_by_index,
          )
          (get_from v (length v)
            ∙ ap (λ o. ok (Answer.value (or_nil o))) (get_elem?-beyond v (length v) (omega arith)))
  ]

  -- `get_elem1` with an integer reads Ruby's element: a negative index counts from the back, and an
  -- index out of range, in either direction, gives `nil`. It never panics.
  pub get_elem1-index :
      (v : List Value) (idx : Value) (i : ℤ)
      → as_integer idx ≡ some i
      → get_elem1 view v idx ≡ ok (Answer.value (element v i))
  unfolding get_elem1 get_by_index get_array_index
  get_elem1-index v idx (pos n) e = rw (e, get_elem1) (get_from v n)
  get_elem1-index v idx (negsuc n) e = rw (e, get_elem1) (get_back v n)
