-- ===== src/ArrayInfo.antt =====
-- src/value/array.rs: the elements of an array, with the index arithmetic of its operators, and
-- src/vm/args.rs: the checks of the number of arguments.
--
-- Values are those of any type with the tests that the code makes on them (`ValueView`). An `i64` is
-- an integer; the lengths of vectors are far below 2 ^ 63, so that `len as i64` is exact. A `panic` is
-- a slice or an index out of bounds.
pub mod Index
pub mod Write
pub mod Retain
mod Examples
use ruruby.Prelude.{
  ℕ, zero, suc, ◌+◌, ◌-◌, ◌^◌, Bool, true, false, not, ◌&&◌, List, [], ◌∷◌, ◌++◌, Option, none,
  some, leb, ltb, ◌==◌, if◌then◌else◌, length, get_elem?, set, take, drop, replicate,
}
use Prim.Native.Nat.{min}
use ruruby.Prelude.Int.{ℤ, pos, negsuc, ◌+ℤ◌, ltb_ℤ, as_u64}
use ruruby.Prelude.Outcome.{Outcome, ok, err, panic, RubyError, ◌>>=◌, ◌>>◌, guard, check}

-- `Args::check_args_num`, `check_args_range`, `check_args_range_ofs`, `check_args_min`.
unfoldable pub check_args_num : ℕ → ℕ → Outcome (Unit {0})
check_args_num len num = guard (len == num) RubyError.argument

unfoldable pub check_args_range : ℕ → ℕ → ℕ → Outcome (Unit {0})
check_args_range len min max = guard (leb min len && leb len max) RubyError.argument

unfoldable pub check_args_range_ofs : ℕ → ℕ → ℕ → ℕ → Outcome (Unit {0})
check_args_range_ofs elems offset min max =
    let len = elems + offset in guard (leb min len && leb len max) RubyError.argument

unfoldable pub check_args_min : ℕ → ℕ → Outcome (Unit {0})
check_args_min len min = guard (leb min len) RubyError.argument

-- What the code asks of a `Value`: `nil`, `as_integer`, `as_float` (the bits of the `f64`),
-- `as_range` (start, end, exclude) and `as_array`; and `f.trunc() as i64`, of the standard library.
pub record ValueView : Type 1 where
  pub Value : Type 0
  pub nil : Value
  pub as_integer : Value → Option ℤ
  pub as_float : Value → Option ℕ
  pub trunc : ℕ → ℤ
  pub as_range : Value → Option (Value × Value × Bool)
  pub as_array : Value → Option (List Value)

-- `get_array_index`.
unfoldable pub get_array_index : ℤ → ℕ → Outcome ℕ
get_array_index (pos n) len = ok n
get_array_index (negsuc n) len = elim (pos len +ℤ negsuc n) [
  | pos i ↦ ok i
  | negsuc _ ↦ err RubyError.internal
]

-- `.unwrap_or(d)`.
abbrev pub unwrap_or {ℓ} : {A : Type ℓ} → Outcome A → A → A
unwrap_or (ok a) d = a
unwrap_or _ d = d

-- The answer of an operator: a value, or a new array of values.
pub data Answer (A : Type 0) : Type 0 where
  value : A → Answer A
  new_array : List A → Answer A

-- `v[a..b]`.
unfoldable pub slice : {A : Type 0} → List A → ℕ → ℕ → Outcome (List A)
slice v a b = if leb a b && leb b (length v) then ok (take (b - a) (drop a v)) else panic

-- `self.elements[i]`.
unfoldable pub at : {A : Type 0} → List A → ℕ → Outcome A
at v i = elim (get_elem? v i) [ none ↦ panic | some x ↦ ok x ]

-- `v[i] = x`.
unfoldable pub put : {A : Type 0} → List A → ℕ → A → Outcome (List A)
put v i x = if ltb i (length v) then ok (set v i x) else panic

module _ (view : ValueView) where
  open view use {Value, nil, as_integer, as_float, trunc, as_range, as_array}

  -- `expect_integer`.
  unfoldable pub expect_integer : Value → Outcome ℤ
  expect_integer v = elim (as_integer v) [
    | some i ↦ ok i
    | none ↦ elim (as_float v) [ some f ↦ ok (trunc f) | none ↦ err RubyError.typeerr ]
  ]

  -- The two cases of `get_elem1`.
  unfoldable pub get_by_index : List Value → ℤ → Outcome (Answer Value)
  unfolding at get_array_index
  get_by_index v i =
      let index = unwrap_or (get_array_index i (length v)) (length v) in
      if leb (length v) index
      then ok (Answer.value nil)
      else (at v index >>= λ x. ok (Answer.value x))

  -- Where a range ends, for an array of `n` elements.
  unfoldable pub range_end : ℕ → ℤ → Bool → ℕ
  range_end n (pos e) exclude =
      let end = e + (if exclude then 0 else 1) in if ltb n end then n else end
  range_end n (negsuc e) exclude = as_u64 (pos n +ℤ negsuc e +ℤ pos (if exclude then 0 else 1))

  unfoldable pub slice_from : List Value → ℕ → ℕ → Outcome (Answer Value)
  unfolding slice
  slice_from v start end =
      if leb end start
      then ok (Answer.new_array [])
      else (slice v start end >>= λ xs. ok (Answer.new_array xs))

  unfoldable pub get_by_range : List Value → Value → Value → Bool → Outcome (Answer Value)
  unfolding expect_integer range_end slice_from
  get_by_range v start stop exclude = expect_integer start >>= λ i.
      let len = pos (length v) in
      let i_start = if ltb_ℤ i (pos 0) then len +ℤ i else i in
      if ltb_ℤ len i_start
      then ok (Answer.value nil)
      else (if not (ltb_ℤ i_start len)
          then ok (Answer.new_array [])
          else (expect_integer stop >>= λ i_end.
              slice_from v (as_u64 i_start) (range_end (length v) i_end exclude)))

  unfoldable pub get_elem1 : List Value → Value → Outcome (Answer Value)
  unfolding get_by_index get_by_range
  get_elem1 v idx = elim (as_integer idx) [
    | some index ↦ get_by_index v index
    | none ↦ elim (as_range idx) [
      | some (start, stop, exclude) ↦ get_by_range v start stop exclude
      | none ↦ err RubyError.typeerr
    ]
  ]

  -- `get_elem` with two arguments.
  unfoldable pub get_elem2 : List Value → Value → Value → Outcome (Answer Value)
  unfolding expect_integer get_array_index slice
  get_elem2 v a b = expect_integer a >>= λ i.
      let index = unwrap_or (get_array_index i (length v)) (length v) in
      expect_integer b >>= λ len.
      if ltb_ℤ len (pos 0)
      then ok (Answer.value nil)
      else (if leb (length v) index
          then ok (Answer.new_array [])
          else (slice v index (min (length v) (index + as_u64 len)) >>= λ xs.
              ok (Answer.new_array xs)))

  unfoldable pub get_elem : List Value → List Value → Outcome (Answer Value)
  unfolding check_args_range get_elem1 get_elem2
  get_elem v args =
      check_args_range (length args) 1 2
      >> elim args [ idx ∷ [] ↦ get_elem1 v idx | a ∷ b ∷ _ ↦ get_elem2 v a b | [] ↦ panic ]

  unfoldable pub get_elem_imm : List Value → ℕ → Outcome Value
  unfolding at
  get_elem_imm v index = if leb (length v) index then ok nil else at v index

  -- The write of one element, past the end with padding. The answer is the new vector.
  unfoldable pub set_elem_imm : List Value → ℕ → Value → Outcome (List Value)
  unfolding put
  set_elem_imm v index val =
      if leb (length v) index
      then ok ((v ++ replicate (index - length v) nil) ++ val ∷ [])
      else put v index val

  unfoldable pub set_by_index : List Value → ℤ → Value → Outcome (List Value)
  unfolding get_array_index put
  set_by_index v index val =
      if not (ltb_ℤ index (pos (length v)))
      then ok ((v ++ replicate (as_u64 index - length v) nil) ++ val ∷ [])
      else (get_array_index index (length v) >>= λ i. put v i val)

  unfoldable pub set_elem1 : List Value → Value → Value → Outcome (List Value)
  unfolding expect_integer set_by_index
  set_elem1 v idx val = expect_integer idx >>= λ index. set_by_index v index val

  -- `set_elem` with three arguments: `elements[index..end]` is replaced. `split_off` past the end,
  -- and `drain` of a reversed range, panic; `truncate` past the end does nothing.
  unfoldable pub replace : List Value → ℕ → ℕ → Value → Outcome (List Value)
  replace v index end val = elim (as_array val) [
    | some xs ↦ ok ((take index (take end v) ++ xs) ++ drop end v)
    | none ↦ if leb index end then ok (take index v ++ val ∷ drop end v) else panic
  ]

  unfoldable pub set_elem3 : List Value → Value → Value → Value → Outcome (List Value)
  unfolding expect_integer get_array_index replace
  set_elem3 v a b val = expect_integer a >>= λ i. get_array_index i (length v) >>= λ index.
      expect_integer b >>= λ len.
      if ltb_ℤ len (pos 0)
      then err RubyError.index_error
      else replace v index (min (length v) (index + as_u64 len)) val

  unfoldable pub set_elem : List Value → List Value → Outcome (List Value)
  unfolding check_args_range set_elem1 set_elem3
  set_elem v args = check_args_range (length args) 2 3 >> elim args [
    | a ∷ b ∷ val ∷ _ ↦ set_elem3 v a b val
    | a ∷ val ∷ [] ↦ set_elem1 v a val
    | _ ↦ panic
  ]

-- `v.swap(i, j)`.
unfoldable pub swap : {A : Type 0} → List A → ℕ → ℕ → Outcome (List A)
swap v i j = elim (get_elem? v i) [
  | none ↦ panic
  | some a ↦ elim (get_elem? v j) [ none ↦ panic | some b ↦ ok (set (set v i b) j a) ]
]

-- The loop of `retain` from index `i`, with `n` rounds to go: the vector and `del`. The test `f` is
-- a closure that may fail.
unfoldable pub retain_loop :
    {A : Type 0} → (A → Outcome Bool) → ℕ → ℕ → ℕ → List A → Outcome (List A × ℕ)
unfolding at swap
retain_loop f zero i del v = ok (v, del)
retain_loop f (suc n) i del v = at v i >>= λ x. f x >>= λ keep. elim keep [
  | false ↦ retain_loop f n (i + 1) (del + 1) v
  | true ↦
      if ltb 0 del
      then (swap v (i - del) i >>= λ w. retain_loop f n (i + 1) del w)
      else retain_loop f n (i + 1) del v
]

unfoldable pub retain : {A : Type 0} → (A → Outcome Bool) → List A → Outcome (List A)
unfolding retain_loop
retain f v = retain_loop f (length v) 0 0 v >>= λ r.
    if ltb 0 r.1 then ok (take (length v - r.1) r.0) else ok r.0
