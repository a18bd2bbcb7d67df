-- ===== src/Prelude/Parts.antt =====
-- Parts of lists that are put together of two, and lists of which a part is replaced.
use ruruby.Prelude.{
  ℕ, zero, suc, ◌+◌, ◌-◌, ◌≤◌, ◌<◌, ◌≡◌, refl, sym, ap, ◌∙◌, List, [], ◌∷◌, ◌++◌, arith, length,
  take, drop, set, replicate, length-append, length-take, length-drop, take-append,
}
use mathlib.Core.List.{append_assoc, append-nil}

module _ {ℓ} {A : Type ℓ} where
  -- The list with the elements from `i` on replaced by those of `ys`.
  unfoldable pub overwrite : List A → ℕ → List A → List A
  overwrite xs i ys = take i xs ++ ys ++ drop (i + length ys) xs

  pub take-append_short : (n : ℕ) (xs ys : List A) → n ≤ length xs → take n (xs ++ ys) ≡ take n xs
  take-append_short zero xs ys h = refl
  take-append_short (suc n) [] ys h = absurd (omega arith)
  take-append_short (suc n) (x ∷ xs) ys h = ap (x ∷◌) (take-append_short n xs ys (omega arith))

  pub take-append_long :
      (n : ℕ) (xs ys : List A) → length xs ≤ n → take n (xs ++ ys) ≡ xs ++ take (n - length xs) ys
  take-append_long n [] ys h = ground arith
  take-append_long zero (x ∷ xs) ys h = absurd (omega arith)
  take-append_long (suc n) (x ∷ xs) ys h = ground (arith, take-append_long n xs ys (omega arith))

  pub drop-append_short :
      (n : ℕ) (xs ys : List A) → n ≤ length xs → drop n (xs ++ ys) ≡ drop n xs ++ ys
  drop-append_short zero xs ys h = refl
  drop-append_short (suc n) [] ys h = absurd (omega arith)
  drop-append_short (suc n) (x ∷ xs) ys h = drop-append_short n xs ys (omega arith)

  pub drop-append_long :
      (n : ℕ) (xs ys : List A) → length xs ≤ n → drop n (xs ++ ys) ≡ drop (n - length xs) ys
  drop-append_long n [] ys h = ground arith
  drop-append_long zero (x ∷ xs) ys h = absurd (omega arith)
  drop-append_long (suc n) (x ∷ xs) ys h = ground (arith, drop-append_long n xs ys (omega arith))

  pub take-all : (n : ℕ) (xs : List A) → length xs ≤ n → take n xs ≡ xs
  take-all zero [] h = refl
  take-all (suc n) [] h = refl
  take-all zero (x ∷ xs) h = absurd (omega arith)
  take-all (suc n) (x ∷ xs) h = ap (x ∷◌) (take-all n xs (omega arith))

  pub drop-all : (n : ℕ) (xs : List A) → length xs ≤ n → drop n xs ≡ []
  drop-all zero [] h = refl
  drop-all (suc n) [] h = refl
  drop-all zero (x ∷ xs) h = absurd (omega arith)
  drop-all (suc n) (x ∷ xs) h = drop-all n xs (omega arith)

  pub append-take-drop : (n : ℕ) (xs : List A) → take n xs ++ drop n xs ≡ xs
  append-take-drop zero xs = refl
  append-take-drop (suc n) [] = refl
  append-take-drop (suc n) (x ∷ xs) = ap (x ∷◌) (append-take-drop n xs)

  -- A part inside the first list.
  pub overwrite-left :
      (xs zs : List A) (i : ℕ) (ys : List A)
      → i + length ys ≤ length xs
      → overwrite xs i ys ++ zs ≡ overwrite (xs ++ zs) i ys
  unfolding overwrite
  overwrite-left xs zs i ys h = rw (
    take-append_short i xs zs (omega arith),
    drop-append_short (i + length ys) xs zs h,
    append_assoc (take i xs ++ ys) (drop (i + length ys) xs) zs,
  )

  -- A part inside the second.
  pub overwrite-right :
      (xs zs : List A) (i : ℕ) (ys : List A)
      → length xs ≤ i
      → xs ++ overwrite zs (i - length xs) ys ≡ overwrite (xs ++ zs) i ys
  unfolding overwrite
  overwrite-right xs zs i ys h = rw (
    take-append_long i xs zs h,
    drop-append_long (i + length ys) xs zs (omega arith),
    append_assoc xs (take (i - length xs) zs) ys,
    append_assoc xs (take (i - length xs) zs ++ ys) (drop (i + length ys - length xs) zs),
    the_place,
  )
    where
      the_place : i + length ys - length xs ≡ i - length xs + length ys
      the_place = omega arith

  overwrite-cons :
      (x : A) (xs : List A) (i : ℕ) (ys : List A)
      → overwrite (x ∷ xs) (suc i) ys ≡ x ∷ overwrite xs i ys
  unfolding overwrite
  overwrite-cons x xs i ys = ap (λ n. x ∷ (take i xs ++ ys) ++ drop n (x ∷ xs)) suc_out
    where
      suc_out : suc i + length ys ≡ suc (i + length ys)
      suc_out = omega arith

  -- An element and the ones behind it.
  pub overwrite-set :
      (xs : List A) (i : ℕ) (y : A) (ys : List A)
      → i < length xs
      → overwrite (set xs i y) (suc i) ys ≡ overwrite xs i (y ∷ ys)
  unfolding overwrite
  overwrite-set [] i y ys h = absurd (omega arith)
  overwrite-set (x ∷ xs) zero y ys h = ground arith
  overwrite-set (x ∷ xs) (suc i) y ys h = rw (
    overwrite-cons x (set xs i y) (suc i) ys,
    overwrite-set xs i y ys (omega arith),
    sym (overwrite-cons x xs i (y ∷ ys)),
  )

  pub length-overwrite :
      (xs : List A) (i : ℕ) (ys : List A)
      → i + length ys ≤ length xs
      → length (overwrite xs i ys) ≡ length xs
  unfolding overwrite
  length-overwrite xs i ys h = omega (
    arith,
    length-append (take i xs ++ ys) (drop (i + length ys) xs),
    length-append (take i xs) ys,
    length-take i xs,
    length-drop (i + length ys) xs,
  )

  overwrite-first :
      (x : A) (xs : List A) (y : A) (ys : List A)
      → overwrite (x ∷ xs) 0 (y ∷ ys) ≡ y ∷ overwrite xs 0 ys
  unfolding overwrite
  overwrite-first x xs y ys = ap (λ n. (y ∷ ys) ++ drop n (x ∷ xs)) suc_out
    where
      suc_out : 0 + suc (length ys) ≡ suc (0 + length ys)
      suc_out = omega arith

  -- A part that lies in both lists is written in two steps.
  pub overwrite-across :
      (xs zs : List A) (i n : ℕ) (ys : List A)
      → i + n ≡ length xs
      → n ≤ length ys
      → overwrite xs i (take n ys) ++ overwrite zs 0 (drop n ys) ≡ overwrite (xs ++ zs) i ys
  overwrite-across [] zs zero zero ys h k = unfold overwrite in refl
  overwrite-across [] zs zero (suc n) ys h k = absurd (omega arith)
  overwrite-across [] zs (suc i) n ys h k = absurd (omega arith)
  overwrite-across (x ∷ xs) zs zero zero ys h k = absurd (omega arith)
  overwrite-across (x ∷ xs) zs zero (suc n) [] h k = absurd (omega arith)
  overwrite-across (x ∷ xs) zs zero (suc n) (y ∷ ys) h k =
      rw (overwrite-first x xs y (take n ys), overwrite-first x (xs ++ zs) y ys)
        (ap (y ∷◌) (overwrite-across xs zs zero n ys (omega arith) (omega arith)))
  overwrite-across (x ∷ xs) zs (suc i) n ys h k =
      rw (overwrite-cons x xs i (take n ys), overwrite-cons x (xs ++ zs) i ys)
        (ap (x ∷◌) (overwrite-across xs zs i n ys (omega arith) k))

  pub set-append_left :
      (xs ys : List A) (i : ℕ) (y : A) → i < length xs → set (xs ++ ys) i y ≡ set xs i y ++ ys
  set-append_left [] ys i y h = absurd (omega arith)
  set-append_left (x ∷ xs) ys zero y h = refl
  set-append_left (x ∷ xs) ys (suc i) y h = ap (x ∷◌) (set-append_left xs ys i y (omega arith))

  pub set-append_right :
      (xs ys : List A) (i : ℕ) (y : A)
      → length xs ≤ i
      → set (xs ++ ys) i y ≡ xs ++ set ys (i - length xs) y
  set-append_right [] ys i y h = ground arith
  set-append_right (x ∷ xs) ys zero y h = absurd (omega arith)
  set-append_right (x ∷ xs) ys (suc i) y h =
      ground (arith, set-append_right xs ys i y (omega arith))

  pub overwrite-nothing : (xs : List A) (i : ℕ) → overwrite xs i [] ≡ xs
  unfolding overwrite
  overwrite-nothing xs i =
      ap (λ n. take i xs ++ [] ++ drop n xs) nothing
      ∙ (rw (append-nil (take i xs)) (append-take-drop i xs))
    where
      nothing : i + 0 ≡ i
      nothing = omega arith

  drop-drop : (m n : ℕ) (xs : List A) → drop n (drop m xs) ≡ drop (m + n) xs
  drop-drop zero n xs = ground arith
  drop-drop (suc m) n [] = drop-all n [] (omega arith) ∙ sym (drop-all (suc m + n) [] (omega arith))
  drop-drop (suc m) n (x ∷ xs) = drop-drop m n xs ∙ ap (λ k. drop k (x ∷ xs)) suc_out
    where
      suc_out : suc (m + n) ≡ suc m + n
      suc_out = omega arith

  -- A part at the front, and one behind it.
  pub overwrite-front :
      (n : ℕ) (xs ys : List A) → length ys ≡ n → overwrite xs 0 ys ≡ ys ++ drop n xs
  unfolding overwrite
  overwrite-front n xs ys h = ap (λ m. ys ++ drop m xs) (omega arith)

  pub overwrite-behind :
      (xs ys zs : List A)
      → overwrite (overwrite xs 0 ys) (length ys) zs ≡ ys ++ zs ++ drop (length ys + length zs) xs
  overwrite-behind xs ys zs = rw (overwrite-front (length ys) xs ys refl) (
      unfold overwrite in
      rw
        (
          take-append ys (drop (length ys) xs),
          drop-append_long (length ys + length zs) ys (drop (length ys) xs) (omega arith),
          drop-drop (length ys) (length ys + length zs - length ys) xs,
        )
        (ap (λ m. ys ++ zs ++ drop m xs) (omega arith)))

  pub replicate-surplus : (n m : ℕ) (a : A) → n ≤ m → replicate (n - m) a ≡ []
  replicate-surplus n m a h = ap (λ k. replicate k a) (none_left n m h)
    where
      none_left : (n m : ℕ) → n ≤ m → n - m ≡ 0
      none_left n m h = omega arith
