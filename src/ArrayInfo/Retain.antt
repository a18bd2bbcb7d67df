-- ===== src/ArrayInfo/Retain.antt =====
-- src/value/array.rs: the loop of `retain` that moves elements in place.
use mathlib.Core.List.{append_assoc, append-nil}
use ruruby.Prelude.{
  ℕ, suc, ◌+◌, ◌-◌, ◌≡◌, refl, ap, sym, ◌∙◌, subst, Bool, true, false, List, [], ◌∷◌, ◌++◌, some,
  arith, ltb, if◌then◌else◌, length, get_elem?, set, take, Bool-cases, inl, inr, length-append,
  get_elem?-append_self, take-append, lt→ltb,
}
use ruruby.Prelude.Outcome.{Outcome, ok}
use ruruby.ArrayInfo.{at, swap, retain_loop, retain}

-- The elements that pass a test, in order.
abbrev pub filter : {A : Type 0} → (A → Bool) → List A → List A
filter p [] = []
filter p (x ∷ xs) = if p x then x ∷ filter p xs else filter p xs

zero_left : (n : ℕ) → 0 + n ≡ n
zero_left n = omega arith

suc_left : (m n : ℕ) → suc m + n ≡ suc (m + n)
suc_left m n = omega arith

module _ {A : Type 0} where
  set-append : (a : List A) (y z : A) (c : List A) → set (a ++ y ∷ c) (length a) z ≡ a ++ z ∷ c
  set-append [] y z c = refl
  set-append (x ∷ a) y z c = ap (λ l. x ∷ l) (set-append a y z c)

  set_behind :
      (a : List A) (x : A) (b : List A) (y : A) (c : List A) (z : A)
      → set (a ++ x ∷ (b ++ y ∷ c)) (length a + suc (length b)) z ≡ a ++ x ∷ (b ++ z ∷ c)
  set_behind [] x b y c z = rw (zero_left (suc (length b))) (ap (λ l. x ∷ l) (set-append b y z c))
  set_behind (w ∷ a) x b y c z =
      rw (suc_left (length a) (suc (length b))) (ap (λ l. w ∷ l) (set_behind a x b y c z))

  swap_lem :
      (a : List A) (j : A) (b : List A) (x : A) (c : List A)
      → swap (a ++ j ∷ (b ++ x ∷ c)) (length a) (length a + suc (length b))
        ≡ ok (a ++ x ∷ (b ++ j ∷ c))
  unfolding swap
  swap_lem a j b x c =
      let n : length (a ++ j ∷ b) ≡ length a + suc (length b) = length-append a (j ∷ b) in
      let g : get_elem? (a ++ j ∷ (b ++ x ∷ c)) (length a + suc (length b)) ≡ some x =
        subst (λ k. get_elem? (a ++ j ∷ (b ++ x ∷ c)) k ≡ some x) n
          (subst (λ l. get_elem? l (length (a ++ j ∷ b)) ≡ some x) (append_assoc a (j ∷ b) (x ∷ c))
            (get_elem?-append_self (a ++ j ∷ b) x c)) in
      rw (get_elem?-append_self a j (b ++ x ∷ c), g, swap)
        (ap ok (
          ap (λ l. set l (length a + suc (length b)) j) (set-append a j x (b ++ x ∷ c))
          ∙ set_behind a x b x c j))

  length-swapped :
      (a : List A) (j : A) (b : List A) (x : A) (c : List A)
      → length (a ++ j ∷ (b ++ x ∷ c)) ≡ length (a ++ x ∷ (b ++ j ∷ c))
  length-swapped a j b x c = omega (
    arith,
    length-append a (j ∷ (b ++ x ∷ c)),
    length-append a (x ∷ (b ++ j ∷ c)),
    length-append b (x ∷ c),
    length-append b (j ∷ c),
  )

  at_middle :
      (a b : List A) (x : A) (c : List A)
      → get_elem? (a ++ (b ++ x ∷ c)) (length a + length b) ≡ some x
  at_middle a b x c =
      subst (λ k. get_elem? (a ++ (b ++ x ∷ c)) k ≡ some x) (length-append a b)
        (subst (λ l. get_elem? l (length (a ++ b)) ≡ some x) (append_assoc a b (x ∷ c))
          (get_elem?-append_self (a ++ b) x c))

  module _ (f : A → Outcome Bool) (p : A → Bool) (total : (x : A) → f x ≡ ok (p x)) where
    -- The loop ends with a vector that starts with `res`; what follows, `del` elements, is cut off.
    abbrev Ends : ℕ → ℕ → ℕ → List A → List A → Type 0
    Ends n i d w res =
        (gone : List A) × (retain_loop f n i d w ≡ ok (res ++ gone, length gone))
        × (length w ≡ length (res ++ gone))

    step_drop :
        (n i d : ℕ) (w : List A) (x : A) (res : List A)
        → get_elem? w i ≡ some x
        → p x ≡ false
        → Ends n (i + 1) (d + 1) w res
        → Ends (suc n) i d w res
    unfolding retain_loop at
    step_drop n i d w x res e t r = (r.0, rw (e, total x, t, at, retain_loop) r.1, r.2)

    step_stay :
        (n i : ℕ) (w : List A) (x : A) (res : List A)
        → get_elem? w i ≡ some x
        → p x ≡ true
        → Ends n (i + 1) 0 w res
        → Ends (suc n) i 0 w res
    unfolding retain_loop at
    step_stay n i w x res e t r = (r.0, rw (e, total x, t, at, retain_loop) r.1, r.2)

    step_swap :
        (n i d : ℕ) (w w' : List A) (x : A) (res : List A)
        → get_elem? w i ≡ some x
        → p x ≡ true
        → swap w (i - suc d) i ≡ ok w'
        → length w ≡ length w'
        → Ends n (i + 1) (suc d) w' res
        → Ends (suc n) i (suc d) w res
    unfolding retain_loop at
    step_swap n i d w w' x res e t s len r =
        (r.0, rw (e, total x, t, lt→ltb 0 (suc d) (omega arith), s, at, retain_loop) r.1, len ∙ r.2)

    same-Ends :
        (n i i' d d' : ℕ) (w w' res res' : List A)
        → i ≡ i'
        → d ≡ d'
        → w ≡ w'
        → res ≡ res'
        → Ends n i d w res
        → Ends n i' d' w' res'
    same-Ends n i i' d d' w w' res res' ei ed ew er e =
        subst (λ r. Ends n i' d' w' r) er
          (subst (λ v. Ends n i' d' v res) ew
            (subst (λ k. Ends n i' k w res) ed (subst (λ k. Ends n k d w res) ei e)))

    -- Before each round, the vector is the elements kept so far, as many as were not, and the rest.
    abbrev Runs : List A → Type 0
    Runs rest =
        (kept junk : List A)
        → Ends (length rest) (length kept + length junk) (length junk) (kept ++ (junk ++ rest))
            (kept ++ filter p rest)

    drops : (x : A) (rest : List A) → p x ≡ false → Runs rest → Runs (x ∷ rest)
    drops x rest t ih kept junk =
        let one : length (junk ++ x ∷ []) ≡ length junk + 1 =
          omega (arith, length-append junk (x ∷ [])) in
        let res : kept ++ filter p rest ≡ kept ++ filter p (x ∷ rest) = rw t refl in
        step_drop (length rest) _ (length junk) _ x _ (at_middle kept junk x rest) t (
          same-Ends (length rest) _ _ _ _ _ _ _ _ (omega arith) one
            (ap (λ l. kept ++ l) (append_assoc junk (x ∷ []) rest)) res (ih kept (junk ++ x ∷ [])))

    keeps : (x : A) (rest : List A) → p x ≡ true → Runs rest → Runs (x ∷ rest)
    keeps x rest t ih kept [] =
        let one : length (kept ++ x ∷ []) ≡ length kept + 1 =
          omega (arith, length-append kept (x ∷ [])) in
        let res : (kept ++ x ∷ []) ++ filter p rest ≡ kept ++ filter p (x ∷ rest) =
          rw t (append_assoc kept (x ∷ []) (filter p rest)) in
        step_stay (length rest) _ _ x _ (at_middle kept [] x rest) t (
          same-Ends (length rest) _ _ _ _ _ _ _ _ (omega arith) refl
            (append_assoc kept (x ∷ []) rest) res (ih (kept ++ x ∷ []) []))
    keeps x rest t ih kept (j ∷ junk) =
        let one : length (kept ++ x ∷ []) ≡ length kept + 1 =
          omega (arith, length-append kept (x ∷ [])) in
        let last : length (junk ++ j ∷ []) ≡ suc (length junk) =
          omega (arith, length-append junk (j ∷ [])) in
        let res : (kept ++ x ∷ []) ++ filter p rest ≡ kept ++ filter p (x ∷ rest) =
          rw t (append_assoc kept (x ∷ []) (filter p rest)) in
        let front : length kept + suc (length junk) - suc (length junk) ≡ length kept =
          omega arith in
        step_swap (length rest) _ (length junk) _ (kept ++ x ∷ (junk ++ j ∷ rest)) x _
          (at_middle kept (j ∷ junk) x rest) t (rw front (swap_lem kept j junk x rest))
          (length-swapped kept j junk x rest)
          (same-Ends (length rest) _ _ _ _ _ _ _ _ (omega arith) last
            (append_assoc kept (x ∷ []) ((junk ++ j ∷ []) ++ rest)
              ∙ ap (λ l. kept ++ x ∷ l) (append_assoc junk (j ∷ []) rest))
            res (ih (kept ++ x ∷ []) (junk ++ j ∷ [])))

    run : (rest : List A) → Runs rest
    unfolding retain_loop
    run [] = λ kept junk.
        let same : kept ++ (junk ++ []) ≡ (kept ++ []) ++ junk =
          ap (λ l. kept ++ l) (append-nil junk) ∙ ap (λ l. l ++ junk) (sym (append-nil kept)) in
        (junk, ap (λ l. ok (l, length junk)) same, ap length same)
    run (x ∷ rest) = elim (Bool-cases (p x)) [
      | inl t ↦ keeps x rest t (run rest)
      | inr t ↦ drops x rest t (run rest)
    ]

    cut :
        (v kept gone : List A)
        → length v ≡ length (kept ++ gone)
        → (if ltb 0 (length gone)
            then ok (take (length v - length gone) (kept ++ gone))
            else ok (kept ++ gone))
          ≡ ok kept
    cut v kept [] e = ap ok (append-nil kept)
    cut v kept (g ∷ gone) e =
        let n : length v - suc (length gone) ≡ length kept =
          omega (arith, length-append kept (g ∷ gone)) in
        rw (lt→ltb 0 (suc (length gone)) (omega arith), n) (ap ok (take-append kept (g ∷ gone)))

    -- `retain`, with a test that does not fail, leaves the elements that pass it, in their order.
    pub retain-filter : (v : List A) → retain f v ≡ ok (filter p v)
    unfolding retain
    retain-filter v = let r = run v [] [] in rw (r.1, retain) (cut v (filter p v) r.0 r.2)
