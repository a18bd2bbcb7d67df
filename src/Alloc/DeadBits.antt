-- ===== src/Alloc/DeadBits.antt =====
-- src/alloc.rs: which addresses the list of a word's dead cells holds, and that none is held twice.
use ruruby.Prelude.{
  ℕ, zero, suc, ◌+◌, ◌*◌, ◌/◌, ◌%◌, ◌<◌, ◌≡◌, ◌↔◌, ◌⊎◌, inl, inr, refl, Bool, true, false, List, [],
  ◌∷◌, ◌++◌, arith, ◌==◌, Bool-cases,
}
use ruruby.Alloc.Dead.{test_bit, dead_bits}
use ruruby.Alloc.Links.{In, Distinct}

pub In-append : (x : ℕ) (xs ys : List ℕ) → In x (xs ++ ys) ↔ (In x xs ⊎ In x ys)
In-append x [] ys = (inr, λ i. elim i [ inl e ↦ absurd e | inr e ↦ e ])
In-append x (y ∷ xs) ys =
    let r = In-append x xs ys in
    (
      λ i. elim i [ inl e ↦ inl (inl e) | inr e ↦ left (r.0 e) ],
      λ i. elim i [ inl e ↦ right r.1 e | inr e ↦ inr (r.1 (inr e)) ],
    )
  where
    left : In x xs ⊎ In x ys → In x (y ∷ xs) ⊎ In x ys
    left (inl e) = inl (inr e)
    left (inr e) = inr e

    right : (In x xs ⊎ In x ys → In x (xs ++ ys)) → In x (y ∷ xs) → In x (y ∷ (xs ++ ys))
    right f (inl e) = inl e
    right f (inr e) = inr (f (inl e))

pub Distinct-append :
    (xs ys : List ℕ)
    → Distinct xs
    → Distinct ys
    → ((x : ℕ) → In x xs → ¬ In x ys)
    → Distinct (xs ++ ys)
Distinct-append [] ys dx dy apart = dy
Distinct-append (x ∷ xs) ys dx dy apart = (
  λ i. elim ((In-append x xs ys).0 i) [ inl e ↦ dx.0 e | inr e ↦ apart x (inl refl) e ],
  Distinct-append xs ys dx.1 dy (λ z e. apart z (inr e)),
)

-- `x` is the address of one of `n` cells from `ptr` on, and its bit is not set.
pub record IsDead (n : ℕ) (bits : ℕ → Bool) (ptr x : ℕ) : Type 0 where
  pub index : ℕ
  pub below : index < n
  pub at : x ≡ ptr + index * 64
  pub clear : bits index ≡ false

test_bit-zero : (w : ℕ) → (test_bit w zero ≡ false) ↔ ((w % 2 == 0) ≡ true)
test_bit-zero w = (λ h. ground arith, λ h. ground arith)

IsDead-suc :
    (n map ptr x : ℕ)
    → IsDead n (test_bit (map / 2)) (ptr + 64) x
    → IsDead (suc n) (test_bit map) ptr x
IsDead-suc n map ptr x d = record {
  index = suc d.index;
  below = omega (arith, d.below);
  at = omega (arith, d.at);
  clear = d.clear;
}

IsDead-pred :
    (n map ptr x : ℕ)
    → IsDead (suc n) (test_bit map) ptr x
    → ((x ≡ ptr) × ((map % 2 == 0) ≡ true)) ⊎ IsDead n (test_bit (map / 2)) (ptr + 64) x
IsDead-pred n map ptr x d = go d.index d.below d.at d.clear
  where
    go :
        (i : ℕ)
        → i < suc n
        → x ≡ ptr + i * 64
        → test_bit map i ≡ false
        → ((x ≡ ptr) × ((map % 2 == 0) ≡ true)) ⊎ IsDead n (test_bit (map / 2)) (ptr + 64) x
    go zero b e c = inl (omega arith, (test_bit-zero map).0 c)
    go (suc i) b e c = inr (record { index = i; below = omega arith; at = omega arith; clear = c })

-- The cells that a word's sweep collects are those whose bit is not set.
pub In-dead_bits : (n map ptr x : ℕ) → In x (dead_bits n map ptr) ↔ IsDead n (test_bit map) ptr x
unfolding dead_bits
In-dead_bits zero map ptr x = (λ i. absurd i, λ d. absurd (omega (arith, d.below)))
In-dead_bits (suc n) map ptr x = elim (Bool-cases (map % 2 == 0)) [
  | inl e ↦ rw e (
    λ i. elim i [
      | inl h ↦ record {
        index = 0;
        below = omega arith;
        at = omega arith;
        clear = (test_bit-zero map).1 e;
      }
      | inr h ↦ IsDead-suc n map ptr x ((In-dead_bits n (map / 2) (ptr + 64) x).0 h)
    ],
    λ d. elim (IsDead-pred n map ptr x d) [
      | inl h ↦ inl h.0
      | inr h ↦ inr ((In-dead_bits n (map / 2) (ptr + 64) x).1 h)
    ],
  )
  | inr e ↦ rw e (
    λ h. IsDead-suc n map ptr x ((In-dead_bits n (map / 2) (ptr + 64) x).0 h),
    λ d. elim (IsDead-pred n map ptr x d) [
      | inl h ↦ cc h.1
      | inr h ↦ (In-dead_bits n (map / 2) (ptr + 64) x).1 h
    ],
  )
]

pub Distinct-dead_bits : (n map ptr : ℕ) → Distinct (dead_bits n map ptr)
unfolding dead_bits
Distinct-dead_bits zero map ptr = tt
Distinct-dead_bits (suc n) map ptr = elim (Bool-cases (map % 2 == 0)) [
  | inl e ↦ rw e (
    λ i. let d = (In-dead_bits n (map / 2) (ptr + 64) ptr).0 i in omega (arith, d.at),
    Distinct-dead_bits n (map / 2) (ptr + 64),
  )
  | inr e ↦ rw e (Distinct-dead_bits n (map / 2) (ptr + 64))
]
