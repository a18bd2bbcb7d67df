-- ===== src/Alloc/Bitmap.antt =====
-- src/alloc.rs: `mark_ptr` sets one bit, that of its cell.
use Prim.Native.Nat.{bit_and, bit_or}
use native.Mathlib.Nat.{pow-suc}
use ruruby.Prelude.{
  ℕ, zero, suc, ◌+◌, ◌-◌, ◌*◌, ◌/◌, ◌%◌, ◌^◌, ◌<◌, ◌≡◌, ◌≢◌, refl, true, not, some, arith, length,
  set, get_elem?, ◌==◌, if◌then◌else◌, Bool-cases, Option-cases, inl, inr, ap, sym, ◌∙◌,
  get_elem?-set_self, get_elem?-set_ne, get_elem?-none, eq→==, ne→==, ==→eq, ==→ne,
}
use ruruby.Prelude.Bits.{and_step, or_step, and_none, or_none, and_fields, and_ones, and_low}
use ruruby.Alloc.{Allocator, mark_ptr, from_inner, get_data_ptr, store, data_len}
use ruruby.Alloc.Dead.{test_bit}
use ruruby.Alloc.Members.{bitmap_bit}

-- `bitmap | 1 << k` sets bit `k` and keeps the others.
test_bit-or : (k w j : ℕ) → test_bit (bit_or w (2 ^ k)) j ≡ (if j == k then true else test_bit w j)
test_bit-or zero w zero = ground (arith, or_step w 1)
test_bit-or zero w (suc j) =
    let e : bit_or w 1 / 2 ≡ w / 2 = omega (arith, or_step w 1, or_none (w / 2)) in
    rw e (ground arith)
test_bit-or (suc k) w zero = ground (arith, or_step w (2 ^ suc k), pow-suc 2 k)
test_bit-or (suc k) w (suc j) =
    let e : bit_or w (2 ^ suc k) / 2 ≡ bit_or (w / 2) (2 ^ k) =
      omega (arith, or_step w (2 ^ suc k), pow-suc 2 k, ap (bit_or (w / 2)) (half k)) in
    rw e (test_bit-or k (w / 2) j ∙ ground arith)
  where
    half : (k : ℕ) → 2 ^ suc k / 2 ≡ 2 ^ k
    half k = omega (arith, pow-suc 2 k)

-- `bitmap & 1 << k` is 0 exactly where bit `k` is not set.
test_bit-and : (k w : ℕ) → (bit_and w (2 ^ k) == 0) ≡ not (test_bit w k)
test_bit-and zero w = ground (arith, and_low 1 w)
test_bit-and (suc k) w =
    let half : 2 ^ suc k / 2 ≡ 2 ^ k = omega (arith, pow-suc 2 k) in
    let e : bit_and w (2 ^ suc k) ≡ bit_and (w / 2) (2 ^ k) * 2 =
      omega (arith, and_step w (2 ^ suc k), pow-suc 2 k, ap (bit_and (w / 2)) half) in
    rw e (ground (arith, test_bit-and k (w / 2)))

from_inner_lem :
    (page index : ℕ)
    → page % 2 ^ 18 ≡ 0
    → page < 2 ^ 64
    → index < data_len
    → from_inner (page + index * 64) ≡ page
unfolding from_inner
from_inner_lem page index al small b =
    let ptr = page + index * 64 in
    let q = ptr / 2 ^ 18 in
    ground (
      arith,
      and_fields 18 q (ptr % 2 ^ 18) (2 ^ 46 - 1) 0 (omega arith) (omega arith),
      and_ones 46 q (omega arith),
      and_none (ptr % 2 ^ 18),
    )

div_mod_same : (j i : ℕ) → j / 64 ≡ i / 64 → (j % 64 == i % 64) ≡ (j == i)
div_mod_same j i same = elim (Bool-cases (j == i)) [
  | inl e ↦ rw (e, ==→eq j i e) (eq→== (i % 64) (i % 64) refl)
  | inr e ↦ rw e (ne→== _ _ (λ h. ==→ne j i e (omega arith)))
]

module _ (a : Allocator) (page index : ℕ) (al : page % 2 ^ 18 ≡ 0) (small : page < 2 ^ 64)
    (b : index < data_len) (len : length (a.marks page) ≡ 63) where
  word : (w : ℕ) × (get_elem? (a.marks page) (index / 64) ≡ some w)
  word = elim (Option-cases (get_elem? (a.marks page) (index / 64))) [
    | inl e ↦ absurd (omega (arith, get_elem?-none (a.marks page) (index / 64) e))
    | inr r ↦ r
  ]

  abbrev new_word : ℕ
  new_word = bit_or word.0 (2 ^ (index % 64))

  abbrev marked : Allocator
  marked = record a {
    marks = store a.marks page (set (a.marks page) (index / 64) new_word);
    mark_counter = if bitmap_bit (a.marks page) index then a.mark_counter else a.mark_counter + 1;
  }

  was_marked : not (bit_and word.0 (2 ^ (index % 64)) == 0) ≡ bitmap_bit (a.marks page) index
  was_marked = rw (test_bit-and (index % 64) word.0, word.1, bitmap_bit) (ground arith)

  at_word : test_bit word.0 (index % 64) ≡ bitmap_bit (a.marks page) index
  at_word = rw (word.1, bitmap_bit)

  mark_ptr_run : mark_ptr (page + index * 64) a ≡ some (bitmap_bit (a.marks page) index, marked)
  unfolding mark_ptr get_data_ptr
  mark_ptr_run =
      let here = from_inner_lem page index al small b in
      let i : (page + index * 64 - (page + 0 * 64)) / 64 ≡ index = omega arith in
      rw (here, i, word.1, mark_ptr) (rw (here, i, was_marked) (rw at_word refl))

  bit_marked :
      (j : ℕ)
      → bitmap_bit (set (a.marks page) (index / 64) new_word) j
        ≡ (if j == index then true else bitmap_bit (a.marks page) j)
  bit_marked j = elim (Bool-cases (j / 64 == index / 64)) [
    | inl e ↦
        let same : j / 64 ≡ index / 64 = ==→eq _ _ e in
        let inside : index / 64 < length (a.marks page) = omega arith in
        rw
          (same, get_elem?-set_self (a.marks page) (index / 64) new_word inside, word.1, bitmap_bit)
          (test_bit-or (index % 64) word.0 (j % 64) ∙ ground (arith, div_mod_same j index same))
    | inr e ↦
        rw
          (
            get_elem?-set_ne (a.marks page) (index / 64) (j / 64) new_word
                (λ h. ==→ne _ _ e (sym h)),
            bitmap_bit,
          )
          (rw (ne→== j index (λ h. ==→ne _ _ e (ap (λ n. n / 64) h))))
  ]

  -- Marking cell `index` of an aligned page with a bitmap of 63 words answers whether it was
  -- marked, sets its bit and no other, and counts it if it was not marked.
  pub mark_ptr_lem :
      (a' : Allocator) × (mark_ptr (page + index * 64) a
        ≡ some (bitmap_bit (a.marks page) index, a'))
      × ((j : ℕ)
          → bitmap_bit (a'.marks page) j
            ≡ (if j == index then true else bitmap_bit (a.marks page) j))
      × ((q : ℕ) → q ≢ page → a'.marks q ≡ a.marks q)
      × (a'.mark_counter
          ≡ (if bitmap_bit (a.marks page) index then a.mark_counter else a.mark_counter + 1))
  mark_ptr_lem = (
    marked,
    mark_ptr_run,
    λ j. rw (eq→== page page refl) (bit_marked j),
    λ q ne. rw (ne→== page q (λ e. ne (sym e))),
    refl,
  )
