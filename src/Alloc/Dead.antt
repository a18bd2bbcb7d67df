-- ===== src/Alloc/Dead.antt =====
-- src/alloc.rs: the cells that a sweep collects, as a list read off the bitmap one bit at a time.
-- `sweep_bits` skips the ones at the low end of a word and comes to the same list.
use mathlib.Core.List.{append-nil}
use native.Mathlib.Nat.{pow-suc, div-div-eq-div-mul}
use ruruby.Prelude.{
  ℕ, zero, suc, ◌+◌, ◌-◌, ◌*◌, ◌/◌, ◌%◌, ◌^◌, ◌≤◌, ◌<◌, ◌≡◌, refl, Bool, true, List, [], ◌∷◌, ◌++◌,
  none, some, arith, ltb, ◌==◌, if◌then◌else◌, get_elem?, take, ap, ◌∙◌, Bool-cases, inl, inr,
  length, ltb→ge, lt→ltb, sym, length-take, get_elem?-lt, Option-cases,
}
use ruruby.Prelude.Bits.{and_low}
use ruruby.Alloc.{get_data_ptr}
use ruruby.Alloc.Sweep.{
  Links, link, trailing_ones, sweep_loop, sweep_bits, sweep_words, sweep_pages, sweep_current,
}

-- Bit `k` of a word.
abbrev pub test_bit : ℕ → ℕ → Bool
test_bit w zero = w % 2 == 1
test_bit w (suc k) = test_bit (w / 2) k

-- The addresses from `ptr` on whose bits, of the first `n` of `map`, are not set.
unfoldable pub dead_bits : ℕ → ℕ → ℕ → List ℕ
dead_bits zero map ptr = []
dead_bits (suc n) map ptr =
    let rest = dead_bits n (map / 2) (ptr + 64) in if map % 2 == 0 then ptr ∷ rest else rest

unfoldable pub dead_words : List ℕ → ℕ → List ℕ
dead_words [] ptr = []
dead_words (map ∷ maps) ptr = dead_bits 64 map ptr ++ dead_words maps (ptr + 64 * 64)

unfoldable pub link_all : List ℕ → Links → Links
link_all [] l = l
link_all (p ∷ ps) l = link_all ps (link p l)

pub link_all-append :
    (ps qs : List ℕ) (l : Links) → link_all (ps ++ qs) l ≡ link_all qs (link_all ps l)
unfolding link_all
link_all-append [] qs l = refl
link_all-append (p ∷ ps) qs l = link_all-append ps qs (link p l)

dead_bits-odd :
    (n map ptr : ℕ)
    → (map % 2 == 1) ≡ true
    → dead_bits (suc n) map ptr ≡ dead_bits n (map / 2) (ptr + 64)
unfolding dead_bits
dead_bits-odd n map ptr h = ground arith

sweep_loop-dead :
    (n map ptr : ℕ) (l : Links)
    → sweep_loop n map ptr l ≡ (ptr + n * 64, link_all (dead_bits n map ptr) l)
unfolding sweep_loop dead_bits link_all
sweep_loop-dead zero map ptr l = ground arith
sweep_loop-dead (suc n) map ptr l = elim (Bool-cases (map % 2 == 0)) [
  | inl e ↦ ground (arith, and_low 1 map, sweep_loop-dead n (map / 2) (ptr + 64) (link ptr l))
  | inr e ↦ ground (arith, and_low 1 map, sweep_loop-dead n (map / 2) (ptr + 64) l)
]

half-pow : (w t : ℕ) → w / 2 / 2 ^ t ≡ w / 2 ^ suc t
half-pow w t = div-div-eq-div-mul w 2 (2 ^ t) ∙ ap (λ (k : ℕ). w / k) (omega (arith, pow-suc 2 t))

trailing_ones-le : (n map : ℕ) → trailing_ones n map ≤ n
unfolding trailing_ones
trailing_ones-le zero map = omega arith
trailing_ones-le (suc n) map = ground (arith, trailing_ones-le n (map / 2))

dead_bits-skip :
    (n bit map ptr : ℕ)
    → let t = trailing_ones n map in
      dead_bits (bit - t) (map / 2 ^ t) (ptr + t * 64) ≡ dead_bits bit map ptr
unfolding trailing_ones
dead_bits-skip zero bit map ptr = ground arith
dead_bits-skip (suc n) zero map ptr = unfold dead_bits in ground arith
dead_bits-skip (suc n) (suc bit) map ptr = elim (Bool-cases (map % 2 == 1)) [
  | inl e ↦
      let t = trailing_ones n (map / 2) in
      ground (
        arith,
        dead_bits-odd bit map ptr e,
        half-pow map t,
        dead_bits-skip n bit (map / 2) (ptr + 64),
      )
  | inr e ↦ ground arith
]

pair-eq {ℓ κ} :
    {A : Type ℓ} {B : Type κ} {a a' : A} {b b' : B}
    → a ≡ a'
    → b ≡ b'
    → ◌≡◌ {A = A × B} (a, b) (a', b')
pair-eq p q = λ i. (p i, q i)

module _ (bit map ptr : ℕ) (l : Links) where
  sweep_bits-loop :
      (t : ℕ)
      → trailing_ones 64 map ≡ t
      → bit ≤ 64
      → sweep_bits bit map ptr l ≡ (
        ptr + t * 64 + (bit - t) * 64,
        link_all (dead_bits (bit - t) (map / 2 ^ t) (ptr + t * 64)) l,
      )
  unfolding sweep_bits
  sweep_bits-loop t e h = elim (Bool-cases (ltb t 64)) [
    | inl small ↦
        rw (e, small, sweep_bits) (sweep_loop-dead (bit - t) (map / 2 ^ t) (ptr + t * 64) l)
    | inr large ↦
        let none_left : bit - t ≡ 0 = omega (arith, ltb→ge t 64 large) in
        rw (e, large, none_left, sweep_bits)
          (unfold sweep_loop link_all dead_bits in pair-eq (omega arith) refl)
  ]

  -- A word's sweep collects the dead cells among its first bits.
  sweep_bits-dead : bit ≤ 64 → (sweep_bits bit map ptr l).1 ≡ link_all (dead_bits bit map ptr) l
  sweep_bits-dead h =
      ap (λ r. r.1) (sweep_bits-loop (trailing_ones 64 map) refl h)
      ∙ ap (λ ps. link_all ps l) (dead_bits-skip 64 bit map ptr)

sweep_bits-next : (map ptr : ℕ) (l : Links) → (sweep_bits 64 map ptr l).0 ≡ ptr + 64 * 64
sweep_bits-next map ptr l =
    ap (λ r. r.0) (sweep_bits-loop 64 map ptr l (trailing_ones 64 map) refl (omega arith))
    ∙ omega (arith, trailing_ones-le 64 map)

pub sweep_words-dead :
    (maps : List ℕ) (ptr : ℕ) (l : Links)
    → sweep_words maps ptr l ≡ (ptr + length maps * (64 * 64), link_all (dead_words maps ptr) l)
unfolding sweep_words dead_words
sweep_words-dead [] ptr l = unfold link_all in ground arith
sweep_words-dead (map ∷ maps) ptr l =
    rw (sweep_bits-dead 64 map ptr l (omega arith), sweep_bits-next map ptr l)
      (sweep_words-dead maps (ptr + 64 * 64) _
        ∙ pair-eq (omega arith)
            (sym (link_all-append (dead_bits 64 map ptr) (dead_words maps (ptr + 64 * 64)) l)))

unfoldable pub dead_pages : (ℕ → List ℕ) → List ℕ → List ℕ
dead_pages marks [] = []
dead_pages marks (p ∷ ps) = dead_words (marks p) p ++ dead_pages marks ps

pub sweep_pages-dead :
    (marks : ℕ → List ℕ) (ps : List ℕ) (l : Links)
    → sweep_pages marks ps l ≡ link_all (dead_pages marks ps) l
unfolding sweep_pages dead_pages get_data_ptr
sweep_pages-dead marks [] l = unfold link_all in refl
sweep_pages-dead marks (p ∷ ps) l =
    sweep_pages-dead marks ps _
    ∙ ap (link_all (dead_pages marks ps)) (
        ap (λ (r : ℕ × Links). r.1) (sweep_words-dead (marks p) (p + 0 * 64) l)
        ∙ ap (λ q. link_all (dead_words (marks p) q) l) (omega arith))
    ∙ sym (link_all-append (dead_words (marks p) p) (dead_pages marks ps) l)

-- Of the current page, the first `used` cells.
unfoldable pub dead_current : List ℕ → ℕ → ℕ → List ℕ
dead_current bitmap used ptr =
    dead_words (take (used / 64) bitmap) ptr ++ (elim (get_elem? bitmap (used / 64)) [
      | none ↦ []
      | some map ↦ dead_bits (used % 64) map (ptr + used / 64 * (64 * 64))
    ])

pub sweep_current-dead :
    (bitmap : List ℕ) (used ptr : ℕ) (l : Links)
    → length bitmap ≡ 63
    → used ≤ 64 * 63
    → sweep_current bitmap used ptr l ≡ link_all (dead_current bitmap used ptr) l
unfolding sweep_current dead_current
sweep_current-dead bitmap used ptr l len h =
    let i = used / 64 in
    let words = sweep_words-dead (take i bitmap) ptr l in
    elim (Option-cases (get_elem? bitmap i)) [
      | inl e ↦
          rw (e, append-nil, sweep_current, dead_current)
            (elim (Bool-cases (ltb i 63)) [
              | inl t ↦ rw t (ap (λ (r : ℕ × Links). r.1) words)
              | inr t ↦ rw t (ap (λ (r : ℕ × Links). r.1) words)
            ])
      | inr (map, e) ↦
          let below : i < 63 = omega (arith, get_elem?-lt bitmap i e) in
          let at : ptr + length (take i bitmap) * (64 * 64) ≡ ptr + i * (64 * 64) =
            omega (arith, length-take i bitmap) in
          rw (e, lt→ltb i 63 below, words, at, sweep_current, dead_current)
            (sweep_bits-dead (used % 64) map _ _ (omega arith)
              ∙ sym (link_all-append (dead_words (take i bitmap) ptr) _ l))
    ]
