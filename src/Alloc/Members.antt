-- ===== src/Alloc/Members.antt =====
-- src/alloc.rs: which addresses the lists of `Alloc.Dead` hold, and that none is held twice.
use mathlib.Core.List.{append-nil}
use ruruby.Prelude.{
  ℕ, suc, ◌+◌, ◌-◌, ◌*◌, ◌/◌, ◌%◌, ◌≤◌, ◌<◌, ◌≡◌, ◌↔◌, ◌⊎◌, inl, inr, refl, Bool, true, List, [],
  ◌∷◌, Option, none, some, arith, length, take, get_elem?, Option-cases, ◌∙◌, ap, sym, subst,
  length-take, get_elem?-take, get_elem?-none,
}
use native.Mathlib.Decide.{dec_lt}
use ruruby.Alloc.Dead.{test_bit, dead_bits, dead_words, dead_current}
use ruruby.Alloc.Links.{In, Distinct}
use ruruby.Alloc.DeadBits.{In-append, Distinct-append, IsDead, In-dead_bits, Distinct-dead_bits}

-- Bit `i` of a bitmap.
abbrev pub bit_of : Option ℕ → ℕ → Bool
bit_of none i = true
bit_of (some w) i = test_bit w i

abbrev pub bitmap_bit : List ℕ → ℕ → Bool
bitmap_bit maps i = bit_of (get_elem? maps (i / 64)) (i % 64)

bitmap_bit_low :
    (map : ℕ) (maps : List ℕ) (i : ℕ) → i < 64 → bitmap_bit (map ∷ maps) i ≡ test_bit map i
bitmap_bit_low map maps i h =
    let e : i / 64 ≡ 0 = omega arith in let f : i % 64 ≡ i = omega arith in rw (e, f, bitmap_bit)

bitmap_bit_high :
    (map : ℕ) (maps : List ℕ) (i : ℕ) → bitmap_bit (map ∷ maps) (64 + i) ≡ bitmap_bit maps i
bitmap_bit_high map maps i =
    let e : (64 + i) / 64 ≡ suc (i / 64) = omega arith in
    let f : (64 + i) % 64 ≡ i % 64 = omega arith in rw (e, f, bitmap_bit)

-- An index of two ranges one behind the other lies in one of them.
IsDead-split :
    (n m : ℕ) (bits low high : ℕ → Bool) (ptr x : ℕ)
    → ((i : ℕ) → i < n → bits i ≡ low i)
    → ((i : ℕ) → i < m → bits (n + i) ≡ high i)
    → IsDead (n + m) bits ptr x ↔ (IsDead n low ptr x ⊎ IsDead m high (ptr + n * 64) x)
IsDead-split n m bits low high ptr x el eh = (to, from)
  where
    to : IsDead (n + m) bits ptr x → IsDead n low ptr x ⊎ IsDead m high (ptr + n * 64) x
    to d = elim (dec_lt d.index n) [
      | yes h ↦
          inl
            (record { index = d.index; below = h; at = d.at; clear = sym (el d.index h) ∙ d.clear })
      | no h ↦
          let i = d.index - n in
          let b : i < m = omega (arith, d.below) in
          let e : n + i ≡ d.index = omega arith in
          inr (record {
            index = i;
            below = b;
            at = omega (arith, d.at);
            clear = sym (eh i b) ∙ ap bits e ∙ d.clear;
          })
    ]

    from : IsDead n low ptr x ⊎ IsDead m high (ptr + n * 64) x → IsDead (n + m) bits ptr x
    from (inl d) = record {
      index = d.index;
      below = omega (arith, d.below);
      at = d.at;
      clear = el d.index d.below ∙ d.clear;
    }
    from (inr d) = record {
      index = n + d.index;
      below = omega (arith, d.below);
      at = omega (arith, d.at);
      clear = eh d.index d.below ∙ d.clear;
    }

IsDead-same :
    (n n' : ℕ) (bits bits' : ℕ → Bool) (ptr x : ℕ)
    → n ≡ n'
    → ((i : ℕ) → i < n → bits i ≡ bits' i)
    → IsDead n bits ptr x ↔ IsDead n' bits' ptr x
IsDead-same n n' bits bits' ptr x e same = (
  λ d. record {
    index = d.index;
    below = omega (arith, d.below);
    at = d.at;
    clear = sym (same d.index d.below) ∙ d.clear;
  },
  λ d.
      let b : d.index < n = omega (arith, d.below) in
      record { index = d.index; below = b; at = d.at; clear = same d.index b ∙ d.clear },
)

either : {A B C D : Type 0} → A ↔ B → C ↔ D → (A ⊎ C) ↔ (B ⊎ D)
either f g = (
  λ i. elim i [ inl a ↦ inl (f.0 a) | inr c ↦ inr (g.0 c) ],
  λ i. elim i [ inl b ↦ inl (f.1 b) | inr d ↦ inr (g.1 d) ],
)

chain_iff : {A B C : Type 0} → A ↔ B → B ↔ C → A ↔ C
chain_iff f g = (λ a. g.0 (f.0 a), λ c. f.1 (g.1 c))

flip_iff : {A B : Type 0} → A ↔ B → B ↔ A
flip_iff f = (f.1, f.0)

pub In-dead_words :
    (maps : List ℕ) (ptr x : ℕ)
    → In x (dead_words maps ptr) ↔ IsDead (64 * length maps) (bitmap_bit maps) ptr x
unfolding dead_words
In-dead_words [] ptr x = (λ i. absurd i, λ d. absurd (omega (arith, d.below)))
In-dead_words (map ∷ maps) ptr x =
    let n = 64 * length maps in
    let split =
      IsDead-split 64 n (bitmap_bit (map ∷ maps)) (test_bit map) (bitmap_bit maps) ptr x
        (bitmap_bit_low map maps) (λ i h. bitmap_bit_high map maps i) in
    let parts =
      chain_iff (In-append x (dead_bits 64 map ptr) (dead_words maps (ptr + 64 * 64)))
        (either (In-dead_bits 64 map ptr x) (In-dead_words maps (ptr + 64 * 64) x)) in
    let size : 64 * suc (length maps) ≡ 64 + n = omega arith in
    rw size (chain_iff parts (flip_iff split))

bitmap_bit-take :
    (maps : List ℕ) (k i : ℕ) → i < 64 * k → bitmap_bit maps i ≡ bitmap_bit (take k maps) i
bitmap_bit-take maps k i h = rw (get_elem?-take maps k (i / 64) (omega arith), bitmap_bit)

bitmap_bit-at :
    (maps : List ℕ) (k map i : ℕ)
    → get_elem? maps k ≡ some map
    → i < 64
    → bitmap_bit maps (64 * k + i) ≡ test_bit map i
bitmap_bit-at maps k map i e h =
    let q : (64 * k + i) / 64 ≡ k = omega arith in
    let r : (64 * k + i) % 64 ≡ i = omega arith in rw (q, r, e, bitmap_bit)

-- The dead cells of the current page are those below `used` whose bit is not set.
pub In-dead_current :
    (maps : List ℕ) (used ptr x : ℕ)
    → length maps ≡ 63
    → used ≤ 64 * 63
    → In x (dead_current maps used ptr) ↔ IsDead used (bitmap_bit maps) ptr x
unfolding dead_current
In-dead_current maps used ptr x len h =
    let k = used / 64 in
    let m = used % 64 in
    let words = dead_words (take k maps) ptr in
    let front = In-dead_words (take k maps) ptr x in
    let full : 64 * length (take k maps) ≡ 64 * k = omega (arith, length-take k maps) in
    elim (Option-cases (get_elem? maps k)) [
      | inl e ↦
          let none_left : used ≡ 64 * k = omega (arith, get_elem?-none maps k e) in
          rw (e, append-nil, dead_current)
            (chain_iff front (
              IsDead-same _ _ _ _ ptr x (full ∙ sym none_left)
                (λ i b. sym (bitmap_bit-take maps k i (omega arith)))))
      | inr (map, e) ↦
          let split =
            IsDead-split (64 * k) m (bitmap_bit maps) (bitmap_bit (take k maps)) (test_bit map) ptr
              x (bitmap_bit-take maps k) (λ i b. bitmap_bit-at maps k map i e (omega arith)) in
          let size : used ≡ 64 * k + m = omega arith in
          let start : ptr + k * (64 * 64) ≡ ptr + 64 * k * 64 = omega arith in
          let back : In x (dead_bits m map (ptr + k * (64 * 64)))
              ↔ IsDead m (test_bit map) (ptr + 64 * k * 64) x =
            subst (λ p. In x (dead_bits m map (ptr + k * (64 * 64))) ↔ IsDead m (test_bit map) p x)
              start (In-dead_bits m map (ptr + k * (64 * 64)) x) in
          let front' = chain_iff front (IsDead-same _ _ _ _ ptr x full (λ i b. refl)) in
          rw (e, dead_current)
            (chain_iff (In-append x words (dead_bits m map (ptr + k * (64 * 64)))) (
              chain_iff (either front' back)
                (chain_iff (flip_iff split) (IsDead-same _ _ _ _ ptr x (sym size) (λ i b. refl)))))
    ]

pub Distinct-dead_words : (maps : List ℕ) (ptr : ℕ) → Distinct (dead_words maps ptr)
unfolding dead_words
Distinct-dead_words [] ptr = tt
Distinct-dead_words (map ∷ maps) ptr =
    Distinct-append (dead_bits 64 map ptr) (dead_words maps (ptr + 64 * 64))
      (Distinct-dead_bits 64 map ptr) (Distinct-dead_words maps (ptr + 64 * 64))
      λ x i j.
        let d = (In-dead_bits 64 map ptr x).0 i in
        let e = (In-dead_words maps (ptr + 64 * 64) x).0 j in omega (arith, d.below, d.at, e.at)

pub Distinct-dead_current :
    (maps : List ℕ) (used ptr : ℕ) → length maps ≡ 63 → Distinct (dead_current maps used ptr)
unfolding dead_current
Distinct-dead_current maps used ptr len = elim (Option-cases (get_elem? maps (used / 64))) [
  | inl e ↦ rw (e, append-nil, dead_current) (Distinct-dead_words (take (used / 64) maps) ptr)
  | inr (map, e) ↦
      let k = used / 64 in
      let p = ptr + k * (64 * 64) in
      rw (e, dead_current)
        (Distinct-append (dead_words (take k maps) ptr) (dead_bits (used % 64) map p)
          (Distinct-dead_words (take k maps) ptr) (Distinct-dead_bits (used % 64) map p)
          (λ x i j.
            let d = (In-dead_words (take k maps) ptr x).0 i in
            let f = (In-dead_bits (used % 64) map p x).0 j in
            omega (arith, d.below, d.at, f.at, length-take k maps)))
]
