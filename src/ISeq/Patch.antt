-- ===== src/ISeq/Patch.antt =====
-- src/vm/iseq.rs: patching a jump. The generators leave a displacement of 0 behind a jump's opcode
-- and `write_disp` fills it in once the destination is known.
use ruruby.Prelude.{
  ℕ, ◌+◌, ◌-◌, ◌/◌, ◌%◌, ◌^◌, ◌≤◌, ◌<◌, ◌≡◌, ◌⊎◌, ◌≢◌, some, arith, length, set, get_elem?,
  length-set, get_elem?-set_self, get_elem?-set_ne, take-drop_four, ◌∙◌, ap, inl, inr, leb,
  Bool-cases,
}
use ruruby.Prelude.Int.{ℤ, as_u32, as_i32, as_u32-lt}
use ruruby.ISeq.{ISeq, add_disp, disp_to, slice, read32, read_disp, write_disp}
use ruruby.ISeq.Codec.{bytes4}

-- Four writes in a row, from position `p` on, as `write_disp` makes them.
abbrev pub set4 : ISeq → ℕ → ℕ → ISeq
set4 s p num =
    set (set (set (set s p (num % 256)) (1 + p) (num / 2 ^ 8 % 256)) (2 + p) (num / 2 ^ 16 % 256))
      (3 + p) (num / 2 ^ 24 % 256)

module _ (s : ISeq) (p num : ℕ) (room : 4 + p ≤ length s) where
  length-set4 : length (set4 s p num) ≡ length s
  length-set4 = simp length-set

  get-set4_outside : (i : ℕ) → (i < p) ⊎ (4 + p ≤ i) → get_elem? (set4 s p num) i ≡ get_elem? s i
  get-set4_outside i out =
      get_elem?-set_ne _ (3 + p) i _ (away out (3 + p) (omega arith) (omega arith))
      ∙ get_elem?-set_ne _ (2 + p) i _ (away out (2 + p) (omega arith) (omega arith))
      ∙ get_elem?-set_ne _ (1 + p) i _ (away out (1 + p) (omega arith) (omega arith))
      ∙ get_elem?-set_ne _ p i _ (away out p (omega arith) (omega arith))
    where
      away : (i < p) ⊎ (4 + p ≤ i) → (k : ℕ) → p ≤ k → k < 4 + p → k ≢ i
      away (inl h) k a b = omega arith
      away (inr h) k a b = omega arith

  get-set4_0 : get_elem? (set4 s p num) p ≡ some (num % 256)
  get-set4_0 =
      get_elem?-set_ne _ (3 + p) p _ (omega arith)
      ∙ get_elem?-set_ne _ (2 + p) p _ (omega arith)
      ∙ get_elem?-set_ne _ (1 + p) p _ (omega arith)
      ∙ get_elem?-set_self s p _ (omega arith)

  get-set4_1 : get_elem? (set4 s p num) (1 + p) ≡ some (num / 2 ^ 8 % 256)
  get-set4_1 =
      get_elem?-set_ne _ (3 + p) (1 + p) _ (omega arith)
      ∙ get_elem?-set_ne _ (2 + p) (1 + p) _ (omega arith)
      ∙ get_elem?-set_self _ (1 + p) _ (omega (arith, length-set s p (num % 256)))

  get-set4_2 : get_elem? (set4 s p num) (2 + p) ≡ some (num / 2 ^ 16 % 256)
  get-set4_2 =
      get_elem?-set_ne _ (3 + p) (2 + p) _ (omega arith)
      ∙ get_elem?-set_self _ (2 + p) _ (simp length-set (omega arith))

  get-set4_3 : get_elem? (set4 s p num) (3 + p) ≡ some (num / 2 ^ 24 % 256)
  get-set4_3 = get_elem?-set_self _ (3 + p) _ (simp length-set (omega arith))

  slice-set4 : slice (set4 s p num) p 4 ≡ some (bytes4 num)
  unfolding slice
  slice-set4 =
      let r = take-drop_four (set4 s p num) p get-set4_0 get-set4_1 get-set4_2 get-set4_3 in
      ground (arith, r.0, r.1)

  read_disp-set4 : num < 2 ^ 32 → read_disp (set4 s p num) p ≡ some (as_i32 num)
  unfolding read_disp read32
  read_disp-set4 h = rw (slice-set4, read_disp, read32) (ap some (ap as_i32 (omega arith)))

-- The displacement between two positions below 2 ^ 31 leads from the one to the other.
pub add_disp-disp_to :
    (src dest : ℕ)
    → src < 2 ^ 31
    → dest < 2 ^ 31
    → add_disp src (as_i32 (as_u32 (disp_to src dest))) ≡ dest
unfolding add_disp disp_to
add_disp-disp_to src dest a b = ground arith

-- Patching the jump whose instruction ends at `src`, at least 4 and within the buffer, makes its
-- displacement lead to `dest`, both below 2 ^ 31; it keeps the length, and changes no byte outside
-- the four of the displacement.
pub write_disp_target :
    (s : ISeq) (src dest : ℕ)
    → 4 ≤ src
    → src ≤ length s
    → src < 2 ^ 31
    → dest < 2 ^ 31
    → (s' : ISeq) × (write_disp s src dest ≡ some s')
      × ((d : ℤ) × (read_disp s' (src - 4) ≡ some d) × (add_disp src d ≡ dest))
      × (length s' ≡ length s)
      × ((i : ℕ) → (i < src - 4) ⊎ (src ≤ i) → get_elem? s' i ≡ get_elem? s i)
unfolding write_disp
write_disp_target s src dest lo hi a b =
    let num = as_u32 (disp_to src dest) in
    let p = src - 4 in
    let room : 4 + p ≤ length s = omega arith in
    (
      set4 s p num,
      ground arith,
      (
        as_i32 num,
        read_disp-set4 s p num room (as_u32-lt (disp_to src dest)),
        add_disp-disp_to src dest a b,
      ),
      length-set4 s p num room,
      λ i out.
          get-set4_outside s p num room i (elim out [ inl e ↦ inl e | inr e ↦ inr (omega arith) ]),
    )

-- Where `write_disp` succeeds, it has changed the four bytes before `src` at most.
pub write_disp_keeps :
    (s s' : ISeq) (src dest : ℕ)
    → write_disp s src dest ≡ some s'
    → (4 ≤ src)
      × (src ≤ length s)
      × (length s' ≡ length s)
      × ((i : ℕ) → (i < src - 4) ⊎ (src ≤ i) → get_elem? s' i ≡ get_elem? s i)
unfolding write_disp
write_disp_keeps s s' src dest e = elim (Bool-cases (leb 4 src)) [
  | inr h ↦ cc (rw (h, write_disp) at e)
  | inl h ↦ elim (Bool-cases (leb src (length s))) [
    | inr k ↦ cc (rw (h, k, write_disp) at e)
    | inl k ↦
        let lo : 4 ≤ src = ground arith in
        let hi : src ≤ length s = ground arith in
        let num = as_u32 (disp_to src dest) in
        let room : 4 + (src - 4) ≤ length s = omega arith in
        let it : write_disp s src dest ≡ some (set4 s (src - 4) num) = ground arith in
        let same : set4 s (src - 4) num ≡ s' = cc in
        (
          lo,
          hi,
          rw same at (length-set4 s (src - 4) num room),
          λ i out. rw same at (
              get-set4_outside s (src - 4) num room i
                (elim out [ inl a ↦ inl a | inr a ↦ inr (omega arith) ])),
        )
  ]
]
