-- ===== src/ISeq/Emit.antt =====
-- The instructions that the generators of `ISeq.Gen` append, as bytes.
use mathlib.Core.List.{append_assoc, append-nil}
use ruruby.Prelude.{
  ℕ, suc, ◌+◌, ◌≡◌, refl, List, [], ◌∷◌, ◌++◌, some, arith, length, length-append, get_elem?,
  get_elem?-append_self, get_elem?-append_left, ◌<◌, ◌^◌, ◌≤◌, ◌∙◌, ap,
}
use ruruby.Prelude.Int.{ℤ, negsuc, ◌+ℤ◌, as_i32, as_u32, as_u32-lt}
use ruruby.ISeq.{ISeq, push, push32, push64, add_disp, disp_to, read_disp}
use ruruby.ISeq.Inst
use ruruby.ISeq.Inst.{opcode, inst_size}
use ruruby.ISeq.Codec.{bytes4, bytes8, push32_lem, push64_lem, read-push}
use ruruby.ISeq.Gen.{Gen, emit, head, gen_jmp_back}

-- `s'` is `s` with an instruction of `n` bytes behind it, whose opcode is `op`.
data Appends (s : ISeq) : ISeq → ℕ → ℕ → Type 0 where
  appends :
      {s' : ISeq} {op n : ℕ} (ops : List ℕ)
      → s' ≡ s ++ op ∷ ops
      → suc (length ops) ≡ n
      → Appends s s' op n

module _ (s : ISeq) (op : ℕ) where
  append0 : Appends s (push s op) op 1
  unfolding push
  append0 = appends [] refl refl

  append32 : (n : ℕ) → Appends s (push32 (push s op) n) op 5
  append32 n = appends (bytes4 n) (rw push32_lem (unfold push in simp append_assoc)) refl

  append64 : (n : ℕ) → Appends s (push64 (push s op) n) op 9
  append64 n = appends (bytes8 n) (rw push64_lem (unfold push in simp append_assoc)) refl

  append32_32 : (n m : ℕ) → Appends s (push32 (push32 (push s op) n) m) op 9
  append32_32 n m =
      appends (bytes4 n ++ bytes4 m) (simp push32_lem (unfold push in simp append_assoc)) refl

emit-Appends : (g : Gen) (s : ISeq) → Appends s (emit g s) (opcode (head g)) (inst_size (head g))
unfolding emit head inst_size opcode
emit-Appends Gen.push_nil s = append0 s _
emit-Appends (Gen.fixnum i) s = append64 s _ _
emit-Appends _ s = search (append0, append32, append32_32)

Appends-parts :
    {s s' : ISeq} {op n : ℕ}
    → Appends s s' op n
    → (length s' ≡ length s + n)
      × (get_elem? s' (length s) ≡ some op)
      × ((i : ℕ) → i < length s → get_elem? s' i ≡ get_elem? s i)
Appends-parts {s} (appends {op = op} ops e l) = (
  ap length e ∙ omega (arith, length-append s (op ∷ ops)),
  rw e (get_elem?-append_self s op ops),
  λ i h. rw e (get_elem?-append_left s (op ∷ ops) i h),
)

-- Each generator appends its instruction's opcode, as many bytes in all as `inst_size` says of it,
-- and keeps the bytes before: the walks by `inst_size` stay on the starts of instructions.
pub emit_lem :
    (g : Gen) (s : ISeq)
    → (length (emit g s) ≡ length s + inst_size (head g))
      × (get_elem? (emit g s) (length s) ≡ some (opcode (head g)))
      × ((i : ℕ) → i < length s → get_elem? (emit g s) i ≡ get_elem? s i)
emit_lem g s = Appends-parts (emit-Appends g s)

read_disp-push32 :
    (s : ISeq) (n : ℕ) → n < 2 ^ 32 → read_disp (push32 s n) (length s) ≡ some (as_i32 n)
read_disp-push32 s n h =
    let r = rw append-nil at ((read-push s [] n).1) in
    unfold read_disp in rw (r, read_disp) (ap some (ap as_i32 (omega arith)))

length-push : (s : ISeq) (b : ℕ) → length (push s b) ≡ length s + 1
unfolding push
length-push s b = omega (arith, length-append s (b ∷ []))

-- A backward jump leads from behind its five bytes to the position that it was given, in a buffer
-- of less than 2 ^ 31 bytes.
pub gen_jmp_back_target :
    (s : ISeq) (dest : ℕ)
    → dest ≤ length s
    → length s + 5 < 2 ^ 31
    → (d : ℤ) × (read_disp (emit (Gen.jmp_back dest) s) (length s + 1) ≡ some d)
      × (add_disp (length s + 5) d ≡ dest)
unfolding emit gen_jmp_back
gen_jmp_back_target s dest h small =
    let disp = disp_to (length s) dest +ℤ negsuc 4 in
    let op = opcode Inst.jmp_back in
    (
      as_i32 (as_u32 disp),
      rw (← length-push s op) (read_disp-push32 (push s op) (as_u32 disp) (as_u32-lt disp)),
      unfold add_disp disp_to in ground arith,
    )
