-- ===== src/Codegen/Grow.antt =====
-- src/parse/codegen.rs: every generator only adds to the buffer, apart from the displacements of the
-- jumps that it has made itself.
use ruruby.Prelude.{
  subst, ap, [], ◌++◌, ℕ, ◌+◌, ◌-◌, ◌≤◌, ◌<◌, ◌≡◌, ◌⊎◌, refl, ◌∙◌, inl, inr, Bool, true, false,
  Option, none, some, arith, length, get_elem?, if◌then◌else◌, Option-cases, ◌==◌, ◌∷◌,
}
use mathlib.Core.List.{append_assoc}
use ruruby.Prelude.Outcome.{ok}
use ruruby.ISeq.{ISeq, write_disp, write_disp_from_cur, push}
use ruruby.ISeq.Codec.{bytes4, push32_lem}
use ruruby.ISeq.Inst.{Inst, opcode}
use ruruby.ISeq.Gen.{Gen, emit}
use ruruby.ISeq.Emit.{emit_lem}
use ruruby.ISeq.Patch.{write_disp_keeps}
use ruruby.Codegen.{Codegen, get_local_var}
use ruruby.Codegen.Gen.{
  Code, ◌then◌, inst0, inst32, inst32_32, emits, lead_here, drop_unused, gen_get_local,
  gen_set_local,
}
use ruruby.Codegen.Bytes.{Extends, Extends-append, Grows, Grows-nothing}

Grows-appends :
    {code : Code} (bytes : ISeq → ISeq) → ((s : ISeq) → code s ≡ ok (s ++ bytes s)) → Grows code
Grows-appends {code = code} bytes is = record {
  grows = λ s s' e. subst (Extends s) (same s s' e) (Extends-append s (bytes s));
}
  where
    same : (s s' : ISeq) → code s ≡ ok s' → s ++ bytes s ≡ s'
    same s s' e = let x = is s in cc

pub Grows-inst0 : (i : Inst) → Grows (inst0 i)
unfolding inst0 push
Grows-inst0 i = Grows-appends (λ s. opcode i ∷ []) λ s. refl

pub Grows-inst32 : (i : Inst) (n : ℕ) → Grows (inst32 i n)
unfolding inst32 push
Grows-inst32 i n =
    Grows-appends (λ s. opcode i ∷ bytes4 n)
      λ s. rw push32_lem (ap ok (append_assoc s (opcode i ∷ []) (bytes4 n)))

pub Grows-inst32_32 : (i : Inst) (n k : ℕ) → Grows (inst32_32 i n k)
unfolding inst32_32 push
Grows-inst32_32 i n k =
    Grows-appends (λ s. opcode i ∷ bytes4 n ++ bytes4 k)
      λ s. ap ok (simp push32_lem (simp append_assoc))

pub Grows-emits : (g : Gen) → Grows (emits g)
unfolding emits
Grows-emits g = record { grows = λ s s' e. subst (Extends s) (cc e) (emitted s) }
  where
    emitted : (s : ISeq) → Extends s (emit g s)
    emitted s = let r = emit_lem g s in record { longer = omega (arith, r.0); kept = r.2 }

pub Grows-if : {a b : Code} (c : Bool) → Grows a → Grows b → Grows (if c then a else b)
Grows-if true x y = x
Grows-if false x y = y

pub Grows-none : {code : Code} → ((s : ISeq) (s' : ISeq) → ¬ (code s ≡ ok s')) → Grows code
Grows-none h = record { grows = λ s s' e. absurd (h s s' e) }

pub Grows-drop_unused : (used : Bool) → Grows (drop_unused used)
unfolding drop_unused
Grows-drop_unused used = Grows-if used Grows-nothing (Grows-emits Gen.pop)

module _ (g : Codegen) (id : ℕ) where
  var-Grows :
      (v : Option (ℕ × ℕ)) (absent : Code) (near far : Inst)
      → Grows absent
      → Grows (elim v [
        | none ↦ absent
        | some v ↦ if v.0 == 0 then inst32 near v.1 else inst32_32 far v.1 v.0
      ])
  var-Grows none absent near far h = h
  var-Grows (some v) absent near far h =
      Grows-if (v.0 == 0) (Grows-inst32 near v.1) (Grows-inst32_32 far v.1 v.0)

  pub Grows-get_local : Grows (gen_get_local g id)
  unfolding gen_get_local
  Grows-get_local =
      var-Grows (get_local_var g id) _ Inst.get_local Inst.get_dynlocal (Grows-none λ s s' e. cc)

  pub Grows-set_local : Grows (gen_set_local g id)
  unfolding gen_set_local
  Grows-set_local =
      var-Grows (get_local_var g id) _ Inst.set_local Inst.set_dynlocal (Grows-none λ s s' e. cc)

-- Code that ends in a jump, of five bytes at least.
pub record GrowsFive (code : Code) : Type 0 where
  pub grows : Grows code
  pub five : (s s' : ISeq) → code s ≡ ok s' → length s + 5 ≤ length s'

-- What a patched buffer has of the one before.
pub record Patched (s s' : ISeq) (src : ℕ) : Type 0 where
  pub written : write_disp s src (length s) ≡ some s'
  pub low : 4 ≤ src
  pub high : src ≤ length s
  pub lengths : length s' ≡ length s
  pub outside : (i : ℕ) → (i < src - 4) ⊎ (src ≤ i) → get_elem? s' i ≡ get_elem? s i

pub Patched-lead_here : (s s' : ISeq) (src : ℕ) → lead_here src s ≡ ok s' → Patched s s' src
unfolding lead_here write_disp_from_cur
Patched-lead_here s s' src e = elim (Option-cases (write_disp s src (length s))) [
  | inl n ↦ cc (rw (n, lead_here, write_disp_from_cur) at e)
  | inr (x, w) ↦
      let same : x ≡ s' = cc (rw (w, lead_here, write_disp_from_cur) at e) in
      let r = write_disp_keeps s s' src (length s) (rw same at w) in
      record { written = rw same at w; low = r.0; high = r.1; lengths = r.2; outside = r.3 }
]

-- A patch of a jump behind `s` keeps the bytes of `s`.
pub Extends-Patched :
    {s₀ s s' : ISeq} {src : ℕ}
    → Extends s₀ s
    → Patched s s' src
    → length s₀ + 4 ≤ src
    → Extends s₀ s'
Extends-Patched {s₀} {s} {s'} {src} e p far = record {
  longer = omega (arith, e.longer, p.lengths);
  kept = λ k h. p.outside k (inl (omega arith)) ∙ e.kept k h;
}
