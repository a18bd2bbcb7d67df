-- ===== src/Codegen/Branch.antt =====
-- src/parse/codegen.rs: code that ends in a conditional jump whose displacement is written later.
use ruruby.Prelude.{
  ℕ, suc, ◌+◌, ◌-◌, ◌%◌, ◌^◌, ◌≤◌, ◌<◌, ◌≡◌, refl, sym, ap, ◌∙◌, List, [], ◌∷◌, ◌++◌, some, arith,
  Bool, if◌then◌else◌, length, length-append, get_elem?, get_elem?-append_right,
  get_elem?-append_left, get_elem?-drop, take-agree, drop, le→leb, inl, inr,
}
use mathlib.Core.List.{append_assoc}
use ruruby.Prelude.Int.{ℤ, as_i32}
use ruruby.Prelude.Outcome.{ok}
use ruruby.ISeq.{ISeq, slice, read32, read_disp, add_disp, push, push32, from_bytes}
use ruruby.ISeq.Inst.{Inst, opcode}
use ruruby.ISeq.Codec.{bytes4, push32_lem}
use ruruby.ISeq.Patch.{write_disp_target}
use ruruby.Vm.{Memory, Exec}
use ruruby.Vm.Executor.{Executor}
use ruruby.Vm.Run.{exec}
use ruruby.Codegen.Gen.{Code, ◌then◌, inst32, inst32_32}
use ruruby.Codegen.Eval.{Ran, ran, ◌&>◌}
use ruruby.Codegen.Reach.{with_stack, Follows, Follows-continue, Follows-step, pushed}
use ruruby.Codegen.Bytes.{Extends, Holds, Grows, Grows-then, bind-ok, At, read32-At}
use ruruby.Codegen.Grow.{GrowsFive, Patched, Grows-inst32, Grows-inst32_32}
use ruruby.Codegen.Sound.{IsSound, step-At}

-- `t` has the bytes of `s` from `lo` up to `hi`.
pub record HoldsTo (t s : ISeq) (lo hi : ℕ) : Type 0 where
  pub room : length s ≤ length t
  pub same : (k : ℕ) → lo ≤ k → k < hi → get_elem? t k ≡ get_elem? s k

pub HoldsTo-Holds :
    {t s s' : ISeq} {lo hi : ℕ} → HoldsTo t s' lo hi → Extends s s' → length s ≤ hi → Holds t s lo
HoldsTo-Holds h e l = record {
  room = omega (arith, h.room, e.longer);
  same = λ k a b. h.same k a (omega arith) ∙ e.kept k b;
}

pub HoldsTo-from : {t s : ISeq} {lo lo' hi : ℕ} → HoldsTo t s lo hi → lo ≤ lo' → HoldsTo t s lo' hi
HoldsTo-from h l = record { room = h.room; same = λ k a b. h.same k (omega arith) b }

pub Holds-whole : {t s : ISeq} {lo : ℕ} → Holds t s lo → HoldsTo t s lo (length s)
Holds-whole h = record { room = h.room; same = h.same }

-- Where a patched buffer is held, the bytes outside the displacement are those before the patch.
pub HoldsTo-Patched :
    {t s s' s₀ : ISeq} {src lo hi : ℕ}
    → HoldsTo t s' lo hi
    → Patched s s' src
    → Extends s₀ s
    → length s₀ ≡ src
    → src ≤ hi + 4
    → HoldsTo t s₀ lo (src - 4)
HoldsTo-Patched h p e l room = record {
  room = omega (arith, h.room, p.lengths, p.high);
  same = λ k a b. h.same k a (omega arith) ∙ p.outside k (inl b) ∙ e.kept k (omega arith);
}

pub HoldsTo-behind :
    {t s s' : ISeq} {src lo hi : ℕ}
    → HoldsTo t s' lo hi
    → Patched s s' src
    → lo ≤ src
    → HoldsTo t s src hi
HoldsTo-behind h p l = record {
  room = omega (arith, h.room, p.lengths);
  same = λ k a b. h.same k (omega arith) b ∙ p.outside k (inr a);
}

pub Holds-behind :
    {t s s' : ISeq} {src lo : ℕ} → Holds t s' lo → Patched s s' src → lo ≤ src → Holds t s src
Holds-behind h p l = record {
  room = omega (arith, h.room, p.lengths);
  same = λ k a b. h.same k (omega arith) (omega (arith, p.lengths)) ∙ p.outside k (inr a);
}

-- A displacement that is held.
pub read_disp-HoldsTo :
    (t s : ISeq) (lo hi p : ℕ)
    → HoldsTo t s lo hi
    → lo ≤ p
    → p + 4 ≤ hi
    → p + 4 ≤ length s
    → read_disp t p ≡ read_disp s p
unfolding read_disp read32 slice
read_disp-HoldsTo t s lo hi p h l inside room =
    let parts = take-agree 4 (drop p t) (drop p s) λ j r.
      get_elem?-drop p j t
      ∙ h.same (p + j) (omega arith) (omega arith)
      ∙ sym (get_elem?-drop p j s) in
    rw
      (
        read_disp,
        read32,
        slice,
        le→leb (p + 4) (length t) (omega (arith, h.room)),
        le→leb (p + 4) (length s) room,
      )
      (ap (λ bs. some (as_i32 (from_bytes bs))) parts)

-- A patched jump leads to the end of the buffer that was patched.
pub leads_here :
    {t s s' : ISeq} {src lo hi : ℕ}
    → HoldsTo t s' lo hi
    → Patched s s' src
    → lo + 4 ≤ src
    → src ≤ hi
    → length t < 2 ^ 31
    → (d : ℤ) × (read_disp t (src - 4) ≡ some d) × (add_disp src d ≡ length s)
leads_here {t = t} {s = s} {s' = s'} {src = src} {lo = lo} {hi = hi} h p l inside small =
    let r =
      write_disp_target s src (length s) p.low p.high (omega (arith, h.room, p.lengths, p.high))
        (omega (arith, h.room, p.lengths)) in
    let same : r.0 ≡ s' = let a = r.1 in let b = p.written in cc in
    (
      r.2.0,
      read_disp-HoldsTo t s' lo hi (src - 4) h (omega arith) (omega (arith, p.low))
            (omega (arith, p.lengths, p.high, p.low))
          ∙ rw same at (r.2.1),
      r.2.2,
    )

pub GrowsFive-then : {code jump : Code} → Grows code → GrowsFive jump → GrowsFive (code then jump)
unfolding ◌then◌
GrowsFive-then {code = code} {jump = jump} g h = record {
  grows = Grows-then g h.grows;
  five = λ s s' e.
      let mid = bind-ok (code s) jump s' e in
      omega (arith, (g.grows s mid.0 mid.1).longer, h.five mid.0 s' mid.2);
}

module _ {W : Type 0} (o : Executor W) (self_value : ℕ) where
  -- Code that does what the computation does and goes on behind itself if the test holds of the value,
  -- else where its displacement leads.
  pub record IsBranch {A : Type 0} (args : List ℕ) (out : A → List ℕ) (test : A → Bool)
      (code : Code) (a : Ran W A) : Type 0 where
    pub follows :
        (s s' t : ISeq) (vals : List ℕ) (m : Memory W) (d : ℤ)
        → code s ≡ ok s'
        → HoldsTo t s' (length s) (length s' - 4)
        → length t < 2 ^ 31
        → read_disp t (length s' - 4) ≡ some d
        → Follows o self_value t out
            (λ x. if test x then length s' else add_disp (length s') d)
            (length s)
            (with_stack (args ++ vals) m)
            vals
            (a vals m)

  pub IsBranch-then :
      {A B : Type 0} {args : List ℕ} {out : A → List ℕ} {out' : B → List ℕ} {test : B → Bool}
      {code jump : Code} {a : Ran W A} {k : A → Ran W B}
      → Grows code
      → GrowsFive jump
      → IsSound o self_value args out code a
      → ((x : A) → IsBranch (out x) out' test jump (k x))
      → IsBranch args out' test (code then jump) (a &> k)
  unfolding ◌then◌ ◌&>◌
  IsBranch-then {args = args} {out = out} {out' = out'} {test = test} {code = code} {jump = jump}
        {a = a} {k = k} g g' f h =
      record {
        follows = λ s s' t vals m d e holds small leads.
            let mid = bind-ok (code s) jump s' e in
            let before = g.grows s mid.0 mid.1 in
            let after = g'.grows.grows mid.0 s' mid.2 in
            let far = g'.five mid.0 s' mid.2 in
            Follows-continue o self_value t out out' (λ x. length mid.0)
              (λ x. if test x then length s' else add_disp (length s') d) (length s)
              (with_stack (args ++ vals) m) vals vals (a vals m) (λ x. k x vals)
              (f.follows s mid.0 t vals m mid.1 (HoldsTo-Holds holds after (omega arith)) small)
              (λ x m'.
                (h x).follows mid.0 s' t vals m' d mid.2 (HoldsTo-from holds before.longer) small
                  leads);
      }

  -- One jump instruction, `front` being its operands before the displacement.
  IsBranch-bytes :
      {A : Type 0} {args : List ℕ} {out : A → List ℕ} {test : A → Bool} {code : Code}
      (a : Exec (Memory W) A) (i : Inst) (front : ISeq)
      → ((s : ISeq) → code s ≡ ok (s ++ (opcode i ∷ front) ++ bytes4 0))
      → ((t : ISeq) (p q : ℕ) (vals : List ℕ) (m : Memory W) (d : ℤ)
          → At t p (opcode i ∷ front)
          → read_disp t (p + suc (length front)) ≡ some d
          → q ≡ p + suc (length front) + 4
          → exec o self_value t p i (with_stack (args ++ vals) m)
            ≡ pushed o self_value t out (λ x. if test x then q else add_disp q d) vals (a m))
      → IsBranch args out test code (ran a)
  unfolding ran
  IsBranch-bytes {args = args} {out = out} {test = test} {code = code} a i front is does = record {
    follows = λ s s' t vals m d e holds small leads.
        let ends : s' ≡ s ++ (opcode i ∷ front) ++ bytes4 0 = the_bytes s s' e in
        let len : length s' ≡ length s + suc (length front) + 4 = size s s' ends in
        let at : At t (length s) (opcode i ∷ front) = record {
          inside = omega (arith, holds.room);
          byte = λ k l.
              holds.same (length s + k) (omega arith) (omega arith)
              ∙ ap (λ x. get_elem? x (length s + k))
                  (ends ∙ append_assoc s (opcode i ∷ front) (bytes4 0))
              ∙ get_elem?-append_right s ((opcode i ∷ front) ++ bytes4 0) k
              ∙ get_elem?-append_left (opcode i ∷ front) (bytes4 0) k l;
        } in
        let here : length s' - 4 ≡ length s + suc (length front) = omega arith in
        Follows-step o self_value t out (λ x. if test x then length s' else add_disp (length s') d)
          (length s) (with_stack (args ++ vals) m) vals (a m)
          (step-At o self_value t (length s) i front (with_stack (args ++ vals) m) at
            ∙ does t (length s) (length s') vals m d at (rw here at leads) len);
  }
    where
      the_bytes : (s s' : ISeq) → code s ≡ ok s' → s' ≡ s ++ (opcode i ∷ front) ++ bytes4 0
      the_bytes s s' e = let x = is s in cc

      size :
          (s s' : ISeq)
          → s' ≡ s ++ (opcode i ∷ front) ++ bytes4 0
          → length s' ≡ length s + suc (length front) + 4
      size s s' e =
          ap length e
          ∙ omega (
            arith,
            length-append (s ++ opcode i ∷ front) (bytes4 0),
            length-append s (opcode i ∷ front),
          )

  module _ {A : Type 0} {args : List ℕ} {out : A → List ℕ} {test : A → Bool} (a : Exec (Memory W) A)
      (i : Inst) where
    pub IsBranch-inst :
        ((t : ISeq) (p : ℕ) (vals : List ℕ) (m : Memory W) (d : ℤ)
          → read_disp t (p + 1) ≡ some d
          → exec o self_value t p i (with_stack (args ++ vals) m)
            ≡ pushed o self_value t out
                (λ x. if test x then p + 5 else add_disp (p + 5) d)
                vals
                (a m))
        → IsBranch args out test (inst32 i 0) (ran a)
    unfolding inst32 push
    IsBranch-inst does =
        IsBranch-bytes a i [] (λ s. rw push32_lem refl)
          λ t p q vals m d at r e.
            let five : q ≡ p + 5 = omega arith in rw five (does t p vals m d r)

    pub IsBranch-inst_imm :
        (n : ℕ)
        → ((t : ISeq) (p : ℕ) (vals : List ℕ) (m : Memory W) (d : ℤ)
            → read32 t (p + 1) ≡ some (n % 2 ^ 32)
            → read_disp t (p + 5) ≡ some d
            → exec o self_value t p i (with_stack (args ++ vals) m)
              ≡ pushed o self_value t out
                  (λ x. if test x then p + 9 else add_disp (p + 9) d)
                  vals
                  (a m))
        → IsBranch args out test (inst32_32 i n 0) (ran a)
    unfolding inst32_32 push
    IsBranch-inst_imm n does =
        IsBranch-bytes a i (bytes4 n) (λ s. ap ok (simp push32_lem (simp append_assoc)))
          λ t p q vals m d at r e.
            let nine : q ≡ p + 9 = omega arith in
            rw nine (does t p vals m d (read32-At t p (opcode i ∷ []) n [] at) r)

pub GrowsFive-inst : (i : Inst) → GrowsFive (inst32 i 0)
unfolding inst32 push
GrowsFive-inst i = record {
  grows = Grows-inst32 i 0;
  five = λ s s' e.
      let len : push32 (s ++ opcode i ∷ []) 0 ≡ s' = cc in
      omega (
        arith,
        ap length (push32_lem (s ++ opcode i ∷ []) 0),
        ap length len,
        length-append (s ++ opcode i ∷ []) (bytes4 0),
        length-append s (opcode i ∷ []),
      );
}

pub GrowsFive-inst_imm : (i : Inst) (n : ℕ) → GrowsFive (inst32_32 i n 0)
unfolding inst32_32 push
GrowsFive-inst_imm i n = record {
  grows = Grows-inst32_32 i n 0;
  five = λ s s' e.
      let front = push32 (s ++ opcode i ∷ []) n in
      let len : push32 front 0 ≡ s' = cc in
      omega (
        arith,
        ap length (push32_lem (s ++ opcode i ∷ []) n),
        ap length (push32_lem front 0),
        ap length len,
        length-append front (bytes4 0),
        length-append (s ++ opcode i ∷ []) (bytes4 n),
        length-append s (opcode i ∷ []),
      );
}
