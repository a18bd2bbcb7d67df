-- ===== src/Codegen/Sound.antt =====
-- src/parse/codegen.rs: pieces of code that do what a computation does, and how they are put together.
use ruruby.Prelude.{
  ℕ, suc, ◌+◌, ◌%◌, ◌^◌, ◌<◌, ◌≡◌, refl, sym, ap, subst, ◌∙◌, List, [], ◌∷◌, ◌++◌, Option, none,
  some, arith, length, length-append, get_elem?,
}
use mathlib.Core.List.{append_assoc}
use ruruby.Prelude.Outcome.{Outcome, ok}
use ruruby.ISeq.{ISeq, read32, read64, push, push64}
use ruruby.ISeq.Inst.{Inst, opcode, decode-opcode}
use ruruby.ISeq.Codec.{bytes4, bytes8, push32_lem, push64_lem}
use ruruby.Vm.{Memory, Exec, Ended, returns, raises, panics}
use ruruby.Vm.Executor.{Executor}
use ruruby.Vm.Run.{exec, step}
use ruruby.Codegen.Gen.{Code, ◌then◌, nothing, inst0, inst32, inst32_32}
use ruruby.Codegen.Eval.{Ran, ran, under, continue, ◌&>◌}
use ruruby.Codegen.Reach.{
  with_stack, Reaches, stays, Follows, Follows-continue, Follows-step, pushed,
}
use ruruby.Codegen.Bytes.{
  Holds, Holds-part, Holds-from, Grows, bind-ok, At, At-Holds, read32-At, read64-At,
}

-- One value on the stack.
abbrev pub one : ℕ → List ℕ
one v = v ∷ []

module _ {W : Type 0} (o : Executor W) (self_value : ℕ) where
  -- Where the code stands in a larger code, it takes `args` off the stack and does what the computation
  -- does, which leaves what `out` gives.
  pub record IsSound {A : Type 0} (args : List ℕ) (out : A → List ℕ) (code : Code) (a : Ran W A)
      : Type 0 where
    pub follows :
        (s s' t : ISeq) (vals : List ℕ) (m : Memory W)
        → code s ≡ ok s'
        → Holds t s' (length s)
        → length t < 2 ^ 31
        → Follows o self_value t out
            (λ x. length s')
            (length s)
            (with_stack (args ++ vals) m)
            vals
            (a vals m)

  pub IsSound-then :
      {A B : Type 0} {args : List ℕ} {out : A → List ℕ} {out' : B → List ℕ} {code code' : Code}
      {a : Ran W A} {k : A → Ran W B}
      → Grows code
      → Grows code'
      → IsSound args out code a
      → ((x : A) → IsSound (out x) out' code' (k x))
      → IsSound args out' (code then code') (a &> k)
  unfolding ◌then◌ ◌&>◌
  IsSound-then {args = args} {out = out} {out' = out'} {code = code} {code' = code'} {a = a} {k = k}
        g g' f h =
      record {
        follows = λ s s' t vals m e holds small.
            let mid = bind-ok (code s) code' s' e in
            let before = g.grows s mid.0 mid.1 in
            let after = g'.grows mid.0 s' mid.2 in
            Follows-continue o self_value t out out' (λ x. length mid.0) (λ x. length s') (length s)
              (with_stack (args ++ vals) m) vals vals (a vals m) (λ x. k x vals)
              (f.follows s mid.0 t vals m mid.1 (Holds-part holds after) small)
              (λ x m'.
                (h x).follows mid.0 s' t vals m' mid.2 (Holds-from holds before.longer) small);
      }

  -- Below the values that code takes and leaves there may be another one.
  pub IsSound-above :
      {code : Code} {a : Ran W ℕ} (l : ℕ)
      → IsSound [] one code a
      → IsSound (l ∷ []) (λ v. v ∷ l ∷ []) code (under l a)
  unfolding Follows under
  IsSound-above {a = a} l h = record {
    follows = λ s s' t vals m e holds small.
        above t (length s) (λ x. length s') (with_stack (l ∷ vals) m) vals (a (l ∷ vals) m)
          (h.follows s s' t (l ∷ vals) m e holds small);
  }
    where
      above :
          (t : ISeq) (p : ℕ) (q : ℕ → ℕ) (m : Memory W) (vals : List ℕ)
          (end : Option (Ended (Memory W) ℕ))
          → Follows o self_value t one q p m (l ∷ vals) end
          → Follows o self_value t (λ v. v ∷ l ∷ []) q p m vals end
      above t p q m vals none f = f
      above t p q m vals (some (returns v m')) f = f
      above t p q m vals (some (raises x m')) f = f
      above t p q m vals (some panics) f = f

  -- The same of code that takes a value.
  pub IsSound-over :
      {A : Type 0} {code : Code} {a : Ran W A} (v l : ℕ)
      → IsSound (v ∷ []) (λ x. []) code a
      → IsSound (v ∷ l ∷ []) (λ x. l ∷ []) code (under l a)
  unfolding Follows under
  IsSound-over {A = A} {a = a} v l h = record {
    follows = λ s s' t vals m e holds small.
        over t (length s) (length s') (with_stack (v ∷ l ∷ vals) m) vals (a (l ∷ vals) m)
          (h.follows s s' t (l ∷ vals) m e holds small);
  }
    where
      over :
          (t : ISeq) (p q : ℕ) (m : Memory W) (vals : List ℕ) (end : Option (Ended (Memory W) A))
          → Follows o self_value t (λ x. []) (λ x. q) p m (l ∷ vals) end
          → Follows o self_value t (λ x. l ∷ []) (λ x. q) p m vals end
      over t p q m vals none f = f
      over t p q m vals (some (returns v m')) f = f
      over t p q m vals (some (raises x m')) f = f
      over t p q m vals (some panics) f = f

  -- A value named in another way.
  pub IsSound-map :
      {A B : Type 0} {args : List ℕ} {out : B → List ℕ} {code : Code} {a : Ran W A} (f : A → B)
      → IsSound args (λ x. out (f x)) code a
      → IsSound args out code (a &> λ x. ran λ m. returns (f x) m)
  unfolding Follows ◌&>◌ continue ran
  IsSound-map {A = A} {args = args} {out = out} {a = a} f h = record {
    follows = λ s s' t vals m e holds small.
        named t (length s) (length s') (with_stack (args ++ vals) m) vals (a vals m)
          (h.follows s s' t vals m e holds small);
  }
    where
      named :
          (t : ISeq) (p q : ℕ) (m : Memory W) (vals : List ℕ) (end : Option (Ended (Memory W) A))
          → Follows o self_value t (λ x. out (f x)) (λ x. q) p m vals end
          → Follows o self_value t out
              (λ x. q)
              p
              m
              vals
              (continue (λ x k. some (returns (f x) k)) end)
      named t p q m vals none g = g
      named t p q m vals (some (returns v m')) g = g
      named t p q m vals (some (raises x m')) g = g
      named t p q m vals (some panics) g = g

  pub IsSound-nothing :
      {A : Type 0} {out : A → List ℕ} (x : A) → IsSound (out x) out nothing (ran λ m. returns x m)
  unfolding nothing ran Follows
  IsSound-nothing {out = out} x = record {
    follows = λ s s' t vals m e holds small.
        subst
          (λ n.
            Reaches o self_value t (length s) (with_stack (out x ++ vals) m) n
              (with_stack (out x ++ vals) m))
          (ap length (same_code e)) stays;
  }
    where
      same_code : {s s' : ISeq} → Path (Outcome ISeq) (ok s) (ok s') → s ≡ s'
      same_code e = cc e

  pub step-At :
      (t : ISeq) (p : ℕ) (i : Inst) (rest : ISeq) (m : Memory W)
      → At t p (opcode i ∷ rest)
      → step o self_value t p m ≡ exec o self_value t p i m
  unfolding step
  step-At t p i rest m a =
      let at : get_elem? t p ≡ some (opcode i) = ground (arith, a.byte 0 (omega arith)) in
      rw (at, decode-opcode i, step) refl

  -- Code that pushes the bytes of an instruction is sound where the instruction is.
  IsSound-bytes :
      {A : Type 0} {args : List ℕ} {out : A → List ℕ} {code : Code} (a : Exec (Memory W) A)
      (i : Inst) (ops : ISeq)
      → ((s : ISeq) → code s ≡ ok (s ++ opcode i ∷ ops))
      → ((t : ISeq) (p : ℕ) (vals : List ℕ) (m : Memory W)
          → At t p (opcode i ∷ ops)
          → exec o self_value t p i (with_stack (args ++ vals) m)
            ≡ pushed o self_value t out (λ x. p + suc (length ops)) vals (a m))
      → IsSound args out code (ran a)
  unfolding ran
  IsSound-bytes {args = args} {out = out} {code = code} a i ops is does = record {
    follows = λ s s' t vals m e holds small.
        let ends : s' ≡ s ++ opcode i ∷ ops = the_bytes s s' e in
        let at = At-Holds t s (opcode i ∷ ops) (subst (λ x. Holds t x (length s)) ends holds) in
        let len : length s' ≡ length s + suc (length ops) =
          ap length ends ∙ length-append s (opcode i ∷ ops) in
        subst
          (λ q.
            Follows o self_value t out (λ x. q) (length s) (with_stack (args ++ vals) m) vals
              (some (a m)))
          (sym len)
          (Follows-step o self_value t out (λ x. length s + suc (length ops)) (length s)
            (with_stack (args ++ vals) m) vals (a m)
            (step-At t (length s) i ops (with_stack (args ++ vals) m) at
              ∙ does t (length s) vals m at));
  }
    where
      the_bytes : (s s' : ISeq) → code s ≡ ok s' → s' ≡ s ++ opcode i ∷ ops
      the_bytes s s' e = let x = is s in cc

  module _ {A : Type 0} {args : List ℕ} {out : A → List ℕ} (a : Exec (Memory W) A) (i : Inst) where
    pub IsSound-inst0 :
        ((t : ISeq) (p : ℕ) (vals : List ℕ) (m : Memory W)
          → exec o self_value t p i (with_stack (args ++ vals) m)
            ≡ pushed o self_value t out (λ x. p + 1) vals (a m))
        → IsSound args out (inst0 i) (ran a)
    unfolding inst0 push
    IsSound-inst0 does = IsSound-bytes a i [] (λ s. refl) λ t p vals m at. does t p vals m

    -- The operands are read as they are pushed.
    pub IsSound-inst32 :
        (n : ℕ)
        → ((t : ISeq) (p : ℕ) (vals : List ℕ) (m : Memory W)
            → read32 t (p + 1) ≡ some (n % 2 ^ 32)
            → exec o self_value t p i (with_stack (args ++ vals) m)
              ≡ pushed o self_value t out (λ x. p + 5) vals (a m))
        → IsSound args out (inst32 i n) (ran a)
    unfolding inst32 push
    IsSound-inst32 n does =
        IsSound-bytes a i (bytes4 n)
          (λ s. rw push32_lem (ap ok (append_assoc s (opcode i ∷ []) (bytes4 n))))
          λ t p vals m at. does t p vals m (read32-At t p (opcode i ∷ []) n [] at)

    pub IsSound-inst32_32 :
        (n k : ℕ)
        → ((t : ISeq) (p : ℕ) (vals : List ℕ) (m : Memory W)
            → read32 t (p + 1) ≡ some (n % 2 ^ 32)
            → read32 t (p + 5) ≡ some (k % 2 ^ 32)
            → exec o self_value t p i (with_stack (args ++ vals) m)
              ≡ pushed o self_value t out (λ x. p + 9) vals (a m))
        → IsSound args out (inst32_32 i n k) (ran a)
    unfolding inst32_32 push
    IsSound-inst32_32 n k does =
        IsSound-bytes a i (bytes4 n ++ bytes4 k) (λ s. ap ok (simp push32_lem (simp append_assoc)))
          λ t p vals m at.
            does t p vals m (read32-At t p (opcode i ∷ []) n (bytes4 k) at)
              (read32-At t p (opcode i ∷ bytes4 n) k [] at)

    pub IsSound-inst64 :
        (code : Code) (n : ℕ)
        → ((s : ISeq) → code s ≡ ok (push64 (push s (opcode i)) n))
        → ((t : ISeq) (p : ℕ) (vals : List ℕ) (m : Memory W)
            → read64 t (p + 1) ≡ some (n % 2 ^ 64)
            → exec o self_value t p i (with_stack (args ++ vals) m)
              ≡ pushed o self_value t out (λ x. p + 9) vals (a m))
        → IsSound args out code (ran a)
    unfolding push
    IsSound-inst64 code n is does =
        IsSound-bytes a i (bytes8 n)
          (λ s. is s ∙ ap ok (rw push64_lem (append_assoc s (opcode i ∷ []) (bytes8 n))))
          λ t p vals m at. does t p vals m (read64-At t p (opcode i ∷ []) n at)
