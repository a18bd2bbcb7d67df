-- ===== src/Codegen/Good.antt =====
-- src/parse/codegen.rs: what the code of a node has to do, and `gen` of constants and of nodes that are
-- conditions by their value.
use ruruby.Prelude.{
  ℕ, ◌≡◌, refl, subst, List, [], ◌∷◌, ◌++◌, Option, none, some, Bool, true, false, if◌then◌else◌,
  length,
}
use ruruby.ISeq.Inst.{Inst}
use ruruby.Value.{to_bool, nil_value}
use ruruby.Vm.{Memory, Exec, Ended, returns, raises, panics, pure}
use ruruby.Vm.Executor.{Executor}
use ruruby.Codegen.Gen.{Code, ◌then◌, inst32, emits, drop_unused, Gens, by_value, constant}
use ruruby.Codegen.Eval.{Ran, ran, continue, ◌&>◌, if_used}
use ruruby.Codegen.Reach.{with_stack, Follows}
use ruruby.Codegen.Bytes.{Grows, Grows-nothing}
use ruruby.Codegen.Grow.{GrowsFive, Grows-if, Grows-drop_unused}
use ruruby.Codegen.Sound.{IsSound, IsSound-then, IsSound-nothing, one}
use ruruby.Codegen.Moves
use ruruby.Codegen.Moves.{left}
use ruruby.Codegen.Branch.{IsBranch, IsBranch-then, GrowsFive-then, GrowsFive-inst}
use ruruby.Codegen.Jumps.{none_left, IsBranch-jmp_f}

module _ {W : Type 0} (o : Executor W) (self_value : ℕ) where
  -- The code of a node and the node.
  pub record IsGood (code : Gens) (a : Bool → Ran W ℕ) : Type 0 where
    pub grown : (used : Bool) → Grows (code.gen used)
    pub jump_grown : GrowsFive code.gen_jmp_if_false
    pub sound : (used : Bool) → IsSound o self_value [] (left used) (code.gen used) (a used)
    pub branch : IsBranch o self_value [] none_left to_bool code.gen_jmp_if_false (a true)

  -- A value passed on.
  pub passed_on :
      {A : Type 0} (vals : List ℕ) (r : Option (Ended (Memory W) A))
      → continue (λ v. ran (pure v) vals) r ≡ r
  unfolding continue ran
  passed_on vals none = refl
  passed_on vals (some (returns v m)) = refl
  passed_on vals (some (raises e m)) = refl
  passed_on vals (some panics) = refl

  IsSound-passed :
      {A : Type 0} {args : List ℕ} {out : A → List ℕ} {code : Code} (a : Ran W A)
      → IsSound o self_value args out code (a &> λ v. ran (pure v))
      → IsSound o self_value args out code a
  unfolding ◌&>◌
  IsSound-passed {args = args} {out = out} a h = record {
    follows = λ s s' t vals m e holds small.
        subst
          (Follows o self_value t out (λ x. length s') (length s) (with_stack (args ++ vals) m)
            vals)
          (passed_on vals (a vals m)) (h.follows s s' t vals m e holds small);
  }

  pub IsSound-same :
      {args : List ℕ} {out : ℕ → List ℕ} {code : Code} (a a' : Ran W ℕ)
      → ((vals : List ℕ) (m : Memory W) → a vals m ≡ a' vals m)
      → IsSound o self_value args out code a
      → IsSound o self_value args out code a'
  IsSound-same {args = args} {out = out} a a' same h = record {
    follows = λ s s' t vals m e holds small.
        subst
          (Follows o self_value t out (λ x. length s') (length s) (with_stack (args ++ vals) m)
            vals)
          (same vals m) (h.follows s s' t vals m e holds small);
  }

  pub dropped :
      (used : Bool) {code : Code} {a : Ran W ℕ}
      → Grows code
      → IsSound o self_value [] one code a
      → IsSound o self_value [] (left used) (code then drop_unused used) a
  dropped used {a = a} g h = IsSound-passed a (
      IsSound-then o self_value g (Grows-drop_unused used) h
        (Moves.IsSound-drop_unused o self_value used))

  -- Behind the code of a value, a jump by that value.
  pub IsBranch-after :
      {test : ℕ → Bool} {code jump : Code} {a : Ran W ℕ}
      → Grows code
      → GrowsFive jump
      → IsSound o self_value [] one code a
      → ((v : ℕ) → IsBranch o self_value (v ∷ []) none_left test jump (ran (pure v)))
      → IsBranch o self_value [] none_left test (code then jump) a
  unfolding ◌&>◌
  IsBranch-after {a = a} g g' h jumps =
      let b = IsBranch-then o self_value g g' h jumps in
      record {
        follows = λ s s' t vals m d e holds small leads.
            subst (Follows o self_value t none_left _ (length s) (with_stack vals m) vals)
              (passed_on vals (a vals m)) (b.follows s s' t vals m d e holds small leads);
      }

  pub by_value-IsGood :
      {gen : Bool → Code} (a : Bool → Ran W ℕ)
      → ((used : Bool) → Grows (gen used))
      → ((used : Bool) → IsSound o self_value [] (left used) (gen used) (a used))
      → IsGood (by_value gen) a
  unfolding by_value emits inst32
  by_value-IsGood a g h = record {
    grown = g;
    jump_grown = GrowsFive-then (g true) (GrowsFive-inst Inst.jmp_f);
    sound = h;
    branch =
        IsBranch-after (g true) (GrowsFive-inst Inst.jmp_f) (h true) (IsBranch-jmp_f o self_value);
  }

  pub constant-IsGood :
      {code : Code} (a : Exec (Memory W) ℕ)
      → Grows code
      → IsSound o self_value [] one code (ran a)
      → IsGood (by_value (constant code)) (λ used. if_used used a)
  unfolding constant if_used
  constant-IsGood {code = code} a g h =
      by_value-IsGood (λ used. if_used used a) (λ used. Grows-if used g Grows-nothing) each
    where
      each :
          (used : Bool) → IsSound o self_value [] (left used) (constant code used) (if_used used a)
      each true = h
      each false = IsSound-nothing o self_value nil_value
