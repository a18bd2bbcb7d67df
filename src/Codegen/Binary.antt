-- ===== src/Codegen/Binary.antt =====
-- src/parse/codegen.rs: the code of operators on two operands and on one, as values and as conditions.
use ruruby.Prelude.{
  ℕ, ◌^◌, ◌<◌, ◌≡◌, refl, sym, subst, List, [], ◌∷◌, Option, none, some, Bool, true, false, not,
  if◌then◌else◌, Bool-cases, inl, inr,
}
use ruruby.Prelude.Int.{ℤ, as_i32, as_u32}
use ruruby.ISeq.Inst.{Inst}
use ruruby.ISeq.Gen.{Gen}
use ruruby.Value.{to_bool}
use ruruby.Vm.{Memory, Ended, returns, raises, panics, pure}
use ruruby.Vm.Executor.{Executor}
use ruruby.Codegen.{BinOp, UnOp, is_cmp_op}
use ruruby.Codegen.Gen.{
  Code, ◌then◌, inst0, inst32, inst32_32, emits, gen_bin_op, gen_operator, gen_logical,
  gen_jmp_compare, gen_un_op, immediate_operand, has_imm, inst_of, imm_inst_of, jump_inst_of,
  jump_imm_inst_of,
}
use ruruby.Codegen.Eval.{
  Ran, ran, under, continue, ◌&>◌, eval_bin_op, or_nil, apply, apply_imm, apply_un,
}
use ruruby.Codegen.Reach.{Follows, stays}
use ruruby.Codegen.Bytes.{Grows, Grows-then, Grows-nothing}
use ruruby.Codegen.Grow.{GrowsFive, Grows-emits, Grows-inst0, Grows-inst32}
use ruruby.Codegen.Sound.{IsSound, IsSound-then, IsSound-above, IsSound-nothing, one}
use ruruby.Codegen.Neutral.{KeepsStack}
use ruruby.Codegen.Leaves
use ruruby.Codegen.Moves
use ruruby.Codegen.Moves.{left}
use ruruby.Codegen.Branch.{
  IsBranch, IsBranch-then, GrowsFive-then, GrowsFive-inst, GrowsFive-inst_imm,
}
use ruruby.Codegen.Jumps.{
  none_left, IsBranch-jmp_f_kept, IsBranch-jmp_t_kept, IsBranch-compare, IsBranch-compare_imm,
}
use ruruby.Codegen.Choice.{skip, Grows-skip, IsSound-skip}
use ruruby.Codegen.Good.{passed_on, IsSound-same}

-- An immediate is a number of 32 bits.
unfoldable pub Narrow : Option ℤ → Type 0
Narrow none = Unit {0}
Narrow (some i) = (n : ℕ) × (n < 2 ^ 32) × (i ≡ as_i32 n)

module _ {W : Type 0} (o : Executor W) (self_value : ℕ) (laws : KeepsStack o) where
  module _ {lhs rhs : Code} {l r : Ran W ℕ} (gl : Grows lhs) (gr : Grows rhs)
      (hl : IsSound o self_value [] one lhs l) (hr : IsSound o self_value [] one rhs r) where
    Grows-operator : (op : BinOp) (imm : Option ℤ) → Grows (gen_operator lhs rhs op imm)
    unfolding gen_operator
    Grows-operator op none = Grows-then gl (Grows-then gr (Grows-inst0 (inst_of op)))
    Grows-operator op (some i) = Grows-then gl (Grows-inst32 (imm_inst_of op) (as_u32 i))

    -- Both operands, and an instruction that takes them.
    with_operands :
        {A : Type 0} {out : A → List ℕ} {code : Code} (k : ℕ → ℕ → Ran W A)
        → Grows code
        → ((x y : ℕ) → IsSound o self_value (y ∷ x ∷ []) out code (k x y))
        → IsSound o self_value [] out (lhs then rhs then code) (l &> λ x. under x r &> λ y. k x y)
    with_operands k g h =
        IsSound-then o self_value gl (Grows-then gr g) hl
          λ x. IsSound-then o self_value gr g (IsSound-above o self_value x hr) λ y. h x y

    plain-IsSound :
        (op : BinOp)
        → Leaves.is_strict op ≡ true
        → IsSound o self_value [] one
            (lhs then rhs then inst0 (inst_of op))
            (l &> λ x. under x r &> λ y. ran (apply o op x y))
    plain-IsSound op h =
        with_operands (λ x y. ran (apply o op x y)) (Grows-inst0 (inst_of op))
          λ x y. Leaves.IsSound-operator o self_value laws op x y h

    operator-IsSound :
        (op : BinOp) (imm : Option ℤ)
        → Leaves.is_strict op ≡ true
        → Narrow imm
        → IsSound o self_value [] one
            (gen_operator lhs rhs op (immediate_operand op imm))
            (elim (immediate_operand op imm) [
              | some i ↦ l &> λ x. ran (apply_imm o op x i)
              | none ↦ l &> λ x. under x r &> λ y. ran (apply o op x y)
            ])
    unfolding gen_operator immediate_operand Narrow
    operator-IsSound op none h n = elim (Bool-cases (has_imm op)) [
      | inl e ↦ rw e (plain-IsSound op h)
      | inr e ↦ rw e (plain-IsSound op h)
    ]
    operator-IsSound op (some i) h n = elim (Bool-cases (has_imm op)) [
      | inl e ↦
          rw (e, n.2)
            (IsSound-then o self_value gl (Grows-inst32 (imm_inst_of op) (as_u32 (as_i32 n.0))) hl
              λ x. Leaves.IsSound-imm o self_value laws op x n.0 n.1 e)
      | inr e ↦ rw e (plain-IsSound op h)
    ]

    -- The code that decides, and the code of the right operand behind a `POP`.
    deciding-GrowsFive :
        {replace : Code} (i : Inst)
        → Grows replace
        → GrowsFive (lhs then replace then emits (Gen.dup 1) then inst32 i 0)
    deciding-GrowsFive i g =
        GrowsFive-then gl
          (GrowsFive-then g (GrowsFive-then (Grows-emits (Gen.dup 1)) (GrowsFive-inst i)))

    right-Grows : Grows (emits Gen.pop then rhs)
    right-Grows = Grows-then (Grows-emits Gen.pop) gr

    right-IsSound :
        (v : ℕ)
        → IsSound o self_value (v ∷ []) one (emits Gen.pop then rhs) (ran (pure v) &> λ w. r)
    right-IsSound v =
        IsSound-then o self_value (Grows-emits Gen.pop) gr (Moves.IsSound-pop o self_value v)
          λ w. hr

    logical-IsSound :
        {replace : Code} (i : Inst) (test : ℕ → Bool) (value : ℕ → ℕ)
        → Grows replace
        → ((v : ℕ) → IsSound o self_value (v ∷ []) one replace (ran (pure (value v))))
        → ((v : ℕ) → IsBranch o self_value (v ∷ v ∷ []) one test (inst32 i 0) (ran (pure v)))
        → IsSound o self_value [] one
            (skip
              (lhs then replace then emits (Gen.dup 1) then inst32 i 0)
              (emits Gen.pop then rhs))
            (l &> λ x. if test (value x) then r else ran (pure (value x)))
    unfolding ◌&>◌ Follows ran continue
    logical-IsSound {replace = replace} i test value g h j =
        IsSound-same o self_value _ _ (λ vals m. after vals (l vals m))
          (IsSound-skip o self_value (λ v. ran (pure v) &> λ w. r) (λ v. ran (pure v))
            (deciding-GrowsFive i g) right-Grows
            (IsBranch-then o self_value gl
              (GrowsFive-then g (GrowsFive-then (Grows-emits (Gen.dup 1)) (GrowsFive-inst i))) hl
              λ x.
                IsBranch-then o self_value g
                  (GrowsFive-then (Grows-emits (Gen.dup 1)) (GrowsFive-inst i)) (h x)
                  λ v.
                    IsBranch-then o self_value (Grows-emits (Gen.dup 1)) (GrowsFive-inst i)
                      (Moves.IsSound-dup o self_value v) j)
            right-IsSound (λ v no t p vals m. stays))
      where
        picked :
            (b : Bool) (w : ℕ) (vals : List ℕ) (k : Memory W)
            → (if b then (ran (pure w) &> λ u. r) else ran (pure w)) vals k
              ≡ (if b then r else ran (pure w)) vals k
        picked true w vals k = refl
        picked false w vals k = refl

        after :
            (vals : List ℕ) (e : Option (Ended (Memory W) ℕ))
            → continue
                (λ v. (if test v then (ran (pure v) &> λ w. r) else ran (pure v)) vals)
                (continue
                  (λ x. (ran (pure (value x)) &> λ v. ran (pure v) &> λ w. ran (pure w)) vals)
                  e)
              ≡ continue (λ x. (if test (value x) then r else ran (pure (value x))) vals) e
        after vals none = refl
        after vals (some (returns x k)) = picked (test (value x)) (value x) vals k
        after vals (some (raises x k)) = refl
        after vals (some panics) = refl

    either_way :
        (vals : List ℕ) (e : Option (Ended (Memory W) ℕ))
        → continue (λ x. (if not (to_bool x) then r else ran (pure x)) vals) e
          ≡ continue (λ x. (if to_bool x then ran (pure x) else r) vals) e
    unfolding continue
    either_way vals none = refl
    either_way vals (some (returns x k)) = picked (to_bool x)
      where
        picked :
            (b : Bool)
            → (if not b then r else ran (pure x)) vals k ≡ (if b then ran (pure x) else r) vals k
        picked true = refl
        picked false = refl
    either_way vals (some (raises x k)) = refl
    either_way vals (some panics) = refl

    -- The operators, `&&` and `||` among them.
    pub bin_op-IsSound :
        (op : BinOp) (imm : Option ℤ)
        → Narrow imm
        → IsSound o self_value [] one
            (gen_bin_op lhs rhs op imm)
            (eval_bin_op o l r op (immediate_operand op imm))
    unfolding gen_bin_op gen_logical eval_bin_op skip emits inst32 ◌then◌ ◌&>◌ or_nil
        Leaves.is_strict
    bin_op-IsSound BinOp.land imm n =
        logical-IsSound Inst.jmp_f to_bool or_nil (Grows-inst0 Inst.rep_uninit)
          (Moves.IsSound-rep_uninit o self_value) (IsBranch-jmp_f_kept o self_value)
    bin_op-IsSound BinOp.lor imm n =
        IsSound-same o self_value (l &> λ x. if not (to_bool x) then r else ran (pure x)) _
          (λ vals m. either_way vals (l vals m))
          (logical-IsSound Inst.jmp_t (λ x. not (to_bool x)) (λ x. x) Grows-nothing
            (IsSound-nothing o self_value) (IsBranch-jmp_t_kept o self_value))
    bin_op-IsSound op imm n = operator-IsSound op imm refl n

    compared :
        (op : BinOp) (imm : Option ℤ)
        → is_cmp_op op ≡ true
        → elim imm [
          | some i ↦ l &> λ x. ran (apply_imm o op x i)
          | none ↦ l &> λ x. under x r &> λ y. ran (apply o op x y)
        ]
          ≡ eval_bin_op o l r op (immediate_operand op imm)
    unfolding eval_bin_op immediate_operand has_imm is_cmp_op
    compared BinOp.add imm h = cc
    compared BinOp.sub imm h = cc
    compared BinOp.mul imm h = cc
    compared BinOp.div imm h = cc
    compared BinOp.rem imm h = cc
    compared BinOp.exp imm h = cc
    compared BinOp.shr imm h = cc
    compared BinOp.shl imm h = cc
    compared BinOp.bit_and imm h = cc
    compared BinOp.bit_or imm h = cc
    compared BinOp.bit_xor imm h = cc
    compared BinOp.teq imm h = cc
    compared BinOp.cmp imm h = cc
    compared BinOp.land imm h = cc
    compared BinOp.lor imm h = cc
    compared op imm h = refl

    -- A comparison in a condition.
    pub compare-IsBranch :
        (op : BinOp) (imm : Option ℤ)
        → is_cmp_op op ≡ true
        → Narrow imm
        → IsBranch o self_value [] none_left to_bool
            (gen_jmp_compare lhs rhs op imm)
            (eval_bin_op o l r op (immediate_operand op imm))
    unfolding gen_jmp_compare Narrow
    compare-IsBranch op none h n =
        subst
          (IsBranch o self_value [] none_left to_bool
            (lhs then rhs then inst32 (jump_inst_of op) 0))
          (compared op none h)
          (IsBranch-then o self_value gl (GrowsFive-then gr (GrowsFive-inst (jump_inst_of op))) hl
            λ x.
              IsBranch-then o self_value gr (GrowsFive-inst (jump_inst_of op))
                (IsSound-above o self_value x hr) λ y. IsBranch-compare o self_value laws op x y h)
    compare-IsBranch op (some i) h n =
        subst
          (IsBranch o self_value [] none_left to_bool
            (lhs then inst32_32 (jump_imm_inst_of op) (as_u32 i) 0))
          (compared op (some i) h)
          (rw (n.2) (
            IsBranch-then o self_value gl
              (GrowsFive-inst_imm (jump_imm_inst_of op) (as_u32 (as_i32 n.0))) hl
              λ x. IsBranch-compare_imm o self_value laws op x n.0 n.1 h))

    pub compare-GrowsFive :
        (op : BinOp) (imm : Option ℤ) → GrowsFive (gen_jmp_compare lhs rhs op imm)
    unfolding gen_jmp_compare
    compare-GrowsFive op none =
        GrowsFive-then gl (GrowsFive-then gr (GrowsFive-inst (jump_inst_of op)))
    compare-GrowsFive op (some i) =
        GrowsFive-then gl (GrowsFive-inst_imm (jump_imm_inst_of op) (as_u32 i))

    pub Grows-bin_op : (op : BinOp) (imm : Option ℤ) → Grows (gen_bin_op lhs rhs op imm)
    unfolding gen_bin_op gen_logical skip emits inst32 ◌then◌
    Grows-bin_op BinOp.land imm =
        Grows-skip (deciding-GrowsFive Inst.jmp_f (Grows-inst0 Inst.rep_uninit)) right-Grows
    Grows-bin_op BinOp.lor imm =
        Grows-skip (deciding-GrowsFive Inst.jmp_t Grows-nothing) right-Grows
    Grows-bin_op op imm = Grows-operator op (immediate_operand op imm)

  pub un_op-IsSound :
      {lhs : Code} {l : Ran W ℕ} (op : UnOp)
      → Grows lhs
      → IsSound o self_value [] one lhs l
      → IsSound o self_value [] one (gen_un_op lhs op) (l &> λ x. ran (apply_un o op x))
  unfolding gen_un_op apply_un ◌&>◌
  un_op-IsSound UnOp.bit_not g h =
      IsSound-then o self_value g (Grows-inst0 Inst.bnot) h
        (Leaves.IsSound-bit_not o self_value laws)
  un_op-IsSound UnOp.not g h =
      IsSound-then o self_value g (Grows-inst0 Inst.not_inst) h
        (Leaves.IsSound-not o self_value laws)
  un_op-IsSound UnOp.neg g h =
      IsSound-then o self_value g (Grows-inst0 Inst.neg) h (Leaves.IsSound-neg o self_value laws)
  un_op-IsSound {l = l} UnOp.pos g h =
      IsSound-same o self_value l _ (λ vals m. sym (passed_on o self_value vals (l vals m))) h

  pub Grows-un_op : {lhs : Code} (op : UnOp) → Grows lhs → Grows (gen_un_op lhs op)
  unfolding gen_un_op
  Grows-un_op UnOp.bit_not g = Grows-then g (Grows-inst0 Inst.bnot)
  Grows-un_op UnOp.not g = Grows-then g (Grows-inst0 Inst.not_inst)
  Grows-un_op UnOp.neg g = Grows-then g (Grows-inst0 Inst.neg)
  Grows-un_op UnOp.pos g = g
