-- ===== src/Codegen/Assign.antt =====
-- src/parse/codegen.rs: the code of an assignment to a local variable.
use ruruby.Prelude.{
  ◌%◌, ℕ, ◌+◌, ◌^◌, ◌<◌, ◌≡◌, refl, sym, ap, ◌∙◌, List, [], ◌∷◌, Option, none, some, Bool, true,
  false, if◌then◌else◌, Bool-cases, Option-cases, inl, inr, ◌==◌,
}
use ruruby.Prelude.Int.{ℤ, as_i32, as_u32}
use ruruby.ISeq.{ISeq}
use ruruby.ISeq.Inst.{Inst}
use ruruby.ISeq.Gen.{Gen}
use ruruby.Value.{nil_value}
use ruruby.Vm.{◌>>=◌, unwrap, Memory, pure}
use ruruby.Vm.Executor.{Executor}
use ruruby.Vm.Arm.{operand32, immediate, advance}
use ruruby.Vm.Run.{exec}
use ruruby.Vm.Locals.{context, get_lvar, set_lvar}
use ruruby.Codegen.{BinOp, Codegen, get_local_var}
use ruruby.Codegen.Operands.{get_local_var-resolve}
use ruruby.Codegen.Gen.{
  Code, ◌then◌, nothing, inst32, inst32_32, emits, gen_assign_local, has_imm, imm_inst_of,
  gen_get_local, gen_set_local, gen_lvar_addi,
}
use ruruby.Codegen.Eval.{
  Ran, ran, under, continue, ◌&>◌, if_used, apply_imm, with_local, eval_lvar_add, assigned,
  add_to_lvar,
}
use ruruby.Codegen.Reach.{pushed, with_stack}
use ruruby.Codegen.Bytes.{Grows, Grows-then, Grows-nothing}
use ruruby.Codegen.Grow.{
  Grows-emits, Grows-inst32, Grows-inst32_32, Grows-if, Grows-none, Grows-get_local,
  Grows-set_local,
}
use ruruby.Codegen.Sound.{
  IsSound, IsSound-then, IsSound-inst32_32, IsSound-over, IsSound-map, IsSound-nothing, one,
}
use ruruby.Codegen.Neutral.{
  KeepsStack, IsNeutral-bind, IsNeutral-context, IsNeutral-get_lvar, IsNeutral-set_lvar,
}
use ruruby.Codegen.Leaves
use ruruby.Codegen.Moves
use ruruby.Codegen.Moves.{left, bind_assoc, bind_cong}
use ruruby.Codegen.Binary.{Narrow}

module _ {W : Type 0} (o : Executor W) (self_value : ℕ) (laws : KeepsStack o) where
  module _ (g : Codegen) where
    Grows-lvar_addi : (id : ℕ) (i : ℤ) (used : Bool) → Grows (gen_lvar_addi g id i used)
    unfolding gen_lvar_addi
    Grows-lvar_addi id i used = elim (Option-cases (get_local_var g id)) [
      | inl e ↦ rw (e, gen_lvar_addi) (Grows-none λ s s' e. cc)
      | inr (v, e) ↦
          rw (e, gen_lvar_addi)
            (Grows-if (v.0 == 0)
              (Grows-then (Grows-inst32_32 Inst.lvar_addi v.1 (as_u32 i))
                (Grows-if used (Grows-get_local g id) Grows-nothing))
              (Grows-then (Grows-inst32_32 Inst.get_dynlocal v.1 v.0) (
                Grows-then (Grows-inst32 Inst.addi (as_u32 i)) (
                  Grows-then (Grows-if used (Grows-emits (Gen.dup 1)) Grows-nothing)
                    (Grows-inst32_32 Inst.set_dynlocal v.1 v.0)))))
    ]

    added :
        (t : ISeq) (p : ℕ) (vals : List ℕ) (lvar : ℕ) (i : ℤ) (m : Memory W)
        → (context >>= λ ctx. get_lvar ctx (lvar % 2 ^ 32) >>= λ val.
              apply_imm o BinOp.add val i >>= λ sum.
              set_lvar ctx (lvar % 2 ^ 32) sum >>= λ u. advance p 9)
            (with_stack vals m)
          ≡ pushed o self_value t (λ u. []) (λ x. p + 9) vals (add_to_lvar o (lvar % 2 ^ 32) i m)
    unfolding add_to_lvar apply_imm advance
    added t p vals lvar i m =
        sym (
          bind_assoc o self_value laws context _ (λ u. advance p 9) (with_stack vals m)
          ∙ bind_cong o self_value laws context _ _ (with_stack vals m) λ ctx n.
            bind_assoc o self_value laws (get_lvar ctx (lvar % 2 ^ 32)) _ (λ u. advance p 9) n
            ∙ bind_cong o self_value laws (get_lvar ctx (lvar % 2 ^ 32)) _ _ n λ val k.
              bind_assoc o self_value laws (apply_imm o BinOp.add val i) _ (λ u. advance p 9) k)
        ∙ Leaves.push_end o self_value t (λ u. []) (add_to_lvar o (lvar % 2 ^ 32) i)
            (λ u. advance p 9) (λ x. p + 9) vals m
            (IsNeutral-bind IsNeutral-context λ ctx.
              IsNeutral-bind (IsNeutral-get_lvar ctx (lvar % 2 ^ 32)) λ val.
                IsNeutral-bind (laws.applied_imm BinOp.add val i)
                  λ sum. IsNeutral-set_lvar ctx (lvar % 2 ^ 32) sum)
            λ x k. refl

    -- The instruction that adds in place.
    IsSound-lvar_addi :
        (lvar n : ℕ)
        → n < 2 ^ 32
        → IsSound o self_value []
            (λ u. [])
            (inst32_32 Inst.lvar_addi lvar (as_u32 (as_i32 n)))
            (ran (add_to_lvar o (lvar % 2 ^ 32) (as_i32 n)))
    unfolding exec operand32 immediate unwrap ◌>>=◌ advance add_to_lvar apply_imm
    IsSound-lvar_addi lvar n small =
        IsSound-inst32_32 o self_value (add_to_lvar o (lvar % 2 ^ 32) (as_i32 n)) Inst.lvar_addi
          lvar (as_u32 (as_i32 n))
          λ t p vals m r r'.
            rw (r, r')
              (added t p vals lvar (as_i32 (as_u32 (as_i32 n) % 2 ^ 32)) m
                ∙ ap
                    (λ i.
                      pushed o self_value t (λ u. []) (λ x. p + 9) vals
                        (add_to_lvar o (lvar % 2 ^ 32) i m))
                    (Leaves.same_immediate n small))

    in_outer :
        (v : ℕ × ℕ) (id : ℕ) (i : ℤ) (used : Bool)
        → get_local_var g id ≡ some v
        → v.0 == 0 ≡ false
        → gen_lvar_addi g id i used
          ≡ gen_get_local g id
            then inst32 Inst.addi (as_u32 i)
            then (if used then emits (Gen.dup 1) else nothing)
            then gen_set_local g id
    unfolding gen_lvar_addi gen_get_local gen_set_local
    in_outer v id i used e z = rw (gen_lvar_addi, gen_get_local, gen_set_local, e, z) refl

    in_place :
        (v : ℕ × ℕ) (id : ℕ) (i : ℤ) (used : Bool)
        → get_local_var g id ≡ some v
        → v.0 == 0 ≡ true
        → gen_lvar_addi g id i used
          ≡ inst32_32 Inst.lvar_addi v.1 (as_u32 i)
            then (if used then gen_get_local g id else nothing)
    unfolding gen_lvar_addi
    in_place v id i used e z = rw (gen_lvar_addi, e, z) refl

    read_back :
        (id : ℕ) (used : Bool)
        → IsSound o self_value []
            (left used)
            (if used then gen_get_local g id else nothing)
            (if_used used (with_local g get_lvar id))
    unfolding if_used
    read_back id true = Moves.IsSound-get_local o self_value laws g id
    read_back id false = IsSound-nothing o self_value nil_value

    -- The sum is left twice where it is used.
    sum-IsSound :
        (id sum : ℕ) (used : Bool)
        → IsSound o self_value
            (sum ∷ [])
            (left used)
            ((if used then emits (Gen.dup 1) else nothing) then gen_set_local g id)
            (ran (with_local g (λ ref lvar. set_lvar ref lvar sum) id) &> λ u. ran (pure sum))
    unfolding ◌&>◌ ran continue under
    sum-IsSound id sum true =
        IsSound-then o self_value (Grows-emits (Gen.dup 1)) (Grows-set_local g id)
          (Moves.IsSound-dup o self_value sum)
          λ x.
            IsSound-map o self_value (λ u. x)
              (IsSound-over o self_value x x (Moves.IsSound-set_local o self_value laws g id x))
    sum-IsSound id sum false =
        IsSound-then o self_value {out = one} Grows-nothing (Grows-set_local g id)
          (IsSound-nothing o self_value sum)
          λ x. IsSound-map o self_value (λ u. x) (Moves.IsSound-set_local o self_value laws g id x)

    Grows-sum :
        (id : ℕ) (used : Bool)
        → Grows ((if used then emits (Gen.dup 1) else nothing) then gen_set_local g id)
    Grows-sum id used =
        Grows-then (Grows-if used (Grows-emits (Gen.dup 1)) Grows-nothing) (Grows-set_local g id)

    lvar_addi-IsSound :
        (id : ℕ) (i : ℤ) (used : Bool)
        → Narrow (some i)
        → IsSound o self_value []
            (left used)
            (gen_lvar_addi g id i used)
            (eval_lvar_add o g id i used)
    unfolding gen_lvar_addi eval_lvar_add Narrow has_imm imm_inst_of
    lvar_addi-IsSound id i used n = elim (Option-cases (get_local_var g id)) [
      | inl e ↦
          rw (e, sym (get_local_var-resolve g id) ∙ e, gen_lvar_addi, eval_lvar_add)
            (record { follows = λ s s' t vals m e holds small. cc })
      | inr (v, e) ↦ elim (Bool-cases (v.0 == 0)) [
        | inl z ↦
            rw
              (
                in_place v id i used e z,
                eval_lvar_add,
                sym (get_local_var-resolve g id) ∙ e,
                z,
                n.2,
              )
              (IsSound-then o self_value (Grows-inst32_32 Inst.lvar_addi (v.1) _)
                (Grows-if used (Grows-get_local g id) Grows-nothing)
                (IsSound-lvar_addi (v.1) (n.0) (n.1)) λ u. read_back id used)
        | inr z ↦
            rw
              (
                in_outer v id i used e z,
                eval_lvar_add,
                sym (get_local_var-resolve g id) ∙ e,
                z,
                n.2,
              )
              (IsSound-then o self_value (Grows-get_local g id)
                (Grows-then (Grows-inst32 Inst.addi _) (Grows-sum id used))
                (Moves.IsSound-get_local o self_value laws g id)
                λ x.
                  IsSound-then o self_value (Grows-inst32 Inst.addi _) (Grows-sum id used)
                    (Leaves.IsSound-imm o self_value laws BinOp.add x (n.0) (n.1) refl)
                    λ sum. sum-IsSound id sum used)
      ]
    ]

    pub assign_local-IsSound :
        {rhs : Code} {r : Ran W ℕ} (id : ℕ) (imm : Option ℤ) (used : Bool)
        → Narrow imm
        → Grows rhs
        → IsSound o self_value [] one rhs r
        → IsSound o self_value []
            (left used)
            (gen_assign_local g id rhs imm used)
            (assigned o g id used imm r)
    unfolding gen_assign_local assigned ◌&>◌ ran continue Narrow
    assign_local-IsSound id (some i) used n gr h = lvar_addi-IsSound id i used n
    assign_local-IsSound id none used n gr h =
        IsSound-then o self_value gr (Grows-sum id used) h λ v. sum-IsSound id v used

    pub Grows-assign_local :
        {rhs : Code} (id : ℕ) (imm : Option ℤ) (used : Bool)
        → Grows rhs
        → Grows (gen_assign_local g id rhs imm used)
    unfolding gen_assign_local
    Grows-assign_local id (some i) used gr = Grows-lvar_addi id i used
    Grows-assign_local id none used gr = Grows-then gr (Grows-sum id used)
