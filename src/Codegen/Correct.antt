-- ===== src/Codegen/Correct.antt =====
-- src/parse/codegen.rs: the code of a node does what the node computes.
use ruruby.Prelude.{
  ◌%◌, ℕ, ◌^◌, refl, subst, [], Option, Bool, true, false, not, ◌&&◌, if◌then◌else◌, Bool-cases,
  inl, inr, ◌==◌,
}
use ruruby.Value.Pack.{bool, symbol}
use ruruby.Prelude.Int.{as_i64, ℤ, as_i32, as_u32, as_u64, as_u32-lt}
use ruruby.ISeq.Gen.{Gen}
use ruruby.Value.{nil_value}
use ruruby.Vm.{pure}
use ruruby.Vm.Executor.{Executor}
use ruruby.Vm.Locals.{get_lvar}
use ruruby.Codegen.{Node, Nodes, BinOp, Codegen, is_cmp_op, is_empty}
use ruruby.Codegen.Gen.{
  Code, ◌then◌, drop_unused, imm_i32, Gens, gens, gen_comp_stmt, by_value, gen_bin_op,
  gen_jmp_compare, lvar_add, immediate_operand, gen_assign_local,
}
use ruruby.Codegen.Operands.{immediate_operand-operand, lvar_add-increment}
use ruruby.Codegen.Eval.{
  Ran, ran, ◌&>◌, eval, eval_nodes, eval_bin_op, assigned, apply_un, with_local,
}
use ruruby.Codegen.Bytes.{Grows, Grows-then, Grows-nothing}
use ruruby.Codegen.Grow.{Grows-emits, Grows-inst0, Grows-if, Grows-drop_unused, Grows-get_local}
use ruruby.Codegen.Sound.{IsSound, IsSound-then}
use ruruby.Codegen.Neutral.{KeepsStack}
use ruruby.Codegen.Moves
use ruruby.Codegen.Moves.{left}
use ruruby.Codegen.Loop.{Grows-while}
use ruruby.Codegen.Good.{IsGood, dropped, by_value-IsGood, constant-IsGood}
use ruruby.Codegen.Binary.{
  bin_op-IsSound, compare-IsBranch, compare-GrowsFive, Grows-bin_op, un_op-IsSound, Grows-un_op,
  Narrow,
}
use ruruby.Codegen.Assign.{assign_local-IsSound, Grows-assign_local}
use ruruby.Codegen.Control.{
  nothing_done, cond-GrowsFive, if_node-IsSound, Grows-if_node, while_node-IsSound,
}

module _ {W : Type 0} (o : Executor W) (self_value : ℕ) (laws : KeepsStack o) where
  imm_i32-Narrow : (n : Node) → Narrow (imm_i32 n)
  unfolding imm_i32 Narrow
  imm_i32-Narrow (Node.integer i) = elim (Bool-cases (as_u64 (as_i32 (as_u32 i)) == as_u64 i)) [
    | inl e ↦ rw e (as_u32 i, as_u32-lt i, refl)
    | inr e ↦ rw e tt
  ]
  imm_i32-Narrow n = tt

  lvar_add-Narrow : (id : ℕ) (n : Node) → Narrow (lvar_add id n)
  unfolding lvar_add Narrow
  lvar_add-Narrow id (Node.bin_op BinOp.add (Node.local_var id') rhs) =
      elim (Bool-cases (id == id')) [ inl e ↦ rw e (imm_i32-Narrow rhs) | inr e ↦ rw e tt ]
  lvar_add-Narrow id n = tt

  module _ (g : Codegen) (fuel : ℕ) where
    bin_op-IsGood :
        {l r : Gens} {x y : Bool → Ran W ℕ} (op : BinOp) (imm : Option ℤ)
        → Narrow imm
        → IsGood o self_value l x
        → IsGood o self_value r y
        → let gen : Bool → Code =
            λ used. gen_bin_op (l.gen true) (r.gen true) op imm then drop_unused used in
          IsGood o self_value
            (if is_cmp_op op
              then record {
                gen = gen;
                gen_jmp_if_false = gen_jmp_compare (l.gen true) (r.gen true) op imm;
              }
              else by_value gen)
            (λ used. eval_bin_op o (x true) (y true) op (immediate_operand op imm))
    bin_op-IsGood op imm n hl hr =
        let gl = hl.grown true in
        let gr = hr.grown true in
        let sl = hl.sound true in
        let sr = hr.sound true in
        let grows = Grows-bin_op o self_value laws gl gr sl sr op imm in
        let sound = bin_op-IsSound o self_value laws gl gr sl sr op imm n in
        elim (Bool-cases (is_cmp_op op)) [
          | inl e ↦ rw e (record {
            grown = λ used. Grows-then grows (Grows-drop_unused used);
            jump_grown = compare-GrowsFive o self_value laws gl gr sl sr op imm;
            sound = λ used. dropped o self_value used grows sound;
            branch = compare-IsBranch o self_value laws gl gr sl sr op imm e n;
          })
          | inr e ↦ rw e (
              by_value-IsGood o self_value (λ used. eval_bin_op o _ _ op (immediate_operand op imm))
                (λ used. Grows-then grows (Grows-drop_unused used))
                (λ used. dropped o self_value used grows sound))
        ]

    mutual
      unfolding gens gen_comp_stmt eval eval_nodes ◌then◌

      pub gens-IsGood : (n : Node) → IsGood o self_value (gens g n) (eval o self_value g fuel n)
      gens-IsGood Node.self_value =
          constant-IsGood o self_value (pure self_value) (Grows-emits Gen.push_self)
            (Moves.IsSound-push_self o self_value)
      gens-IsGood Node.nil =
          constant-IsGood o self_value (pure nil_value) (Grows-emits Gen.push_nil)
            (Moves.IsSound-push_nil o self_value)
      gens-IsGood (Node.bool b) =
          constant-IsGood o self_value (pure (bool b)) (Grows-inst0 _)
            (Moves.IsSound-push_bool o self_value b)
      gens-IsGood (Node.integer i) =
          constant-IsGood o self_value (o.integer (as_i64 (as_u64 i))) (Grows-emits (Gen.fixnum i))
            (Moves.IsSound-fixnum o self_value laws i)
      gens-IsGood (Node.symbol id) =
          constant-IsGood o self_value (pure (symbol (id % 2 ^ 32))) (Grows-emits (Gen.symbol id))
            (Moves.IsSound-push_symbol o self_value id)
      gens-IsGood (Node.local_var id) =
          by_value-IsGood o self_value (λ used. ran (with_local g get_lvar id))
            (λ used. Grows-then (Grows-get_local g id) (Grows-drop_unused used))
            λ used.
              dropped o self_value used (Grows-get_local g id)
                (Moves.IsSound-get_local o self_value laws g id)
      gens-IsGood (Node.bin_op op lhs rhs) =
          subst
            (λ imm. IsGood o self_value (gens g (Node.bin_op op lhs rhs)) (λ used.
              eval_bin_op o (eval o self_value g fuel lhs true) (eval o self_value g fuel rhs true)
                op imm))
            (immediate_operand-operand op rhs)
            (bin_op-IsGood op (imm_i32 rhs) (imm_i32-Narrow rhs) (gens-IsGood lhs)
              (gens-IsGood rhs))
      gens-IsGood (Node.un_op op lhs) =
          let h = gens-IsGood lhs in
          let grows = Grows-un_op o self_value laws op (h.grown true) in
          by_value-IsGood o self_value
            (λ used. eval o self_value g fuel lhs true &> λ l. ran (apply_un o op l))
            (λ used. Grows-then grows (Grows-drop_unused used))
            λ used.
              dropped o self_value used grows
                (un_op-IsSound o self_value laws op (h.grown true) (h.sound true))
      gens-IsGood (Node.assign id rhs) =
          let h = gens-IsGood rhs in
          by_value-IsGood o self_value (eval o self_value g fuel (Node.assign id rhs))
            (λ used.
              Grows-assign_local o self_value laws g id (lvar_add id rhs) used (h.grown true))
            λ used.
              subst
                (λ imm.
                  IsSound o self_value [] (left used)
                    (gen_assign_local g id ((gens g rhs).gen true) (lvar_add id rhs) used)
                    (assigned o g id used imm (eval o self_value g fuel rhs true)))
                (lvar_add-increment id rhs)
                (assign_local-IsSound o self_value laws g id (lvar_add id rhs) used
                  (lvar_add-Narrow id rhs) (h.grown true) (h.sound true))
      gens-IsGood (Node.comp_stmt nodes) =
          by_value-IsGood o self_value (eval_nodes o self_value g fuel nodes) (nodes-Grows nodes)
            (nodes-IsSound nodes)
      gens-IsGood (Node.if_node cond then_ else_) =
          let c = gens-IsGood cond in
          let t = gens-IsGood then_ in
          let e = gens-IsGood else_ in
          by_value-IsGood o self_value (eval o self_value g fuel (Node.if_node cond then_ else_))
            (λ used. Grows-if_node o self_value laws c t e used (not used && is_empty else_))
            λ used.
              if_node-IsSound o self_value laws c t e (is_empty else_) used
                λ h vals m. nothing_done o self_value laws g fuel else_ h vals m
      gens-IsGood (Node.while_node cond body cond_op) =
          let c = gens-IsGood cond in
          let b = gens-IsGood body in
          by_value-IsGood o self_value
            (eval o self_value g fuel (Node.while_node cond body cond_op))
            (λ used. Grows-while used (cond-GrowsFive o self_value laws c cond_op) (b.grown false))
            λ used. while_node-IsSound o self_value laws c b b fuel cond_op used

      nodes-Grows : (nodes : Nodes) (used : Bool) → Grows (gen_comp_stmt g nodes used)
      nodes-Grows Nodes.no_nodes used = Grows-if used (Grows-emits Gen.push_nil) Grows-nothing
      nodes-Grows (Nodes.node_and node Nodes.no_nodes) used = (gens-IsGood node).grown used
      nodes-Grows (Nodes.node_and node (Nodes.node_and next nodes)) used =
          Grows-then ((gens-IsGood node).grown false) (nodes-Grows (Nodes.node_and next nodes) used)

      nodes-IsSound :
          (nodes : Nodes) (used : Bool)
          → IsSound o self_value []
              (left used)
              (gen_comp_stmt g nodes used)
              (eval_nodes o self_value g fuel nodes used)
      nodes-IsSound Nodes.no_nodes used =
          (constant-IsGood o self_value (pure nil_value) (Grows-emits Gen.push_nil)
              (Moves.IsSound-push_nil o self_value)).sound
            used
      nodes-IsSound (Nodes.node_and node Nodes.no_nodes) used = (gens-IsGood node).sound used
      nodes-IsSound (Nodes.node_and node (Nodes.node_and next nodes)) used =
          IsSound-then o self_value ((gens-IsGood node).grown false)
            (nodes-Grows (Nodes.node_and next nodes) used) ((gens-IsGood node).sound false)
            λ v. nodes-IsSound (Nodes.node_and next nodes) used
