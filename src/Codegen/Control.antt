-- ===== src/Codegen/Control.antt =====
-- src/parse/codegen.rs: the code of conditionals and loops.
use ruruby.Prelude.{
  ℕ, ◌≡◌, refl, sym, subst, List, [], none, some, Bool, true, false, not, ◌&&◌, if◌then◌else◌,
}
use ruruby.ISeq.Inst.{Inst}
use ruruby.ISeq.Gen.{Gen}
use ruruby.Value.{to_bool, nil_value}
use ruruby.Vm.{Memory, returns}
use ruruby.Vm.Executor.{Executor}
use ruruby.Codegen.{Node, Nodes, Codegen, is_empty}
use ruruby.Codegen.Gen.{◌then◌, inst32, emits, Gens, gen_if, gen_while}
use ruruby.Codegen.Eval.{Ran, ran, ◌&>◌, if_used, eval, eval_nodes, eval_while, goes_on}
use ruruby.Codegen.Reach.{with_stack, Follows, stays}
use ruruby.Codegen.Bytes.{Grows}
use ruruby.Codegen.Grow.{GrowsFive}
use ruruby.Codegen.Sound.{IsSound}
use ruruby.Codegen.Neutral.{KeepsStack}
use ruruby.Codegen.Moves.{left}
use ruruby.Codegen.Branch.{GrowsFive-then, GrowsFive-inst}
use ruruby.Codegen.Jumps.{IsBranch-jmp_t}
use ruruby.Codegen.Choice.{skip, Grows-skip, IsSound-skip, Grows-if_else, IsSound-if}
use ruruby.Codegen.Loop.{IsSound-while}
use ruruby.Codegen.Good.{IsGood, IsBranch-after}

module _ {W : Type 0} (o : Executor W) (self_value : ℕ) (laws : KeepsStack o) where
  empty-node : (n : Node) → is_empty n ≡ true → n ≡ Node.comp_stmt Nodes.no_nodes
  unfolding is_empty
  empty-node (Node.comp_stmt Nodes.no_nodes) h = refl
  empty-node n h = cc

  pub nothing_done :
      (g : Codegen) (fuel : ℕ) (n : Node)
      → is_empty n ≡ true
      → (vals : List ℕ) (m : Memory W)
      → eval o self_value g fuel n false vals m ≡ some (returns nil_value m)
  unfolding eval eval_nodes if_used ran
  nothing_done g fuel n h vals m = rw (empty-node n h) refl

  pub cond-GrowsFive :
      {c : Gens} {a : Bool → Ran W ℕ}
      → IsGood o self_value c a
      → (cond_op : Bool)
      → GrowsFive (if cond_op then c.gen_jmp_if_false else c.gen true then emits Gen.jmp_if_t)
  unfolding emits inst32
  cond-GrowsFive h true = h.jump_grown
  cond-GrowsFive h false = GrowsFive-then (h.grown true) (GrowsFive-inst Inst.jmp_t)

  module _ {c t e : Gens} {a x y : Bool → Ran W ℕ} (hc : IsGood o self_value c a)
      (ht : IsGood o self_value t x) (he : IsGood o self_value e y) where
    with_else :
        (used : Bool)
        → IsSound o self_value []
            (left used)
            (gen_if c.gen_jmp_if_false (t.gen used) (some (e.gen used)))
            (a true &> λ v. if to_bool v then x used else y used)
    with_else used =
        IsSound-if o self_value (λ v. x used) (λ v. y used) hc.jump_grown (ht.grown used)
          (he.grown used) hc.branch (λ v. ht.sound used) (λ v. he.sound used)

    pub if_node-IsSound :
        (empty used : Bool)
        → (empty ≡ true
            → (vals : List ℕ) (m : Memory W) → y false vals m ≡ some (returns nil_value m))
        → IsSound o self_value []
            (left used)
            (gen_if c.gen_jmp_if_false
              (t.gen used)
              (if not used && empty then none else some (e.gen used)))
            (a true &> λ v. if to_bool v then x used else y used)
    unfolding gen_if skip Follows
    if_node-IsSound true false h =
        IsSound-skip o self_value (λ v. x false) (λ v. y false) hc.jump_grown (ht.grown false)
          hc.branch (λ v. ht.sound false)
          λ v no t p vals m.
            subst (Follows o self_value t (left false) (λ u. p) p (with_stack vals m) vals)
              (sym (h refl vals m)) stays
    if_node-IsSound false false h = with_else false
    if_node-IsSound empty true h = with_else true

    pub Grows-if_node :
        (used skipped : Bool)
        → Grows
            (gen_if c.gen_jmp_if_false (t.gen used) (if skipped then none else some (e.gen used)))
    unfolding gen_if skip
    Grows-if_node used true = Grows-skip hc.jump_grown (ht.grown used)
    Grows-if_node used false = Grows-if_else hc.jump_grown (ht.grown used) (he.grown used)

    pub while_node-IsSound :
        (fuel : ℕ) (cond_op used : Bool)
        → IsSound o self_value []
            (left used)
            (gen_while
              (if cond_op then c.gen_jmp_if_false else c.gen true then emits Gen.jmp_if_t)
              (t.gen false)
              used)
            (eval_while o fuel (goes_on cond_op) (a true) (x false))
    unfolding goes_on emits inst32
    while_node-IsSound fuel true used =
        IsSound-while o self_value laws used fuel hc.jump_grown (ht.grown false) hc.branch
          (ht.sound false)
    while_node-IsSound fuel false used =
        IsSound-while o self_value laws used fuel
          (GrowsFive-then (hc.grown true) (GrowsFive-inst Inst.jmp_t)) (ht.grown false)
          (IsBranch-after o self_value (hc.grown true) (GrowsFive-inst Inst.jmp_t) (hc.sound true)
            (IsBranch-jmp_t o self_value))
          (ht.sound false)
