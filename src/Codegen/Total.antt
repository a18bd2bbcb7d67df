-- ===== src/Codegen/Total.antt =====
-- src/parse/codegen.rs: a node without loops has a result, and its code stops.
use ruruby.Prelude.{
  ℕ, ◌^◌, ◌<◌, ◌≡◌, ◌≢◌, refl, sym, Bool, true, false, ◌&&◌, List, [], ◌∷◌, Option, none, some,
  if◌then◌else◌, length, Bool-cases, Option-cases, inl, inr, ◌==◌,
}
use ruruby.Prelude.Int.{ℤ}
use ruruby.Prelude.Outcome.{ok}
use ruruby.ISeq.{ISeq}
use ruruby.Vm.{Memory, Exec, Ended, returns, raises, panics, pure}
use ruruby.Vm.Executor.{Executor}
use ruruby.Vm.Locals.{get_lvar, set_lvar}
use ruruby.Vm.Run.{run, Stopped}
use ruruby.Value.{nil_value, to_bool}
use ruruby.Codegen.{Node, Nodes, BinOp, Codegen}
use ruruby.Codegen.Operands.{operand, increment, resolve}
use ruruby.Codegen.Eval.{
  Ran, ran, under, continue, ◌&>◌, eval, eval_nodes, eval_bin_op, eval_lvar_add, assigned, if_used,
  with_local, apply_imm,
}
use ruruby.Codegen.Reach.{with_stack}
use ruruby.Codegen.Neutral.{KeepsStack}
use ruruby.Codegen.Method.{gen_body, Runs, run-gen_body}
use ruruby.Codegen.Moves.{left}

unfoldable mutual
  -- No `while` and no `until`.
  pub is_loop_free : Node → Bool
  is_loop_free (Node.bin_op op lhs rhs) = is_loop_free lhs && is_loop_free rhs
  is_loop_free (Node.un_op op lhs) = is_loop_free lhs
  is_loop_free (Node.assign id rhs) = is_loop_free rhs
  is_loop_free (Node.comp_stmt nodes) = are_loop_free nodes
  is_loop_free (Node.if_node cond then_ else_) =
      is_loop_free cond && is_loop_free then_ && is_loop_free else_
  is_loop_free (Node.while_node cond body cond_op) = false
  is_loop_free _ = true

  are_loop_free : Nodes → Bool
  are_loop_free Nodes.no_nodes = true
  are_loop_free (Nodes.node_and node nodes) = is_loop_free node && are_loop_free nodes

both : (a b : Bool) → a && b ≡ true → (a ≡ true) × (b ≡ true)
both true true h = (refl, refl)
both true false h = cc
both false b h = cc

module _ {W : Type 0} where
  record IsTotal {A : Type 0} (a : Ran W A) : Type 0 where
    total : (vals : List ℕ) (m : Memory W) → (end : Ended (Memory W) A) × (a vals m ≡ some end)

  IsTotal-ran : {A : Type 0} (a : Exec (Memory W) A) → IsTotal (ran a)
  unfolding ran
  IsTotal-ran a = record { total = λ vals m. (a m, refl) }

  IsTotal-then :
      {A B : Type 0} {a : Ran W A} {k : A → Ran W B}
      → IsTotal a
      → ((x : A) → IsTotal (k x))
      → IsTotal (a &> k)
  unfolding ◌&>◌ continue
  IsTotal-then {A = A} {B = B} {a = a} {k = k} h f = record {
    total = λ vals m. let r = h.total vals m in rw (r.1) (after vals (r.0));
  }
    where
      after :
          (vals : List ℕ) (end : Ended (Memory W) A)
          → (end' : Ended (Memory W) B) × (continue (λ x. k x vals) (some end) ≡ some end')
      after vals (returns x m) = (f x).total vals m
      after vals (raises e m) = (raises e m, refl)
      after vals panics = (panics, refl)

  IsTotal-under : {A : Type 0} {a : Ran W A} (x : ℕ) → IsTotal a → IsTotal (under x a)
  unfolding under
  IsTotal-under x h = record { total = λ vals m. h.total (x ∷ vals) m }

  IsTotal-if :
      {A : Type 0} {a b : Ran W A} (c : Bool) → IsTotal a → IsTotal b → IsTotal (if c then a else b)
  IsTotal-if true f g = f
  IsTotal-if false f g = g

  IsTotal-if_used : (used : Bool) (a : Exec (Memory W) ℕ) → IsTotal (if_used used a)
  unfolding if_used
  IsTotal-if_used used a = IsTotal-if used (IsTotal-ran a) (IsTotal-ran (pure nil_value))

module _ {W : Type 0} (o : Executor W) (self_value : ℕ) (g : Codegen) (fuel : ℕ) where
  bin_op-IsTotal :
      {l r : Ran W ℕ} (op : BinOp) (imm : Option ℤ)
      → IsTotal l
      → IsTotal r
      → IsTotal (eval_bin_op o l r op imm)
  unfolding eval_bin_op
  bin_op-IsTotal BinOp.land imm f g = IsTotal-then f λ v. IsTotal-if _ g (IsTotal-ran _)
  bin_op-IsTotal BinOp.lor imm f g = IsTotal-then f λ v. IsTotal-if _ (IsTotal-ran _) g
  bin_op-IsTotal op none f g =
      IsTotal-then f λ x. IsTotal-then (IsTotal-under x g) λ y. IsTotal-ran _
  bin_op-IsTotal op (some i) f g = IsTotal-then f λ x. IsTotal-ran _

  lvar_add-IsTotal : (id : ℕ) (i : ℤ) (used : Bool) → IsTotal (eval_lvar_add o g id i used)
  unfolding eval_lvar_add
  lvar_add-IsTotal id i used = elim (Option-cases (resolve g id)) [
    | inl e ↦ rw (eval_lvar_add, e) (IsTotal-ran _)
    | inr (v, e) ↦ elim (Bool-cases (v.0 == 0)) [
      | inl z ↦ rw (eval_lvar_add, e, z) (IsTotal-then (IsTotal-ran _) λ u. IsTotal-if_used used _)
      | inr z ↦
          rw (eval_lvar_add, e, z)
            (IsTotal-then (IsTotal-ran (with_local g get_lvar id)) λ x.
              IsTotal-then (IsTotal-ran (apply_imm o BinOp.add x i)) λ y.
                IsTotal-then (IsTotal-ran (with_local g (λ ref lvar. set_lvar ref lvar y) id))
                  λ u. IsTotal-ran (pure y))
    ]
  ]

  assigned-IsTotal :
      {a : Ran W ℕ} (id : ℕ) (used : Bool) (imm : Option ℤ)
      → IsTotal a
      → IsTotal (assigned o g id used imm a)
  unfolding assigned
  assigned-IsTotal id used none h =
      IsTotal-then h λ v. IsTotal-then (IsTotal-ran _) λ u. IsTotal-ran _
  assigned-IsTotal id used (some i) h = lvar_add-IsTotal id i used

  mutual
    unfolding eval eval_nodes is_loop_free are_loop_free

    eval-IsTotal :
        (n : Node) (used : Bool) → is_loop_free n ≡ true → IsTotal (eval o self_value g fuel n used)
    eval-IsTotal (Node.local_var id) used h = IsTotal-ran _
    eval-IsTotal (Node.bin_op op lhs rhs) used h =
        let b = both (is_loop_free lhs) (is_loop_free rhs) h in
        bin_op-IsTotal op (operand op rhs) (eval-IsTotal lhs true b.0) (eval-IsTotal rhs true b.1)
    eval-IsTotal (Node.un_op op lhs) used h =
        IsTotal-then (eval-IsTotal lhs true h) λ l. IsTotal-ran _
    eval-IsTotal (Node.assign id rhs) used h =
        assigned-IsTotal id used (increment id rhs) (eval-IsTotal rhs true h)
    eval-IsTotal (Node.comp_stmt nodes) used h = nodes-IsTotal nodes used h
    eval-IsTotal (Node.if_node cond then_ else_) used h =
        let b = both (is_loop_free cond && is_loop_free then_) (is_loop_free else_) h in
        let c = both (is_loop_free cond) (is_loop_free then_) (b.0) in
        IsTotal-then (eval-IsTotal cond true c.0)
          λ x. IsTotal-if (to_bool x) (eval-IsTotal then_ used c.1) (eval-IsTotal else_ used b.1)
    eval-IsTotal (Node.while_node cond body cond_op) used h = cc
    eval-IsTotal n used h = IsTotal-if_used used _

    nodes-IsTotal :
        (nodes : Nodes) (used : Bool)
        → are_loop_free nodes ≡ true
        → IsTotal (eval_nodes o self_value g fuel nodes used)
    nodes-IsTotal Nodes.no_nodes used h = IsTotal-if_used used _
    nodes-IsTotal (Nodes.node_and node Nodes.no_nodes) used h =
        eval-IsTotal node used (both (is_loop_free node) true h).0
    nodes-IsTotal (Nodes.node_and node (Nodes.node_and next nodes)) used h =
        IsTotal-then
          (eval-IsTotal node false
            (both (is_loop_free node) (are_loop_free (Nodes.node_and next nodes)) h).0)
          λ v.
            nodes-IsTotal (Nodes.node_and next nodes) used
              (both (is_loop_free node) (are_loop_free (Nodes.node_and next nodes)) h).1

module _ {W : Type 0} (o : Executor W) (self_value : ℕ) (laws : KeepsStack o) where
  stops :
      (code : ISeq) (out : ℕ → List ℕ) (m : Memory W) (vals : List ℕ) (end : Ended (Memory W) ℕ)
      → Runs o self_value code out m vals (some end)
      → (fuel : ℕ) × (run o self_value code fuel 0 m ≢ Stopped.unfinished)
  unfolding Runs
  stops code out m vals (returns v k) r = (r.0, λ e. let d = r.1 in cc)
  stops code out m vals (raises x k) r = (r.0, λ e. let d = r.3 in cc)
  stops code out m vals panics r = (r.0, λ e. let d = r.1 in cc)

  -- Where operators neither read nor change the stack and a collection leaves it as it is: the code that
  -- is made of a body without loops, if it is shorter than 2 ^ 31 bytes, stops on enough fuel, from any memory.
  pub run-stops :
      (g : Codegen) (node : Node) (used : Bool) (code : ISeq) (vals : List ℕ) (m : Memory W)
      → gen_body g node used [] ≡ ok code
      → length code < 2 ^ 31
      → is_loop_free node ≡ true
      → (fuel : ℕ) × (run o self_value code fuel 0 (with_stack vals m) ≢ Stopped.unfinished)
  run-stops g node used code vals m e small h =
      let r = (eval-IsTotal o self_value g 0 node used h).total vals m in
      stops code (left used) (with_stack vals m) vals (r.0)
        (rw (sym (r.1)) (run-gen_body o self_value laws g 0 node used code vals m e small))
