-- ===== src/Codegen/Eval.antt =====
-- What a node computes, without code and without a stack: the operators of the interpreter
-- (src/vm/executor.rs) applied to the values of its parts, from left to right.
use ruruby.Prelude.{
  ℕ, zero, suc, ◌%◌, ◌^◌, ◌==◌, Bool, true, false, not, List, ◌∷◌, Option, none, some,
  if◌then◌else◌,
}
use ruruby.Prelude.Int.{ℤ, as_i64, as_u64}
use ruruby.Value.{nil_value, is_uninitialized, to_bool}
use ruruby.Value.Pack.{symbol, bool}
use ruruby.Vm.{Memory, Exec, Ended, returns, raises, panics, ◌>>=◌, pure}
use ruruby.Vm.Locals.{context, get_outer_context, get_lvar, set_lvar}
use ruruby.Vm.Executor.{Executor}
use ruruby.Vm.Operate.{same}
use ruruby.Codegen.{Node, Nodes, BinOp, UnOp, Codegen}
use ruruby.Codegen.Operands.{resolve, operand, increment}

-- A computation that can also run out of fuel in a loop. It is given the values that wait on the stack for
-- the rest of the program, which a collection must keep; of its memory the stack does not count.
abbrev pub Ran : Type 0 → Type 0 → Type 0
Ran W A = List ℕ → Memory W → Option (Ended (Memory W) A)

infixl 5 ◌&>◌
unfoldable pub continue :
    {W A B : Type 0}
    → (A → Memory W → Option (Ended (Memory W) B))
    → Option (Ended (Memory W) A)
    → Option (Ended (Memory W) B)
continue k none = none
continue k (some (returns a m)) = k a m
continue k (some (raises e m)) = some (raises e m)
continue k (some panics) = some panics

unfoldable pub ◌&>◌ : {W A B : Type 0} → Ran W A → (A → Ran W B) → Ran W B
unfolding continue
(a &> k) vals m = continue (λ x. k x vals) (a vals m)

unfoldable pub ran : {W A : Type 0} → Exec (Memory W) A → Ran W A
ran a vals m = some (a m)

-- With one more value that waits.
unfoldable pub under : {W A : Type 0} → ℕ → Ran W A → Ran W A
under x a vals m = a (x ∷ vals) m

module _ {W : Type 0} (o : Executor W) where
  open o use {operators}
  open operators use {
    eval_add, eval_sub, eval_mul, eval_div, eval_rem, eval_exp, eval_shl, eval_shr, eval_bitand,
    eval_bitor, eval_bitxor, eval_compare, eval_neg, eval_bitnot, eval_addi, eval_subi,
    eval_bitandi, eval_bitori, eval_eq, eval_teq, eval_gt, eval_ge, eval_lt, eval_le, eval_eqi,
    eval_gti, eval_gei, eval_lti, eval_lei,
  }

  unfoldable pub answers : (Bool → Bool) → Exec (Memory W) Bool → Exec (Memory W) ℕ
  answers negate test = test >>= λ b. pure (bool (negate b))

  -- An operator on the values of its left and its right operand. `==` and `!=` are asked of the right one.
  unfoldable pub apply : BinOp → ℕ → ℕ → Exec (Memory W) ℕ
  unfolding answers
  apply BinOp.add l r = eval_add r l
  apply BinOp.sub l r = eval_sub r l
  apply BinOp.mul l r = eval_mul r l
  apply BinOp.div l r = eval_div r l
  apply BinOp.rem l r = eval_rem r l
  apply BinOp.exp l r = eval_exp r l
  apply BinOp.shr l r = eval_shr r l
  apply BinOp.shl l r = eval_shl r l
  apply BinOp.bit_and l r = eval_bitand r l
  apply BinOp.bit_or l r = eval_bitor r l
  apply BinOp.bit_xor l r = eval_bitxor r l
  apply BinOp.eq l r = answers same (eval_eq l r)
  apply BinOp.ne l r = answers not (eval_eq l r)
  apply BinOp.teq l r = answers same (eval_teq r l)
  apply BinOp.gt l r = answers same (eval_gt r l)
  apply BinOp.ge l r = answers same (eval_ge r l)
  apply BinOp.lt l r = answers same (eval_lt r l)
  apply BinOp.le l r = answers same (eval_le r l)
  apply BinOp.cmp l r = eval_compare r l
  apply BinOp.land l r = pure (if to_bool l then r else l)
  apply BinOp.lor l r = pure (if to_bool l then l else r)

  -- The same with an immediate right operand.
  unfoldable pub apply_imm : BinOp → ℕ → ℤ → Exec (Memory W) ℕ
  unfolding answers
  apply_imm BinOp.add l i = eval_addi l i
  apply_imm BinOp.sub l i = eval_subi l i
  apply_imm BinOp.bit_and l i = eval_bitandi l i
  apply_imm BinOp.bit_or l i = eval_bitori l i
  apply_imm BinOp.eq l i = answers same (eval_eqi l i)
  apply_imm BinOp.ne l i = answers not (eval_eqi l i)
  apply_imm BinOp.gt l i = answers same (eval_gti l i)
  apply_imm BinOp.ge l i = answers same (eval_gei l i)
  apply_imm BinOp.lt l i = answers same (eval_lti l i)
  apply_imm BinOp.le l i = answers same (eval_lei l i)
  apply_imm _ l i = pure l

  -- The test of a comparison, before it is negated.
  unfoldable pub test : BinOp → ℕ → ℕ → Exec (Memory W) Bool
  test BinOp.eq l r = eval_eq l r
  test BinOp.ne l r = eval_eq l r
  test BinOp.ge l r = eval_ge r l
  test BinOp.gt l r = eval_gt r l
  test BinOp.le l r = eval_le r l
  test _ l r = eval_lt r l

  unfoldable pub test_imm : BinOp → ℕ → ℤ → Exec (Memory W) Bool
  test_imm BinOp.eq l i = eval_eqi l i
  test_imm BinOp.ne l i = eval_eqi l i
  test_imm BinOp.ge l i = eval_gei l i
  test_imm BinOp.gt l i = eval_gti l i
  test_imm BinOp.le l i = eval_lei l i
  test_imm _ l i = eval_lti l i

  unfoldable pub apply_un : UnOp → ℕ → Exec (Memory W) ℕ
  apply_un UnOp.bit_not l = eval_bitnot l
  apply_un UnOp.not l = pure (bool (not (to_bool l)))
  apply_un UnOp.neg l = eval_neg l
  apply_un UnOp.pos l = pure l

-- What a comparison makes of its test.
unfoldable pub negation : BinOp → Bool → Bool
negation BinOp.ne b = not b
negation _ b = b

-- An uninitialized variable counts as nil.
unfoldable pub or_nil : ℕ → ℕ
or_nil v = if is_uninitialized v then nil_value else v

module _ {W : Type 0} (g : Codegen) where
  -- The variable that a name stands for: `use_var` has its context and its number.
  unfoldable pub with_local : {A : Type 0} → (ℕ → ℕ → Exec (Memory W) A) → ℕ → Exec (Memory W) A
  with_local use_var id = elim (resolve g id) [
    | none ↦ λ m. panics
    | some v ↦ get_outer_context (v.0 % 2 ^ 32) >>= λ ref. use_var ref (v.1 % 2 ^ 32)
  ]

-- Whether a `while` or an `until` goes on.
unfoldable pub goes_on : Bool → ℕ → Bool
goes_on true c = to_bool c
goes_on false c = not (to_bool c)

module _ {W : Type 0} (o : Executor W) where
  unfoldable pub eval_bin_op : Ran W ℕ → Ran W ℕ → BinOp → Option ℤ → Ran W ℕ
  unfolding ◌&>◌ ran under apply apply_imm or_nil
  eval_bin_op lhs rhs BinOp.land imm =
      lhs &> λ v. let l = or_nil v in if to_bool l then rhs else ran (pure l)
  eval_bin_op lhs rhs BinOp.lor imm = lhs &> λ l. if to_bool l then ran (pure l) else rhs
  eval_bin_op lhs rhs op imm = elim imm [
    | some i ↦ lhs &> λ l. ran (apply_imm o op l i)
    | none ↦ lhs &> λ l. under l rhs &> λ r. ran (apply o op l r)
  ]

  -- A collection, which sees the values that wait.
  unfoldable pub collect : Ran W (Unit {0})
  collect vals m = some (o.gc (record m { exec_stack = vals }))

  -- A loop, on fuel for its rounds. The collector runs before each further round.
  unfoldable pub eval_while : ℕ → (ℕ → Bool) → Ran W ℕ → Ran W ℕ → Ran W ℕ
  unfolding ◌&>◌ ran collect
  eval_while zero test cond body vals m = none
  eval_while (suc fuel) test cond body vals m =
      let again = eval_while fuel test cond body in
      (cond &> λ c. if test c then (body &> λ v. collect &> λ u. again) else ran (pure nil_value))
        vals m

module _ {W : Type 0} where
  -- A constant that is not used is not made.
  unfoldable pub if_used : Bool → Exec (Memory W) ℕ → Ran W ℕ
  unfolding ran
  if_used used make = if used then ran make else ran (pure nil_value)

module _ {W : Type 0} (o : Executor W) where
  open o use {operators}
  open operators use {eval_addi}

  -- `lvar += i` on a variable of the running context.
  unfoldable pub add_to_lvar : ℕ → ℤ → Exec (Memory W) (Unit {0})
  add_to_lvar lvar i = context >>= λ ctx.
      get_lvar ctx lvar >>= λ val. eval_addi val i >>= λ sum. set_lvar ctx lvar sum

  -- `id = id + i`: a variable of the running context is added to in place, and read if the value is used.
  unfoldable pub eval_lvar_add : Codegen → ℕ → ℤ → Bool → Ran W ℕ
  unfolding ◌&>◌ ran with_local if_used apply_imm add_to_lvar
  eval_lvar_add g id i used = elim (resolve g id) [
    | none ↦ ran (λ m. panics)
    | some v ↦
        if v.0 == 0
        then (ran (add_to_lvar (v.1 % 2 ^ 32) i) &> λ u. if_used used (with_local g get_lvar id))
        else ran (with_local g get_lvar id) &> λ val. ran (apply_imm o BinOp.add val i) &> λ sum.
            ran (with_local g (λ ref lvar. set_lvar ref lvar sum) id) &> λ u. ran (pure sum)
  ]

  -- The value is set to the variable and is the value of the assignment.
  unfoldable pub assigned : Codegen → ℕ → Bool → Option ℤ → Ran W ℕ → Ran W ℕ
  unfolding ◌&>◌ ran with_local eval_lvar_add
  assigned g id used none value =
      value &> λ v. ran (with_local g (λ ref lvar. set_lvar ref lvar v) id) &> λ u. ran (pure v)
  assigned g id used (some i) value = eval_lvar_add g id i used

module _ {W : Type 0} (o : Executor W) (self_value : ℕ) (g : Codegen) where
  -- A node with its value used or not.
  unfoldable mutual
    unfolding ◌&>◌ ran with_local eval_bin_op eval_while if_used apply_un operand increment assigned

    pub eval : ℕ → Node → Bool → Ran W ℕ
    eval fuel Node.self_value used = if_used used (pure self_value)
    eval fuel Node.nil used = if_used used (pure nil_value)
    eval fuel (Node.bool b) used = if_used used (pure (bool b))
    eval fuel (Node.integer i) used = if_used used (o.integer (as_i64 (as_u64 i)))
    eval fuel (Node.symbol id) used = if_used used (pure (symbol (id % 2 ^ 32)))
    eval fuel (Node.local_var id) used = ran (with_local g get_lvar id)
    eval fuel (Node.bin_op op lhs rhs) used =
        eval_bin_op o (eval fuel lhs true) (eval fuel rhs true) op (operand op rhs)
    eval fuel (Node.un_op op lhs) used = eval fuel lhs true &> λ l. ran (apply_un o op l)
    eval fuel (Node.assign id rhs) used =
        assigned o g id used (increment id rhs) (eval fuel rhs true)
    eval fuel (Node.comp_stmt nodes) used = eval_nodes fuel nodes used
    eval fuel (Node.if_node cond then_ else_) used =
        let t = eval fuel then_ used in
        let e = eval fuel else_ used in eval fuel cond true &> λ c. if to_bool c then t else e
    eval fuel (Node.while_node cond body cond_op) used =
        eval_while o fuel (goes_on cond_op) (eval fuel cond true) (eval fuel body false)

    pub eval_nodes : ℕ → Nodes → Bool → Ran W ℕ
    eval_nodes fuel Nodes.no_nodes used = if_used used (pure nil_value)
    eval_nodes fuel (Nodes.node_and node Nodes.no_nodes) used = eval fuel node used
    eval_nodes fuel (Nodes.node_and node (Nodes.node_and next nodes)) used =
        let rest = eval_nodes fuel (Nodes.node_and next nodes) used in
        eval fuel node false &> λ v. rest
