-- ===== src/Vm/Variables.antt =====
-- src/vm/executor/opt_core.rs: the arms of variables and constants.
use ruruby.Prelude.{ℕ, Bool, Option, none, some, if◌then◌else◌}
use ruruby.ISeq.{ISeq}
use ruruby.ISeq.Inst.{Inst}
use ruruby.Value.{is_nil, is_uninitialized, nil_value}
use ruruby.Value.Pack.{bool}
use ruruby.Vm.{Memory, Exec, ◌>>=◌, ◌>>◌, pure, stack_push, stack_pop}
use ruruby.Vm.Locals.{get_outer_context, get_lvar, set_lvar, context}
use ruruby.Vm.Executor.{Executor}
use ruruby.Vm.Arm.{Next, operand32, immediate, advance, push_advance}

-- `unwrap_or(Value::nil())`.
abbrev pub or_nil : Option ℕ → ℕ
or_nil none = nil_value
or_nil (some val) = val

abbrev pub is_none : Option ℕ → Bool
is_none none = Bool.true
is_none (some val) = Bool.false

module _ {W : Type 0} (o : Executor W) where
  open o use {
    class_defined_last, object_class, expect_mod_class, find_const_cache, set_const_cache,
    get_env_const, get_super_const, class,
  }

  -- The class that `SET_CONST` stores into.
  unfoldable pub const_parent : ℕ → Exec (Memory W) ℕ
  const_parent v =
      if is_nil v then (class_defined_last >>= λ c. pure (parent c)) else expect_mod_class v
    where
      parent : Option ℕ → ℕ
      parent none = object_class
      parent (some c) = c

  -- The value of a constant: the cache, else the lexical scope, else the superclasses.
  unfoldable pub cached_const : ℕ → ℕ → Exec (Memory W) ℕ
  cached_const id slot = do
    cached ← find_const_cache slot
    elim cached [
      | some val ↦ pure val
      | none ↦ do
        found ← get_env_const id
        val ← elim found [ some val ↦ pure val | none ↦ class >>= λ c. get_super_const c id ]
        set_const_cache slot val
        pure val
    ]

module _ {W : Type 0} (o : Executor W) (self_value : ℕ) (iseq : ISeq) (pc : ℕ) where
  open o use {
    operators, object_class, expect_mod_class, set_const, get_const, get_var, set_var, entry_or_nil,
    get_global_var, set_global_var, get_class_var, set_class_var,
  }

  -- A local variable `id` of the context `outer` levels out.
  unfoldable pub dynlocal : (ℕ → ℕ → Exec (Memory W) Next) → Exec (Memory W) Next
  unfolding operand32 get_outer_context
  dynlocal use_var = do
    id ← operand32 iseq pc 1
    outer ← operand32 iseq pc 5
    cref ← get_outer_context outer
    use_var cref id

  unfoldable pub exec_locals : (Inst → Exec (Memory W) Next) → Inst → Exec (Memory W) Next
  unfolding operand32 immediate stack_push stack_pop get_lvar set_lvar context get_outer_context
      push_advance advance dynlocal
  exec_locals rest Inst.set_local = do
    id ← operand32 iseq pc 1
    val ← stack_pop
    ctx ← context
    set_lvar ctx id val
    advance pc 5
  exec_locals rest Inst.get_local = do
    id ← operand32 iseq pc 1
    ctx ← context
    val ← get_lvar ctx id
    push_advance pc 5 val
  exec_locals rest Inst.lvar_addi = do
    id ← operand32 iseq pc 1
    i ← immediate iseq pc 5
    ctx ← context
    val ← get_lvar ctx id
    sum ← operators.eval_addi val i
    set_lvar ctx id sum
    advance pc 9
  exec_locals rest Inst.set_dynlocal = do
    id ← operand32 iseq pc 1
    outer ← operand32 iseq pc 5
    val ← stack_pop
    cref ← get_outer_context outer
    set_lvar cref id val
    advance pc 9
  exec_locals rest Inst.get_dynlocal =
      dynlocal λ cref id. get_lvar cref id >>= λ val. push_advance pc 9 val
  exec_locals rest Inst.check_local =
      dynlocal
        λ cref id. get_lvar cref id >>= λ val. push_advance pc 9 (bool (is_uninitialized val))
  exec_locals rest i = rest i

  unfoldable pub exec_constants : (Inst → Exec (Memory W) Next) → Inst → Exec (Memory W) Next
  unfolding operand32 stack_pop push_advance advance const_parent cached_const
  exec_constants rest Inst.set_const = do
    id ← operand32 iseq pc 1
    v ← stack_pop
    parent ← const_parent o v
    val ← stack_pop
    set_const parent id val
    advance pc 5
  exec_constants rest Inst.get_const = do
    id ← operand32 iseq pc 1
    slot ← operand32 iseq pc 5
    val ← cached_const o id slot
    push_advance pc 9 val
  exec_constants rest Inst.get_const_top = do
    id ← operand32 iseq pc 1
    val ← get_const object_class id
    push_advance pc 5 val
  exec_constants rest Inst.get_scope = do
    v ← stack_pop
    parent ← expect_mod_class v
    id ← operand32 iseq pc 1
    val ← get_const parent id
    push_advance pc 5 val
  exec_constants rest i = rest i

  unfoldable pub exec_variables : (Inst → Exec (Memory W) Next) → Inst → Exec (Memory W) Next
  unfolding operand32 immediate stack_pop push_advance advance
  exec_variables rest Inst.set_ivar = do
    var_id ← operand32 iseq pc 1
    new_val ← stack_pop
    set_var self_value var_id new_val
    advance pc 5
  exec_variables rest Inst.get_ivar = do
    var_id ← operand32 iseq pc 1
    val ← get_var self_value var_id
    push_advance pc 5 (or_nil val)
  exec_variables rest Inst.check_ivar = do
    var_id ← operand32 iseq pc 1
    val ← get_var self_value var_id
    push_advance pc 5 (bool (is_none val))
  exec_variables rest Inst.ivar_addi = do
    var_id ← operand32 iseq pc 1
    i ← immediate iseq pc 5
    v ← entry_or_nil self_value var_id
    sum ← operators.eval_addi v i
    set_var self_value var_id sum
    advance pc 9
  exec_variables rest Inst.set_gvar = do
    var_id ← operand32 iseq pc 1
    new_val ← stack_pop
    set_global_var var_id new_val
    advance pc 5
  exec_variables rest Inst.get_gvar = do
    var_id ← operand32 iseq pc 1
    val ← get_global_var var_id
    push_advance pc 5 (or_nil val)
  exec_variables rest Inst.check_gvar = do
    var_id ← operand32 iseq pc 1
    val ← get_global_var var_id
    push_advance pc 5 (bool (is_none val))
  exec_variables rest Inst.set_cvar = do
    var_id ← operand32 iseq pc 1
    new_val ← stack_pop
    set_class_var var_id new_val
    advance pc 5
  exec_variables rest Inst.get_cvar = do
    var_id ← operand32 iseq pc 1
    val ← get_class_var var_id
    push_advance pc 5 val
  exec_variables rest i = rest i
