-- ===== src/Vm/Stack.antt =====
-- src/vm/executor/opt_core.rs: the arms that push constants, build objects and order the stack.
use ruruby.Prelude.{
  ℕ, zero, suc, ◌-◌, Bool, List, [], ◌∷◌, ◌++◌, Option, none, some, leb, if◌then◌else◌, length,
  take, drop, get_elem?,
}
use ruruby.Prelude.Int.{as_i64}
use ruruby.Prelude.Outcome.{RubyError}
use ruruby.ISeq.{ISeq}
use ruruby.ISeq.Inst.{Inst}
use ruruby.Value.{ObjKind, nil_value, true_value, false_value, is_nil, is_uninitialized, to_bool}
use ruruby.Value.Pack.{symbol, bool}
use ruruby.Vm.{
  Memory, Exec, returns, panics, RubyErrorKind, ◌>>=◌, ◌>>◌, pure, raise, unwrap, stack_pop,
  stack_len, set_stack_len, drain_top, peek_top, bottom_first, push_all,
}
use ruruby.Vm.Locals.{context}
use ruruby.Vm.Executor.{Executor}
use ruruby.Vm.Arm.{Next, operand32, operand64, advance, push_advance, method_operand}
use ruruby.Vm.Arguments.{pop_args_to_args, pop_key_value_pair}

-- `Value::as_array`, of the kind of an object.
abbrev pub array_of : Option ObjKind → Option (List ℕ)
array_of (some (ObjKind.array elements)) = some elements
array_of _ = none

-- `n` times nil.
abbrev pub nils : ℕ → List ℕ
nils zero = []
nils (suc n) = nil_value ∷ nils n

module _ {W : Type 0} where
  -- `exec_stack.insert(stack_len - len, val)`: below the top `len` values.
  unfoldable pub insert_below : ℕ → ℕ → Exec (Memory W) (Unit {0})
  insert_below len val m =
      if leb len (length m.exec_stack)
      then returns tt
          (record m { exec_stack = take len m.exec_stack ++ val ∷ drop len m.exec_stack })
      else panics

  -- `exec_stack.remove(stack_len - 1 - len)`: the value below the top `len` ones.
  unfoldable pub remove_below : ℕ → Exec (Memory W) ℕ
  remove_below len = do
    val ← λ m. unwrap (get_elem? m.exec_stack len) m
    λ m.
        returns val (record m { exec_stack = take len m.exec_stack ++ drop (suc len) m.exec_stack })

module _ {W : Type 0} where
  -- The first `len` elements of an array, filled up with nil. Any other value is the first of `len`;
  -- then 0 for `len` is a panic: `len - 1` underflows, or else counts up to 2 ^ 64 - 1, more than a stack
  -- can hold.
  unfoldable pub take_array : ℕ → ℕ → Option (List ℕ) → Exec (Memory W) (Unit {0})
  unfolding push_all
  take_array len val (some elem) = push_all (take len elem ++ nils (len - length elem))
  take_array zero val none = λ m. panics
  take_array (suc len) val none = push_all (val ∷ nils len)

module _ {W : Type 0} (o : Executor W) where
  open o use {range, as_string, operators}

  unfoldable pub create_range : ℕ → ℕ → Bool → Exec (Memory W) ℕ
  create_range start end exclude_end = do
    c ← operators.eval_compare start end
    (if is_nil c
        then raise (RubyErrorKind.runtime_err RubyError.argument)
        else range start end exclude_end)

  -- The strings one after the other.
  unfoldable pub concat_strings : List ℕ → Exec (Memory W) (List ℕ)
  concat_strings [] = pure []
  concat_strings (x ∷ xs) = do
    s ← as_string x
    first ← unwrap s
    rest ← concat_strings xs
    pure (first ++ rest)

module _ {W : Type 0} (o : Executor W) (self_value : ℕ) (iseq : ISeq) (pc : ℕ) where
  open o use {
    integer, float, string, array_from, splat, hash_from_map, val_to_s, create_regexp, create_proc,
    eval_rescue, set_index, get_index, set_index_imm, get_index_imm, const_values, kind_of,
  }

  unfoldable pub exec_push : (Inst → Exec (Memory W) Next) → Inst → Exec (Memory W) Next
  unfolding operand32 operand64 push_advance stack_pop
  exec_push rest Inst.return = pure Next.finished
  exec_push rest Inst.break = raise RubyErrorKind.block_return
  exec_push rest Inst.mreturn = raise RubyErrorKind.method_return
  exec_push rest Inst.throw = stack_pop >>= λ val. raise (RubyErrorKind.value val)
  exec_push rest Inst.push_nil = push_advance pc 1 nil_value
  exec_push rest Inst.push_true = push_advance pc 1 true_value
  exec_push rest Inst.push_false = push_advance pc 1 false_value
  exec_push rest Inst.push_self = push_advance pc 1 self_value
  exec_push rest Inst.push_fixnum = do
    num ← operand64 iseq pc 1
    val ← integer (as_i64 num)
    push_advance pc 9 val
  exec_push rest Inst.push_flonum = do
    num ← operand64 iseq pc 1
    val ← float num
    push_advance pc 9 val
  exec_push rest Inst.push_symbol = do id ← operand32 iseq pc 1; push_advance pc 5 (symbol id)
  exec_push rest i = rest i

  -- `RESCUE` tests the value below the top `len` ones against these.
  unfoldable pub exec_strings : (Inst → Exec (Memory W) Next) → Inst → Exec (Memory W) Next
  unfolding operand32 push_advance stack_pop stack_len set_stack_len drain_top peek_top
      concat_strings
  exec_strings rest Inst.rescue = do
    len ← operand32 iseq pc 1
    height ← stack_len
    top ← peek_top (suc len)
    val ← unwrap (get_elem? top len)
    b ← eval_rescue val (bottom_first (take len top))
    set_stack_len (height - len - 1)
    push_advance pc 5 (bool b)
  exec_strings rest Inst.concat_string = do
    num ← operand32 iseq pc 1
    top ← drain_top num
    res ← concat_strings o (bottom_first top)
    val ← string res
    push_advance pc 5 val
  exec_strings rest i = rest i

  unfoldable pub exec_create : (Inst → Exec (Memory W) Next) → Inst → Exec (Memory W) Next
  unfolding operand32 push_advance advance stack_pop create_range pop_args_to_args
      pop_key_value_pair method_operand
  exec_create rest Inst.set_index = set_index >>= λ u. advance pc 1
  exec_create rest Inst.get_index = get_index >>= push_advance pc 1
  exec_create rest Inst.set_idx_i = do idx ← operand32 iseq pc 1; set_index_imm idx; advance pc 5
  exec_create rest Inst.get_idx_i = do
    idx ← operand32 iseq pc 1
    val ← get_index_imm idx
    push_advance pc 5 val
  exec_create rest Inst.splat = do val ← stack_pop; res ← splat val; push_advance pc 1 res
  exec_create rest Inst.const_val = do
    id ← operand32 iseq pc 1
    val ← const_values id
    push_advance pc 5 val
  exec_create rest Inst.create_range = do
    start ← stack_pop
    end ← stack_pop
    exclude_end ← stack_pop
    val ← create_range o start end (to_bool exclude_end)
    push_advance pc 1 val
  exec_create rest Inst.create_array = do
    arg_num ← operand32 iseq pc 1
    elems ← pop_args_to_args o arg_num
    array ← array_from elems
    push_advance pc 5 array
  exec_create rest Inst.create_proc = do
    method ← method_operand iseq pc 1
    ctx ← context
    proc_obj ← create_proc method ctx
    push_advance pc 5 proc_obj
  exec_create rest Inst.create_hash = do
    arg_num ← operand32 iseq pc 1
    key_value ← pop_key_value_pair o arg_num
    hash ← hash_from_map key_value
    push_advance pc 5 hash
  exec_create rest Inst.create_regexp = do
    arg ← stack_pop
    regexp ← create_regexp arg
    push_advance pc 1 regexp
  exec_create rest i = rest i

  unfoldable pub exec_stack_ops : (Inst → Exec (Memory W) Next) → Inst → Exec (Memory W) Next
  unfolding operand32 push_advance advance stack_pop peek_top push_all insert_below remove_below
      take_array
  exec_stack_ops rest Inst.to_s = do
    val ← stack_pop
    s ← val_to_s val
    res ← string s
    push_advance pc 1 res
  exec_stack_ops rest Inst.pop = stack_pop >>= λ val. advance pc 1
  exec_stack_ops rest Inst.dup = do
    len ← operand32 iseq pc 1
    top ← peek_top len
    push_all (bottom_first top)
    advance pc 5
  exec_stack_ops rest Inst.sinkn = do
    len ← operand32 iseq pc 1
    val ← stack_pop
    insert_below len val
    advance pc 5
  exec_stack_ops rest Inst.topn = do
    len ← operand32 iseq pc 1
    val ← remove_below len
    push_advance pc 5 val
  exec_stack_ops rest Inst.take = do
    len ← operand32 iseq pc 1
    val ← stack_pop
    kind ← kind_of val
    take_array len val (array_of kind)
    advance pc 5
  exec_stack_ops rest Inst.rep_uninit = do
    val ← stack_pop
    push_advance pc 1 (if is_uninitialized val then nil_value else val)
  exec_stack_ops rest i = rest i
