-- ===== src/Vm/Call.antt =====
-- src/vm/executor/opt_core.rs: the arms of calls and definitions, with `vm_send`, `vm_fast_send` and
-- `vm_for`.
use Prim.Native.Nat.{bit_and}
use ruruby.Prelude.{ℕ, zero, suc, List, [], ◌∷◌, ◌++◌, Option, some, ◌==◌, if◌then◌else◌}
use ruruby.ISeq.{ISeq}
use ruruby.ISeq.Inst.{Inst}
use ruruby.Value.{ObjKind, nil_value, is_nil}
use ruruby.Vm.{Memory, Exec, RubyErrorKind, panics, ◌>>=◌, ◌>>◌, pure, raise, stack_pop, peek_top}
use ruruby.Vm.Locals.{context}
use ruruby.Vm.Executor.{Executor, Args, Block}
use ruruby.Vm.Arm.{
  Next, operand8, operand16, operand32, method_operand, advance, try_push, try_no_push, finally,
}
use ruruby.Vm.Arguments.{pop_args_to_args}

module _ {W : Type 0} where
  -- `as_mut_hash().unwrap()`.
  unfoldable pub hash_or_panic : Option ObjKind → Exec (Memory W) (Unit {0})
  hash_or_panic (some (ObjKind.hash entries)) = pure tt
  hash_or_panic _ = λ m. panics

  unfoldable pub proc_or_error : ℕ → Option ObjKind → Exec (Memory W) Block
  proc_or_error val (some (ObjKind.proc p)) = pure (Block.proc val)
  proc_or_error val _ = raise RubyErrorKind.internal

  -- `n` values, the topmost first.
  unfoldable pub pop_values : ℕ → Exec (Memory W) (List ℕ)
  unfolding stack_pop
  pop_values zero = pure []
  pop_values (suc n) = do val ← stack_pop; vals ← pop_values n; pure (val ∷ vals)

module _ {W : Type 0} (o : Executor W) where
  open o use {
    kind_of, expect_hash, hash_insert_all, hash_from_map, invoke_method, class_push, class_pop,
    set_class_defined, module_function,
  }

  unfoldable pub merge_into : ℕ → List ℕ → Exec (Memory W) (Unit {0})
  merge_into hash [] = pure tt
  merge_into hash (h ∷ hs) = do
    entries ← expect_hash h
    hash_insert_all hash entries
    merge_into hash hs

  unfoldable pub collect_entries : List ℕ → Exec (Memory W) (List (ℕ × ℕ))
  collect_entries [] = pure []
  collect_entries (h ∷ hs) = do
    entries ← expect_hash h
    rest ← collect_entries hs
    pure (entries ++ rest)

  new_keywords : List ℕ → Exec (Memory W) ℕ
  unfolding collect_entries
  new_keywords [] = pure nil_value
  new_keywords (h ∷ hs) = collect_entries (h ∷ hs) >>= hash_from_map

  -- The keyword arguments: the hash on the stack, if bit 0 of the flag says so, with the `**`
  -- arguments put in, else a new hash of these, else nil.
  unfoldable pub keyword_args : ℕ → List ℕ → Exec (Memory W) ℕ
  unfolding stack_pop hash_or_panic merge_into new_keywords
  keyword_args flag kwrest =
      if bit_and flag 1 == 1
      then (do
        val ← stack_pop
        kind ← kind_of val
        hash_or_panic kind
        merge_into val kwrest
        pure val)
      else new_keywords kwrest

  -- The block in the code, or a `&block` argument, if bit 1 of the flag says so.
  unfoldable pub block_arg : ℕ → ℕ → Exec (Memory W) Block
  unfolding stack_pop context proc_or_error
  block_arg flag zero =
      if bit_and flag 2 == 2
      then (do
        val ← stack_pop
        if is_nil val then pure Block.no_block else (kind_of val >>= proc_or_error val))
      else pure Block.no_block
  block_arg flag (suc n) = context >>= λ ctx. pure (Block.block (suc n) ctx)

  -- The body of a class, run with the class on the class stack.
  unfoldable pub run_class_body : ℕ → ℕ → ℕ → ℕ → Exec (Memory W) Next
  unfolding try_push finally advance
  run_class_body pc method val size = do
    class_push val
    set_class_defined method
    try_push (finally (invoke_method method val) class_pop) (advance pc size)

  -- `module_function` makes a method of the other kind, too.
  unfoldable pub if_module_function : Exec (Memory W) (Unit {0}) → Exec (Memory W) (Unit {0})
  if_module_function define = module_function >>= λ b. if b then define else pure tt

module _ {W : Type 0} (o : Executor W) (iseq : ISeq) (pc : ℕ) where
  open o use {
    send_icache, fast_send, call_each, eval_yield, define_class, get_singleton_class,
    inherit_class_defined, define_method, define_singleton_method,
  }

  unfoldable pub vm_send : ℕ → Exec (Memory W) (Unit {0})
  unfolding operand8 operand16 operand32 pop_values keyword_args block_arg pop_args_to_args
  vm_send receiver = do
    method_id ← operand32 iseq pc 1
    args_num ← operand16 iseq pc 5
    kw_rest_num ← operand8 iseq pc 7
    flag ← operand8 iseq pc 8
    block ← operand32 iseq pc 9
    cache ← operand32 iseq pc 13
    kwrest ← pop_values kw_rest_num
    keyword ← keyword_args o flag kwrest
    b ← block_arg o flag block
    elems ← pop_args_to_args o args_num
    send_icache cache method_id receiver (record { elems = elems; block = b; kw_arg = keyword })

  -- The slice of the arguments is taken first; the call takes them off the stack.
  unfoldable pub vm_fast_send : ℕ → Exec (Memory W) (Unit {0})
  unfolding operand16 operand32 peek_top block_arg
  vm_fast_send receiver = do
    method_id ← operand32 iseq pc 1
    args_num ← operand16 iseq pc 5
    block ← operand32 iseq pc 7
    cache_id ← operand32 iseq pc 11
    peek_top args_num
    b ← block_arg o 0 block
    fast_send cache_id method_id receiver args_num b

  unfoldable pub vm_for : ℕ → Exec (Memory W) (Unit {0})
  unfolding method_operand operand32 context
  vm_for receiver = do
    block ← method_operand iseq pc 1
    ctx ← context
    cache ← operand32 iseq pc 5
    call_each cache receiver (Block.block block ctx)

  unfoldable pub exec_call : ℕ → (Inst → Exec (Memory W) Next) → Inst → Exec (Memory W) Next
  unfolding stack_pop operand8 operand32 method_operand advance try_push try_no_push vm_send
      vm_fast_send vm_for pop_args_to_args run_class_body if_module_function
  exec_call self_value rest Inst.send =
      stack_pop >>= λ receiver. try_push (vm_send receiver) (advance pc 17)
  exec_call self_value rest Inst.send_self = try_push (vm_send self_value) (advance pc 17)
  exec_call self_value rest Inst.opt_send =
      stack_pop >>= λ receiver. try_push (vm_fast_send receiver) (advance pc 15)
  exec_call self_value rest Inst.opt_nsend =
      stack_pop >>= λ receiver. try_no_push (vm_fast_send receiver) (advance pc 15)
  exec_call self_value rest Inst.opt_send_self = try_push (vm_fast_send self_value) (advance pc 15)
  exec_call self_value rest Inst.opt_nsend_self =
      try_no_push (vm_fast_send self_value) (advance pc 15)
  exec_call self_value rest Inst.for =
      stack_pop >>= λ receiver. try_push (vm_for receiver) (advance pc 9)
  exec_call self_value rest Inst.yield = do
    args_num ← operand32 iseq pc 1
    elems ← pop_args_to_args o args_num
    let args : Args = record { elems = elems; block = Block.no_block; kw_arg = nil_value }
    try_push (eval_yield args) (advance pc 5)
  exec_call self_value rest Inst.def_class = do
    flag ← operand8 iseq pc 1
    id ← operand32 iseq pc 2
    method ← method_operand iseq pc 6
    base ← stack_pop
    super_val ← stack_pop
    val ← define_class base id (flag == 1) super_val
    run_class_body o pc method val 10
  exec_call self_value rest Inst.def_sclass = do
    method ← method_operand iseq pc 1
    val ← stack_pop
    singleton ← get_singleton_class val
    run_class_body o pc method singleton 5
  exec_call self_value rest Inst.def_method = do
    id ← operand32 iseq pc 1
    method ← method_operand iseq pc 5
    inherit_class_defined method
    define_method self_value id method
    if_module_function o (define_singleton_method self_value id method)
    advance pc 9
  exec_call self_value rest Inst.def_smethod = do
    id ← operand32 iseq pc 1
    method ← method_operand iseq pc 5
    inherit_class_defined method
    singleton ← stack_pop
    define_singleton_method singleton id method
    if_module_function o (define_method singleton id method)
    advance pc 9
  exec_call self_value rest i = rest i
