-- ===== src/Operators/Samples.antt =====
-- An interpreter for the runs of src/vm/executor.rs: its operators are the ones of Operators, on the heap
-- of the samples of Value; there are no methods, globals or objects but numbers.
use ruruby.Prelude.{◌+◌, ◌==◌, true, false, [], none, some, ltb, leb}
use ruruby.Prelude.Int.{pos, as_u64}
use ruruby.Value.{nil_value}
use ruruby.Value.Samples.{builtin, heap, empty_heap}
use ruruby.Vm.{Memory, returns}
use ruruby.Vm.Executor.{Executor}
use ruruby.Operators.{Machine, F64}
use ruruby.Operators.Arith.{Store, new_integer, new_float}
use ruruby.Operators.AsOperators.{on_heap, as_operators}

abbrev sample_f64 : F64
sample_f64 = record {
  of_i64 = as_u64;
  add = λ x y. x + y;
  sub = λ x y. x;
  mul = λ x y. x;
  div = λ x y. x;
  rem = λ x y. x;
  powf = λ x y. x;
  neg = λ x. x;
  lt = ltb;
  le = leb;
  eq = λ x y. x == y;
  partial_cmp = λ x y. none;
}

abbrev pub sample_machine : Machine
sample_machine = record {
  heap = heap;
  builtin = builtin;
  f64 = sample_f64;
  calls = record {
    fallback_for_binop = λ id lhs rhs s. returns nil_value s;
    send_neg = λ lhs s. returns nil_value s;
    rem_floor = λ i j. some i;
    array_push = λ lhs rhs s. returns tt s;
    id_bitand = 100;
    id_bitor = 101;
    id_bitxor = 102;
  };
  overflow_checks = true;
}

abbrev pub sample_executor : Executor (Store sample_machine)
sample_executor = record {
  operators =
      as_operators sample_machine (λ rhs lhs m. returns (rhs == lhs) m)
        (λ rhs lhs m. returns (rhs == lhs) m);
  overflow_checks = true;
  gc = λ m. returns tt m;
  kind_of = λ a m. returns none m;
  as_integer = λ a m. returns none m;
  as_string = λ a m. returns none m;
  expect_integer = λ a m. returns (pos 0) m;
  integer = λ i. on_heap sample_machine (new_integer sample_machine i);
  float = λ f. on_heap sample_machine (new_float sample_machine f);
  string = λ a m. returns nil_value m;
  array_from = λ a m. returns nil_value m;
  splat = λ a m. returns nil_value m;
  range = λ a b c m. returns nil_value m;
  hash_from_map = λ a m. returns nil_value m;
  hash_insert_all = λ a b m. returns tt m;
  expect_hash = λ a m. returns [] m;
  val_to_s = λ a m. returns [] m;
  create_regexp = λ a m. returns nil_value m;
  create_proc = λ a b m. returns nil_value m;
  eval_rescue = λ a b m. returns false m;
  set_index = λ m. returns tt m;
  get_index = λ m. returns nil_value m;
  set_index_imm = λ a m. returns tt m;
  get_index_imm = λ a m. returns nil_value m;
  get_var = λ a b m. returns none m;
  set_var = λ a b c m. returns tt m;
  entry_or_nil = λ a b m. returns nil_value m;
  get_global_var = λ a m. returns none m;
  set_global_var = λ a b m. returns tt m;
  get_class_var = λ a m. returns nil_value m;
  set_class_var = λ a b m. returns tt m;
  class_defined_last = λ m. returns none m;
  object_class = nil_value;
  expect_mod_class = λ a m. returns nil_value m;
  set_const = λ a b c m. returns tt m;
  find_const_cache = λ a m. returns none m;
  set_const_cache = λ a b m. returns tt m;
  get_env_const = λ a m. returns none m;
  get_super_const = λ a b m. returns nil_value m;
  get_const = λ a b m. returns nil_value m;
  const_values = λ a m. returns nil_value m;
  case_dispatch = λ a b m. returns none m;
  case_dispatch2 = λ a m. returns (pos 0, pos 0, []) m;
  send_icache = λ a b c d m. returns tt m;
  fast_send = λ a b c d e m. returns tt m;
  call_each = λ a b c m. returns tt m;
  eval_yield = λ a m. returns tt m;
  invoke_method = λ a b m. returns tt m;
  class = λ m. returns nil_value m;
  class_push = λ a m. returns tt m;
  class_pop = λ m. returns tt m;
  define_class = λ a b c d m. returns nil_value m;
  get_singleton_class = λ a m. returns nil_value m;
  set_class_defined = λ a m. returns tt m;
  inherit_class_defined = λ a m. returns tt m;
  define_method = λ a b c m. returns tt m;
  define_singleton_method = λ a b c m. returns tt m;
  module_function = λ m. returns false m;
}

-- A memory with an empty stack and no frame.
abbrev pub sample_memory : Memory (Store sample_machine)
sample_memory = record {
  exec_stack = [];
  contexts = [];
  exec_context = [];
  cur_context = none;
  world = empty_heap;
}
