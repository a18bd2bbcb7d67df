-- ===== src/Vm/Executor.antt =====
-- src/vm/executor.rs: what the interpreter loop calls, as an interface. The operators on integers and
-- floats are those of Operators; the others reach the method table, the globals and the heap.
use ruruby.Prelude.{ℕ, Bool, List, Option}
use ruruby.Prelude.Int.{ℤ}
use ruruby.Value.{ObjKind}
use ruruby.Vm.{Memory, Exec}

-- The arguments of a call: `Args` with its block and keywords. The block of a call is a method of this
-- frame's context, a `Proc`, or none.
pub data Block : Type 0 where
  block : ℕ → ℕ → Block
  proc : ℕ → Block
  no_block : Block

pub record Args : Type 0 where
  pub elems : List ℕ
  pub block : Block
  pub kw_arg : ℕ

-- The operators, by the methods of `VM`. The right operand comes first.
pub record Operators (W : Type 0) : Type 0 where
  pub eval_add : ℕ → ℕ → Exec (Memory W) ℕ
  pub eval_sub : ℕ → ℕ → Exec (Memory W) ℕ
  pub eval_mul : ℕ → ℕ → Exec (Memory W) ℕ
  pub eval_div : ℕ → ℕ → Exec (Memory W) ℕ
  pub eval_rem : ℕ → ℕ → Exec (Memory W) ℕ
  pub eval_exp : ℕ → ℕ → Exec (Memory W) ℕ
  pub eval_shl : ℕ → ℕ → Exec (Memory W) ℕ
  pub eval_shr : ℕ → ℕ → Exec (Memory W) ℕ
  pub eval_bitand : ℕ → ℕ → Exec (Memory W) ℕ
  pub eval_bitor : ℕ → ℕ → Exec (Memory W) ℕ
  pub eval_bitxor : ℕ → ℕ → Exec (Memory W) ℕ
  pub eval_compare : ℕ → ℕ → Exec (Memory W) ℕ
  pub eval_neg : ℕ → Exec (Memory W) ℕ
  pub eval_bitnot : ℕ → Exec (Memory W) ℕ
  pub eval_addi : ℕ → ℤ → Exec (Memory W) ℕ
  pub eval_subi : ℕ → ℤ → Exec (Memory W) ℕ
  pub eval_bitandi : ℕ → ℤ → Exec (Memory W) ℕ
  pub eval_bitori : ℕ → ℤ → Exec (Memory W) ℕ
  pub eval_eq : ℕ → ℕ → Exec (Memory W) Bool
  pub eval_teq : ℕ → ℕ → Exec (Memory W) Bool
  pub eval_gt : ℕ → ℕ → Exec (Memory W) Bool
  pub eval_ge : ℕ → ℕ → Exec (Memory W) Bool
  pub eval_lt : ℕ → ℕ → Exec (Memory W) Bool
  pub eval_le : ℕ → ℕ → Exec (Memory W) Bool
  pub eval_eqi : ℕ → ℤ → Exec (Memory W) Bool
  pub eval_gti : ℕ → ℤ → Exec (Memory W) Bool
  pub eval_gei : ℕ → ℤ → Exec (Memory W) Bool
  pub eval_lti : ℕ → ℤ → Exec (Memory W) Bool
  pub eval_lei : ℕ → ℤ → Exec (Memory W) Bool

pub record Executor (W : Type 0) : Type 0 where
  pub operators : Operators W
  -- whether the build checks overflow
  pub overflow_checks : Bool
  -- objects
  pub gc : Exec (Memory W) (Unit {0})
  pub kind_of : ℕ → Exec (Memory W) (Option ObjKind)
  pub as_integer : ℕ → Exec (Memory W) (Option ℤ)
  pub as_string : ℕ → Exec (Memory W) (Option (List ℕ))
  pub expect_integer : ℕ → Exec (Memory W) ℤ
  pub integer : ℤ → Exec (Memory W) ℕ
  pub float : ℕ → Exec (Memory W) ℕ
  pub string : List ℕ → Exec (Memory W) ℕ
  pub array_from : List ℕ → Exec (Memory W) ℕ
  pub splat : ℕ → Exec (Memory W) ℕ
  pub range : ℕ → ℕ → Bool → Exec (Memory W) ℕ
  pub hash_from_map : List (ℕ × ℕ) → Exec (Memory W) ℕ
  pub hash_insert_all : ℕ → List (ℕ × ℕ) → Exec (Memory W) (Unit {0})
  pub expect_hash : ℕ → Exec (Memory W) (List (ℕ × ℕ))
  pub val_to_s : ℕ → Exec (Memory W) (List ℕ)
  pub create_regexp : ℕ → Exec (Memory W) ℕ
  pub create_proc : ℕ → ℕ → Exec (Memory W) ℕ
  pub eval_rescue : ℕ → List ℕ → Exec (Memory W) Bool
  pub set_index : Exec (Memory W) (Unit {0})
  pub get_index : Exec (Memory W) ℕ
  pub set_index_imm : ℕ → Exec (Memory W) (Unit {0})
  pub get_index_imm : ℕ → Exec (Memory W) ℕ
  -- variables of instances, classes and the program
  pub get_var : ℕ → ℕ → Exec (Memory W) (Option ℕ)
  pub set_var : ℕ → ℕ → ℕ → Exec (Memory W) (Unit {0})
  pub entry_or_nil : ℕ → ℕ → Exec (Memory W) ℕ
  pub get_global_var : ℕ → Exec (Memory W) (Option ℕ)
  pub set_global_var : ℕ → ℕ → Exec (Memory W) (Unit {0})
  pub get_class_var : ℕ → Exec (Memory W) ℕ
  pub set_class_var : ℕ → ℕ → Exec (Memory W) (Unit {0})
  -- constants and tables
  pub class_defined_last : Exec (Memory W) (Option ℕ)
  pub object_class : ℕ
  pub expect_mod_class : ℕ → Exec (Memory W) ℕ
  pub set_const : ℕ → ℕ → ℕ → Exec (Memory W) (Unit {0})
  pub find_const_cache : ℕ → Exec (Memory W) (Option ℕ)
  pub set_const_cache : ℕ → ℕ → Exec (Memory W) (Unit {0})
  pub get_env_const : ℕ → Exec (Memory W) (Option ℕ)
  pub get_super_const : ℕ → ℕ → Exec (Memory W) ℕ
  pub get_const : ℕ → ℕ → Exec (Memory W) ℕ
  pub const_values : ℕ → Exec (Memory W) ℕ
  pub case_dispatch : ℕ → ℕ → Exec (Memory W) (Option ℤ)
  pub case_dispatch2 : ℕ → Exec (Memory W) (ℤ × ℤ × List ℤ)
  -- calls and definitions
  pub send_icache : ℕ → ℕ → ℕ → Args → Exec (Memory W) (Unit {0})
  pub fast_send : ℕ → ℕ → ℕ → ℕ → Block → Exec (Memory W) (Unit {0})
  pub call_each : ℕ → ℕ → Block → Exec (Memory W) (Unit {0})
  pub eval_yield : Args → Exec (Memory W) (Unit {0})
  pub invoke_method : ℕ → ℕ → Exec (Memory W) (Unit {0})
  pub class : Exec (Memory W) ℕ
  pub class_push : ℕ → Exec (Memory W) (Unit {0})
  pub class_pop : Exec (Memory W) (Unit {0})
  pub define_class : ℕ → ℕ → Bool → ℕ → Exec (Memory W) ℕ
  pub get_singleton_class : ℕ → Exec (Memory W) ℕ
  pub set_class_defined : ℕ → Exec (Memory W) (Unit {0})
  pub inherit_class_defined : ℕ → Exec (Memory W) (Unit {0})
  pub define_method : ℕ → ℕ → ℕ → Exec (Memory W) (Unit {0})
  pub define_singleton_method : ℕ → ℕ → ℕ → Exec (Memory W) (Unit {0})
  pub module_function : Exec (Memory W) Bool
