-- ===== src/Operators.antt =====
-- src/vm/executor.rs: the operators of the interpreter on integers and floats, `eval_add` to
-- `eval_compare`, with the macros `eval_op`, `eval_op_i`, `eval_cmp` and `eval_cmp_i`.
--
-- An `i64` operation that overflows panics in a build with overflow checks and wraps around in one
-- without: `overflow_checks` says which. `f64` is a parameter, as are the calls of a method that an
-- operator falls back on.
pub mod Integers
pub mod Arith
pub mod Bits
pub mod Compare
pub mod Exact
pub mod Divide
pub mod Immediate
pub mod AsOperators
pub mod Samples
mod Examples
use Prim.Native.Nat.{Ordering}
use ruruby.Prelude.{ℕ, Bool, Option}
use ruruby.Prelude.Int.{ℤ}
use ruruby.Prelude.Outcome.{Outcome, ok, err, panic}
use ruruby.Value.{RValue}
use ruruby.Value.Pack.{BuiltinClass}
use ruruby.Value.Store.{ObjectStore}
use ruruby.Vm.{Exec, RubyErrorKind, returns, raises, panics}

-- The operations of `f64` on bit patterns.
pub record F64 : Type 0 where
  pub of_i64 : ℤ → ℕ
  pub add : ℕ → ℕ → ℕ
  pub sub : ℕ → ℕ → ℕ
  pub mul : ℕ → ℕ → ℕ
  pub div : ℕ → ℕ → ℕ
  pub rem : ℕ → ℕ → ℕ
  pub powf : ℕ → ℕ → ℕ
  pub neg : ℕ → ℕ
  pub lt : ℕ → ℕ → Bool
  pub le : ℕ → ℕ → Bool
  pub eq : ℕ → ℕ → Bool
  pub partial_cmp : ℕ → ℕ → Option Ordering

-- What the operators use of the rest of the interpreter: `fallback_for_binop` with the name of the
-- method, the left operand and the right one; `send0` of `-@`; `rem_floor` of the crate divrem; a push
-- to an array.
pub record Calls (S : Type 0) : Type 0 where
  pub fallback_for_binop : ℕ → ℕ → ℕ → Exec S ℕ
  pub send_neg : ℕ → Exec S ℕ
  pub rem_floor : ℤ → ℤ → Option ℤ
  pub array_push : ℕ → ℕ → Exec S (Unit {0})
  pub id_bitand : ℕ
  pub id_bitor : ℕ
  pub id_bitxor : ℕ

pub record Machine : Type 1 where
  pub heap : ObjectStore
  pub builtin : BuiltinClass
  pub f64 : F64
  pub calls : Calls (ObjectStore.Store heap)
  pub overflow_checks : Bool

-- A part of the code that does not change the heap.
unfoldable pub lift {ℓ} : {S A : Type ℓ} → Outcome A → Exec S A
lift (ok a) s = returns a s
lift (err e) s = raises (RubyErrorKind.runtime_err e) s
lift panic s = panics
