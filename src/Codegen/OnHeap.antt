-- ===== src/Codegen/OnHeap.antt =====
-- src/vm/executor.rs: the operators on the heap neither read nor change the stack of the interpreter.
use ruruby.Prelude.{ℕ, ◌≡◌, refl, Bool, List}
use ruruby.Prelude.Int.{ℤ}
use ruruby.Vm.{Memory, Exec, Ended, returns, raises, panics}
use ruruby.Vm.Executor.{Executor}
use ruruby.Operators.{Machine}
use ruruby.Operators.Arith.{Store}
use ruruby.Operators.AsOperators.{on_heap, keep, as_operators}
use ruruby.Codegen.{BinOp, UnOp}
use ruruby.Codegen.Eval.{answers, apply, apply_imm, apply_un, test, test_imm}
use ruruby.Codegen.Reach.{with_stack, on_stack, IsNeutral}
use ruruby.Codegen.Neutral.{KeepsStack, IsNeutral-pure, IsNeutral-bind}

module _ (p : Machine) where
  pub IsNeutral-on_heap : {A : Type 0} (f : Exec (Store p) A) → IsNeutral (on_heap p f)
  unfolding on_heap on_stack
  IsNeutral-on_heap {A = A} f = record { neutral = λ vals m. after vals m (f m.world) }
    where
      after :
          (vals : List ℕ) (m : Memory (Store p)) (r : Ended (Store p) A)
          → keep p (with_stack vals m) r ≡ on_stack vals (keep p m r)
      after vals m (returns a s) = refl
      after vals m (raises e s) = refl
      after vals m panics = refl

  module _ (o : Executor (Store p)) (eval_eq eval_teq : ℕ → ℕ → Exec (Memory (Store p)) Bool)
      (fills : o.operators ≡ as_operators p eval_eq eval_teq)
      (eq-IsNeutral : (r l : ℕ) → IsNeutral (eval_eq r l))
      (teq-IsNeutral : (r l : ℕ) → IsNeutral (eval_teq r l)) where
    asked :
        {a : Exec (Memory (Store p)) Bool} (negate : Bool → Bool)
        → IsNeutral a
        → IsNeutral (answers o negate a)
    unfolding answers
    asked negate h = IsNeutral-bind h λ b. IsNeutral-pure _

    apply-IsNeutral : (op : BinOp) (l r : ℕ) → IsNeutral (apply o op l r)
    unfolding apply as_operators
    apply-IsNeutral BinOp.eq l r = rw fills (asked _ (eq-IsNeutral l r))
    apply-IsNeutral BinOp.ne l r = rw fills (asked _ (eq-IsNeutral l r))
    apply-IsNeutral BinOp.teq l r = rw fills (asked _ (teq-IsNeutral r l))
    apply-IsNeutral BinOp.gt l r = rw fills (asked _ (IsNeutral-on_heap _))
    apply-IsNeutral BinOp.ge l r = rw fills (asked _ (IsNeutral-on_heap _))
    apply-IsNeutral BinOp.lt l r = rw fills (asked _ (IsNeutral-on_heap _))
    apply-IsNeutral BinOp.le l r = rw fills (asked _ (IsNeutral-on_heap _))
    apply-IsNeutral BinOp.land l r = IsNeutral-pure _
    apply-IsNeutral BinOp.lor l r = IsNeutral-pure _
    apply-IsNeutral op l r = rw fills (IsNeutral-on_heap _)

    apply_imm-IsNeutral : (op : BinOp) (l : ℕ) (i : ℤ) → IsNeutral (apply_imm o op l i)
    unfolding apply_imm as_operators
    apply_imm-IsNeutral BinOp.add l i = rw fills (IsNeutral-on_heap _)
    apply_imm-IsNeutral BinOp.sub l i = rw fills (IsNeutral-on_heap _)
    apply_imm-IsNeutral BinOp.bit_and l i = rw fills (IsNeutral-on_heap _)
    apply_imm-IsNeutral BinOp.bit_or l i = rw fills (IsNeutral-on_heap _)
    apply_imm-IsNeutral BinOp.eq l i = rw fills (asked _ (IsNeutral-pure _))
    apply_imm-IsNeutral BinOp.ne l i = rw fills (asked _ (IsNeutral-pure _))
    apply_imm-IsNeutral BinOp.gt l i = rw fills (asked _ (IsNeutral-on_heap _))
    apply_imm-IsNeutral BinOp.ge l i = rw fills (asked _ (IsNeutral-on_heap _))
    apply_imm-IsNeutral BinOp.lt l i = rw fills (asked _ (IsNeutral-on_heap _))
    apply_imm-IsNeutral BinOp.le l i = rw fills (asked _ (IsNeutral-on_heap _))
    apply_imm-IsNeutral op l i = IsNeutral-pure l

    test-IsNeutral : (op : BinOp) (l r : ℕ) → IsNeutral (test o op l r)
    unfolding test as_operators
    test-IsNeutral BinOp.eq l r = rw fills (eq-IsNeutral l r)
    test-IsNeutral BinOp.ne l r = rw fills (eq-IsNeutral l r)
    test-IsNeutral op l r = rw fills (IsNeutral-on_heap _)

    test_imm-IsNeutral : (op : BinOp) (l : ℕ) (i : ℤ) → IsNeutral (test_imm o op l i)
    unfolding test_imm as_operators
    test_imm-IsNeutral BinOp.eq l i = rw fills (IsNeutral-pure _)
    test_imm-IsNeutral BinOp.ne l i = rw fills (IsNeutral-pure _)
    test_imm-IsNeutral op l i = rw fills (IsNeutral-on_heap _)

    apply_un-IsNeutral : (op : UnOp) (l : ℕ) → IsNeutral (apply_un o op l)
    unfolding apply_un as_operators
    apply_un-IsNeutral UnOp.not l = IsNeutral-pure _
    apply_un-IsNeutral UnOp.pos l = IsNeutral-pure l
    apply_un-IsNeutral op l = rw fills (IsNeutral-on_heap _)

    pub as_operators-KeepsStack :
        ((i : ℤ) → IsNeutral (o.integer i))
        → ((m m' : Memory (Store p)) → o.gc m ≡ returns tt m' → m'.exec_stack ≡ m.exec_stack)
        → KeepsStack o
    as_operators-KeepsStack h h' = record {
      applied = apply-IsNeutral;
      applied_imm = apply_imm-IsNeutral;
      applied_un = apply_un-IsNeutral;
      tested = test-IsNeutral;
      tested_imm = test_imm-IsNeutral;
      integers = h;
      collects = h';
    }
