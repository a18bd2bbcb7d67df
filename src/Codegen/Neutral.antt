-- ===== src/Codegen/Neutral.antt =====
-- src/vm/context.rs and src/vm/executor.rs: what leaves the stack alone.
use ruruby.Prelude.{ℕ, zero, suc, ◌≡◌, refl, List, Option, none, some}
use ruruby.Prelude.Int.{ℤ}
use ruruby.Vm.{Memory, Exec, Ended, returns, raises, panics, ◌>>=◌, pure, unwrap}
use ruruby.Vm.Locals.{
  deref, context, get_outer_context, get_outer_context_from, get_lvar, set_lvar, index, index_mut,
}
use ruruby.Vm.Executor.{Executor}
use ruruby.Codegen.{BinOp, UnOp}
use ruruby.Codegen.Eval.{apply, apply_imm, apply_un, test, test_imm}
use ruruby.Codegen.Reach.{on_stack, IsNeutral}

module _ {W : Type 0} where
  pub IsNeutral-pure : {A : Type 0} (x : A) → IsNeutral {W = W} (pure x)
  unfolding on_stack
  IsNeutral-pure x = record { neutral = λ vals m. refl }

  pub IsNeutral-panics : {A : Type 0} → IsNeutral {W = W} {A = A} (λ m. panics)
  unfolding on_stack
  IsNeutral-panics = record { neutral = λ vals m. refl }

  pub IsNeutral-unwrap : {A : Type 0} (r : Option A) → IsNeutral {W = W} (unwrap r)
  unfolding on_stack unwrap
  IsNeutral-unwrap none = record { neutral = λ vals m. refl }
  IsNeutral-unwrap (some x) = record { neutral = λ vals m. refl }

  pub IsNeutral-bind :
      {A B : Type 0} {a : Exec (Memory W) A} {k : A → Exec (Memory W) B}
      → IsNeutral a
      → ((x : A) → IsNeutral (k x))
      → IsNeutral (a >>= k)
  unfolding on_stack ◌>>=◌
  IsNeutral-bind {a = a} {k = k} h g = record {
    neutral = λ vals m. rw (h.neutral vals m, ◌>>=◌) (after vals (a m));
  }
    where
      after :
          (vals : List ℕ) (r : Ended (Memory W) _)
          → elim (on_stack vals r) [
            | returns x m ↦ k x m
            | raises e m ↦ raises e m
            | panics ↦ panics
          ]
            ≡ on_stack vals
                (elim r [ returns x m ↦ k x m | raises e m ↦ raises e m | panics ↦ panics ])
      after vals (returns x m) = (g x).neutral vals m
      after vals (raises e m) = refl
      after vals panics = refl

  IsNeutral-deref : (ref : ℕ) → IsNeutral {W = W} (deref ref)
  unfolding deref
  IsNeutral-deref ref = record { neutral = λ vals m. (IsNeutral-unwrap _).neutral vals m }

  pub IsNeutral-context : IsNeutral {W = W} context
  unfolding context
  IsNeutral-context = record { neutral = λ vals m. (IsNeutral-unwrap _).neutral vals m }

  IsNeutral-outer : (n ref : ℕ) → IsNeutral {W = W} (get_outer_context_from n ref)
  unfolding get_outer_context_from
  IsNeutral-outer zero ref = IsNeutral-pure ref
  IsNeutral-outer (suc n) ref =
      IsNeutral-bind (IsNeutral-deref ref)
        λ c. IsNeutral-bind (IsNeutral-unwrap c.outer) λ up. IsNeutral-outer n up

  pub IsNeutral-get_outer_context : (n : ℕ) → IsNeutral {W = W} (get_outer_context n)
  unfolding get_outer_context
  IsNeutral-get_outer_context n = IsNeutral-bind IsNeutral-context (IsNeutral-outer n)

  pub IsNeutral-get_lvar : (ref id : ℕ) → IsNeutral {W = W} (get_lvar ref id)
  unfolding get_lvar
  IsNeutral-get_lvar ref id =
      IsNeutral-bind (IsNeutral-deref ref) λ c. IsNeutral-unwrap (index c id)

  pub IsNeutral-set_lvar : (ref id val : ℕ) → IsNeutral {W = W} (set_lvar ref id val)
  unfolding set_lvar on_stack
  IsNeutral-set_lvar ref id val = IsNeutral-bind (IsNeutral-deref ref) λ c.
      IsNeutral-bind (IsNeutral-unwrap (index_mut c id val))
        λ c'. record { neutral = λ vals m. refl }

-- The operators and the integers leave the stack alone, as the ones of src/vm/executor.rs do on numbers.
-- `VM::gc` marks what is on the stack, so that it reads the stack, but does not change it.
pub record KeepsStack {W : Type 0} (o : Executor W) : Type 0 where
  pub applied : (op : BinOp) (l r : ℕ) → IsNeutral (apply o op l r)
  pub applied_imm : (op : BinOp) (l : ℕ) (i : ℤ) → IsNeutral (apply_imm o op l i)
  pub applied_un : (op : UnOp) (l : ℕ) → IsNeutral (apply_un o op l)
  pub tested : (op : BinOp) (l r : ℕ) → IsNeutral (test o op l r)
  pub tested_imm : (op : BinOp) (l : ℕ) (i : ℤ) → IsNeutral (test_imm o op l i)
  pub integers : (i : ℤ) → IsNeutral (o.integer i)
  -- A collection may read the stack, but leaves it as it is.
  pub collects : (m m' : Memory W) → o.gc m ≡ returns tt m' → m'.exec_stack ≡ m.exec_stack
