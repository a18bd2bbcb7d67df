-- ===== src/Vm.antt =====
-- src/vm/executor.rs and src/vm/executor/opt_core.rs: the interpreter, a stack machine that runs the
-- bytecode of ISeq. The children are the contexts of local variables, the operations that the loop
-- calls, the arms of its `match`, and what holds of its runs.
--
-- A computation reads and changes the memory of the machine: the stack, the contexts and the rest. It
-- returns, raises a Ruby error, or panics. The program counter is no part of the memory: the loop has it
-- as an argument. A call runs the loop of another frame, and `run_context` puts the old counter back.
pub mod Locals
pub mod Params
pub mod Filled
pub mod Spread
pub mod Executor
pub mod Arm
pub mod Operate
pub mod Variables
pub mod Arguments
pub mod Stack
pub mod Jump
pub mod Call
pub mod Run
pub mod Frame
pub mod Rescue
pub mod Advance
pub mod Locality
pub mod Fuel
pub mod Terminate
pub mod Shorten
pub mod Redirect
pub mod Optimized
mod Examples
use ruruby.Prelude.{
  ℕ, ◌-◌, Bool, List, [], ◌∷◌, ◌++◌, Option, none, some, length, take, drop, leb, if◌then◌else◌,
}
use ruruby.Prelude.Outcome.{RubyError}

-- `RubyErrorKind`; a message is not modelled, a parse error is an opaque number.
pub data RubyErrorKind : Type 0 where
  parse_err : ℕ → RubyErrorKind
  runtime_err : RubyError → RubyErrorKind
  value : ℕ → RubyErrorKind
  method_return block_return internal none_err : RubyErrorKind

-- A frame: `lvar_ary` and `lvar_vec` hold the local variables, the first four in the array. A
-- reference to a context is its index in the list of all contexts.
pub record Context : Type 0 where
  pub self_value : ℕ
  pub lvar_ary : List ℕ
  pub lvar_vec : List ℕ
  pub outer : Option ℕ
  pub is_method : Bool

-- The memory. The top of the stack is the head of the list. `world` is all that the loop does not
-- touch itself: the objects, the globals, the method table.
pub record Memory (W : Type 0) : Type 0 where
  pub exec_stack : List ℕ
  pub contexts : List Context
  pub exec_context : List ℕ
  pub cur_context : Option ℕ
  pub world : W

-- How a computation ends.
pub data Ended {ℓ} (S A : Type ℓ) : Type ℓ where
  returns : A → S → Ended S A
  raises : RubyErrorKind → S → Ended S A
  panics : Ended S A

abbrev pub Exec {ℓ} : (S A : Type ℓ) → Type ℓ
Exec S A = S → Ended S A

infixl 5 ◌>>=◌ ◌>>◌
unfoldable pub ◌>>=◌ {ℓ} : {S A B : Type ℓ} → Exec S A → (A → Exec S B) → Exec S B
◌>>=◌ m k s = elim (m s) [ returns a s' ↦ k a s' | raises e s' ↦ raises e s' | panics ↦ panics ]

abbrev pub ◌>>◌ {ℓ} : {S A B : Type ℓ} → Exec S A → Exec S B → Exec S B
m >> k = m >>= λ _. k

abbrev pub pure {ℓ} : {S A : Type ℓ} → A → Exec S A
pure a s = returns a s

abbrev pub raise {ℓ} : {S A : Type ℓ} → RubyErrorKind → Exec S A
raise e s = raises e s

-- `unwrap`, an index, a read of the bytecode: nothing is a panic.
unfoldable pub unwrap {ℓ} : {S A : Type ℓ} → Option A → Exec S A
unwrap none s = panics
unwrap (some a) s = returns a s

module _ {W : Type 0} where
  unfoldable pub stack_push : ℕ → Exec (Memory W) (Unit {0})
  stack_push val m = returns tt (record m { exec_stack = val ∷ m.exec_stack })

  pop_from : Memory W → List ℕ → Ended (Memory W) ℕ
  pop_from m [] = panics
  pop_from m (val ∷ rest) = returns val (record m { exec_stack = rest })

  unfoldable pub stack_pop : Exec (Memory W) ℕ
  unfolding pop_from
  stack_pop m = pop_from m m.exec_stack

  top_of : Memory W → List ℕ → Ended (Memory W) ℕ
  top_of m [] = panics
  top_of m (val ∷ rest) = returns val m

  unfoldable pub stack_top : Exec (Memory W) ℕ
  unfolding top_of
  stack_top m = top_of m m.exec_stack

  unfoldable pub stack_len : Exec (Memory W) ℕ
  stack_len m = returns (length m.exec_stack) m

  -- `truncate` to the lowest `len` values; a larger `len` has no effect, as `len - length` is 0.
  unfoldable pub set_stack_len : ℕ → Exec (Memory W) (Unit {0})
  set_stack_len len m =
      returns tt (record m { exec_stack = drop (length m.exec_stack - len) m.exec_stack })

  -- The top `n` values, off the stack, the topmost first. Where there are less, `stack_len - n` is
  -- below 0 and the slice panics.
  unfoldable pub drain_top : ℕ → Exec (Memory W) (List ℕ)
  drain_top n m =
      if leb n (length m.exec_stack)
      then returns (take n m.exec_stack) (record m { exec_stack = drop n m.exec_stack })
      else panics

  -- The same, left on the stack.
  unfoldable pub peek_top : ℕ → Exec (Memory W) (List ℕ)
  peek_top n m = if leb n (length m.exec_stack) then returns (take n m.exec_stack) m else panics

-- The values of a part of the stack, from the bottom.
abbrev pub bottom_first : List ℕ → List ℕ
bottom_first [] = []
bottom_first (x ∷ xs) = bottom_first xs ++ x ∷ []

module _ {W : Type 0} where
  -- Values pushed one after the other.
  unfoldable pub push_all : List ℕ → Exec (Memory W) (Unit {0})
  unfolding ◌>>=◌ stack_push
  push_all [] = pure tt
  push_all (val ∷ vals) = stack_push val >>= λ u. push_all vals
