-- ===== src/Vm/Run.antt =====
-- src/vm/executor/opt_core.rs: `run_context_main`, the loop, and src/vm/executor.rs: `run_context`.
use ruruby.Prelude.{ℕ, zero, suc, none, some, get_elem?}
use ruruby.ISeq.{ISeq}
use ruruby.ISeq.Inst.{Inst, decode}
use ruruby.Vm.{Memory, Exec, returns, raises, panics, RubyErrorKind, raise}
use ruruby.Vm.Executor.{Executor}
use ruruby.Vm.Arm.{Next, goto, finished}
use ruruby.Vm.Operate.{exec_arith, exec_compare}
use ruruby.Vm.Variables.{exec_locals, exec_constants, exec_variables}
use ruruby.Vm.Stack.{exec_push, exec_strings, exec_create, exec_stack_ops}
use ruruby.Vm.Jump.{exec_jump}
use ruruby.Vm.Call.{exec_call}

module _ {W : Type 0} (o : Executor W) (self_value : ℕ) (iseq : ISeq) where
  -- The last arm.
  unimplemented : Inst → Exec (Memory W) Next
  unimplemented i = raise RubyErrorKind.internal

  -- The `match` of the loop, in the order of its arms.
  unfoldable pub exec : ℕ → Inst → Exec (Memory W) Next
  unfolding unimplemented exec_push exec_arith exec_compare exec_strings exec_locals exec_constants
      exec_variables exec_create exec_jump exec_call exec_stack_ops
  exec pc = exec_push o self_value iseq pc (
      exec_arith iseq pc o (
        exec_compare iseq pc o (
          exec_strings o self_value iseq pc (
            exec_locals o self_value iseq pc (
              exec_constants o self_value iseq pc (
                exec_variables o self_value iseq pc (
                  exec_create o self_value iseq pc (
                    exec_jump o iseq pc (
                      exec_call o iseq pc self_value
                        (exec_stack_ops o self_value iseq pc unimplemented))))))))))

  -- One round of the loop. A byte that is no instruction reaches the last arm.
  unfoldable pub step : ℕ → Exec (Memory W) Next
  unfolding unimplemented
  step pc m = elim (get_elem? iseq pc) [
    | none ↦ panics
    | some b ↦ elim (decode b) [ none ↦ raises RubyErrorKind.internal m | some i ↦ exec pc i m ]
  ]

-- How the loop ends: with `Ok(())`, with an error raised at a program counter, with a panic, or not yet.
pub data Stopped (W : Type 0) : Type 0 where
  done : Memory W → Stopped W
  raised : RubyErrorKind → ℕ → Memory W → Stopped W
  panicked : Stopped W
  unfinished : Stopped W

module _ {W : Type 0} (o : Executor W) (self_value : ℕ) (iseq : ISeq) where
  -- The loop, on fuel for its rounds.
  unfoldable pub run : ℕ → ℕ → Memory W → Stopped W
  unfolding step
  run zero pc m = Stopped.unfinished
  run (suc fuel) pc m = elim (step o self_value iseq pc m) [
    | returns (goto pc') m' ↦ run fuel pc' m'
    | returns finished m' ↦ Stopped.done m'
    | raises e m' ↦ Stopped.raised e pc m'
    | panics ↦ Stopped.panicked
  ]
