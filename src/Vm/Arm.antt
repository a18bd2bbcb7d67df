-- ===== src/Vm/Arm.antt =====
-- src/vm/executor/opt_core.rs: what the arms of the interpreter loop have in common.
use ruruby.Prelude.{ℕ, ◌+◌, Bool, if◌then◌else◌, get_elem?, ◌==◌}
use ruruby.Prelude.Int.{ℤ, as_i32}
use ruruby.ISeq.{ISeq, read16, read32, read64, read_disp, add_disp}
use ruruby.Vm.Locals.{context, deref}
use ruruby.Vm.{
  Memory, Exec, ◌>>=◌, ◌>>◌, pure, unwrap, stack_push, stack_pop, RubyErrorKind, Ended, returns,
  raises, panics, raise,
}

-- Where an arm leaves the loop: at the next program counter, or out of it with `Ok(())`.
pub data Next : Type 0 where
  goto : ℕ → Next
  finished : Next

module _ {W : Type 0} (iseq : ISeq) (pc : ℕ) where
  -- The operands at an offset from the opcode.
  unfoldable pub operand8 : ℕ → Exec (Memory W) ℕ
  operand8 k = unwrap (get_elem? iseq (pc + k))

  unfoldable pub operand16 : ℕ → Exec (Memory W) ℕ
  operand16 k = unwrap (read16 iseq (pc + k))

  unfoldable pub operand32 : ℕ → Exec (Memory W) ℕ
  operand32 k = unwrap (read32 iseq (pc + k))

  unfoldable pub operand64 : ℕ → Exec (Memory W) ℕ
  operand64 k = unwrap (read64 iseq (pc + k))

  -- `iseq.read32(pc) as i32`.
  unfoldable pub immediate : ℕ → Exec (Memory W) ℤ
  unfolding operand32
  immediate k = operand32 k >>= λ n. pure (as_i32 n)

  unfoldable pub displacement : ℕ → Exec (Memory W) ℤ
  displacement k = unwrap (read_disp iseq (pc + k))

module _ {W : Type 0} (pc : ℕ) where
  -- `self.pc += n`.
  unfoldable pub advance : ℕ → Exec (Memory W) Next
  advance n = pure (goto (pc + n))

  unfoldable pub jump_pc : ℕ → ℤ → Exec (Memory W) Next
  jump_pc inst_offset disp = pure (goto (add_disp (pc + inst_offset) disp))

  -- Push the value and go on behind an instruction of `n` bytes.
  unfoldable pub push_advance : ℕ → ℕ → Exec (Memory W) Next
  unfolding stack_push advance
  push_advance n val = do stack_push val; advance n

module _ {W : Type 0} (iseq : ISeq) (pc : ℕ) where
  unfoldable pub jmp_cond : Bool → ℕ → ℕ → Exec (Memory W) Next
  unfolding displacement advance jump_pc
  jmp_cond cond inst_offset dest_offset =
      if cond
      then advance pc inst_offset
      else (displacement iseq pc dest_offset >>= λ disp. jump_pc pc inst_offset disp)

module _ {W : Type 0} where
  -- `self.is_method()`.
  unfoldable pub is_method : Exec (Memory W) Bool
  unfolding context deref
  is_method = do ctx ← context; c ← deref ctx; pure c.is_method

  unfoldable pub return_if_method : Bool → Exec (Memory W) Next
  return_if_method b = if b then pure Next.finished else raise RubyErrorKind.method_return

  -- What `try_push!` makes of the end of a call: a `break` of a block and the value of a call go on, a
  -- `return` of a block leaves the method.
  unfoldable pub settle : Exec (Memory W) Next → Ended (Memory W) (Unit {0}) → Ended (Memory W) Next
  unfolding is_method return_if_method
  settle k (returns u m) = k m
  settle k (raises RubyErrorKind.block_return m) = k m
  settle k (raises RubyErrorKind.method_return m) = (is_method >>= return_if_method) m
  settle k (raises e m) = raises e m
  settle k panics = panics

  unfoldable pub try_push : Exec (Memory W) (Unit {0}) → Exec (Memory W) Next → Exec (Memory W) Next
  unfolding settle
  try_push call k m = settle k (call m)

  -- The same, with the value of the call taken off the stack.
  unfoldable pub try_no_push :
      Exec (Memory W) (Unit {0}) → Exec (Memory W) Next → Exec (Memory W) Next
  unfolding settle stack_pop
  try_no_push call k m = settle (stack_pop >>= λ val. k) (call m)

  finish : Exec (Memory W) (Unit {0}) → Ended (Memory W) (Unit {0}) → Ended (Memory W) (Unit {0})
  finish last (returns u m) = last m
  finish last (raises e m) = (last >> raise e) m
  finish last panics = panics

  -- `last` is done whether the call returns or raises, and its end is passed on.
  unfoldable pub finally :
      Exec (Memory W) (Unit {0}) → Exec (Memory W) (Unit {0}) → Exec (Memory W) (Unit {0})
  unfolding finish
  finally call last m = finish last (call m)

module _ {W : Type 0} (iseq : ISeq) (pc : ℕ) where
  -- `iseq.read_method(pc)`, where 0 is no `MethodId`.
  unfoldable pub method_operand : ℕ → Exec (Memory W) ℕ
  unfolding operand32
  method_operand k = operand32 iseq pc k >>= λ n. if n == 0 then (λ m. panics) else pure n
