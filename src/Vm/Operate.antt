-- ===== src/Vm/Operate.antt =====
-- src/vm/executor/opt_core.rs: the arms of arithmetic and of comparison.
use ruruby.Prelude.{ℕ, Bool, not}
use ruruby.Prelude.Int.{ℤ}
use ruruby.ISeq.{ISeq}
use ruruby.ISeq.Inst.{Inst}
use ruruby.Value.{to_bool}
use ruruby.Value.Pack.{bool}
use ruruby.Vm.{Memory, Exec, ◌>>=◌, pure, stack_pop}
use ruruby.Vm.Executor.{Executor}
use ruruby.Vm.Arm.{Next, immediate, push_advance}

-- The answer as it is, for a test that is not negated.
abbrev pub same : Bool → Bool
same b = b

module _ {W : Type 0} (pc : ℕ) where
  -- The right operand is on top.
  unfoldable pub binary : (ℕ → ℕ → Exec (Memory W) ℕ) → Exec (Memory W) Next
  unfolding stack_pop push_advance
  binary eval = do rhs ← stack_pop; lhs ← stack_pop; val ← eval rhs lhs; push_advance pc 1 val

  unfoldable pub unary : (ℕ → Exec (Memory W) ℕ) → Exec (Memory W) Next
  unfolding stack_pop push_advance
  unary eval = do lhs ← stack_pop; val ← eval lhs; push_advance pc 1 val

  -- A comparison that pushes its answer.
  unfoldable pub compares : (ℕ → ℕ → Exec (Memory W) Bool) → Exec (Memory W) Next
  unfolding binary
  compares test = binary λ rhs lhs. test rhs lhs >>= λ b. pure (bool b)

  -- `==` and `!=` take the operand on top for the left one.
  unfoldable pub equates : (Bool → Bool) → (ℕ → ℕ → Exec (Memory W) Bool) → Exec (Memory W) Next
  unfolding stack_pop push_advance
  equates negate test = do
    lhs ← stack_pop
    rhs ← stack_pop
    b ← test rhs lhs
    push_advance pc 1 (bool (negate b))

module _ {W : Type 0} (iseq : ISeq) (pc : ℕ) where
  -- An operator whose right operand is an immediate number.
  unfoldable pub binary_imm : (ℕ → ℤ → Exec (Memory W) ℕ) → Exec (Memory W) Next
  unfolding stack_pop push_advance immediate
  binary_imm eval = do
    lhs ← stack_pop
    i ← immediate iseq pc 1
    val ← eval lhs i
    push_advance pc 5 val

  unfoldable pub compares_imm :
      (Bool → Bool) → (ℕ → ℤ → Exec (Memory W) Bool) → Exec (Memory W) Next
  unfolding stack_pop push_advance immediate
  compares_imm negate test = do
    lhs ← stack_pop
    i ← immediate iseq pc 1
    b ← test lhs i
    push_advance pc 5 (bool (negate b))

  -- The arms from `EQ` to `NOT`; `rest` is the `match` from there on.
  module _ (o : Executor W) where
    open o use {operators}
    open operators use {
      eval_compare, eval_eq, eval_teq, eval_gt, eval_ge, eval_lt, eval_le, eval_eqi, eval_gti,
      eval_gei, eval_lti, eval_lei,
    }

    unfoldable pub exec_compare : (Inst → Exec (Memory W) Next) → Inst → Exec (Memory W) Next
    unfolding binary unary compares equates compares_imm
    exec_compare rest Inst.eq = equates pc same eval_eq
    exec_compare rest Inst.eqi = compares_imm same eval_eqi
    exec_compare rest Inst.ne = equates pc not eval_eq
    exec_compare rest Inst.nei = compares_imm not eval_eqi
    exec_compare rest Inst.teq = compares pc eval_teq
    exec_compare rest Inst.gt = compares pc eval_gt
    exec_compare rest Inst.gti = compares_imm same eval_gti
    exec_compare rest Inst.ge = compares pc eval_ge
    exec_compare rest Inst.gei = compares_imm same eval_gei
    exec_compare rest Inst.lt = compares pc eval_lt
    exec_compare rest Inst.lti = compares_imm same eval_lti
    exec_compare rest Inst.le = compares pc eval_le
    exec_compare rest Inst.lei = compares_imm same eval_lei
    exec_compare rest Inst.cmp = binary pc eval_compare
    exec_compare rest Inst.not_inst = unary pc λ lhs. pure (bool (not (to_bool lhs)))
    exec_compare rest i = rest i

    open operators use {
      eval_add, eval_sub, eval_mul, eval_div, eval_rem, eval_exp, eval_shl, eval_shr, eval_bitand,
      eval_bitor, eval_bitxor, eval_neg, eval_bitnot, eval_addi, eval_subi, eval_bitandi,
      eval_bitori,
    }

    -- The arms from `ADD` to `BNOT`.
    unfoldable pub exec_arith : (Inst → Exec (Memory W) Next) → Inst → Exec (Memory W) Next
    unfolding binary unary binary_imm
    exec_arith rest Inst.add = binary pc eval_add
    exec_arith rest Inst.addi = binary_imm eval_addi
    exec_arith rest Inst.sub = binary pc eval_sub
    exec_arith rest Inst.subi = binary_imm eval_subi
    exec_arith rest Inst.mul = binary pc eval_mul
    exec_arith rest Inst.pow = binary pc eval_exp
    exec_arith rest Inst.div = binary pc eval_div
    exec_arith rest Inst.rem = binary pc eval_rem
    exec_arith rest Inst.shr = binary pc eval_shr
    exec_arith rest Inst.shl = binary pc eval_shl
    exec_arith rest Inst.neg = unary pc eval_neg
    exec_arith rest Inst.band = binary pc eval_bitand
    exec_arith rest Inst.b_andi = binary_imm eval_bitandi
    exec_arith rest Inst.bor = binary pc eval_bitor
    exec_arith rest Inst.b_ori = binary_imm eval_bitori
    exec_arith rest Inst.bxor = binary pc eval_bitxor
    exec_arith rest Inst.bnot = unary pc eval_bitnot
    exec_arith rest i = rest i
