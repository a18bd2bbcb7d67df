-- ===== src/Vm/Jump.antt =====
-- src/vm/executor/opt_core.rs: the arms of jumps.
use ruruby.Prelude.{ℕ, ◌+◌, ◌-◌, Bool, not, ◌&&◌, Option, none, some, leb, if◌then◌else◌, get_elem?}
use ruruby.Prelude.Int.{ℤ, pos_part, neg_part}
use ruruby.ISeq.{ISeq}
use ruruby.ISeq.Inst.{Inst}
use ruruby.Value.{to_bool}
use ruruby.Vm.{Memory, Exec, ◌>>=◌, ◌>>◌, pure, unwrap, stack_pop}
use ruruby.Vm.Executor.{Executor}
use ruruby.Vm.Arm.{Next, operand32, immediate, displacement, jump_pc, jmp_cond}
use ruruby.Vm.Operate.{same}

abbrev pub leb_ℤ : ℤ → ℤ → Bool
leb_ℤ a b = leb (pos_part a + neg_part b) (pos_part b + neg_part a)

module _ {W : Type 0} (o : Executor W) (iseq : ISeq) (pc : ℕ) where
  open o use {operators, gc, as_integer, case_dispatch, case_dispatch2}

  -- A jump by the truth of the value on top.
  unfoldable pub jump_if : (Bool → Bool) → Exec (Memory W) Next
  unfolding stack_pop jmp_cond
  jump_if negate = do val ← stack_pop; jmp_cond iseq pc (negate (to_bool val)) 5 1

  -- A comparison fused with a jump.
  unfoldable pub jump_compare : (ℕ → ℕ → Exec (Memory W) Bool) → Exec (Memory W) Next
  unfolding stack_pop jmp_cond
  jump_compare test = do rhs ← stack_pop; lhs ← stack_pop; b ← test rhs lhs; jmp_cond iseq pc b 5 1

  unfoldable pub jump_equate : (Bool → Bool) → Exec (Memory W) Next
  unfolding stack_pop jmp_cond
  jump_equate negate = do
    lhs ← stack_pop
    rhs ← stack_pop
    b ← operators.eval_eq rhs lhs
    jmp_cond iseq pc (negate b) 5 1

  unfoldable pub jump_compare_imm :
      (Bool → Bool) → (ℕ → ℤ → Exec (Memory W) Bool) → Exec (Memory W) Next
  unfolding stack_pop immediate jmp_cond
  jump_compare_imm negate test = do
    lhs ← stack_pop
    i ← immediate iseq pc 1
    b ← test lhs i
    jmp_cond iseq pc (negate b) 9 5

  -- The displacement that a table gives, else that of the `else` branch.
  unfoldable pub found_or_else : Option ℤ → Exec (Memory W) ℤ
  unfolding displacement
  found_or_else (some disp) = pure disp
  found_or_else none = displacement iseq pc 5

  unfoldable pub dispatch_integer : Option ℤ → Exec (Memory W) ℤ
  unfolding operand32 displacement
  dispatch_integer none = displacement iseq pc 5
  dispatch_integer (some i) = do
    n ← operand32 iseq pc 1
    map ← case_dispatch2 n
    (if leb_ℤ map.0 i && leb_ℤ i map.1
        then unwrap
            (get_elem? map.2 ((pos_part i + neg_part map.0) - (pos_part map.0 + neg_part i)))
        else displacement iseq pc 5)

  unfoldable pub exec_jump : (Inst → Exec (Memory W) Next) → Inst → Exec (Memory W) Next
  unfolding stack_pop operand32 displacement jump_pc jump_if jump_compare jump_equate
      jump_compare_imm found_or_else dispatch_integer
  exec_jump rest Inst.jmp = displacement iseq pc 1 >>= jump_pc pc 5
  exec_jump rest Inst.jmp_back = do disp ← displacement iseq pc 1; gc; jump_pc pc 5 disp
  exec_jump rest Inst.jmp_f = jump_if same
  exec_jump rest Inst.jmp_t = jump_if not
  exec_jump rest Inst.jmp_f_eq = jump_equate same
  exec_jump rest Inst.jmp_f_ne = jump_equate not
  exec_jump rest Inst.jmp_f_gt = jump_compare operators.eval_gt
  exec_jump rest Inst.jmp_f_ge = jump_compare operators.eval_ge
  exec_jump rest Inst.jmp_f_lt = jump_compare operators.eval_lt
  exec_jump rest Inst.jmp_f_le = jump_compare operators.eval_le
  exec_jump rest Inst.jmp_f_eqi = jump_compare_imm same operators.eval_eqi
  exec_jump rest Inst.jmp_f_nei = jump_compare_imm not operators.eval_eqi
  exec_jump rest Inst.jmp_f_gti = jump_compare_imm same operators.eval_gti
  exec_jump rest Inst.jmp_f_gei = jump_compare_imm same operators.eval_gei
  exec_jump rest Inst.jmp_f_lti = jump_compare_imm same operators.eval_lti
  exec_jump rest Inst.jmp_f_lei = jump_compare_imm same operators.eval_lei
  exec_jump rest Inst.opt_case = do
    val ← stack_pop
    n ← operand32 iseq pc 1
    found ← case_dispatch n val
    disp ← found_or_else found
    jump_pc pc 9 disp
  exec_jump rest Inst.opt_case2 = do
    val ← stack_pop
    i ← as_integer val
    disp ← dispatch_integer i
    jump_pc pc 9 disp
  exec_jump rest i = rest i
