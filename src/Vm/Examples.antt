-- ===== src/Vm/Examples.antt =====
-- src/vm/executor.rs and src/vm/executor/opt_core.rs: runs of small pieces of bytecode.
use ruruby.Prelude.{
  ℕ, zero, suc, ◌+◌, ◌<◌, ◌≤◌, some, none, ◌≡◌, ◌≢◌, ◌⊎◌, refl, sym, subst, ◌∙◌, List, [], ◌∷◌,
  arith, get_elem?, inl, inr, Bool-cases,
}
use ruruby.Prelude.Int.{pos}
use ruruby.ISeq.{ISeq, read32, slice, read_disp, add_disp, sub_usize}
use ruruby.ISeq.Inst.{Inst, opcode, decode, inst_size}
use ruruby.ISeq.Optimize.{code, is_jump, is_branch, target_before, rewrite_at}
use ruruby.ISeq.Chase.{stop_at, JumpAt}
use ruruby.Value.{to_bool, nil_value}
use ruruby.Vm.{Memory, Exec, Ended, returns, RubyErrorKind, ◌>>=◌, unwrap, stack_pop}
use ruruby.Vm.Arm.{Next, goto}
use ruruby.Vm.Jump.{jump_if}
use ruruby.Vm.Run.{exec, step, run, raised, unfinished}
use ruruby.Vm.Frame.{ISeqInfo, run_frame, run_context_main, find_entry, context_pop, failed}
use ruruby.Vm.Rescue.{run_frame-rescue, run_frame-failed, value_left}
use ruruby.Vm.Advance.{Target, way, step-Target}
use ruruby.Vm.Locality.{Alike, exec-Alike}
use ruruby.Vm.Fuel.{Jumps, jump_step}
use ruruby.Vm.Terminate.{seen}
use ruruby.Vm.Optimized.{Clear, run-rewrite_at_jump, run-rewrite_at_branch}
use ruruby.Operators.Arith.{Store}
use ruruby.Operators.Samples.{sample_machine, sample_executor, sample_memory}

-- `nil; throw; return`, with a handler for the first two at the third.
abbrev throws : ISeq
throws = 5 ∷ 110 ∷ 104 ∷ []

abbrev handled : ISeqInfo
handled = record {
  iseq = throws;
  exception_table = record { start = 0; end = 2; dest = 2 } ∷ [];
  forvars = [];
}

abbrev exception_42 : RubyErrorKind → Exec (Memory (Store sample_machine)) ℕ
exception_42 e m = returns 42 m

-- A jump to itself.
abbrev circle : ISeq
circle = 100 ∷ 251 ∷ 255 ∷ 255 ∷ 255 ∷ []

step-Target_example : Target (way Inst.jmp) circle 0 (inst_size Inst.jmp) 0
step-Target_example =
    step-Target sample_executor nil_value circle 0 100 0 Inst.jmp sample_memory sample_memory refl
      (unfold decode opcode in refl)
      (unfold step exec decode opcode ◌>>=◌ read_disp read32 slice add_disp in refl)

-- Two codes that begin alike.
abbrev breaks : ISeq
breaks = 5 ∷ 105 ∷ 105 ∷ []

abbrev first_bytes : (k : ℕ) → k < 1 → get_elem? throws (0 + k) ≡ get_elem? breaks (0 + k)
first_bytes zero l = refl
first_bytes (suc k) l = absurd (omega arith)

exec-Alike_example :
    Alike
      (exec sample_executor nil_value throws 0 Inst.push_nil)
      (exec sample_executor nil_value breaks 0 Inst.push_nil)
exec-Alike_example =
    exec-Alike sample_executor nil_value throws breaks 0 Inst.push_nil
      (record { lengths = refl; bytes = unfold inst_size in first_bytes })

-- The exception is raised at 1, with nothing on the stack.
thrown :
    run_context_main sample_executor exception_42 handled nil_value 3 0 sample_memory
    ≡ raised (RubyErrorKind.value nil_value) 1 sample_memory
unfolding run_context_main step exec decode opcode ◌>>=◌ run
thrown = refl

run_frame-rescue_example :
    run_frame sample_executor exception_42 handled (suc 1) nil_value 3 0 0 sample_memory
    ≡ run_frame sample_executor exception_42 handled 1 nil_value 3 0 2
        (record sample_memory { exec_stack = 42 ∷ [] })
run_frame-rescue_example =
    run_frame-rescue sample_executor exception_42 handled 1 nil_value 3 0 0 1 42
      (RubyErrorKind.value nil_value) sample_memory sample_memory sample_memory [] []
      (record { start = 0; end = 2; dest = 2 }) thrown refl refl tt (omega arith) (omega arith) refl

-- Without a handler, and with two more values on the stack than there were.
abbrev unhandled : ISeqInfo
unhandled = record { iseq = 5 ∷ 5 ∷ 5 ∷ 110 ∷ []; exception_table = []; forvars = [] }

abbrev entered : Memory (Store sample_machine)
entered = record sample_memory { exec_stack = 7 ∷ []; cur_context = some 0 }

abbrev left_frame : Memory (Store sample_machine)
left_frame = record entered { cur_context = none }

fails :
    run_frame sample_executor exception_42 unhandled 1 nil_value 5 1 0 entered
    ≡ failed (RubyErrorKind.value nil_value) left_frame
unfolding run_frame step exec decode opcode ◌>>=◌ run find_entry context_pop
fails = refl

run_frame-failed_example : 1 ≤ 1 + value_left (RubyErrorKind.value nil_value)
run_frame-failed_example =
    run_frame-failed sample_executor exception_42 unhandled 1 1 nil_value 5 0 entered left_frame
      (RubyErrorKind.value nil_value) fails

-- A jump, or a conditional jump, to the `return` behind it.
abbrev jump_code : ISeq
jump_code = 100 ∷ 0 ∷ 0 ∷ 0 ∷ 0 ∷ 104 ∷ []

abbrev branch_code : ISeq
branch_code = 102 ∷ 0 ∷ 0 ∷ 0 ∷ 0 ∷ 104 ∷ []

abbrev Places : ℕ → Type 0
Places pc = (pc ≡ 0) ⊎ (pc ≡ 5)

goto-injective :
    (q q' : ℕ) (m m' : Memory (Store sample_machine))
    → ◌≡◌ {A = Ended (Memory (Store sample_machine)) Next}
        (returns (goto q) m)
        (returns (goto q') m')
    → q ≡ q'
goto-injective q q' m m' e = cc e

module _ (s : ISeq) (pc q : ℕ) (m m' : Memory (Store sample_machine))
    (e : step sample_executor nil_value s pc m ≡ returns (goto q) m') where
  step_from_zero : pc ≡ 0 → step sample_executor nil_value s 0 m ≡ returns (goto q) m'
  step_from_zero z = subst (λ t. step sample_executor nil_value s t m ≡ returns (goto q) m') z e

  step_from_five : pc ≡ 5 → step sample_executor nil_value s 5 m ≡ returns (goto q) m'
  step_from_five z = subst (λ t. step sample_executor nil_value s t m ≡ returns (goto q) m') z e

abbrev only_jump : JumpAt jump_code 0 5
unfolding read32 slice
only_jump = record {
  op = 100;
  at = refl;
  jumps = inl (unfold opcode in refl);
  disp = pos 0;
  read = unfold read_disp in refl;
  leads = unfold add_disp in refl;
}

jump_closed :
    (pc q : ℕ) (m m' : Memory (Store sample_machine))
    → Places pc
    → step sample_executor nil_value jump_code pc m ≡ returns (goto q) m'
    → Places q
unfolding step exec decode only_jump
jump_closed pc q m m' (inl z) e =
    let jumps = jump_step sample_executor nil_value jump_code m only_jump (unfold opcode in refl) in
    inr (sym (goto-injective 5 q m m' (sym jumps ∙ step_from_zero jump_code pc q m m' e z)))
jump_closed pc q m m' (inr z) e = cc (step_from_five jump_code pc q m m' e z)

abbrev jump_clear : (pc : ℕ) → Places pc → pc ≢ 0 → Clear jump_code 0 (0 + 5) pc
jump_clear pc (inl z) ne = absurd (ne z)
jump_clear pc (inr z) ne = inl (omega arith)

run-rewrite_at_jump_example :
    (s' : ISeq) × (rewrite_at 1 jump_code 0 100 5 ≡ code s')
    × ((rounds pc : ℕ) (m : Memory (Store sample_machine))
        → Places pc
        → run sample_executor nil_value jump_code rounds pc m ≢ unfinished
        → seen (run sample_executor nil_value s' rounds pc m)
          ≡ seen (run sample_executor nil_value jump_code rounds pc m))
unfolding read32 slice sub_usize
run-rewrite_at_jump_example =
    run-rewrite_at_jump sample_executor nil_value 1 jump_code 0 100 5 5 104 0 refl Jumps.here
      (stop_at refl (unfold is_jump opcode in refl)) (omega arith) (omega arith) Places
      (unfold opcode in refl) (omega arith) (unfold target_before read_disp add_disp in refl)
      (record { closed = jump_closed; clear = jump_clear })

pops :
    (v : ℕ) (st : List ℕ) (m : Memory (Store sample_machine))
    → m.exec_stack ≡ v ∷ st
    → stack_pop m ≡ returns v (record m { exec_stack = st })
unfolding stack_pop
pops v st m e = rw e refl

branch_step :
    (v : ℕ) (st : List ℕ) (m : Memory (Store sample_machine))
    → m.exec_stack ≡ v ∷ st
    → step sample_executor nil_value branch_code 0 m
      ≡ returns (goto 5) (record m { exec_stack = st })
unfolding step exec decode ◌>>=◌ read_disp read32 slice add_disp jump_if unwrap
branch_step v st m e = elim (Bool-cases (to_bool v)) [
  | inl t ↦ rw (pops v st m e, ◌>>=◌, jump_if) (rw t refl)
  | inr t ↦ rw (pops v st m e, ◌>>=◌, jump_if) (rw t refl)
]

branch_closed :
    (pc q : ℕ) (m m' : Memory (Store sample_machine))
    → Places pc
    → step sample_executor nil_value branch_code pc m ≡ returns (goto q) m'
    → Places q
unfolding step exec decode ◌>>=◌ stack_pop jump_if
branch_closed pc q m m' (inr z) e = cc (step_from_five branch_code pc q m m' e z)
branch_closed pc q m m' (inl z) e =
    let e₀ = step_from_zero branch_code pc q m m' e z in
    elim (stack_cases m.exec_stack) [
      | inl n ↦ cc (rw (n, ◌>>=◌, jump_if, stack_pop) at e₀)
      | inr (v, st, n) ↦ inr (sym (goto-injective 5 q _ m' (sym (branch_step v st m n) ∙ e₀)))
    ]
  where
    stack_cases : (st : List ℕ) → (st ≡ []) ⊎ ((v : ℕ) × (t : List ℕ) × (st ≡ v ∷ t))
    stack_cases [] = inl refl
    stack_cases (v ∷ t) = inr (v, t, refl)

abbrev branch_clear : (pc : ℕ) → Places pc → pc ≢ 0 → Clear branch_code 0 (0 + 5) pc
branch_clear pc (inl z) ne = absurd (ne z)
branch_clear pc (inr z) ne = inl (omega arith)

run-rewrite_at_branch_example :
    (s' : ISeq) × (rewrite_at 1 branch_code 0 102 5 ≡ code s')
    × ((rounds pc : ℕ) (m : Memory (Store sample_machine))
        → Places pc
        → run sample_executor nil_value branch_code rounds pc m ≢ unfinished
        → seen (run sample_executor nil_value s' rounds pc m)
          ≡ seen (run sample_executor nil_value branch_code rounds pc m))
unfolding read32 slice sub_usize inst_size
run-rewrite_at_branch_example =
    run-rewrite_at_branch sample_executor nil_value 1 branch_code 0 102 5 5 104 0 Inst.jmp_f refl
      Jumps.here (stop_at refl (unfold is_jump opcode in refl)) (omega arith) (omega arith)
      (unfold decode opcode in refl) Places (unfold is_jump opcode in refl)
      (unfold is_branch opcode in refl) (unfold opcode in refl) (omega arith)
      (unfold target_before read_disp add_disp in refl)
      (record { closed = branch_closed; clear = branch_clear })
