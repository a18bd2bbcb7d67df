-- ===== src/Codegen/Examples.antt =====
-- src/parse/codegen.rs: `i = 2; while i > 0; i = i + -1; end; i` and its code.
use ruruby.Prelude.{ℕ, ◌≡◌, ◌≢◌, ◌==◌, refl, true, false, [], ◌∷◌, ◌++◌, none, some, arith, length}
use ruruby.Prelude.Int.{pos, negsuc}
use ruruby.ISeq.{ISeq, push32, push64, disp_to}
use ruruby.ISeq.Inst.{opcode}
use ruruby.Codegen.Gen.{gens}
use ruruby.Value.{nil_value}
use ruruby.Vm.{Memory, returns}
use ruruby.Operators.Arith.{Store}
use ruruby.Operators.Samples.{sample_machine, sample_executor, sample_memory}
use ruruby.Codegen.{Node, Nodes, BinOp, Codegen, get_local_var}
use ruruby.Codegen.Eval.{eval}
use ruruby.Codegen.Reach.{with_stack, on_stack, Follows}
use ruruby.Codegen.Neutral.{KeepsStack}
use ruruby.Codegen.OnHeap.{as_operators-KeepsStack, IsNeutral-on_heap}
use ruruby.Codegen.Method.{gen_body, Runs, gen-eval, run-gen_body}
use ruruby.Codegen.Total.{is_loop_free, run-stops}
use ruruby.Codegen.Bytes.{Holds, Holds-part, Extends-append}
use ruruby.Vm.Run.{run, Stopped}
use ruruby.Codegen.Moves.{left}

abbrev one_variable : Codegen
one_variable = record {
  context_stack = record { lvar_info = (7, 0) ∷ []; is_method = true } ∷ [];
  extern_context = [];
}

abbrev count_down : Node
count_down = Node.comp_stmt (
    Nodes.node_and (Node.assign 7 (Node.integer (pos 2))) (
      Nodes.node_and
        (Node.while_node (Node.bin_op BinOp.gt (Node.local_var 7) (Node.integer (pos 0)))
          (Node.assign 7 (Node.bin_op BinOp.add (Node.local_var 7) (Node.integer (negsuc 0)))) true)
        (Nodes.node_and (Node.local_var 7) Nodes.no_nodes)))

abbrev count_down_code : ISeq
count_down_code =
    1 ∷ 2 ∷ 0 ∷ 0 ∷ 0 ∷ 0 ∷ 0 ∷ 0 ∷ 0 ∷ 30 ∷ 0 ∷ 0 ∷ 0 ∷ 0 ∷ 31 ∷ 0 ∷ 0 ∷ 0 ∷ 0 ∷ 182 ∷ 0 ∷ 0 ∷ 0
    ∷ 0 ∷ 14 ∷ 0 ∷ 0 ∷ 0 ∷ 163 ∷ 0 ∷ 0 ∷ 0 ∷ 0 ∷ 255 ∷ 255 ∷ 255 ∷ 255 ∷ 101 ∷ 228 ∷ 255 ∷ 255 ∷ 255
    ∷ 100 ∷ 1 ∷ 0 ∷ 0 ∷ 0 ∷ 80 ∷ 31 ∷ 0 ∷ 0 ∷ 0 ∷ 0 ∷ 104 ∷ []

-- A context with one local variable.
abbrev one_context : Memory (Store sample_machine)
one_context = record sample_memory {
  contexts =
      record {
        self_value = nil_value;
        lvar_ary = nil_value ∷ [];
        lvar_vec = [];
        outer = none;
        is_method = true;
      }
      ∷ [];
  exec_context = 0 ∷ [];
  cur_context = some 0;
}

sample_collects :
    (m m' : Memory (Store sample_machine))
    → sample_executor.gc m ≡ returns tt m'
    → m'.exec_stack ≡ m.exec_stack
sample_collects m m' e = cc

sample_laws : KeepsStack sample_executor
unfolding on_stack
sample_laws =
    as_operators-KeepsStack sample_machine sample_executor _ _ refl
      (λ r l. record { neutral = λ vals m. refl }) (λ r l. record { neutral = λ vals m. refl })
      (λ i. IsNeutral-on_heap sample_machine _) sample_collects

run-gen_body_example :
    Runs sample_executor nil_value count_down_code
      (left true)
      (with_stack [] one_context)
      []
      (eval sample_executor nil_value one_variable 3 count_down true [] one_context)
run-gen_body_example =
    run-gen_body sample_executor nil_value sample_laws one_variable 3 count_down true
      count_down_code [] one_context
      (unfold gen_body gens get_local_var push32 push64 opcode disp_to in refl) (omega arith)

-- `1 if true && i`, its value not used.
abbrev choice : Node
choice =
    Node.if_node (Node.bin_op BinOp.land (Node.bool true) (Node.local_var 7)) (Node.integer (pos 1))
      (Node.comp_stmt Nodes.no_nodes)

abbrev choice_code : ISeq
choice_code =
    3 ∷ 88 ∷ 81 ∷ 1 ∷ 0 ∷ 0 ∷ 0 ∷ 102 ∷ 6 ∷ 0 ∷ 0 ∷ 0 ∷ 80 ∷ 31 ∷ 0 ∷ 0 ∷ 0 ∷ 0 ∷ 102 ∷ 0 ∷ 0 ∷ 0
    ∷ 0 ∷ []

run-stops_example :
    (fuel : ℕ) × (run sample_executor nil_value
        (choice_code ++ 104 ∷ [])
        fuel
        0
        (with_stack [] one_context)
      ≢ Stopped.unfinished)
run-stops_example =
    run-stops sample_executor nil_value sample_laws one_variable choice false
      (choice_code ++ 104 ∷ []) [] one_context
      (unfold gen_body gens get_local_var push32 disp_to opcode in refl) (omega arith)
      (unfold is_loop_free in refl)

-- The same code behind two bytes and before a `RETURN`.
abbrev before : ISeq
before = 5 ∷ 5 ∷ []

abbrev around : ISeq
around = (before ++ choice_code) ++ 104 ∷ []

there : Holds around (before ++ choice_code) 2
there =
    Holds-part (record { room = omega arith; same = λ k a b. refl })
      (Extends-append (before ++ choice_code) (104 ∷ []))

gen-eval_example :
    Follows sample_executor nil_value around
      (left false)
      (λ v. length (before ++ choice_code))
      2
      (with_stack [] one_context)
      []
      (eval sample_executor nil_value one_variable 0 choice false [] one_context)
gen-eval_example =
    gen-eval sample_executor nil_value sample_laws one_variable 0 choice false before
      (before ++ choice_code) around [] one_context
      (unfold gens get_local_var push32 disp_to opcode in refl) there (omega arith)

as_operators-KeepsStack_example : KeepsStack sample_executor
unfolding on_stack
as_operators-KeepsStack_example =
    as_operators-KeepsStack sample_machine sample_executor (λ rhs lhs m. returns (rhs == lhs) m)
      (λ rhs lhs m. returns (rhs == lhs) m) refl (λ r l. record { neutral = λ vals m. refl })
      (λ r l. record { neutral = λ vals m. refl }) (λ i. IsNeutral-on_heap sample_machine _)
      sample_collects
