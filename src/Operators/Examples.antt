-- ===== src/Operators/Examples.antt =====
-- src/vm/executor.rs: the operators at concrete numbers.
use ruruby.Prelude.{zero, ◌+◌, ◌-◌, ◌^◌, ◌<◌, ◌≡◌, refl, ◌∷◌, [], arith, false, ◌==◌, if◌then◌else◌}
use ruruby.Prelude.Int.{ℤ, pos, negsuc, ◌+ℤ◌, IsI64, as_i64, as_u64}
use ruruby.Prelude.Outcome.{RubyError}
use ruruby.ISeq.Inst.{Inst}
use ruruby.Value.{is_packed_value, is_packed_fixnum, as_packed_fixnum}
use ruruby.Value.Pack.{fixnum_word, integer, unpack, fits_fixnum}
use ruruby.Value.Samples.{empty_heap, empty_heap-IsHeap, next_page}
use ruruby.Vm.{Memory, RubyErrorKind, returns, raises, panics, ◌>>=◌}
use ruruby.Vm.Arm.{goto}
use ruruby.Vm.Run.{exec}
use ruruby.Operators.Integers.{◌-ℤ◌, ◌*ℤ◌, abs, fits_i64, div_trunc}
use ruruby.Operators.Arith.{
  Store, new_integer, eval_add, eval_sub, eval_mul, eval_div, eval_addi, eval_subi,
}
use ruruby.Operators.Compare.{lt, eval_cmp, eval_cmp_i}
use ruruby.Operators.Exact.{Gives, eval_add-eval_sub, eval_mul-overflow}
use ruruby.Operators.Divide.{IsTruncated, eval_div-fixnums}
use ruruby.Operators.Immediate.{immediate-operators}
use ruruby.Operators.AsOperators.{exec-fixnums, pushed}
use ruruby.Operators.Samples.{sample_machine, sample_executor, sample_memory}

-- The largest fixnum.
abbrev greatest : ℤ
greatest = pos (2 ^ 62 - 1)

eval_add-eval_sub_example :
    Gives sample_machine
      (eval_add sample_machine (fixnum_word greatest) (fixnum_word greatest))
      (greatest +ℤ greatest)
      empty_heap
    × Gives sample_machine
        (eval_sub sample_machine (fixnum_word greatest) (fixnum_word greatest))
        (greatest -ℤ greatest)
        empty_heap
eval_add-eval_sub_example =
    eval_add-eval_sub sample_machine greatest greatest empty_heap ([], empty_heap-IsHeap, next_page)
      (omega arith, omega arith) (omega arith, omega arith)

eval_mul-overflow_example :
    (IsI64 (greatest *ℤ greatest)
      → Gives sample_machine
          (eval_mul sample_machine (fixnum_word greatest) (fixnum_word greatest))
          (greatest *ℤ greatest)
          empty_heap)
    × (fits_i64 (greatest *ℤ greatest) ≡ false
        → eval_mul sample_machine (fixnum_word greatest) (fixnum_word greatest) empty_heap ≡ (
            if sample_machine.overflow_checks
            then panics
            else new_integer sample_machine (as_i64 (as_u64 (greatest *ℤ greatest))) empty_heap))
eval_mul-overflow_example =
    eval_mul-overflow sample_machine greatest greatest empty_heap ([], empty_heap-IsHeap, next_page)
      (omega arith, omega arith) (omega arith, omega arith)

-- -7 / 2, which is -3 here and -4 in Ruby.
eval_div-fixnums_example :
    (abs (pos 2) ≡ 0
      → eval_div sample_machine (fixnum_word (pos 2)) (fixnum_word (negsuc 6)) empty_heap
        ≡ raises (RubyErrorKind.runtime_err RubyError.zero_div) empty_heap)
    × (zero < abs (pos 2)
        → (q : ℤ) × Gives sample_machine
            (eval_div sample_machine (fixnum_word (pos 2)) (fixnum_word (negsuc 6)))
            q
            empty_heap
          × IsTruncated (negsuc 6) (pos 2) q)
eval_div-fixnums_example =
    eval_div-fixnums sample_machine (negsuc 6) (pos 2) empty_heap ([], empty_heap-IsHeap, next_page)
      (omega arith, omega arith) (omega arith, omega arith)

minus_seven_by_two :
    eval_div sample_machine (fixnum_word (pos 2)) (fixnum_word (negsuc 6)) empty_heap
    ≡ returns (fixnum_word (negsuc 2)) empty_heap
unfolding eval_div fixnum_word ◌>>=◌ unpack is_packed_value is_packed_fixnum as_packed_fixnum
    div_trunc integer fits_fixnum
minus_seven_by_two = refl

immediate-operators_example :
    (eval_addi sample_machine 7 (pos 1) empty_heap
      ≡ eval_add sample_machine (fixnum_word (pos 1)) 7 empty_heap)
    × (eval_subi sample_machine 7 (pos 1) empty_heap
        ≡ eval_sub sample_machine (fixnum_word (pos 1)) 7 empty_heap)
    × (eval_cmp_i sample_machine (lt sample_machine) 7 (pos 1) empty_heap
        ≡ eval_cmp sample_machine (lt sample_machine) (fixnum_word (pos 1)) 7 empty_heap)
immediate-operators_example =
    immediate-operators sample_machine (pos 1) (omega arith, omega arith) (lt sample_machine) 7
      empty_heap

-- The numbers 3 and 4 on the stack.
abbrev two_numbers : Memory (Store sample_machine)
two_numbers = record sample_memory { exec_stack = fixnum_word (pos 4) ∷ fixnum_word (pos 3) ∷ [] }

exec-fixnums_example :
    (exec sample_executor 0x24 [] 0 Inst.add two_numbers
      ≡ returns (goto (0 + 1)) (
          pushed sample_machine two_numbers []
            (integer sample_machine.builtin sample_machine.heap (pos 3 +ℤ pos 4) empty_heap)))
    × (exec sample_executor 0x24 [] 0 Inst.sub two_numbers
        ≡ returns (goto (0 + 1)) (
            pushed sample_machine two_numbers []
              (integer sample_machine.builtin sample_machine.heap (pos 3 -ℤ pos 4) empty_heap)))
exec-fixnums_example =
    exec-fixnums sample_machine sample_executor (λ rhs lhs m. returns (rhs == lhs) m)
      (λ rhs lhs m. returns (rhs == lhs) m) refl 0x24 [] 0 (pos 3) (pos 4) [] two_numbers
      ([], empty_heap-IsHeap, next_page) (omega arith, omega arith) (omega arith, omega arith) refl
