-- ===== src/Operators/AsOperators.antt =====
-- src/vm/executor.rs: the operators as the interpreter loop calls them.
use ruruby.Prelude.{ℕ, ◌+◌, ◌≡◌, ap, Bool, List, ◌∷◌}
use ruruby.Prelude.Int.{ℤ, ◌+ℤ◌}
use ruruby.ISeq.{ISeq}
use ruruby.ISeq.Inst.{Inst}
use ruruby.Value.Pack.{integer, fixnum_word}
use ruruby.Vm.{Memory, Exec, Ended, returns, raises, panics, pure, ◌>>=◌, stack_push, stack_pop}
use ruruby.Vm.Executor.{Operators, Executor}
use ruruby.Vm.Arm.{Next, goto, push_advance}
use ruruby.Vm.Operate.{binary}
use ruruby.Vm.Run.{exec}
use ruruby.Operators.{Machine}
use ruruby.Operators.Integers.{◌-ℤ◌}
use ruruby.Operators.Arith.{
  Store, eval_add, eval_sub, eval_mul, eval_addi, eval_subi, eval_div, eval_rem, eval_exp, eval_neg,
}
use ruruby.Operators.Bits.{
  eval_shl, eval_shr, eval_bitand, eval_bitor, eval_bitxor, eval_bitandi, eval_bitori, eval_bitnot,
}
use ruruby.Operators.Compare.{ge, gt, le, lt, eval_cmp, eval_cmp_i, eval_eqi, eval_compare}
use ruruby.Operators.Exact.{IsFixnum, eval_add-eval_sub}

module _ (p : Machine) where
  pub keep : {A : Type 0} → Memory (Store p) → Ended (Store p) A → Ended (Memory (Store p)) A
  keep m (returns a s) = returns a (record m { world = s })
  keep m (raises e s) = raises e (record m { world = s })
  keep m panics = panics

  -- An operator on the heap, as one on the memory of the machine.
  unfoldable pub on_heap : {A : Type 0} → Exec (Store p) A → Exec (Memory (Store p)) A
  unfolding keep
  on_heap f m = keep m (f m.world)

  -- `eval_eq` and `eval_teq` compare objects of every kind, and are given.
  unfoldable pub as_operators :
      (eval_eq eval_teq : ℕ → ℕ → Exec (Memory (Store p)) Bool) → Operators (Store p)
  unfolding on_heap
  as_operators eval_eq eval_teq = record {
    eval_add = λ rhs lhs. on_heap (eval_add p rhs lhs);
    eval_sub = λ rhs lhs. on_heap (eval_sub p rhs lhs);
    eval_mul = λ rhs lhs. on_heap (eval_mul p rhs lhs);
    eval_div = λ rhs lhs. on_heap (eval_div p rhs lhs);
    eval_rem = λ rhs lhs. on_heap (eval_rem p rhs lhs);
    eval_exp = λ rhs lhs. on_heap (eval_exp p rhs lhs);
    eval_shl = λ rhs lhs. on_heap (eval_shl p rhs lhs);
    eval_shr = λ rhs lhs. on_heap (eval_shr p rhs lhs);
    eval_bitand = λ rhs lhs. on_heap (eval_bitand p rhs lhs);
    eval_bitor = λ rhs lhs. on_heap (eval_bitor p rhs lhs);
    eval_bitxor = λ rhs lhs. on_heap (eval_bitxor p rhs lhs);
    eval_compare = λ rhs lhs. on_heap (eval_compare p rhs lhs);
    eval_neg = λ lhs. on_heap (eval_neg p lhs);
    eval_bitnot = λ lhs. on_heap (eval_bitnot p lhs);
    eval_addi = λ lhs i. on_heap (eval_addi p lhs i);
    eval_subi = λ lhs i. on_heap (eval_subi p lhs i);
    eval_bitandi = λ lhs i. on_heap (eval_bitandi p lhs i);
    eval_bitori = λ lhs i. on_heap (eval_bitori p lhs i);
    eval_eq = eval_eq;
    eval_teq = eval_teq;
    eval_gt = λ rhs lhs. on_heap (eval_cmp p (gt p) rhs lhs);
    eval_ge = λ rhs lhs. on_heap (eval_cmp p (ge p) rhs lhs);
    eval_lt = λ rhs lhs. on_heap (eval_cmp p (lt p) rhs lhs);
    eval_le = λ rhs lhs. on_heap (eval_cmp p (le p) rhs lhs);
    eval_eqi = λ lhs i. pure (eval_eqi p lhs i);
    eval_gti = λ lhs i. on_heap (eval_cmp_i p (gt p) lhs i);
    eval_gei = λ lhs i. on_heap (eval_cmp_i p (ge p) lhs i);
    eval_lti = λ lhs i. on_heap (eval_cmp_i p (lt p) lhs i);
    eval_lei = λ lhs i. on_heap (eval_cmp_i p (le p) lhs i);
  }

  -- The memory behind an instruction that leaves an integer on top of the stack.
  abbrev pub pushed : Memory (Store p) → List ℕ → ℕ × Store p → Memory (Store p)
  pushed m st r = record m { exec_stack = r.0 ∷ st; world = r.1 }

  module _ (o : Executor (Store p)) (eval_eq eval_teq : ℕ → ℕ → Exec (Memory (Store p)) Bool)
      (fills : o.operators ≡ as_operators eval_eq eval_teq) (self_value : ℕ) (iseq : ISeq)
      (pc : ℕ) where
    -- `ADD` and `SUB` with two fixnums on top of the stack, in an interpreter that has these
    -- operators: the two are replaced by their sum or difference, the operand on top being the
    -- right one, and the next instruction is the one behind.
    pub exec-fixnums :
        (i j : ℤ) (st : List ℕ) (m : Memory (Store p))
        → p.heap.IsReady m.world
        → IsFixnum i
        → IsFixnum j
        → m.exec_stack ≡ fixnum_word j ∷ fixnum_word i ∷ st
        → (exec o self_value iseq pc Inst.add m
            ≡ returns (goto (pc + 1)) (pushed m st (integer p.builtin p.heap (i +ℤ j) m.world)))
          × (exec o self_value iseq pc Inst.sub m
              ≡ returns (goto (pc + 1)) (pushed m st (integer p.builtin p.heap (i -ℤ j) m.world)))
    unfolding exec binary stack_pop as_operators on_heap ◌>>=◌ push_advance stack_push
    exec-fixnums i j st m ready hi hj top =
        let e = eval_add-eval_sub p i j m.world ready hi hj in
        (
          rw (top, fills, binary) (ap (λ r. after r) e.0.0),
          rw (top, fills, binary) (ap (λ r. after r) e.1.0),
        )
      where
        after : Ended (Store p) ℕ → Ended (Memory (Store p)) Next
        after r = elim (keep (record m { exec_stack = st }) r) [
          | returns a s' ↦ push_advance pc 1 a s'
          | raises e' s' ↦ raises e' s'
          | panics ↦ panics
        ]
