-- ===== src/Codegen/Leaves.antt =====
-- src/parse/codegen.rs and src/vm/executor/opt_core.rs: the instructions that `gen` makes, one by one.
use ruruby.Prelude.{
  ℕ, ◌+◌, ◌%◌, ◌^◌, ◌<◌, ◌≡◌, refl, ap, ◌∙◌, List, [], ◌∷◌, ◌++◌, some, arith, Bool, true, false,
  not,
}
use ruruby.Prelude.Int.{as_i32, as_u32}
use ruruby.ISeq.{ISeq, read32}
use ruruby.ISeq.Inst.{Inst}
use ruruby.Value.Pack.{bool}
use ruruby.Vm.Operate.{same}
use ruruby.Vm.{Memory, Exec, Ended, returns, raises, panics, ◌>>=◌, pure, unwrap}
use ruruby.Vm.Executor.{Executor}
use ruruby.Vm.Arm.{Next, goto, operand32, immediate, push_advance}
use ruruby.Vm.Run.{exec}
use ruruby.Codegen.{BinOp, UnOp}
use ruruby.Codegen.Gen.{inst0, inst32, inst_of, has_imm, imm_inst_of}
use ruruby.Codegen.Eval.{ran, apply, apply_imm, apply_un, answers, test, test_imm, negation}
use ruruby.Codegen.Reach.{with_stack, on_stack, IsNeutral, pushed}
use ruruby.Codegen.Sound.{IsSound, IsSound-inst0, IsSound-inst32, one}
use ruruby.Codegen.Neutral.{KeepsStack}

module _ {W : Type 0} (o : Executor W) (self_value : ℕ) (t : ISeq) where
  -- A computation that leaves the stack alone, and then the end of the arm.
  pub push_end :
      {A : Type 0} (out : A → List ℕ) (a : Exec (Memory W) A) (fin : A → Exec (Memory W) Next)
      (q : A → ℕ) (vals : List ℕ) (m : Memory W)
      → IsNeutral a
      → ((x : A) (k : Memory W)
          → fin x (with_stack vals k) ≡ returns (goto (q x)) (with_stack (out x ++ vals) k))
      → (a >>= fin) (with_stack vals m) ≡ pushed o self_value t out q vals (a m)
  unfolding ◌>>=◌ on_stack pushed
  push_end {A} out a fin q vals m h last = rw (h.neutral vals m, ◌>>=◌) (after (a m))
    where
      after :
          (r : Ended (Memory W) A)
          → elim (on_stack vals r) [
            | returns x k ↦ fin x k
            | raises e k ↦ raises e k
            | panics ↦ panics
          ]
            ≡ pushed o self_value t out q vals r
      after (returns x k) = last x k
      after (raises e k) = refl
      after panics = refl

  -- The value pushed.
  pub push_neutral :
      (a : Exec (Memory W) ℕ) (p n : ℕ) (vals : List ℕ) (m : Memory W)
      → IsNeutral a
      → (a >>= push_advance p n) (with_stack vals m)
        ≡ pushed o self_value t one (λ x. (p + n)) vals (a m)
  unfolding push_advance ◌>>=◌
  push_neutral a p n vals m h = push_end one a (push_advance p n) (λ x. p + n) vals m h λ x k. refl

  -- A test, with its answer pushed.
  pub push_answer :
      (negate : Bool → Bool) (a : Exec (Memory W) Bool) (p n : ℕ) (vals : List ℕ) (m : Memory W)
      → IsNeutral a
      → (a >>= λ b. push_advance p n (bool (negate b))) (with_stack vals m)
        ≡ pushed o self_value t one (λ x. (p + n)) vals (answers o negate a m)
  unfolding push_advance answers ◌>>=◌ pushed
  push_answer negate a p n vals m h =
      push_end (λ b. bool (negate b) ∷ []) a (λ b. push_advance p n (bool (negate b))) (λ x. p + n)
        vals m h (λ x k. refl)
      ∙ after (a m)
    where
      after :
          (r : Ended (Memory W) Bool)
          → pushed o self_value t (λ b. bool (negate b) ∷ []) (λ x. (p + n)) vals r
            ≡ pushed o self_value t one
                (λ x. (p + n))
                vals
                (elim r [
                  | returns b k ↦ pure (bool (negate b)) k
                  | raises e k ↦ raises e k
                  | panics ↦ panics
                ])
      after (returns v k) = refl
      after (raises e k) = refl
      after panics = refl

-- An immediate is read back as it was.
pub same_immediate : (n : ℕ) → n < 2 ^ 32 → as_i32 (as_u32 (as_i32 n) % 2 ^ 32) ≡ as_i32 n
same_immediate n h = ground arith

-- The operators that are one instruction.
unfoldable pub is_strict : BinOp → Bool
is_strict BinOp.land = false
is_strict BinOp.lor = false
is_strict _ = true

module _ {W : Type 0} (o : Executor W) (self_value : ℕ) (laws : KeepsStack o) where
  exec-operator :
      (op : BinOp) (l r : ℕ) (t : ISeq) (p : ℕ) (vals : List ℕ) (m : Memory W)
      → is_strict op ≡ true
      → exec o self_value t p (inst_of op) (with_stack (r ∷ l ∷ vals) m)
        ≡ pushed o self_value t one (λ x. (p + 1)) vals (apply o op l r m)
  unfolding exec inst_of apply is_strict test
  exec-operator BinOp.eq l r t p vals m h =
      push_answer o self_value t same (o.operators.eval_eq l r) p 1 vals m
        (laws.tested BinOp.eq l r)
  exec-operator BinOp.ne l r t p vals m h =
      push_answer o self_value t not (o.operators.eval_eq l r) p 1 vals m (laws.tested BinOp.eq l r)
  exec-operator BinOp.land l r t p vals m h = cc
  exec-operator BinOp.lor l r t p vals m h = cc
  exec-operator op l r t p vals m h =
      push_neutral o self_value t (apply o op l r) p 1 vals m (laws.applied op l r)

  pub IsSound-operator :
      (op : BinOp) (l r : ℕ)
      → is_strict op ≡ true
      → IsSound o self_value (r ∷ l ∷ []) one (inst0 (inst_of op)) (ran (apply o op l r))
  IsSound-operator op l r h =
      IsSound-inst0 o self_value (apply o op l r) (inst_of op)
        λ t p vals m. exec-operator op l r t p vals m h

  exec-imm :
      (op : BinOp) (l n : ℕ) (t : ISeq) (p : ℕ) (vals : List ℕ) (m : Memory W)
      → has_imm op ≡ true
      → read32 t (p + 1) ≡ some n
      → exec o self_value t p (imm_inst_of op) (with_stack (l ∷ vals) m)
        ≡ pushed o self_value t one (λ x. (p + 5)) vals (apply_imm o op l (as_i32 n) m)
  unfolding exec has_imm imm_inst_of apply_imm test_imm negation immediate operand32 unwrap ◌>>=◌
  exec-imm BinOp.add l n t p vals m h r = rw r (
      push_neutral o self_value t (apply_imm o BinOp.add l (as_i32 n)) p 5 vals m
        (laws.applied_imm BinOp.add l (as_i32 n)))
  exec-imm BinOp.sub l n t p vals m h r = rw r (
      push_neutral o self_value t (apply_imm o BinOp.sub l (as_i32 n)) p 5 vals m
        (laws.applied_imm BinOp.sub l (as_i32 n)))
  exec-imm BinOp.bit_and l n t p vals m h r = rw r (
      push_neutral o self_value t (apply_imm o BinOp.bit_and l (as_i32 n)) p 5 vals m
        (laws.applied_imm BinOp.bit_and l (as_i32 n)))
  exec-imm BinOp.bit_or l n t p vals m h r = rw r (
      push_neutral o self_value t (apply_imm o BinOp.bit_or l (as_i32 n)) p 5 vals m
        (laws.applied_imm BinOp.bit_or l (as_i32 n)))
  exec-imm BinOp.mul l n t p vals m h r = cc
  exec-imm BinOp.div l n t p vals m h r = cc
  exec-imm BinOp.rem l n t p vals m h r = cc
  exec-imm BinOp.exp l n t p vals m h r = cc
  exec-imm BinOp.shr l n t p vals m h r = cc
  exec-imm BinOp.shl l n t p vals m h r = cc
  exec-imm BinOp.bit_xor l n t p vals m h r = cc
  exec-imm BinOp.teq l n t p vals m h r = cc
  exec-imm BinOp.cmp l n t p vals m h r = cc
  exec-imm BinOp.land l n t p vals m h r = cc
  exec-imm BinOp.lor l n t p vals m h r = cc
  exec-imm op l n t p vals m h r = rw r (
      push_answer o self_value t (negation op) (test_imm o op l (as_i32 n)) p 5 vals m
        (laws.tested_imm op l (as_i32 n)))

  pub IsSound-imm :
      (op : BinOp) (l n : ℕ)
      → n < 2 ^ 32
      → has_imm op ≡ true
      → IsSound o self_value
          (l ∷ [])
          one
          (inst32 (imm_inst_of op) (as_u32 (as_i32 n)))
          (ran (apply_imm o op l (as_i32 n)))
  IsSound-imm op l n small h =
      IsSound-inst32 o self_value (apply_imm o op l (as_i32 n)) (imm_inst_of op) (as_u32 (as_i32 n))
        λ t p vals m r.
          exec-imm op l (as_u32 (as_i32 n) % 2 ^ 32) t p vals m h r
          ∙ ap (λ i. pushed o self_value t one (λ x. (p + 5)) vals (apply_imm o op l i m))
              (same_immediate n small)

  exec-un_op :
      (op : UnOp) (i : Inst) (l : ℕ)
      → ((t : ISeq) (p : ℕ) (vals : List ℕ) (m : Memory W)
          → exec o self_value t p i (with_stack (l ∷ vals) m)
            ≡ (apply_un o op l >>= push_advance p 1) (with_stack vals m))
      → IsSound o self_value (l ∷ []) one (inst0 i) (ran (apply_un o op l))
  exec-un_op op i l does = IsSound-inst0 o self_value (apply_un o op l) i λ t p vals m.
      does t p vals m
      ∙ push_neutral o self_value t (apply_un o op l) p 1 vals m (laws.applied_un op l)

  pub IsSound-bit_not :
      (l : ℕ)
      → IsSound o self_value (l ∷ []) one (inst0 Inst.bnot) (ran (apply_un o UnOp.bit_not l))
  unfolding exec apply_un
  IsSound-bit_not l = exec-un_op UnOp.bit_not Inst.bnot l λ t p vals m. refl

  pub IsSound-not :
      (l : ℕ)
      → IsSound o self_value (l ∷ []) one (inst0 Inst.not_inst) (ran (apply_un o UnOp.not l))
  unfolding exec apply_un
  IsSound-not l = exec-un_op UnOp.not Inst.not_inst l λ t p vals m. refl

  pub IsSound-neg :
      (l : ℕ) → IsSound o self_value (l ∷ []) one (inst0 Inst.neg) (ran (apply_un o UnOp.neg l))
  unfolding exec apply_un
  IsSound-neg l = exec-un_op UnOp.neg Inst.neg l λ t p vals m. refl
