-- ===== src/Codegen/Jumps.antt =====
-- src/parse/codegen.rs and src/vm/executor/opt_core.rs: the conditional jumps.
use ruruby.Prelude.{
  ℕ, ◌+◌, ◌%◌, ◌^◌, ◌<◌, ◌≡◌, refl, sym, ap, ◌∙◌, List, [], ◌∷◌, some, Bool, true, false, not,
  if◌then◌else◌,
}
use ruruby.Prelude.Int.{ℤ, as_i32, as_u32}
use ruruby.ISeq.{ISeq, read32, read_disp, add_disp}
use ruruby.ISeq.Inst.{Inst}
use ruruby.ISeq.Gen.{Gen, emit}
use ruruby.Value.{to_bool}
use ruruby.Value.Pack.{bool}
use ruruby.Vm.{Memory, Exec, Ended, returns, raises, panics, ◌>>=◌, pure, unwrap}
use ruruby.Vm.Executor.{Executor}
use ruruby.Vm.Arm.{goto, operand32, immediate, displacement, jump_pc, jmp_cond, advance}
use ruruby.Vm.Run.{exec}
use ruruby.Codegen.{BinOp, is_cmp_op}
use ruruby.Codegen.Gen.{inst32, inst32_32, emits, jump_inst_of, jump_imm_inst_of}
use ruruby.Codegen.Eval.{ran, apply, apply_imm, answers, test, test_imm, negation}
use ruruby.Codegen.Reach.{with_stack, IsNeutral, pushed}
use ruruby.Codegen.Neutral.{KeepsStack}
use ruruby.Codegen.Leaves.{push_end, same_immediate}
use ruruby.Codegen.Sound.{one}
use ruruby.Codegen.Branch.{IsBranch, IsBranch-inst, IsBranch-inst_imm}

pub to_bool-bool : (b : Bool) → to_bool (bool b) ≡ b
unfolding to_bool
to_bool-bool true = refl
to_bool-bool false = refl

-- No value is left.
abbrev pub none_left : ℕ → List ℕ
none_left v = []

module _ {W : Type 0} (o : Executor W) (self_value : ℕ) where
  -- The end of a conditional jump: on, or where the displacement leads.
  jmp_cond-ends :
      (t : ISeq) (p size at : ℕ) (d : ℤ) (b : Bool) (m : Memory W)
      → read_disp t (p + at) ≡ some d
      → jmp_cond t p b size at m ≡ returns (goto (if b then p + size else add_disp (p + size) d)) m
  unfolding jmp_cond advance displacement jump_pc unwrap ◌>>=◌
  jmp_cond-ends t p size at d true m r = refl
  jmp_cond-ends t p size at d false m r = rw r refl

  pub IsBranch-jmp_f :
      (v : ℕ) → IsBranch o self_value (v ∷ []) none_left to_bool (emits Gen.jmp_if_f) (ran (pure v))
  unfolding exec emits emit inst32 pushed ◌>>=◌
  IsBranch-jmp_f v =
      IsBranch-inst o self_value (pure v) Inst.jmp_f
        λ t p vals m d r. jmp_cond-ends t p 5 1 d (to_bool v) (with_stack vals m) r

  pub IsBranch-jmp_t :
      (v : ℕ)
      → IsBranch o self_value
          (v ∷ [])
          none_left
          (λ x. not (to_bool x))
          (emits Gen.jmp_if_t)
          (ran (pure v))
  unfolding exec emits emit inst32 pushed ◌>>=◌
  IsBranch-jmp_t v =
      IsBranch-inst o self_value (pure v) Inst.jmp_t
        λ t p vals m d r. jmp_cond-ends t p 5 1 d (not (to_bool v)) (with_stack vals m) r

  -- The same on a copy of the value.
  pub IsBranch-jmp_f_kept :
      (v : ℕ) → IsBranch o self_value (v ∷ v ∷ []) one to_bool (emits Gen.jmp_if_f) (ran (pure v))
  unfolding exec emits emit inst32 pushed ◌>>=◌
  IsBranch-jmp_f_kept v =
      IsBranch-inst o self_value (pure v) Inst.jmp_f
        λ t p vals m d r. jmp_cond-ends t p 5 1 d (to_bool v) (with_stack (v ∷ vals) m) r

  pub IsBranch-jmp_t_kept :
      (v : ℕ)
      → IsBranch o self_value
          (v ∷ v ∷ [])
          one
          (λ x. not (to_bool x))
          (emits Gen.jmp_if_t)
          (ran (pure v))
  unfolding exec emits emit inst32 pushed ◌>>=◌
  IsBranch-jmp_t_kept v =
      IsBranch-inst o self_value (pure v) Inst.jmp_t
        λ t p vals m d r. jmp_cond-ends t p 5 1 d (not (to_bool v)) (with_stack (v ∷ vals) m) r

  -- A test and a jump do what the test, its answer and a jump by the answer do.
  jump_answer :
      (negate : Bool → Bool) (a : Exec (Memory W) Bool) (t : ISeq) (p size at : ℕ) (d : ℤ)
      (vals : List ℕ) (m : Memory W)
      → IsNeutral a
      → read_disp t (p + at) ≡ some d
      → (a >>= λ b. jmp_cond t p (negate b) size at) (with_stack vals m)
        ≡ pushed o self_value t none_left
            (λ v. if to_bool v then p + size else add_disp (p + size) d)
            vals
            (answers o negate a m)
  unfolding answers ◌>>=◌ pushed
  jump_answer negate a t p size at d vals m h r =
      push_end o self_value t (λ b. []) a (λ b. jmp_cond t p (negate b) size at)
        (λ b. if negate b then p + size else add_disp (p + size) d) vals m h
        (λ b k. jmp_cond-ends t p size at d (negate b) (with_stack vals k) r)
      ∙ after (a m)
    where
      after :
          (e : Ended (Memory W) Bool)
          → pushed o self_value t
              (λ b. [])
              (λ b. if negate b then p + size else add_disp (p + size) d)
              vals
              e
            ≡ pushed o self_value t none_left
                (λ v. if to_bool v then p + size else add_disp (p + size) d)
                vals
                (elim e [
                  | returns b k ↦ pure (bool (negate b)) k
                  | raises x k ↦ raises x k
                  | panics ↦ panics
                ])
      after (returns b k) =
          ap
            (λ c.
              returns (goto (if c then p + size else add_disp (p + size) d)) (with_stack vals k))
            (sym (to_bool-bool (negate b)))
      after (raises x k) = refl
      after panics = refl

module _ {W : Type 0} (o : Executor W) (self_value : ℕ) (laws : KeepsStack o) where
  exec-compare :
      (op : BinOp) (l r : ℕ)
      → is_cmp_op op ≡ true
      → (t : ISeq) (p : ℕ) (vals : List ℕ) (m : Memory W) (d : ℤ) → read_disp t (p + 1) ≡ some d
      → exec o self_value t p (jump_inst_of op) (with_stack (r ∷ l ∷ vals) m)
        ≡ pushed o self_value t none_left
            (λ v. if to_bool v then p + 5 else add_disp (p + 5) d)
            vals
            (apply o op l r m)
  unfolding exec jump_inst_of is_cmp_op apply test negation
  exec-compare BinOp.add l r h t p vals m d e = cc
  exec-compare BinOp.sub l r h t p vals m d e = cc
  exec-compare BinOp.mul l r h t p vals m d e = cc
  exec-compare BinOp.div l r h t p vals m d e = cc
  exec-compare BinOp.rem l r h t p vals m d e = cc
  exec-compare BinOp.exp l r h t p vals m d e = cc
  exec-compare BinOp.shr l r h t p vals m d e = cc
  exec-compare BinOp.shl l r h t p vals m d e = cc
  exec-compare BinOp.bit_and l r h t p vals m d e = cc
  exec-compare BinOp.bit_or l r h t p vals m d e = cc
  exec-compare BinOp.bit_xor l r h t p vals m d e = cc
  exec-compare BinOp.teq l r h t p vals m d e = cc
  exec-compare BinOp.cmp l r h t p vals m d e = cc
  exec-compare BinOp.land l r h t p vals m d e = cc
  exec-compare BinOp.lor l r h t p vals m d e = cc
  exec-compare op l r h t p vals m d e =
      jump_answer o self_value (negation op) (test o op l r) t p 5 1 d vals m (laws.tested op l r) e

  -- A comparison in a condition jumps by the truth of what it computes.
  pub IsBranch-compare :
      (op : BinOp) (l r : ℕ)
      → is_cmp_op op ≡ true
      → IsBranch o self_value
          (r ∷ l ∷ [])
          none_left
          to_bool
          (inst32 (jump_inst_of op) 0)
          (ran (apply o op l r))
  IsBranch-compare op l r h =
      IsBranch-inst o self_value (apply o op l r) (jump_inst_of op) (exec-compare op l r h)

  exec-compare_imm :
      (op : BinOp) (l n : ℕ)
      → is_cmp_op op ≡ true
      → (t : ISeq) (p : ℕ) (vals : List ℕ) (m : Memory W) (d : ℤ) → read32 t (p + 1) ≡ some n
      → read_disp t (p + 5) ≡ some d
      → exec o self_value t p (jump_imm_inst_of op) (with_stack (l ∷ vals) m)
        ≡ pushed o self_value t none_left
            (λ v. if to_bool v then p + 9 else add_disp (p + 9) d)
            vals
            (apply_imm o op l (as_i32 n) m)
  unfolding exec jump_imm_inst_of is_cmp_op apply_imm test_imm negation immediate operand32 unwrap
      ◌>>=◌
  exec-compare_imm BinOp.add l n h t p vals m d i e = cc
  exec-compare_imm BinOp.sub l n h t p vals m d i e = cc
  exec-compare_imm BinOp.mul l n h t p vals m d i e = cc
  exec-compare_imm BinOp.div l n h t p vals m d i e = cc
  exec-compare_imm BinOp.rem l n h t p vals m d i e = cc
  exec-compare_imm BinOp.exp l n h t p vals m d i e = cc
  exec-compare_imm BinOp.shr l n h t p vals m d i e = cc
  exec-compare_imm BinOp.shl l n h t p vals m d i e = cc
  exec-compare_imm BinOp.bit_and l n h t p vals m d i e = cc
  exec-compare_imm BinOp.bit_or l n h t p vals m d i e = cc
  exec-compare_imm BinOp.bit_xor l n h t p vals m d i e = cc
  exec-compare_imm BinOp.teq l n h t p vals m d i e = cc
  exec-compare_imm BinOp.cmp l n h t p vals m d i e = cc
  exec-compare_imm BinOp.land l n h t p vals m d i e = cc
  exec-compare_imm BinOp.lor l n h t p vals m d i e = cc
  exec-compare_imm op l n h t p vals m d i e = rw i (
      jump_answer o self_value (negation op) (test_imm o op l (as_i32 n)) t p 9 5 d vals m
        (laws.tested_imm op l (as_i32 n)) e)

  pub IsBranch-compare_imm :
      (op : BinOp) (l n : ℕ)
      → n < 2 ^ 32
      → is_cmp_op op ≡ true
      → IsBranch o self_value
          (l ∷ [])
          none_left
          to_bool
          (inst32_32 (jump_imm_inst_of op) (as_u32 (as_i32 n)) 0)
          (ran (apply_imm o op l (as_i32 n)))
  IsBranch-compare_imm op l n small h =
      IsBranch-inst_imm o self_value (apply_imm o op l (as_i32 n)) (jump_imm_inst_of op)
        (as_u32 (as_i32 n))
        λ t p vals m d r e.
          exec-compare_imm op l (as_u32 (as_i32 n) % 2 ^ 32) h t p vals m d r e
          ∙ ap
              (λ i.
                pushed o self_value t none_left
                  (λ v. if to_bool v then p + 9 else add_disp (p + 9) d) vals
                  (apply_imm o op l i m))
              (same_immediate n small)
