-- ===== src/Vm/Optimized.antt =====
-- src/vm/iseq.rs and src/vm/executor/opt_core.rs: what `ISeq::optimize` does to a jump changes no run.
use ruruby.Prelude.{
  ℕ, ◌+◌, ◌-◌, ◌^◌, ◌<◌, ◌≤◌, ◌≡◌, ◌≢◌, refl, sym, ◌∙◌, true, false, some, arith, get_elem?, length,
  ◌⊎◌, inl, inr, Option-cases,
}
use ruruby.ISeq.{ISeq}
use ruruby.ISeq.Inst.{Inst, decode, inst_size, opcode}
use ruruby.ISeq.Optimize.{code, is_jump, is_branch, target_before, rewrite_at}
use ruruby.ISeq.Chase.{JumpAt, jump_at, op-jump_at, StopsAt}
use ruruby.ISeq.Rewrite.{
  KeepsOutside, KeepsOutside-wider, Shortened, rewrite_at-jump, rewrite_at-branch,
  target_before_lem,
}
use ruruby.Vm.{Memory, returns}
use ruruby.Vm.Executor.{Executor}
use ruruby.Vm.Arm.{goto}
use ruruby.Vm.Run.{exec, step, run, unfinished}
use ruruby.Vm.Locality.{SameBytes, exec-Alike}
use ruruby.Vm.Fuel.{Jumps, Jumps-Hops, jump_step}
use ruruby.Vm.Terminate.{seen}
use ruruby.Vm.Redirect.{Redirects, exec-Redirects}
use ruruby.Vm.Shorten.{Shortcut, Follows, run_same}

-- The instruction at `pc` lies before `lo`, or begins at `hi` or later.
abbrev pub Clear : ISeq → ℕ → ℕ → ℕ → Type 0
Clear s lo hi pc =
    (hi ≤ pc)
    ⊎ ((pc < lo)
        × ((b : ℕ) (i : Inst)
            → get_elem? s pc ≡ some b
            → decode b ≡ some i
            → pc + inst_size i ≤ lo))

module _ {W : Type 0} (o : Executor W) (self_value : ℕ) where
  -- The program counters of the instructions of a code: a round of the loop leads from one to another,
  -- and none stands inside the instruction at `p`, of `n` bytes.
  pub record Instructions (s : ISeq) (p n : ℕ) (R : ℕ → Type 0) : Type 0 where
    pub closed :
        (pc q : ℕ) (m m' : Memory W) → R pc → step o self_value s pc m ≡ returns (goto q) m' → R q
    pub clear : (pc : ℕ) → R pc → pc ≢ p → Clear s p (p + n) pc

  module _ (s s' : ISeq) (lo hi pc : ℕ) (keeps : KeepsOutside lo hi s s') where
    Clear-lt : Clear s lo hi pc → (pc < lo) ⊎ (hi ≤ pc)
    Clear-lt (inl h) = inr h
    Clear-lt (inr h) = inl h.0

    Clear-SameBytes :
        (b : ℕ) (i : Inst)
        → get_elem? s pc ≡ some b
        → decode b ≡ some i
        → Clear s lo hi pc
        → SameBytes s' s pc (inst_size i)
    Clear-SameBytes b i at d (inl h) = record {
      lengths = keeps.0;
      bytes = λ k l. keeps.1 (pc + k) (inr (omega arith));
    }
    Clear-SameBytes b i at d (inr h) =
        let fits = h.1 b i at d in
        record { lengths = keeps.0; bytes = λ k l. keeps.1 (pc + k) (inl (omega arith)) }

    step_clear :
        (m : Memory W) → Clear s lo hi pc → step o self_value s' pc m ≡ step o self_value s pc m
    unfolding step
    step_clear m c =
        let byte = keeps.1 pc (Clear-lt c) in
        elim (Option-cases (get_elem? s pc)) [
          | inl e ↦ rw (byte ∙ e, e, step) refl
          | inr (b, at) ↦ elim (Option-cases (decode b)) [
            | inl d ↦ rw (byte ∙ at, at, d, step) refl
            | inr (i, d) ↦
                rw (byte ∙ at, at, d, step)
                  ((exec-Alike o self_value s' s pc i (Clear-SameBytes b i at d c)).same m)
          ]
        ]

  jmp-is_jump : (b : ℕ) → b ≡ opcode Inst.jmp → is_jump b ≡ true
  unfolding is_jump opcode
  jmp-is_jump b e = rw e refl

  -- A `JMP` at `p` that leads, over `n` further ones, to the instruction `c` at `q`, while every run stays
  -- on the instructions of the code.
  module _ (fuel : ℕ) (s : ISeq) (p b q₀ q c n : ℕ) (at : get_elem? s p ≡ some b)
      (hops : Jumps s q₀ q n) (stop : StopsAt s q c) (enough : n < fuel) (small : length s < 2 ^ 31)
      (R : ℕ → Type 0) where
    jump_Shortcut :
        (s' : ISeq)
        → (j : JumpAt s p q₀) → j.op ≡ opcode Inst.jmp
        → p + 5 < 2 ^ 64
        → b ≡ opcode Inst.jmp
        → Shortened s' p b q c
        → (m : Memory W) → Shortcut o self_value s s' p m
    jump_Shortcut s' j plain room jump (Shortened.returns t e) m =
        Shortcut.ends q₀ q n c (jump_step o self_value s m j plain) hops stop.at e t
    jump_Shortcut s' j plain room jump (Shortened.jumps t e l) m =
        let j' = jump_at e (jmp-is_jump b jump) (sym (target_before_lem s' p room) ∙ l) in
        Shortcut.skips q₀ q n m (jump_step o self_value s m j plain)
          (jump_step o self_value s' m j' (op-jump_at _ _ _ _ _ _ _ ∙ jump)) hops

    -- What `optimize` makes of a `JMP` that leads over a chain of `JMP`, none of them a `JMP_BACK`: with fuel
    -- for the chain it gives code on which every run that ends on the old code ends in the same way. The
    -- program counter may differ where a block is left by `break` or `return`.
    pub run-rewrite_at_jump :
        b ≡ opcode Inst.jmp
        → p + 5 ≤ length s
        → target_before s (p + 5) ≡ some q₀
        → Instructions s p 5 R
        → (s' : ISeq) × (rewrite_at fuel s p b 5 ≡ code s')
          × ((rounds pc : ℕ) (m : Memory W)
              → R pc
              → run o self_value s rounds pc m ≢ unfinished
              → seen (run o self_value s' rounds pc m) ≡ seen (run o self_value s rounds pc m))
    run-rewrite_at_jump jump room leads ins =
        let r =
          rewrite_at-jump fuel s p b q₀ q c n at (Jumps-Hops hops) stop enough small
            (jmp-is_jump b jump) room leads in
        let low : p + 5 < 2 ^ 64 = omega arith in
        let j = jump_at at (jmp-is_jump b jump) (sym (target_before_lem s p low) ∙ leads) in
        let f : Follows o self_value s r.0 p R = record {
          closed = ins.closed;
          elsewhere = λ pc m h ne. step_clear s r.0 p (p + 5) pc r.3 m (ins.clear pc h ne);
          there = jump_Shortcut r.0 j (op-jump_at _ _ _ _ _ _ _ ∙ jump) low jump r.2;
        } in
        (r.0, r.1, run_same o self_value s r.0 p R f)

  branch_lengths : (i : Inst) → is_branch (opcode i) ≡ true → 5 ≤ inst_size i
  unfolding is_branch opcode inst_size
  branch_lengths Inst.push_fixnum h = omega arith
  branch_lengths _ h = ground arith

  -- The same of a conditional jump at `p`, an instruction `i` that leads over `n` jumps to the
  -- instruction `c` at `q`.
  module _ (fuel : ℕ) (s : ISeq) (p b q₀ q c n : ℕ) (i : Inst) (at : get_elem? s p ≡ some b)
      (hops : Jumps s q₀ q n) (stop : StopsAt s q c) (enough : n < fuel) (small : length s < 2 ^ 31)
      (decoded : decode b ≡ some i) (R : ℕ → Type 0) where
    branch_Shortcut :
        (s' : ISeq)
        → get_elem? s' p ≡ some b
        → Redirects q₀ q (exec o self_value s p i) (exec o self_value s' p i)
        → (m : Memory W) → Shortcut o self_value s s' p m
    unfolding step
    branch_Shortcut s' at' r m = elim (r.either m) [
      | inl e ↦ Shortcut.alike (rw (at, at', decoded, step) e)
      | inr (m', e, e') ↦
          Shortcut.skips q₀ q n m' (rw (at, decoded, step) e) (rw (at', decoded, step) e') hops
    ]

    -- What `optimize` makes of a conditional jump that leads over a chain of `JMP`, none of them a
    -- `JMP_BACK`: with fuel for the chain it gives code on which every run that ends on the old code ends
    -- in the same way. The program counter may differ where a block is left by `break` or `return`.
    pub run-rewrite_at_branch :
        is_jump b ≡ false
        → is_branch b ≡ true
        → opcode i ≡ b
        → p + inst_size i ≤ length s
        → target_before s (p + inst_size i) ≡ some q₀
        → Instructions s p (inst_size i) R
        → (s' : ISeq) × (rewrite_at fuel s p b (inst_size i) ≡ code s')
          × ((rounds pc : ℕ) (m : Memory W)
              → R pc
              → run o self_value s rounds pc m ≢ unfinished
              → seen (run o self_value s' rounds pc m) ≡ seen (run o self_value s rounds pc m))
    run-rewrite_at_branch no_jump branch same room leads ins =
        let is : is_branch (opcode i) ≡ true = rw same branch in
        let five = branch_lengths i is in
        let r =
          rewrite_at-branch fuel s p b q₀ q c n at (Jumps-Hops hops) stop enough small (inst_size i)
            five no_jump branch room leads in
        let bytes : SameBytes s r.0 p (inst_size i - 4) = record {
          lengths = sym r.4.0;
          bytes = λ k l. sym (r.4.1 (p + k) (inl (omega arith)));
        } in
        let redirects =
          exec-Redirects o self_value s r.0 p q₀ q i is bytes (omega arith) (omega arith) leads
            r.3 in
        let wide =
          KeepsOutside-wider s r.0 p (p + inst_size i - 4) (p + inst_size i) (omega arith) r.4 in
        let f : Follows o self_value s r.0 p R = record {
          closed = ins.closed;
          elsewhere =
              λ pc m h ne. step_clear s r.0 p (p + inst_size i) pc wide m (ins.clear pc h ne);
          there = branch_Shortcut r.0 r.2 redirects;
        } in
        (r.0, r.1, run_same o self_value s r.0 p R f)
