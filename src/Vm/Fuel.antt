-- ===== src/Vm/Fuel.antt =====
-- src/vm/executor/opt_core.rs: runs of the loop on more fuel, and across a chain of jumps.
use ruruby.Prelude.{
  ℕ, zero, suc, ◌+◌, ◌≤◌, ◌≡◌, ◌≢◌, refl, ◌∙◌, ap, some, arith, get_elem?, ◌⊎◌, inl, inr,
}
use ruruby.ISeq.{ISeq}
use ruruby.ISeq.Inst.{Inst, decode, opcode}
use ruruby.ISeq.Chase.{JumpAt, Hops}
use ruruby.Vm.{Memory, Ended, returns, raises, panics, RubyErrorKind, ◌>>=◌, unwrap}
use ruruby.Vm.Executor.{Executor}
use ruruby.Vm.Arm.{Next, goto, finished, displacement, jump_pc}
use ruruby.Vm.Run.{exec, step, run, unfinished}

pub Ended-cases :
    {W : Type 0} (r : Ended (Memory W) Next)
    → ((q : ℕ) × (m : Memory W) × (r ≡ returns (goto q) m))
      ⊎ (((m : Memory W) × (r ≡ returns finished m))
          ⊎ (((e : RubyErrorKind) × (m : Memory W) × (r ≡ raises e m)) ⊎ (r ≡ panics)))
Ended-cases (returns (goto q) m) = inl (q, m, refl)
Ended-cases (returns finished m) = inr (inl (m, refl))
Ended-cases (raises e m) = inr (inr (inl (e, m, refl)))
Ended-cases panics = inr (inr (inr refl))

-- `n` jumps in a row, each of them a `JMP`, lead from a position to another. `JMP_BACK` is left out: it
-- also asks for a collection.
pub data Jumps (s : ISeq) : ℕ → ℕ → ℕ → Type 0 where
  here : {p : ℕ} → Jumps s p p zero
  hop :
      {p q r n : ℕ} (j : JumpAt s p q)
      → j.op ≡ opcode Inst.jmp
      → Jumps s q r n
      → Jumps s p r (suc n)

pub Jumps-Hops : {s : ISeq} {p q n : ℕ} → Jumps s p q n → Hops s p q n
Jumps-Hops Jumps.here = Hops.here
Jumps-Hops (Jumps.hop j e js) = Hops.hop j (Jumps-Hops js)

module _ {W : Type 0} (o : Executor W) (self_value : ℕ) (s : ISeq) where
  -- A run that ends does so in the same way on more fuel.
  pub run_mono :
      (fuel more pc : ℕ) (m : Memory W)
      → fuel ≤ more
      → run o self_value s fuel pc m ≢ unfinished
      → run o self_value s more pc m ≡ run o self_value s fuel pc m
  unfolding run
  run_mono zero more pc m l h = absurd (h refl)
  run_mono (suc fuel) zero pc m l h = absurd (omega arith)
  run_mono (suc fuel) (suc more) pc m l h = elim (Ended-cases (step o self_value s pc m)) [
    | inl (q, m', e) ↦ rw (e, run) (run_mono fuel more q m' (omega arith) (rw (e, run) at h))
    | inr (inl (m', e)) ↦ rw (e, run) refl
    | inr (inr (inl (k, m', e))) ↦ rw (e, run) refl
    | inr (inr (inr e)) ↦ rw (e, run) refl
  ]

  pub jump_step :
      {p q : ℕ} (m : Memory W) (j : JumpAt s p q)
      → j.op ≡ opcode Inst.jmp
      → step o self_value s p m ≡ returns (goto q) m
  unfolding step exec decode opcode displacement jump_pc unwrap ◌>>=◌
  jump_step m j e =
      let at : get_elem? s _ ≡ some (opcode Inst.jmp) = j.at ∙ ap some e in
      rw (at, j.read, step, displacement) (ap (λ t. returns (goto t) m) j.leads)

  -- A run across a chain of jumps.
  pub run-Jumps :
      {p q n : ℕ} (total fuel : ℕ) (m : Memory W)
      → Jumps s p q n
      → total ≡ n + fuel
      → run o self_value s total p m ≡ run o self_value s fuel q m
  unfolding run
  run-Jumps {p = p} total fuel m Jumps.here t =
      let same : total ≡ fuel = omega arith in ap (λ f. run o self_value s f p m) same
  run-Jumps zero fuel m (Jumps.hop j e hs) t = absurd (omega arith)
  run-Jumps (suc total) fuel m (Jumps.hop j e hs) t =
      rw (jump_step m j e, run) (run-Jumps total fuel m hs (omega arith))

  -- On no more fuel than there are jumps it has not ended.
  pub short-Jumps :
      {p q n : ℕ} (fuel : ℕ) (m : Memory W)
      → Jumps s p q n
      → fuel ≤ n
      → run o self_value s fuel p m ≡ unfinished
  unfolding run
  short-Jumps zero m hs l = refl
  short-Jumps (suc fuel) m Jumps.here l = absurd (omega arith)
  short-Jumps (suc fuel) m (Jumps.hop j e hs) l =
      rw (jump_step m j e, run) (short-Jumps fuel m hs (omega arith))
