-- ===== src/Vm/Terminate.antt =====
-- src/vm/executor/opt_core.rs: the ends of runs, and what a caller sees of them.
use ruruby.Prelude.{
  ℕ, suc, ◌≡◌, ◌≢◌, refl, ◌∙◌, ap, subst, true, some, arith, get_elem?, ◌==◌, if◌then◌else◌, ◌⊎◌,
  inl, inr,
}
use ruruby.ISeq.{ISeq}
use ruruby.ISeq.Inst.{Inst, decode, opcode}
use ruruby.ISeq.Optimize.{is_terminator}
use ruruby.Vm.{Memory, RubyErrorKind}
use ruruby.Vm.Executor.{Executor}
use ruruby.Vm.Run.{exec, step, run, Stopped, done, raised, panicked, unfinished}

-- What a caller sees of the end of a run: the program counter does not matter where a block is left by
-- `break` or `return`, since `run_context` then looks for no handler.
abbrev pub handler_pc : RubyErrorKind → ℕ → ℕ
handler_pc RubyErrorKind.block_return pc = 0
handler_pc RubyErrorKind.method_return pc = 0
handler_pc _ pc = pc

module _ {W : Type 0} where
  abbrev pub seen : Stopped W → Stopped W
  seen (raised e pc m) = raised e (handler_pc e pc) m
  seen r = r

  unfinished-seen : (y : Stopped W) → unfinished ≡ seen y → y ≡ unfinished
  unfinished-seen (done m) e = cc e
  unfinished-seen (raised k pc m) e = cc e
  unfinished-seen panicked e = cc e
  unfinished-seen unfinished e = refl

  pub seen-ended : (x y : Stopped W) → seen x ≡ seen y → y ≢ unfinished → x ≢ unfinished
  seen-ended x y e h z = h (unfinished-seen y (subst (λ t. seen t ≡ seen y) z e))

module _ {W : Type 0} (o : Executor W) (self_value : ℕ) where
  -- How a run ends at a terminator.
  abbrev pub terminated : ℕ → Memory W → Stopped W
  terminated c m =
      if c == 104
      then done m
      else (if c == 105
          then raised RubyErrorKind.block_return 0 m
          else raised RubyErrorKind.method_return 0 m)

  terminators :
      (c : ℕ)
      → is_terminator c ≡ true
      → (c ≡ opcode Inst.return) ⊎ ((c ≡ opcode Inst.break) ⊎ (c ≡ opcode Inst.mreturn))
  unfolding is_terminator opcode
  terminators c h = ground arith

  pub run_terminator :
      (s : ISeq) (fuel q c : ℕ) (m : Memory W)
      → get_elem? s q ≡ some c
      → is_terminator c ≡ true
      → seen (run o self_value s (suc fuel) q m) ≡ terminated c m
  unfolding run step exec decode opcode
  run_terminator s fuel q c m at t = elim (terminators c t) [
    | inl e ↦
        let a : get_elem? s q ≡ some (opcode Inst.return) = at ∙ ap some e in
        rw (a, e, run, step) refl
    | inr (inl e) ↦
        let a : get_elem? s q ≡ some (opcode Inst.break) = at ∙ ap some e in
        rw (a, e, run, step) refl
    | inr (inr e) ↦
        let a : get_elem? s q ≡ some (opcode Inst.mreturn) = at ∙ ap some e in
        rw (a, e, run, step) refl
  ]
