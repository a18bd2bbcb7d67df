-- ===== src/Codegen/Method.antt =====
-- src/parse/codegen.rs: `gen_iseq` of a body without parameters, before `optimize`, run by the loop of
-- src/vm/executor/opt_core.rs.
use ruruby.Prelude.{
  ℕ, suc, ◌^◌, ◌<◌, ◌≡◌, refl, subst, ◌∙◌, Bool, List, [], ◌∷◌, ◌++◌, Option, none, some, arith,
  length,
}
use ruruby.Prelude.Outcome.{ok}
use ruruby.ISeq.{ISeq, push}
use ruruby.ISeq.Inst.{Inst, opcode}
use ruruby.ISeq.Gen.{Gen, emit}
use ruruby.Vm.{Memory, Ended, returns, raises, panics}
use ruruby.Vm.Executor.{Executor}
use ruruby.Vm.Arm.{finished}
use ruruby.Vm.Run.{exec, step, run, Stopped}
use ruruby.Codegen.{Node, Codegen}
use ruruby.Codegen.Gen.{Code, ◌then◌, emits, gens}
use ruruby.Codegen.Eval.{eval}
use ruruby.Codegen.Reach.{with_stack, Reaches, stays, steps, Follows}
use ruruby.Codegen.Bytes.{Holds, Holds-part, Holds-from, bind-ok, At-Holds}
use ruruby.Codegen.Grow.{Grows-emits}
use ruruby.Codegen.Sound.{step-At}
use ruruby.Codegen.Neutral.{KeepsStack}
use ruruby.Codegen.Moves.{left}
use ruruby.Codegen.Correct.{gens-IsGood}

-- The body of a method and its `RETURN`.
unfoldable pub gen_body : Codegen → Node → Bool → Code
unfolding ◌then◌ emits
gen_body g node use_value = (gens g node).gen use_value then emits Gen.return

module _ {W : Type 0} (o : Executor W) (self_value : ℕ) (code : ISeq) where
  -- What the loop does from the first byte on, on enough fuel: it ends with what the body leaves on the
  -- stack, with the error that the body raises, or with a panic.
  unfoldable pub Runs : (ℕ → List ℕ) → Memory W → List ℕ → Option (Ended (Memory W) ℕ) → Type 0
  Runs out m vals none = Unit {0}
  Runs out m vals (some (returns v m')) =
      (fuel : ℕ) × (run o self_value code fuel 0 m ≡ Stopped.done (with_stack (out v ++ vals) m'))
  Runs out m vals (some (raises e m')) =
      (fuel : ℕ) × (pc : ℕ) × (m₂ : Memory W) × (run o self_value code fuel 0 m
        ≡ Stopped.raised e pc m₂)
      × (with_stack [] m₂ ≡ with_stack [] m')
  Runs out m vals (some panics) = (fuel : ℕ) × (run o self_value code fuel 0 m ≡ Stopped.panicked)

  run-Reaches :
      {p q : ℕ} {m m' : Memory W} (k : ℕ)
      → Reaches o self_value code p m q m'
      → (j : ℕ) × (run o self_value code j p m ≡ run o self_value code k q m')
  unfolding run
  run-Reaches k stays = (k, refl)
  run-Reaches k (steps e r) = let rest = run-Reaches k r in (suc (rest.0), rw (run, e) (rest.1))

  ends_run :
      (out : ℕ → List ℕ) (q : ℕ) (m : Memory W) (vals : List ℕ) (end : Option (Ended (Memory W) ℕ))
      → ((k : Memory W) → step o self_value code q k ≡ returns finished k)
      → Follows o self_value code out (λ v. q) 0 m vals end
      → Runs out m vals end
  unfolding Follows Runs run
  ends_run out q m vals none h f = tt
  ends_run out q m vals (some (returns v m')) h f =
      let r = run-Reaches 1 f in (r.0, r.1 ∙ rw (run, h (with_stack (out v ++ vals) m')) refl)
  ends_run out q m vals (some (raises e m')) h f =
      let r = run-Reaches 1 (f.3) in (r.0, f.0, f.2, r.1 ∙ rw (run, f.4) refl, f.5)
  ends_run out q m vals (some panics) h f =
      let r = run-Reaches 1 (f.2) in (r.0, r.1 ∙ rw (run, f.3) refl)

whole : (t : ISeq) → Holds t t 0
whole t = record { room = omega arith; same = λ k a b. refl }

module _ {W : Type 0} (o : Executor W) (self_value : ℕ) (laws : KeepsStack o) where
  -- Where operators neither read nor change the stack and a collection leaves it as it is: the code that
  -- `gen` makes of a node, its value used or not, wherever it stands in a code below 2 ^ 31 bytes, does what the node computes. If the node has a
  -- value, the loop gets to the end of the code, with the memory that the node leaves and, if it is used,
  -- the value on the stack. If the node raises an error or panics, so does a step that the loop gets to, with
  -- the same memory but for the stack.
  pub gen-eval :
      (g : Codegen) (fuel : ℕ) (node : Node) (used : Bool) (s s' t : ISeq) (vals : List ℕ)
      (m : Memory W)
      → (gens g node).gen used s ≡ ok s'
      → Holds t s' (length s)
      → length t < 2 ^ 31
      → Follows o self_value t
          (left used)
          (λ v. length s')
          (length s)
          (with_stack vals m)
          vals
          (eval o self_value g fuel node used vals m)
  gen-eval g fuel node used s s' t vals m =
      let code = (gens-IsGood o self_value laws g fuel node).sound used in
      code.follows s s' t vals m

  returning :
      (s code : ISeq)
      → emits Gen.return s ≡ ok code
      → (k : Memory W) → step o self_value code (length s) k ≡ returns finished k
  unfolding emits emit exec push
  returning s code e k =
      let ends : s ++ opcode Inst.return ∷ [] ≡ code = cc in
      let holds : Holds code (s ++ opcode Inst.return ∷ []) (length s) =
        subst (λ c. Holds c (s ++ opcode Inst.return ∷ []) (length s)) ends
          (Holds-from (whole _) (omega arith)) in
      step-At o self_value code (length s) Inst.return [] k
        (At-Holds code s (opcode Inst.return ∷ []) holds)

  -- Where operators neither read nor change the stack and a collection leaves it as it is: the code that
  -- is made of a body, if it is shorter than 2 ^ 31 bytes, does in the loop what the body computes. If the body has a value, the loop is done,
  -- on enough fuel, with the memory that the body leaves and, if it is used, the value on the stack. If the
  -- body raises an error, the loop raises it, with the same memory but for the stack; if the body panics,
  -- so does the loop.
  pub run-gen_body :
      (g : Codegen) (fuel : ℕ) (node : Node) (used : Bool) (code : ISeq) (vals : List ℕ)
      (m : Memory W)
      → gen_body g node used [] ≡ ok code
      → length code < 2 ^ 31
      → Runs o self_value code
          (left used)
          (with_stack vals m)
          vals
          (eval o self_value g fuel node used vals m)
  unfolding gen_body ◌then◌
  run-gen_body g fuel node used code vals m e small =
      let mid = bind-ok ((gens g node).gen used []) (emits Gen.return) code e in
      ends_run o self_value code (left used) (length (mid.0)) (with_stack vals m) vals _
        (returning (mid.0) code (mid.2))
        (gen-eval g fuel node used [] (mid.0) code vals m (mid.1)
          (Holds-part (whole code) ((Grows-emits Gen.return).grows (mid.0) code (mid.2))) small)
