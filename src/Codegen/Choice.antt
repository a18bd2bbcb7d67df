-- ===== src/Codegen/Choice.antt =====
-- src/parse/codegen.rs: `&&`, `||` and conditionals.
use ruruby.Prelude.{
  ℕ, ◌≡◌, refl, sym, subst, ◌∙◌, List, ◌++◌, Option, none, some, arith, Bool, true, false,
  if◌then◌else◌, length,
}
use ruruby.Prelude.Int.{ℤ}
use ruruby.Prelude.Outcome.{◌>>=◌}
use ruruby.ISeq.{ISeq, add_disp, current}
use ruruby.ISeq.Inst.{Inst}
use ruruby.ISeq.Gen.{Gen, emit}
use ruruby.Vm.{Memory, Exec, Ended, returns, raises, panics, pure, unwrap}
use ruruby.Vm as Vm
use ruruby.Vm.Arm.{displacement, jump_pc}
use ruruby.Vm.Run.{exec}
use ruruby.Vm.Executor.{Executor}
use ruruby.Codegen.Gen.{Code, ◌then◌, emits, lead_here, gen_if, inst32}
use ruruby.Codegen.Eval.{Ran, ran, continue, ◌&>◌}
use ruruby.Codegen.Reach.{with_stack, Follows, Follows-continue, pushed}
use ruruby.Codegen.Bytes.{Extends-trans, Holds-from, Grows, bind-ok}
use ruruby.Codegen.Grow.{GrowsFive, Patched-lead_here, Extends-Patched}
use ruruby.Codegen.Sound.{IsSound}
use ruruby.Codegen.Branch.{
  IsBranch, IsBranch-then, IsBranch-inst, GrowsFive-then, Holds-whole, HoldsTo-Patched,
  HoldsTo-behind, Holds-behind, leads_here, GrowsFive-inst,
}

-- `cond` with a jump over `body`: `gen_logical` is of this form, and a conditional without `else`.
unfoldable pub skip : Code → Code → Code
unfolding lead_here
skip cond body s = cond s >>= λ s1. body s1 >>= lead_here (current s1)

pub Grows-skip : {cond body : Code} → GrowsFive cond → Grows body → Grows (skip cond body)
unfolding skip
Grows-skip {cond = cond} {body = body} c b = record {
  grows = λ s s' e.
      let m1 = bind-ok (cond s) _ s' e in
      let m2 = bind-ok (body m1.0) _ s' m1.2 in
      let p = Patched-lead_here m2.0 s' (length m1.0) m2.2 in
      Extends-Patched (Extends-trans (c.grows.grows s m1.0 m1.1) (b.grows m1.0 m2.0 m2.1)) p
        (omega (arith, c.five s m1.0 m1.1));
}

pub Grows-if_else :
    {cond then_code else_code : Code}
    → GrowsFive cond
    → Grows then_code
    → Grows else_code
    → Grows (gen_if cond then_code (some else_code))
unfolding gen_if ◌then◌ inst32 emits emit
Grows-if_else {cond = cond} {then_code = yes_code} {else_code = no_code} c y n = record {
  grows = λ s s' e.
      let m1 = bind-ok (cond s) _ s' e in
      let m2 = bind-ok ((yes_code then emits Gen.jmp) m1.0) _ s' m1.2 in
      let m4 = bind-ok (lead_here (length m1.0) m2.0 >>= no_code) _ s' m2.2 in
      let m3 = bind-ok (lead_here (length m1.0) m2.0) no_code m4.0 m4.1 in
      let first = c.grows.grows s m1.0 m1.1 in
      let yes_grows = GrowsFive-then y (GrowsFive-inst Inst.jmp) in
      let longer = yes_grows.five m1.0 m2.0 m2.1 in
      let p1 = Patched-lead_here m2.0 m3.0 (length m1.0) m3.1 in
      let p2 = Patched-lead_here m4.0 s' (length m2.0) m4.2 in
      let to_two =
        Extends-Patched (Extends-trans first (yes_grows.grows.grows m1.0 m2.0 m2.1)) p1
          (omega (arith, c.five s m1.0 m1.1)) in
      Extends-Patched (Extends-trans to_two (n.grows m3.0 m4.0 m3.2)) p2
        (omega (arith, first.longer));
}

module _ {W : Type 0} (o : Executor W) (self_value : ℕ) where
  -- Code for both answers of a test.
  pub chosen :
      {B : Type 0} (t : ISeq) (out : B → List ℕ) (q p p' : ℕ) (m₀ : Memory W) (vals : List ℕ)
      (m : Memory W) (k k' : Ran W B) (b : Bool)
      → (b ≡ true → Follows o self_value t out (λ y. q) p m₀ vals (k vals m))
      → (b ≡ false → Follows o self_value t out (λ y. q) p' m₀ vals (k' vals m))
      → Follows o self_value t out
          (λ y. q)
          (if b then p else p')
          m₀
          vals
          ((if b then k else k') vals m)
  chosen t out q p p' m₀ vals m k k' true f f' = f refl
  chosen t out q p p' m₀ vals m k k' false f f' = f' refl

  -- Where the test holds the body runs, on what the condition has left; else the code behind it.
  pub IsSound-skip :
      {A B : Type 0} {args : List ℕ} {out : A → List ℕ} {out' : B → List ℕ} {test : A → Bool}
      {cond body : Code} {a : Ran W A} (k k' : A → Ran W B)
      → GrowsFive cond
      → Grows body
      → IsBranch o self_value args out test cond a
      → ((x : A) → IsSound o self_value (out x) out' body (k x))
      → ((x : A)
          → test x ≡ false
          → (t : ISeq) (p : ℕ) (vals : List ℕ) (m : Memory W)
          → Follows o self_value t out'
              (λ y. p)
              p
              (with_stack (out x ++ vals) m)
              vals
              (k' x vals m))
      → IsSound o self_value args out' (skip cond body) (a &> λ x. if test x then k x else k' x)
  unfolding skip ◌&>◌
  IsSound-skip {A = A} {args = args} {out = out} {out' = out'} {test = test} {cond = cond}
        {body = body} {a = a} k k' c b f h h' =
      record {
        follows = λ s s' t vals m e holds small.
            let m1 = bind-ok (cond s) _ s' e in
            let m2 = bind-ok (body m1.0) _ s' m1.2 in
            let src = length m1.0 in
            let far = c.five s m1.0 m1.1 in
            let p = Patched-lead_here m2.0 s' src m2.2 in
            let d =
              leads_here (Holds-whole holds) p (omega arith) (omega (arith, p.lengths, p.high))
                small in
            Follows-continue o self_value t out out'
              (λ x. if test x then src else add_disp src (d.0)) (λ y. length s') (length s)
              (with_stack (args ++ vals) m) vals vals (a vals m)
              (λ x. (if test x then k x else k' x) vals)
              (f.follows s m1.0 t vals m (d.0) m1.1
                (HoldsTo-Patched (Holds-whole holds) p (b.grows m1.0 m2.0 m2.1) refl
                  (omega (arith, p.lengths, p.high)))
                small (d.1))
              (λ x m'.
                chosen t out' (length s') src (add_disp src (d.0)) (with_stack (out x ++ vals) m')
                  vals m' (k x) (k' x) (test x)
                  (λ yes.
                    subst
                      (λ q.
                        Follows o self_value t out' (λ y. q) src (with_stack (out x ++ vals) m')
                          vals (k x vals m'))
                      (sym p.lengths)
                      ((h x).follows m1.0 m2.0 t vals m' m2.1 (Holds-behind holds p (omega arith))
                        small))
                  (λ no.
                    subst
                      (λ q.
                        Follows o self_value t out' (λ y. length s') q
                          (with_stack (out x ++ vals) m') vals (k' x vals m'))
                      (p.lengths ∙ sym (d.2)) (h' x no t (length s') vals m')));
      }

  -- The jump at the end of the first branch.
  pub IsBranch-jmp :
      {A : Type 0} (out : A → List ℕ) (x : A)
      → IsBranch o self_value (out x) out (λ y. false) (emits Gen.jmp) (ran (pure x))
  unfolding exec emits emit inst32 pushed displacement jump_pc unwrap Vm.◌>>=◌
  IsBranch-jmp out x = IsBranch-inst o self_value (pure x) Inst.jmp λ t p vals m d r. rw r refl

  -- A conditional with both branches.
  pub IsSound-if :
      {A B : Type 0} {args : List ℕ} {out : A → List ℕ} {out' : B → List ℕ} {test : A → Bool}
      {cond then_code else_code : Code} {a : Ran W A} (k k' : A → Ran W B)
      → GrowsFive cond
      → Grows then_code
      → Grows else_code
      → IsBranch o self_value args out test cond a
      → ((x : A) → IsSound o self_value (out x) out' then_code (k x))
      → ((x : A) → IsSound o self_value (out x) out' else_code (k' x))
      → IsSound o self_value args out'
          (gen_if cond then_code (some else_code))
          (a &> λ x. if test x then k x else k' x)
  unfolding gen_if ◌&>◌ Follows continue ran ◌then◌ inst32
  IsSound-if {args = args} {out = out} {out' = out'} {test = test} {cond = cond}
        {then_code = yes_code} {else_code = no_code} {a = a} k k' c y n f h h' =
      record {
        follows = λ s s' t vals m e holds small.
            let m1 = bind-ok (cond s) _ s' e in
            let m2 = bind-ok ((yes_code then emits Gen.jmp) m1.0) _ s' m1.2 in
            let m4 = bind-ok (lead_here (length m1.0) m2.0 >>= no_code) _ s' m2.2 in
            let m3 = bind-ok (lead_here (length m1.0) m2.0) no_code m4.0 m4.1 in
            let far = c.five s m1.0 m1.1 in
            let yes_grows = GrowsFive-then y (GrowsFive-inst Inst.jmp) in
            let p1 = Patched-lead_here m2.0 m3.0 (length m1.0) m3.1 in
            let p2 = Patched-lead_here m4.0 s' (length m2.0) m4.2 in
            let grown = yes_grows.grows.grows m1.0 m2.0 m2.1 in
            let longer = yes_grows.five m1.0 m2.0 m2.1 in
            let rest = n.grows m3.0 m4.0 m3.2 in
            let whole = Holds-whole holds in
            let d2 = leads_here whole p2 (omega arith) (omega (arith, p2.lengths, p2.high)) small in
            let before =
              HoldsTo-Patched whole p2 rest p1.lengths (omega (arith, p2.lengths, p2.high)) in
            let d1 = leads_here before p1 (omega arith) (omega arith) small in
            Follows-continue o self_value t out out'
              (λ x. if test x then length m1.0 else add_disp (length m1.0) (d1.0)) (λ x. length s')
              (length s) (with_stack (args ++ vals) m) vals vals (a vals m)
              (λ x. (if test x then k x else k' x) vals)
              (f.follows s m1.0 t vals m (d1.0) m1.1
                (HoldsTo-Patched before p1 grown refl (omega arith)) small (d1.1))
              (λ x m'.
                chosen t out' (length s') (length m1.0) (add_disp (length m1.0) (d1.0))
                  (with_stack (out x ++ vals) m') vals m' (k x) (k' x) (test x)
                  (λ holds_of.
                    subst
                      (λ q.
                        Follows o self_value t out' (λ z. q) (length m1.0)
                          (with_stack (out x ++ vals) m') vals (k x vals m'))
                      (d2.2 ∙ sym p2.lengths)
                      (after_jump t (length m1.0) (length m2.0) (d2.0)
                        (with_stack (out x ++ vals) m') vals (k x vals m')
                        ((IsBranch-then o self_value y (GrowsFive-inst Inst.jmp) (h x)
                            (λ z. IsBranch-jmp out' z)).follows
                          m1.0 m2.0 t vals m' (d2.0) m2.1 (HoldsTo-behind before p1 (omega arith))
                          small (d2.1))))
                  (λ fails.
                    subst
                      (λ q.
                        Follows o self_value t out' (λ z. length s') q
                          (with_stack (out x ++ vals) m') vals (k' x vals m'))
                      (p1.lengths ∙ sym (d1.2))
                      (subst
                        (λ q.
                          Follows o self_value t out' (λ z. q) (length m3.0)
                            (with_stack (out x ++ vals) m') vals (k' x vals m'))
                        (sym p2.lengths)
                        ((h' x).follows m3.0 m4.0 t vals m' m3.2
                          (Holds-from (Holds-behind holds p2 (omega arith))
                            (omega (arith, p1.lengths)))
                          small))));
      }
    where
      after_jump :
          (t : ISeq) (p : ℕ) (q : ℕ) (d : ℤ) (m₀ : Memory W) (vals : List ℕ)
          (r : Option (Ended (Memory W) _))
          → Follows o self_value t out'
              (λ z. if false then q else add_disp q d)
              p
              m₀
              vals
              (continue (λ z. ran (pure z) vals) r)
          → Follows o self_value t out' (λ z. add_disp q d) p m₀ vals r
      after_jump t p q d m₀ vals none g = g
      after_jump t p q d m₀ vals (some (returns z k)) g = g
      after_jump t p q d m₀ vals (some (raises z k)) g = g
      after_jump t p q d m₀ vals (some panics) g = g
