-- ===== src/Codegen/Loop.antt =====
-- src/parse/codegen.rs: `while` and `until`.
use ruruby.Prelude.{
  ℕ, zero, suc, ◌+◌, ◌-◌, ◌^◌, ◌≤◌, ◌<◌, ◌≡◌, refl, sym, ap, subst, ◌∙◌, List, [], some, arith,
  Bool, true, false, if◌then◌else◌, length, get_elem?,
}
use ruruby.Prelude.Int.{ℤ}
use ruruby.Prelude.Outcome.{ok, ◌>>=◌}
use ruruby.ISeq.{ISeq, read_disp, add_disp}
use ruruby.ISeq.Inst.{Inst, opcode, inst_size, decode-opcode}
use ruruby.ISeq.Gen.{Gen, emit, head}
use ruruby.ISeq.Emit.{emit_lem, gen_jmp_back_target}
use ruruby.Value.{nil_value}
use ruruby.Vm.{Memory, Exec, Ended, pure, unwrap}
use ruruby.Vm as Vm
use ruruby.Vm.Arm.{Next, displacement, jump_pc, goto}
use ruruby.Vm.Executor.{Executor}
use ruruby.Vm.Run.{exec, step}
use ruruby.Codegen.Gen.{Code, ◌then◌, nothing, emits, lead_here, gen_while, inst32}
use ruruby.Codegen.Eval.{Ran, ran, continue, ◌&>◌, collect, eval_while}
use ruruby.Codegen.Reach.{with_stack, Follows, Follows-continue, stays, steps}
use ruruby.Codegen.Bytes.{Extends, Extends-trans, Holds, Holds-part, Grows, Grows-nothing, bind-ok}
use ruruby.Codegen.Grow.{
  GrowsFive, Patched, Patched-lead_here, Extends-Patched, Grows-emits, Grows-if,
}
use ruruby.Codegen.Sound.{IsSound, IsSound-nothing}
use ruruby.Codegen.Neutral.{KeepsStack}
use ruruby.Codegen.Moves.{left, IsSound-push_nil}
use ruruby.Codegen.Branch.{
  IsBranch, IsBranch-then, GrowsFive-then, GrowsFive-inst, HoldsTo, HoldsTo-Holds, Holds-whole,
  HoldsTo-Patched, HoldsTo-from, Holds-behind, leads_here, read_disp-HoldsTo,
}
use ruruby.Codegen.Choice.{chosen, IsBranch-jmp}
use ruruby.Codegen.Jumps.{none_left}

-- The parts of a loop in the buffer.
record Parts (cond body : Code) (used : Bool) (s s' : ISeq) : Type 0 where
  pub s1 : ISeq
  pub b : ISeq
  pub j : ISeq
  pub s2 : ISeq
  pub s3 : ISeq
  pub s4 : ISeq
  pub tested : cond s ≡ ok s1
  pub done : body s1 ≡ ok b
  pub back : emits (Gen.jmp_back (length s)) b ≡ ok j
  pub out : lead_here (length s1) j ≡ ok s2
  pub over : ((if used then emits Gen.push_nil else nothing) then emits Gen.jmp) s2 ≡ ok s3
  pub popped : (if used then nothing else emits Gen.pop) s3 ≡ ok s4
  pub end : lead_here (length s3) s4 ≡ ok s'

parts :
    (cond body : Code) (used : Bool) (s s' : ISeq)
    → gen_while cond body used s ≡ ok s'
    → Parts cond body used s s'
unfolding gen_while
parts cond body used s s' e =
    let m1 = bind-ok (cond s) _ s' e in
    let m2 =
      bind-ok (body m1.0 >>= emits (Gen.jmp_back (length s)) >>= lead_here (length m1.0)) _ s'
        m1.2 in
    let mj =
      bind-ok (body m1.0 >>= emits (Gen.jmp_back (length s))) (lead_here (length m1.0)) m2.0 m2.1 in
    let mb = bind-ok (body m1.0) (emits (Gen.jmp_back (length s))) mj.0 mj.1 in
    let m3 =
      bind-ok (((if used then emits Gen.push_nil else nothing) then emits Gen.jmp) m2.0) _ s'
        m2.2 in
    let m4 =
      bind-ok ((if used then nothing else emits Gen.pop) m3.0) (lead_here (length m3.0)) s' m3.2 in
    record {
      s1 = m1.0;
      b = mb.0;
      j = mj.0;
      s2 = m2.0;
      s3 = m3.0;
      s4 = m4.0;
      tested = m1.1;
      done = mb.1;
      back = mb.2;
      out = mj.2;
      over = m3.1;
      popped = m4.1;
      end = m4.2;
    }

over-GrowsFive :
    (used : Bool) → GrowsFive ((if used then emits Gen.push_nil else nothing) then emits Gen.jmp)
unfolding emits emit inst32
over-GrowsFive used =
    GrowsFive-then (Grows-if used (Grows-emits Gen.push_nil) Grows-nothing)
      (GrowsFive-inst Inst.jmp)

module _ {cond body : Code} {used : Bool} {s s' : ISeq} (c : GrowsFive cond) (g : Grows body)
    (p : Parts cond body used s s') where
  first : Patched p.j p.s2 (length p.s1)
  first = Patched-lead_here p.j p.s2 (length p.s1) p.out

  last : Patched p.s4 s' (length p.s3)
  last = Patched-lead_here p.s4 s' (length p.s3) p.end

  body_grown : Extends p.s1 p.b
  body_grown = g.grows p.s1 p.b p.done

  back_grown : Extends p.b p.j
  back_grown = (Grows-emits (Gen.jmp_back (length s))).grows p.b p.j p.back

  over_grown : Extends p.s2 p.s3
  over_grown = (over-GrowsFive used).grows.grows p.s2 p.s3 p.over

  popped_grown : Extends p.s3 p.s4
  popped_grown = (Grows-if used Grows-nothing (Grows-emits Gen.pop)).grows p.s3 p.s4 p.popped

  back_emitted : emit (Gen.jmp_back (length s)) p.b ≡ p.j
  unfolding emits
  back_emitted = let e = p.back in cc

  start_grown : Extends s p.s2
  start_grown =
      Extends-Patched
        (Extends-trans (c.grows.grows s p.s1 p.tested) (Extends-trans body_grown back_grown)) first
        (omega (arith, c.five s p.s1 p.tested))

  whole_grown : Extends s s'
  whole_grown =
      Extends-Patched (Extends-trans start_grown (Extends-trans over_grown popped_grown)) last
        (omega (arith, start_grown.longer, (over-GrowsFive used).five p.s2 p.s3 p.over))

pub Grows-while :
    {cond body : Code} (used : Bool)
    → GrowsFive cond
    → Grows body
    → Grows (gen_while cond body used)
Grows-while {cond = cond} {body = body} used c g = record {
  grows = λ s s' e. whole_grown c g (parts cond body used s s' e);
}

module _ {W : Type 0} (o : Executor W) (self_value : ℕ) (laws : KeepsStack o) where
  -- A step that collects and jumps.
  Follows-collect :
      (t : ISeq) (vals : List ℕ) (p dest : ℕ) (m : Memory W) (fin : Exec (Memory W) Next)
      (end : Ended (Memory W) (Unit {0}))
      → step o self_value t p m ≡ elim end [
        | Vm.returns u k ↦ fin k
        | Vm.raises e k ↦ Vm.raises e k
        | Vm.panics ↦ Vm.panics
      ]
      → ((k : Memory W) → end ≡ Vm.returns tt k → k.exec_stack ≡ vals)
      → ((k : Memory W) → fin k ≡ Vm.returns (goto dest) k)
      → Follows o self_value t (λ u. []) (λ u. dest) p m vals (some end)
  unfolding Follows
  Follows-collect t vals p dest m fin (Vm.returns u k) e h goes =
      steps (e ∙ goes k ∙ ap (λ s. Vm.returns (goto dest) (with_stack s k)) (h k refl)) stays
  Follows-collect t vals p dest m fin (Vm.raises x k) e h goes = (p, m, k, stays, e, refl)
  Follows-collect t vals p dest m fin Vm.panics e h goes = (p, m, stays, e)

  -- The jump back, with the collector before it.
  back-Follows :
      (t s₀ : ISeq) (dest : ℕ) (lo : ℕ) (vals : List ℕ) (m : Memory W)
      → Holds t (emit (Gen.jmp_back dest) s₀) lo
      → lo ≤ length s₀
      → dest ≤ length s₀
      → length t < 2 ^ 31
      → Follows o self_value t
          (λ u. [])
          (λ u. dest)
          (length s₀)
          (with_stack vals m)
          vals
          (collect o vals m)
  unfolding collect step exec displacement jump_pc unwrap Vm.◌>>=◌ inst_size head
  back-Follows t s₀ dest lo vals m h l small fits =
      let e = emit_lem (Gen.jmp_back dest) s₀ in
      let size : length (emit (Gen.jmp_back dest) s₀) ≡ length s₀ + 5 = e.0 in
      let target = gen_jmp_back_target s₀ dest small (omega (arith, h.room)) in
      let at : get_elem? t (length s₀) ≡ some (opcode Inst.jmp_back) =
        h.same (length s₀) l (omega arith) ∙ e.1 in
      let read : read_disp t (length s₀ + 1) ≡ some (target.0) =
        read_disp-HoldsTo t (emit (Gen.jmp_back dest) s₀) lo (length (emit (Gen.jmp_back dest) s₀))
          (length s₀ + 1) (Holds-whole h) (omega arith) (omega arith) (omega arith)
        ∙ target.1 in
      Follows-collect t vals (length s₀) dest (with_stack vals m) (jump_pc (length s₀) 5 (target.0))
        (o.gc (with_stack vals m)) (rw (at, decode-opcode Inst.jmp_back, step, read) refl)
        (λ k e. laws.collects (with_stack vals m) k e)
        (λ k. ap (λ q. Vm.returns (goto q) k) target.2)

  module _ {test : ℕ → Bool} {cond body : Code} {used : Bool} {s s' : ISeq} {a b : Ran W ℕ}
      (c : GrowsFive cond) (g : Grows body) (f : IsBranch o self_value [] none_left test cond a)
      (h : IsSound o self_value [] (left false) body b) (p : Parts cond body used s s') (t : ISeq)
      (holds : Holds t s' (length s)) (small : length t < 2 ^ 31) where
    five_over : length p.s2 + 5 ≤ length p.s3
    five_over = (over-GrowsFive used).five p.s2 p.s3 p.over

    before : HoldsTo t p.s3 (length s) (length p.s3 - 4)
    before =
        HoldsTo-Patched (Holds-whole holds) (last c g p) (popped_grown c g p) refl
          (omega (arith, (last c g p).lengths, (last c g p).high))

    looped : Holds t p.s2 (length s)
    looped = HoldsTo-Holds before (over_grown c g p) (omega (arith, five_over))

    far : length s + 5 ≤ length p.s1
    far = c.five s p.s1 p.tested

    -- Where the condition fails.
    exits :
        (d : ℤ) × (read_disp t (length p.s1 - 4) ≡ some d) × (add_disp (length p.s1) d ≡ length p.j)
    exits =
        leads_here (Holds-whole looped) (first c g p) (omega (arith, far))
          (omega (arith, (first c g p).lengths, (first c g p).high)) small

    ends :
        (d : ℤ) × (read_disp t (length p.s3 - 4) ≡ some d)
        × (add_disp (length p.s3) d ≡ length p.s4)
    ends =
        leads_here (Holds-whole holds) (last c g p)
          (omega (arith, five_over, (start_grown c g p).longer))
          (omega (arith, (last c g p).lengths, (last c g p).high)) small

    jumped_out : Holds t p.j (length p.s1)
    jumped_out = Holds-behind looped (first c g p) (omega (arith, far))

    kept :
        (u : Bool)
        → IsSound o self_value []
            (left u)
            (if u then emits Gen.push_nil else nothing)
            (ran (pure nil_value))
    kept true = IsSound-push_nil o self_value
    kept false = IsSound-nothing o self_value nil_value

    -- Behind the loop: nil if a value is used, and the jump over the `POP`.
    leaves :
        (vals : List ℕ) (m : Memory W)
        → Follows o self_value t
            (left used)
            (λ v. length s')
            (length p.s2)
            (with_stack vals m)
            vals
            (ran (pure nil_value) vals m)
    unfolding inst32 emits ran ◌&>◌
    leaves vals m =
        subst
          (λ q.
            Follows o self_value t (left used) (λ v. q) (length p.s2) (with_stack vals m) vals
              (ran (pure nil_value) vals m))
          (ends.2 ∙ sym (last c g p).lengths)
          ((IsBranch-then o self_value (Grows-if used (Grows-emits Gen.push_nil) Grows-nothing)
              (GrowsFive-inst Inst.jmp) (kept used)
              (λ v. IsBranch-jmp o self_value (left used) v)).follows
            p.s2 p.s3 t vals m (ends.0) p.over (HoldsTo-from before (start_grown c g p).longer)
            small (ends.1))

    rounds :
        (fuel : ℕ) (vals : List ℕ) (m : Memory W)
        → Follows o self_value t
            (left used)
            (λ v. length s')
            (length s)
            (with_stack vals m)
            vals
            (eval_while o fuel test a b vals m)
    unfolding eval_while ◌&>◌ Follows continue ran
    rounds zero vals m = tt
    rounds (suc fuel) vals m =
        Follows-continue o self_value t none_left (left used)
          (λ v. if test v then length p.s1 else add_disp (length p.s1) (exits.0)) (λ v. length s')
          (length s) (with_stack vals m) vals vals (a vals m) _
          (f.follows s p.s1 t vals m (exits.0) p.tested
            (HoldsTo-Patched (Holds-whole looped) (first c g p)
              (Extends-trans (body_grown c g p) (back_grown c g p)) refl
              (omega (arith, (first c g p).lengths, (first c g p).high)))
            small (exits.1))
          (λ v m'.
            chosen o self_value t (left used) (length s') (length p.s1)
              (add_disp (length p.s1) (exits.0)) (with_stack vals m') vals m' _ _ (test v)
              (λ holds_of.
                Follows-continue o self_value t (left false) (left used) (λ v. length p.b)
                  (λ v. length s') (length p.s1) (with_stack vals m') vals vals (b vals m') _
                  (h.follows p.s1 p.b t vals m' p.done (Holds-part jumped_out (back_grown c g p))
                    small)
                  (λ v m2.
                    Follows-continue o self_value t (λ u. []) (left used) (λ u. length s)
                      (λ v. length s') (length p.b) (with_stack vals m2) vals vals
                      (collect o vals m2) _
                      (back-Follows t p.b (length s) (length p.s1) vals m2
                        (subst (λ x. Holds t x (length p.s1)) (sym (back_emitted c g p)) jumped_out)
                        (body_grown c g p).longer (omega (arith, far, (body_grown c g p).longer))
                        small)
                      (λ u m3. rounds fuel vals m3)))
              (λ fails.
                subst
                  (λ q.
                    Follows o self_value t (left used) (λ v. length s') q (with_stack vals m') vals
                      (ran (pure nil_value) vals m'))
                  ((first c g p).lengths ∙ sym (exits.2)) (leaves vals m')))

  -- A loop.
  pub IsSound-while :
      {test : ℕ → Bool} {cond body : Code} {a b : Ran W ℕ} (used : Bool) (fuel : ℕ)
      → GrowsFive cond
      → Grows body
      → IsBranch o self_value [] none_left test cond a
      → IsSound o self_value [] (left false) body b
      → IsSound o self_value [] (left used) (gen_while cond body used) (eval_while o fuel test a b)
  IsSound-while {cond = cond} {body = body} used fuel c g f h = record {
    follows = λ s s' t vals m e holds small.
        rounds c g f h (parts cond body used s s' e) t holds small fuel vals m;
  }
