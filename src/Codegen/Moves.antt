-- ===== src/Codegen/Moves.antt =====
-- src/parse/codegen.rs and src/vm/executor/opt_core.rs: constants, local variables and the order of the
-- stack.
use ruruby.Prelude.{
  ℕ, zero, suc, ◌+◌, ◌%◌, ◌^◌, ◌≡◌, refl, sym, ap, ◌∙◌, List, [], ◌∷◌, ◌++◌, arith, Bool, true,
  false, if◌then◌else◌, length, le→leb, ◌==◌, Bool-cases, Option-cases, inl, inr,
}
use ruruby.Prelude.Int.{ℤ, as_i64, as_u64, as_u64-lt}
use ruruby.ISeq.{ISeq}
use ruruby.ISeq.Inst.{Inst}
use ruruby.ISeq.Gen.{Gen, emit}
use ruruby.Value.{nil_value}
use ruruby.Value.Pack.{bool, symbol}
use ruruby.Vm.{
  Memory, Exec, Ended, returns, raises, panics, ◌>>=◌, pure, unwrap, peek_top, push_all,
}
use ruruby.Vm.Locals.{context, get_outer_context, get_outer_context_from, get_lvar, set_lvar}
use ruruby.Vm.Executor.{Executor}
use ruruby.Vm.Arm.{Next, goto, operand32, operand64, advance, push_advance}
use ruruby.Vm.Run.{exec}
use ruruby.Codegen.{Codegen, get_local_var}
use ruruby.Codegen.Operands.{get_local_var-resolve}
use ruruby.Codegen.Gen.{inst0, inst32, emits, drop_unused, gen_get_local, gen_set_local}
use ruruby.Codegen.Eval.{ran, with_local, or_nil}
use ruruby.Codegen.Reach.{with_stack, IsNeutral, pushed}
use ruruby.Codegen.Sound.{
  IsSound, IsSound-inst0, IsSound-inst32, IsSound-inst32_32, IsSound-inst64, IsSound-nothing, one,
}
use ruruby.Codegen.Neutral.{
  KeepsStack, IsNeutral-bind, IsNeutral-get_outer_context, IsNeutral-get_lvar, IsNeutral-set_lvar,
}
use ruruby.Codegen.Leaves.{push_end, push_neutral}

-- What a node leaves on the stack, its value used or not.
abbrev pub left : Bool → ℕ → List ℕ
left true v = v ∷ []
left false v = []

module _ {W : Type 0} (o : Executor W) (self_value : ℕ) where
  -- A constant.
  pub IsSound-push_nil : IsSound o self_value [] one (emits Gen.push_nil) (ran (pure nil_value))
  unfolding exec pushed emits emit inst0 push_advance ◌>>=◌
  IsSound-push_nil = IsSound-inst0 o self_value (pure nil_value) Inst.push_nil λ t p vals m. refl

  pub IsSound-push_self : IsSound o self_value [] one (emits Gen.push_self) (ran (pure self_value))
  unfolding exec pushed emits emit inst0 push_advance ◌>>=◌
  IsSound-push_self = IsSound-inst0 o self_value (pure self_value) Inst.push_self λ t p vals m. refl

  pub IsSound-push_bool :
      (b : Bool)
      → IsSound o self_value [] one
          (inst0 (if b then Inst.push_true else Inst.push_false))
          (ran (pure (bool b)))
  unfolding exec pushed push_advance ◌>>=◌
  IsSound-push_bool true =
      IsSound-inst0 o self_value (pure (bool true)) Inst.push_true λ t p vals m. refl
  IsSound-push_bool false =
      IsSound-inst0 o self_value (pure (bool false)) Inst.push_false λ t p vals m. refl

  pub IsSound-push_symbol :
      (id : ℕ)
      → IsSound o self_value [] one (emits (Gen.symbol id)) (ran (pure (symbol (id % 2 ^ 32))))
  unfolding exec pushed emits emit inst32 push_advance operand32 unwrap ◌>>=◌
  IsSound-push_symbol id =
      IsSound-inst32 o self_value (pure (symbol (id % 2 ^ 32))) Inst.push_symbol id
        λ t p vals m r. rw r refl

  pub IsSound-pop :
      (v : ℕ) → IsSound o self_value (v ∷ []) (left false) (emits Gen.pop) (ran (pure v))
  unfolding exec pushed emits emit inst0 advance ◌>>=◌
  IsSound-pop v = IsSound-inst0 o self_value (pure v) Inst.pop λ t p vals m. refl

  pub IsSound-rep_uninit :
      (v : ℕ) → IsSound o self_value (v ∷ []) one (inst0 Inst.rep_uninit) (ran (pure (or_nil v)))
  unfolding exec pushed push_advance ◌>>=◌ or_nil
  IsSound-rep_uninit v =
      IsSound-inst0 o self_value (pure (or_nil v)) Inst.rep_uninit λ t p vals m. refl

  peek_one :
      (v : ℕ) (vals : List ℕ) (m : Memory W)
      → peek_top 1 (with_stack (v ∷ vals) m) ≡ returns (v ∷ []) (with_stack (v ∷ vals) m)
  unfolding peek_top
  peek_one v vals m = rw (le→leb 1 (length (v ∷ vals)) (omega arith)) refl

  pub IsSound-dup :
      (v : ℕ) → IsSound o self_value (v ∷ []) (λ x. x ∷ x ∷ []) (emits (Gen.dup 1)) (ran (pure v))
  unfolding exec pushed emits emit inst32 push_all advance operand32 unwrap peek_top ◌>>=◌
  IsSound-dup v =
      IsSound-inst32 o self_value (pure v) Inst.dup 1
        λ t p vals m r. rw (r, ◌>>=◌, peek_one v vals m) refl

  -- A value that is used stays, another one is popped.
  pub IsSound-drop_unused :
      (used : Bool) (v : ℕ)
      → IsSound o self_value (v ∷ []) (left used) (drop_unused used) (ran (pure v))
  unfolding drop_unused
  IsSound-drop_unused true v = IsSound-nothing o self_value v
  IsSound-drop_unused false v = IsSound-pop v

module _ {W : Type 0} (o : Executor W) (self_value : ℕ) (laws : KeepsStack o) where
  pub IsSound-fixnum :
      (i : ℤ)
      → IsSound o self_value [] one (emits (Gen.fixnum i)) (ran (o.integer (as_i64 (as_u64 i))))
  unfolding exec emits emit operand64 unwrap ◌>>=◌
  IsSound-fixnum i =
      IsSound-inst64 o self_value (o.integer (as_i64 (as_u64 i))) Inst.push_fixnum
        (emits (Gen.fixnum i)) (as_u64 i) (λ s. refl)
        λ t p vals m r. rw r (
          ap (λ n. (o.integer (as_i64 n) >>= push_advance p 9) (with_stack vals m)) (u64_fits i)
          ∙ push_neutral o self_value t (o.integer (as_i64 (as_u64 i))) p 9 vals m
              (laws.integers (as_i64 (as_u64 i))))
    where
      u64_fits : (i : ℤ) → as_u64 i % 2 ^ 64 ≡ as_u64 i
      u64_fits i = omega (arith, as_u64-lt i)

  -- A `do` block inside another.
  pub bind_assoc :
      {A B C : Type 0} (a : Exec (Memory W) A) (k : A → Exec (Memory W) B)
      (h : B → Exec (Memory W) C) (m : Memory W)
      → ((a >>= k) >>= h) m ≡ (a >>= λ x. k x >>= h) m
  unfolding ◌>>=◌
  bind_assoc {A} a k h m = after (a m)
    where
      after :
          (r : Ended (Memory W) A)
          → ((λ s. elim r [ returns x n ↦ k x n | raises e n ↦ raises e n | panics ↦ panics ])
                >>= h)
              m
            ≡ elim r [ returns x n ↦ (k x >>= h) n | raises e n ↦ raises e n | panics ↦ panics ]
      after (returns x n) = refl
      after (raises e n) = refl
      after panics = refl

  pub bind_cong :
      {A B : Type 0} (a : Exec (Memory W) A) (k k' : A → Exec (Memory W) B) (m : Memory W)
      → ((x : A) (n : Memory W) → k x n ≡ k' x n)
      → (a >>= k) m ≡ (a >>= k') m
  unfolding ◌>>=◌
  bind_cong {A} a k k' m h = after (a m)
    where
      after :
          (r : Ended (Memory W) A)
          → elim r [ returns x n ↦ k x n | raises e n ↦ raises e n | panics ↦ panics ]
            ≡ elim r [ returns x n ↦ k' x n | raises e n ↦ raises e n | panics ↦ panics ]
      after (returns x n) = h x n
      after (raises e n) = refl
      after panics = refl

  -- The context itself is no step out.
  no_step_out :
      {A : Type 0} (outer : ℕ) (k : ℕ → Exec (Memory W) A) (m : Memory W)
      → outer == 0 ≡ true
      → (context >>= k) m ≡ (get_outer_context (outer % 2 ^ 32) >>= k) m
  unfolding get_outer_context get_outer_context_from context ◌>>=◌ unwrap
  no_step_out zero k m z = elim (Option-cases m.cur_context) [
    | inl e ↦ rw e refl
    | inr e ↦ rw (e.1) refl
  ]
  no_step_out (suc outer) k m z = absurd (ground arith)

  -- `a`, then `fin`, where `a` finds a context and uses it.
  in_context :
      {A : Type 0} (out : A → List ℕ) (outer : ℕ) (use_var : ℕ → Exec (Memory W) A)
      (fin : A → Exec (Memory W) Next) (t : ISeq) (q : ℕ) (vals : List ℕ) (m : Memory W)
      → ((ref : ℕ) → IsNeutral (use_var ref))
      → ((x : A) (k : Memory W)
          → fin x (with_stack vals k) ≡ returns (goto q) (with_stack (out x ++ vals) k))
      → (get_outer_context outer >>= λ ref. use_var ref >>= fin) (with_stack vals m)
        ≡ pushed o self_value t out (λ x. q) vals ((get_outer_context outer >>= use_var) m)
  in_context out outer use_var fin t q vals m h last =
      sym (bind_assoc (get_outer_context outer) use_var fin (with_stack vals m))
      ∙ push_end o self_value t out (get_outer_context outer >>= use_var) fin (λ x. q) vals m
          (IsNeutral-bind (IsNeutral-get_outer_context outer) h) last

  module _ (g : Codegen) (id : ℕ) where
    pub IsSound-get_local :
        IsSound o self_value [] one (gen_get_local g id) (ran (with_local g get_lvar id))
    unfolding gen_get_local with_local exec operand32 unwrap ◌>>=◌ push_advance
    IsSound-get_local = elim (Option-cases (get_local_var g id)) [
      | inl e ↦
          rw (e, sym (get_local_var-resolve g id) ∙ e, gen_get_local, with_local)
            (record { follows = λ s s' t vals m e holds small. cc })
      | inr (v, e) ↦
          rw (e, sym (get_local_var-resolve g id) ∙ e, gen_get_local, with_local)
            (elim (Bool-cases (v.0 == 0)) [
              | inl z ↦ rw z (
                  IsSound-inst32 o self_value
                    (get_outer_context (v.0 % 2 ^ 32) >>= λ ref. get_lvar ref (v.1 % 2 ^ 32))
                    Inst.get_local v.1
                    λ t p vals m r. rw r (
                      no_step_out v.0 (λ ref. get_lvar ref (v.1 % 2 ^ 32) >>= push_advance p 5)
                        (with_stack vals m) z
                      ∙ in_context one (v.0 % 2 ^ 32) (λ ref. get_lvar ref (v.1 % 2 ^ 32))
                          (push_advance p 5) t (p + 5) vals m
                          (λ ref. IsNeutral-get_lvar ref (v.1 % 2 ^ 32)) (λ x k. refl)))
              | inr z ↦ rw z (
                  IsSound-inst32_32 o self_value
                    (get_outer_context (v.0 % 2 ^ 32) >>= λ ref. get_lvar ref (v.1 % 2 ^ 32))
                    Inst.get_dynlocal v.1 v.0
                    λ t p vals m r r'.
                      rw (r, r')
                        (in_context one (v.0 % 2 ^ 32) (λ ref. get_lvar ref (v.1 % 2 ^ 32))
                          (push_advance p 9) t (p + 9) vals m
                          (λ ref. IsNeutral-get_lvar ref (v.1 % 2 ^ 32)) (λ x k. refl)))
            ])
    ]

    set_then :
        (val n p size : ℕ) (t : ISeq) (outer : ℕ) (vals : List ℕ) (m : Memory W)
        → (get_outer_context outer >>= λ ref. set_lvar ref n val >>= λ u. advance p size)
            (with_stack vals m)
          ≡ pushed o self_value t
              (λ u. [])
              (λ x. p + size)
              vals
              ((get_outer_context outer >>= λ ref. set_lvar ref n val) m)
    unfolding advance
    set_then val n p size t outer vals m =
        in_context (λ u. []) outer (λ ref. set_lvar ref n val) (λ u. advance p size) t (p + size)
          vals m (λ ref. IsNeutral-set_lvar ref n val) (λ x k. refl)

    -- The value is set, and no longer on the stack.
    pub IsSound-set_local :
        (val : ℕ)
        → IsSound o self_value
            (val ∷ [])
            (λ u. [])
            (gen_set_local g id)
            (ran (with_local g (λ ref lvar. set_lvar ref lvar val) id))
    unfolding gen_set_local with_local exec operand32 unwrap ◌>>=◌
    IsSound-set_local val = elim (Option-cases (get_local_var g id)) [
      | inl e ↦
          rw (e, sym (get_local_var-resolve g id) ∙ e, gen_set_local, with_local)
            (record { follows = λ s s' t vals m e holds small. cc })
      | inr (v, e) ↦
          rw (e, sym (get_local_var-resolve g id) ∙ e, gen_set_local, with_local)
            (elim (Bool-cases (v.0 == 0)) [
              | inl z ↦ rw z (
                  IsSound-inst32 o self_value
                    (get_outer_context (v.0 % 2 ^ 32) >>= λ ref. set_lvar ref (v.1 % 2 ^ 32) val)
                    Inst.set_local v.1
                    λ t p vals m r. rw r (
                      no_step_out v.0 (λ ref. set_lvar ref (v.1 % 2 ^ 32) val >>= λ u. advance p 5)
                        (with_stack vals m) z
                      ∙ set_then val (v.1 % 2 ^ 32) p 5 t (v.0 % 2 ^ 32) vals m))
              | inr z ↦ rw z (
                  IsSound-inst32_32 o self_value
                    (get_outer_context (v.0 % 2 ^ 32) >>= λ ref. set_lvar ref (v.1 % 2 ^ 32) val)
                    Inst.set_dynlocal v.1 v.0
                    λ t p vals m r r'.
                      rw (r, r') (set_then val (v.1 % 2 ^ 32) p 9 t (v.0 % 2 ^ 32) vals m))
            ])
    ]
