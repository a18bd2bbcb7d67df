-- ===== src/Vm/Shorten.antt =====
-- src/vm/iseq.rs and src/vm/executor/opt_core.rs: code in which one jump is shortened runs as before.
use ruruby.Prelude.{
  ℕ, zero, suc, ◌-◌, ◌<◌, ◌≤◌, ◌≡◌, ◌≢◌, refl, sym, ◌∙◌, ap, true, some, arith, get_elem?, ◌==◌,
  ==→eq, ==→ne, leb, inl, inr, Bool-cases,
}
use ruruby.ISeq.{ISeq}
use ruruby.ISeq.Optimize.{is_terminator}
use ruruby.Vm.{Memory, returns}
use ruruby.Vm.Executor.{Executor}
use ruruby.Vm.Arm.{goto}
use ruruby.Vm.Run.{step, run, unfinished}
use ruruby.Vm.Terminate.{seen, seen-ended, run_terminator}
use ruruby.Vm.Fuel.{Ended-cases, run_mono, run-Jumps, short-Jumps, Jumps, jump_step}

module _ {W : Type 0} (o : Executor W) (self_value : ℕ) (s s' : ISeq) (p : ℕ) where
  -- The instruction at `p` does the same in both codes; or it jumps at once to the end of a chain of
  -- jumps; or it is the terminator at the end of the chain.
  pub data Shortcut (m : Memory W) : Type 0 where
    alike : step o self_value s' p m ≡ step o self_value s p m → Shortcut m
    skips :
        (q₀ q n : ℕ) (m' : Memory W)
        → step o self_value s p m ≡ returns (goto q₀) m'
        → step o self_value s' p m ≡ returns (goto q) m'
        → Jumps s q₀ q n
        → Shortcut m
    ends :
        (q₀ q n c : ℕ)
        → step o self_value s p m ≡ returns (goto q₀) m
        → Jumps s q₀ q n
        → get_elem? s q ≡ some c
        → get_elem? s' p ≡ some c
        → is_terminator c ≡ true
        → Shortcut m

  -- The program counters that a run can reach, with the codes alike at all but `p`.
  pub record Follows (R : ℕ → Type 0) : Type 0 where
    pub closed :
        (pc q : ℕ) (m m' : Memory W) → R pc → step o self_value s pc m ≡ returns (goto q) m' → R q
    pub elsewhere :
        (pc : ℕ) (m : Memory W)
        → R pc
        → pc ≢ p
        → step o self_value s' pc m ≡ step o self_value s pc m
    pub there : (m : Memory W) → Shortcut m

  module _ (R : ℕ → Type 0) (f : Follows R) where
    reached : {p₀ q n : ℕ} → Memory W → Jumps s p₀ q n → R p₀ → R q
    reached m Jumps.here r = r
    reached m (Jumps.hop j e hs) r =
        reached m hs (f.closed _ _ m m r (jump_step o self_value s m j e))

    abbrev pub SameEnd : ℕ → ℕ → Memory W → Type 0
    SameEnd fuel pc m = seen (run o self_value s' fuel pc m) ≡ seen (run o self_value s fuel pc m)

    -- The induction is on a bound of the fuel, as a shortcut saves some.
    abbrev Holds : ℕ → Type 0
    Holds limit =
        (fuel pc : ℕ) (m : Memory W)
        → fuel ≤ limit
        → R pc
        → run o self_value s fuel pc m ≢ unfinished
        → SameEnd fuel pc m

    module _ (limit : ℕ) (before : Holds limit) (fuel pc : ℕ) (m : Memory W) (l : fuel ≤ limit)
        (r : R pc) (h : run o self_value s (suc fuel) pc m ≢ unfinished) where
      step_alike : step o self_value s' pc m ≡ step o self_value s pc m → SameEnd (suc fuel) pc m
      unfolding run
      step_alike e = elim (Ended-cases (step o self_value s pc m)) [
        | inl (q, m', g) ↦
            rw (e, g, run) (before fuel q m' l (f.closed pc q m m' r g) (rw (g, run) at h))
        | inr (inl (m', g)) ↦ rw (e, g, run) refl
        | inr (inr (inl (k, m', g))) ↦ rw (e, g, run) refl
        | inr (inr (inr g)) ↦ rw (e, g, run) refl
      ]

      -- The rest of a run behind a chain of jumps.
      module _ (q₀ q n : ℕ) (m' : Memory W) (hs : Jumps s q₀ q n)
          (g : step o self_value s pc m ≡ returns (goto q₀) m') where
        chain_ends : n < fuel
        unfolding run
        chain_ends = elim (Bool-cases (leb fuel n)) [
          | inl t ↦ absurd (h (rw (g, run) (short-Jumps o self_value s fuel m' hs (ground arith))))
          | inr t ↦ ground arith
        ]

        behind : run o self_value s (suc fuel) pc m ≡ run o self_value s (fuel - n) q m'
        unfolding run
        behind =
            rw (g, run) (run-Jumps o self_value s fuel (fuel - n) m' hs (omega (arith, chain_ends)))

      step_skips :
          (q₀ q n : ℕ) (m' : Memory W)
          → step o self_value s pc m ≡ returns (goto q₀) m'
          → step o self_value s' pc m ≡ returns (goto q) m'
          → Jumps s q₀ q n
          → SameEnd (suc fuel) pc m
      unfolding run
      step_skips q₀ q n m' g g' hs =
          let jumps = behind q₀ q n m' hs g in
          let h' : run o self_value s (fuel - n) q m' ≢ unfinished = λ z. h (jumps ∙ z) in
          let r' = reached m' hs (f.closed pc q₀ m m' r g) in
          let e = before (fuel - n) q m' (omega arith) r' h' in
          let more =
            run_mono o self_value s' (fuel - n) fuel q m' (omega arith) (seen-ended _ _ e h') in
          rw (g', run) (ap seen more ∙ e ∙ ap seen (sym jumps))

      step_ends :
          (q₀ q n c : ℕ)
          → step o self_value s pc m ≡ returns (goto q₀) m
          → Jumps s q₀ q n
          → get_elem? s q ≡ some c
          → get_elem? s' pc ≡ some c
          → is_terminator c ≡ true
          → SameEnd (suc fuel) pc m
      step_ends q₀ q n c g hs at at' t =
          let left : ℕ = fuel - n - 1 in
          let count : fuel - n ≡ suc left = omega (arith, chain_ends q₀ q n m hs g) in
          run_terminator o self_value s' fuel pc c m at' t
          ∙ sym (run_terminator o self_value s left q c m at t)
          ∙ ap (λ k. seen (run o self_value s k q m)) (sym count)
          ∙ ap seen (sym (behind q₀ q n m hs g))

      step_there : pc ≡ p → Shortcut m → SameEnd (suc fuel) pc m
      step_there e (alike a) = step_alike (rw e a)
      step_there e (skips q₀ q n m' g g' hs) = step_skips q₀ q n m' (rw e g) (rw e g') hs
      step_there e (ends q₀ q n c g hs at at' t) = step_ends q₀ q n c (rw e g) hs at (rw e at') t

    holds : (limit : ℕ) → Holds limit
    unfolding run
    holds limit zero pc m l r h = absurd (h refl)
    holds zero (suc fuel) pc m l r h = absurd (omega arith)
    holds (suc limit) (suc fuel) pc m l r h = elim (Bool-cases (pc == p)) [
      | inr t ↦
          step_alike limit (holds limit) fuel pc m (omega arith) r h
            (f.elsewhere pc m r (==→ne pc p t))
      | inl t ↦
          step_there limit (holds limit) fuel pc m (omega arith) r h (==→eq pc p t) (f.there m)
    ]

    pub run_same :
        (fuel pc : ℕ) (m : Memory W)
        → R pc
        → run o self_value s fuel pc m ≢ unfinished
        → SameEnd fuel pc m
    run_same fuel pc m r h = holds fuel fuel pc m (omega arith) r h
