-- ===== src/Vm/Redirect.antt =====
-- src/vm/executor/opt_core.rs: a conditional jump whose displacement is changed.
use ruruby.Prelude.{
  ℕ, ◌+◌, ◌-◌, ◌<◌, ◌^◌, ◌≤◌, ◌≡◌, refl, ap, Bool, true, false, some, arith, ◌⊎◌, inl, inr,
  Option-cases,
}
use ruruby.Prelude.Int.{ℤ}
use ruruby.ISeq.{ISeq, read_disp, add_disp, sub_usize}
use ruruby.ISeq.Inst.{Inst, inst_size, opcode}
use ruruby.ISeq.Optimize.{is_branch, target_before}
use ruruby.Vm.{Memory, Exec, Ended, returns, raises, panics, ◌>>=◌, unwrap}
use ruruby.Vm.Executor.{Executor}
use ruruby.Vm.Arm.{Next, goto, displacement, jmp_cond, jump_pc}
use ruruby.Vm.Run.{exec}
use ruruby.Vm.Locality.{SameBytes, Alike, Alike-refl, Alike-path, immediate_same}

-- Two arms that end alike, or the one at `q₀` and the other at `q`.
module _ {W : Type 0} (q₀ q : ℕ) where
  abbrev pub Either : Ended (Memory W) Next → Ended (Memory W) Next → Type 0
  Either r r' = (r' ≡ r) ⊎ ((m : Memory W) × (r ≡ returns (goto q₀) m) × (r' ≡ returns (goto q) m))

  pub record Redirects (a a' : Exec (Memory W) Next) : Type 0 where
    pub either : (m : Memory W) → Either (a m) (a' m)

  bind_cases :
      {A : Type 0} (k k' : A → Exec (Memory W) Next) (r : Ended (Memory W) A)
      → ((x : A) → Redirects (k x) (k' x))
      → Either
          (elim r [ returns x m ↦ k x m | raises e m ↦ raises e m | panics ↦ panics ])
          (elim r [ returns x m ↦ k' x m | raises e m ↦ raises e m | panics ↦ panics ])
  bind_cases k k' (returns x m) h = (h x).either m
  bind_cases k k' (raises e m) h = inl refl
  bind_cases k k' panics h = inl refl

  -- For the instructions that are no conditional jumps.
  Redirects-absurd : (a a' : Exec (Memory W) Next) → false ≡ true → Redirects a a'
  Redirects-absurd a a' h = cc h

  Redirects-bind :
      {A : Type 0} {a a' : Exec (Memory W) A} {k k' : A → Exec (Memory W) Next}
      → Alike a a'
      → ((x : A) → Redirects (k x) (k' x))
      → Redirects (a >>= k) (a' >>= k')
  unfolding ◌>>=◌
  Redirects-bind {a' = a'} {k = k} {k' = k'} p h = record {
    either = λ m. rw (p.same m, ◌>>=◌) (bind_cases k k' (a' m) h);
  }

module _ (s s' : ISeq) (pc n q₀ q : ℕ) (four : 4 ≤ n) (small : pc + n < 2 ^ 64)
    (old : target_before s (pc + n) ≡ some q₀) (new : target_before s' (pc + n) ≡ some q) where
  reads_target :
      (s : ISeq) (q : ℕ)
      → target_before s (pc + n) ≡ some q
      → (d : ℤ) × (read_disp s (pc + (n - 4)) ≡ some d) × (add_disp (pc + n) d ≡ q)
  unfolding target_before sub_usize
  reads_target s q e =
      let place : sub_usize (pc + n) 4 ≡ pc + (n - 4) = ground arith in
      elim (Option-cases (read_disp s (pc + (n - 4)))) [
        | inl z ↦ cc (rw (place, z, target_before) at e)
        | inr (d, z) ↦
            let t : some (add_disp (pc + n) d) ≡ some q = rw (place, z, target_before) at e in
            (d, z, cc t)
      ]

  jmp_cond-Redirects :
      {W : Type 0} (b : Bool) (k : ℕ)
      → k + 4 ≡ n
      → Redirects {W = W} q₀ q (jmp_cond s pc b n k) (jmp_cond s' pc b n k)
  unfolding jmp_cond displacement jump_pc ◌>>=◌ unwrap
  jmp_cond-Redirects true k e = record { either = λ m. inl refl }
  jmp_cond-Redirects false k e =
      let place : n - 4 ≡ k = omega arith in
      let d = reads_target s q₀ old in
      let d' = reads_target s' q new in
      let at = rw place at d.1 in
      let at' = rw place at d'.1 in
      record {
        either = λ m. inr (
          m,
          rw (at, ◌>>=◌, displacement) (ap (λ t. returns (goto t) m) d.2),
          rw (at', ◌>>=◌, displacement) (ap (λ t. returns (goto t) m) d'.2),
        );
      }

ruleset redirects =
    (Redirects-bind, Alike-refl, Alike-path, immediate_same, jmp_cond-Redirects, refl)

pub exec-Redirects :
    {W : Type 0} (o : Executor W) (self_value : ℕ) (s s' : ISeq) (pc q₀ q : ℕ) (i : Inst)
    → is_branch (opcode i) ≡ true
    → SameBytes s s' pc (inst_size i - 4)
    → 4 ≤ inst_size i
    → pc + inst_size i < 2 ^ 64
    → target_before s (pc + inst_size i) ≡ some q₀
    → target_before s' (pc + inst_size i) ≡ some q
    → Redirects q₀ q (exec o self_value s pc i) (exec o self_value s' pc i)
unfolding exec inst_size opcode is_branch
exec-Redirects o self_value s s' pc q₀ q Inst.jmp_f h bytes four small old new =
    search redirects depth 20
exec-Redirects o self_value s s' pc q₀ q Inst.jmp_t h bytes four small old new =
    search redirects depth 20
exec-Redirects o self_value s s' pc q₀ q Inst.jmp_f_eq h bytes four small old new =
    search redirects depth 20
exec-Redirects o self_value s s' pc q₀ q Inst.jmp_f_ne h bytes four small old new =
    search redirects depth 20
exec-Redirects o self_value s s' pc q₀ q Inst.jmp_f_gt h bytes four small old new =
    search redirects depth 20
exec-Redirects o self_value s s' pc q₀ q Inst.jmp_f_ge h bytes four small old new =
    search redirects depth 20
exec-Redirects o self_value s s' pc q₀ q Inst.jmp_f_lt h bytes four small old new =
    search redirects depth 20
exec-Redirects o self_value s s' pc q₀ q Inst.jmp_f_le h bytes four small old new =
    search redirects depth 20
exec-Redirects o self_value s s' pc q₀ q Inst.jmp_f_eqi h bytes four small old new =
    search redirects depth 20
exec-Redirects o self_value s s' pc q₀ q Inst.jmp_f_nei h bytes four small old new =
    search redirects depth 20
exec-Redirects o self_value s s' pc q₀ q Inst.jmp_f_gti h bytes four small old new =
    search redirects depth 20
exec-Redirects o self_value s s' pc q₀ q Inst.jmp_f_gei h bytes four small old new =
    search redirects depth 20
exec-Redirects o self_value s s' pc q₀ q Inst.jmp_f_lti h bytes four small old new =
    search redirects depth 20
exec-Redirects o self_value s s' pc q₀ q Inst.jmp_f_lei h bytes four small old new =
    search redirects depth 20
exec-Redirects o self_value s s' pc q₀ q _ h bytes four small old new = Redirects-absurd q₀ q _ _ h
