-- ===== src/Vm/Advance.antt =====
-- src/vm/executor/opt_core.rs: how far each arm of the loop moves the program counter.
use ruruby.Prelude.{
  ℕ, ◌+◌, ◌-◌, ◌≡◌, ◌⊎◌, inl, inr, refl, some, Option-cases, get_elem?, subst, Bool, true, false,
  if◌then◌else◌,
}
use ruruby.Prelude.Int.{ℤ}
use ruruby.ISeq.{ISeq, add_disp, read_disp}
use ruruby.ISeq.Inst.{Inst, inst_size, decode}
use ruruby.Vm.{
  Memory, Exec, Ended, returns, raises, panics, RubyErrorKind, ◌>>=◌, pure, raise, stack_push,
  stack_pop, unwrap,
}
use ruruby.Vm.Executor.{Executor}
use ruruby.Vm.Arm.{
  Next, goto, finished, displacement, jmp_cond, advance, push_advance, jump_pc, settle, try_push,
  try_no_push, is_method, return_if_method,
}
use ruruby.Vm.Run.{exec, step}

module _ {W : Type 0} (P : ℕ → Type 0) where
  -- An arm that goes on goes on where `P` holds.
  abbrev GoesTo : Ended (Memory W) Next → Type 0
  GoesTo (returns (goto q) m) = P q
  GoesTo _ = Unit

  pub record AllGoTo (a : Exec (Memory W) Next) : Type 0 where
    pub goes : (m : Memory W) → GoesTo (a m)

  bind-GoesTo :
      {A : Type 0} (k : A → Exec (Memory W) Next) (r : Ended (Memory W) A)
      → ((x : A) → AllGoTo (k x))
      → GoesTo (elim r [ returns x m ↦ k x m | raises e m ↦ raises e m | panics ↦ panics ])
  bind-GoesTo k (returns x m) h = (h x).goes m
  bind-GoesTo k (raises e m) h = tt
  bind-GoesTo k panics h = tt

  pub AllGoTo-bind :
      {A : Type 0} (a : Exec (Memory W) A) {k : A → Exec (Memory W) Next}
      → ((x : A) → AllGoTo (k x))
      → AllGoTo (a >>= k)
  unfolding ◌>>=◌
  AllGoTo-bind a {k = k} h = record { goes = λ m. bind-GoesTo k (a m) h }

  pub AllGoTo-raise : {e : RubyErrorKind} → AllGoTo (raise e)
  AllGoTo-raise = record { goes = λ m. tt }

  pub AllGoTo-finished : AllGoTo (pure finished)
  AllGoTo-finished = record { goes = λ m. tt }

  pub AllGoTo-if :
      (b : Bool) {x y : Exec (Memory W) Next} → AllGoTo x → AllGoTo y → AllGoTo (if b then x else y)
  AllGoTo-if true p q = p
  AllGoTo-if false p q = q

  settle-GoesTo :
      (k : Exec (Memory W) Next)
      → AllGoTo k
      → (r : Ended (Memory W) (Unit {0})) → GoesTo (settle k r)
  unfolding settle
  settle-GoesTo k h (returns u m) = h.goes m
  settle-GoesTo k h (raises RubyErrorKind.block_return m) = h.goes m
  settle-GoesTo k h (raises RubyErrorKind.method_return m) =
      let r : AllGoTo (is_method >>= return_if_method) =
        AllGoTo-bind _ λ b. AllGoTo-if b AllGoTo-finished AllGoTo-raise in
      r.goes m
  settle-GoesTo k h (raises _ m) = tt
  settle-GoesTo k h panics = tt

  pub AllGoTo-try_push :
      (call : Exec (Memory W) (Unit {0})) {k : Exec (Memory W) Next}
      → AllGoTo k
      → AllGoTo (try_push call k)
  unfolding try_push
  AllGoTo-try_push call {k = k} h = record { goes = λ m. settle-GoesTo k h (call m) }

  pub AllGoTo-try_no_push :
      (call : Exec (Memory W) (Unit {0})) {k : Exec (Memory W) Next}
      → AllGoTo k
      → AllGoTo (try_no_push call k)
  unfolding try_no_push
  AllGoTo-try_no_push call {k = k} h = record {
    goes = λ m. settle-GoesTo (stack_pop >>= λ val. k) (AllGoTo-bind _ λ val. h) (call m);
  }

  pub advance-AllGoTo : (pc n : ℕ) → P (pc + n) → AllGoTo (advance pc n)
  unfolding advance
  advance-AllGoTo pc n h = record { goes = λ m. h }

  pub push_advance-AllGoTo : (pc n val : ℕ) → P (pc + n) → AllGoTo (push_advance pc n val)
  unfolding push_advance stack_push ◌>>=◌
  push_advance-AllGoTo pc n val h = record { goes = λ m. h }

  pub jump_pc-AllGoTo : (pc n : ℕ) (d : ℤ) → P (add_disp (pc + n) d) → AllGoTo (jump_pc pc n d)
  unfolding jump_pc
  jump_pc-AllGoTo pc n d h = record { goes = λ m. h }

-- How an instruction can go on.
pub data Way : Type 0 where
  onward : Way
  jumping : Way
  branching : Way
  choosing : Way

unfoldable pub way : Inst → Way
way Inst.jmp = Way.jumping
way Inst.jmp_back = Way.jumping
way Inst.jmp_f = Way.branching
way Inst.jmp_t = Way.branching
way Inst.jmp_f_eq = Way.branching
way Inst.jmp_f_ne = Way.branching
way Inst.jmp_f_gt = Way.branching
way Inst.jmp_f_ge = Way.branching
way Inst.jmp_f_lt = Way.branching
way Inst.jmp_f_le = Way.branching
way Inst.jmp_f_eqi = Way.branching
way Inst.jmp_f_nei = Way.branching
way Inst.jmp_f_gti = Way.branching
way Inst.jmp_f_gei = Way.branching
way Inst.jmp_f_lti = Way.branching
way Inst.jmp_f_lei = Way.branching
way Inst.opt_case = Way.choosing
way Inst.opt_case2 = Way.choosing
way _ = Way.onward

-- As far behind an instruction of `n` bytes at `pc` as its last four bytes say.
abbrev pub Displaced : ISeq → ℕ → ℕ → ℕ → Type 0
Displaced iseq pc n q =
    (d : ℤ) × (read_disp iseq (pc + (n - 4)) ≡ some d) × (q ≡ add_disp (pc + n) d)

-- Where an instruction of `n` bytes at `pc` goes on. A dispatch goes on where a table says.
abbrev pub Target : Way → ISeq → ℕ → ℕ → ℕ → Type 0
Target Way.onward iseq pc n q = q ≡ pc + n
Target Way.jumping iseq pc n q = Displaced iseq pc n q
Target Way.branching iseq pc n q = (q ≡ pc + n) ⊎ Displaced iseq pc n q
Target Way.choosing iseq pc n q = Unit {0}

module _ {W : Type 0} (P : ℕ → Type 0) (iseq : ISeq) (pc : ℕ) where
  -- A displacement is read, and what follows may use where it was read.
  pub AllGoTo-displacement :
      (k : ℕ) {fin : ℤ → Exec (Memory W) Next}
      → ((d : ℤ) → read_disp iseq (pc + k) ≡ some d → AllGoTo P (fin d))
      → AllGoTo P (displacement iseq pc k >>= fin)
  unfolding displacement unwrap ◌>>=◌
  AllGoTo-displacement k {fin = fin} h = elim (Option-cases (read_disp iseq (pc + k))) [
    | inl e ↦ record { goes = λ m. rw e tt }
    | inr (d, e) ↦ record { goes = λ m. rw e ((h d e).goes m) }
  ]

  -- A conditional jump.
  pub AllGoTo-jmp_cond :
      (cond : Bool) (n k : ℕ)
      → P (pc + n)
      → ((d : ℤ) → read_disp iseq (pc + k) ≡ some d → P (add_disp (pc + n) d))
      → AllGoTo P (jmp_cond {W = W} iseq pc cond n k)
  unfolding jmp_cond
  AllGoTo-jmp_cond cond n k h h' =
      AllGoTo-if P cond (advance-AllGoTo P pc n h)
        (AllGoTo-displacement k λ d e. jump_pc-AllGoTo P pc n d (h' d e))

module _ {W : Type 0} (iseq : ISeq) (pc : ℕ) (cond : Bool) where
  branch5-AllGoTo : AllGoTo (Target Way.branching iseq pc 5) (jmp_cond {W = W} iseq pc cond 5 1)
  branch5-AllGoTo =
      AllGoTo-jmp_cond (Target Way.branching iseq pc 5) iseq pc cond 5 1 (inl refl)
        λ d e. inr (d, e, refl)

  branch9-AllGoTo : AllGoTo (Target Way.branching iseq pc 9) (jmp_cond {W = W} iseq pc cond 9 5)
  branch9-AllGoTo =
      AllGoTo-jmp_cond (Target Way.branching iseq pc 9) iseq pc cond 9 5 (inl refl)
        λ d e. inr (d, e, refl)

ruleset advances = (
  branch5-AllGoTo, branch9-AllGoTo, AllGoTo-bind, AllGoTo-if, AllGoTo-raise, AllGoTo-finished,
  AllGoTo-try_push, AllGoTo-try_no_push, advance-AllGoTo, push_advance-AllGoTo, refl,
)

module _ {W : Type 0} (o : Executor W) (self_value : ℕ) (iseq : ISeq) (pc : ℕ) where
  anywhere : (r : Ended (Memory W) Next) → GoesTo (Target Way.choosing iseq pc 9) r
  anywhere (returns (goto q) m) = tt
  anywhere (returns finished m) = tt
  anywhere (raises e m) = tt
  anywhere panics = tt

  exec-AllGoTo :
      (i : Inst) → AllGoTo (Target (way i) iseq pc (inst_size i)) (exec o self_value iseq pc i)
  unfolding exec way inst_size
  exec-AllGoTo Inst.jmp =
      AllGoTo-displacement _ iseq pc 1 λ d e. jump_pc-AllGoTo _ pc 5 d (d, e, refl)
  exec-AllGoTo Inst.jmp_back =
      AllGoTo-displacement _ iseq pc 1
        λ d e. AllGoTo-bind _ o.gc λ u. jump_pc-AllGoTo _ pc 5 d (d, e, refl)
  exec-AllGoTo Inst.opt_case = record { goes = λ m. anywhere _ }
  exec-AllGoTo Inst.opt_case2 = record { goes = λ m. anywhere _ }
  exec-AllGoTo Inst.push_fixnum = search advances depth 20
  exec-AllGoTo _ = search advances depth 20

  -- Where a round of the loop at an instruction goes on, it goes on behind the instruction, whose length
  -- is the one that `Inst::inst_size` has for it. Only a jump leads elsewhere: the unconditional ones
  -- always, the conditional ones by choice, as far from behind the jump as the displacement in its last
  -- four bytes says. Of the two dispatches of `case` nothing is said.
  pub step-Target :
      (b q : ℕ) (i : Inst) (m m' : Memory W)
      → get_elem? iseq pc ≡ some b
      → decode b ≡ some i
      → step o self_value iseq pc m ≡ returns (goto q) m'
      → Target (way i) iseq pc (inst_size i) q
  unfolding step
  step-Target b q i m m' at d e =
      let e' : exec o self_value iseq pc i m ≡ returns (goto q) m' = rw (at, d, step) at e in
      subst (GoesTo (Target (way i) iseq pc (inst_size i))) e' ((exec-AllGoTo i).goes m)
