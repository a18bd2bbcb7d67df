-- ===== src/ISeq/Chase.antt =====
-- src/vm/iseq.rs: `chase` against a relation that follows jumps, and what a rewriting step of
-- `optimize` does.
use ruruby.Prelude.{
  ℕ, zero, suc, ◌+◌, ◌⊎◌, ap, ◌<◌, ◌≡◌, ◌≢◌, refl, Bool, true, false, some, arith, if◌then◌else◌,
  get_elem?, Option-cases, Bool-cases, inl, inr, ◌∙◌,
}
use ruruby.Prelude.Int.{ℤ}
use ruruby.ISeq.{ISeq, read_disp, add_disp}
use ruruby.ISeq.Inst.{Inst, opcode}
use ruruby.ISeq.Optimize.{
  Chased, dest, inst, fault, unfinished, is_jump, is_terminator, jump_target, chase,
}

-- A jump at `p` that leads to `q`: an unconditional one, whose displacement stands behind its opcode and
-- counts from the end of its five bytes.
pub record JumpAt (s : ISeq) (p q : ℕ) : Type 0 where
  pub op : ℕ
  pub at : get_elem? s p ≡ some op
  pub jumps : (op ≡ opcode Inst.jmp) ⊎ (op ≡ opcode Inst.jmp_back)
  pub disp : ℤ
  pub read : read_disp s (p + 1) ≡ some disp
  pub leads : add_disp (p + 5) disp ≡ q

-- `n` jumps in a row lead from a position to another.
pub data Hops (s : ISeq) : ℕ → ℕ → ℕ → Type 0 where
  here : {p : ℕ} → Hops s p p zero
  hop : {p q r n : ℕ} → JumpAt s p q → Hops s q r n → Hops s p r (suc n)

-- The instruction at `q` is `b`, and no unconditional jump.
pub record StopsAt (s : ISeq) (q b : ℕ) : Type 0 where
  pub at : get_elem? s q ≡ some b
  pub no_jmp : b ≢ opcode Inst.jmp
  pub no_jmp_back : b ≢ opcode Inst.jmp_back

-- The instruction `b` ends a method or a block.
unfoldable pub Leaves : ℕ → Type 0
Leaves b = (b ≡ opcode Inst.return) ⊎ (b ≡ opcode Inst.break) ⊎ (b ≡ opcode Inst.mreturn)

-- What a chase that ends at `b` in position `q` has to answer: `b` itself for an unconditional jump to
-- where a method or a block ends, the position otherwise.
pub record IsAnswer (b q : ℕ) (non_conditional : Bool) (r : Chased) : Type 0 where
  pub ends : non_conditional ≡ true → Leaves b → r ≡ inst b
  pub goes_on :
      b ≢ opcode Inst.return → b ≢ opcode Inst.break → b ≢ opcode Inst.mreturn → r ≡ dest q
  pub conditional : non_conditional ≡ false → r ≡ dest q

-- What the code reads of them.
jump_bytes : (b : ℕ) → is_jump b ≡ true → (b ≡ opcode Inst.jmp) ⊎ (b ≡ opcode Inst.jmp_back)
unfolding is_jump opcode
jump_bytes b h = ground arith

reads_disp :
    (s : ISeq) (p q : ℕ)
    → jump_target s p ≡ some q
    → (d : ℤ) × (read_disp s (p + 1) ≡ some d) × (add_disp (p + 5) d ≡ q)
unfolding jump_target
reads_disp s p q e = elim (Option-cases (read_disp s (p + 1))) [
  | inl n ↦ cc (rw (n, jump_target) at e)
  | inr (d, r) ↦
      let t : some (add_disp (p + 5) d) ≡ some q = rw (r, jump_target) at e in (d, r, cc t)
]

pub jump_at :
    {s : ISeq} {p q b : ℕ}
    → get_elem? s p ≡ some b
    → is_jump b ≡ true
    → jump_target s p ≡ some q
    → JumpAt s p q
jump_at {s = s} {p = p} {q = q} {b = b} at jumps leads =
    let d = reads_disp s p q leads in
    record { op = b; at = at; jumps = jump_bytes b jumps; disp = d.0; read = d.1; leads = d.2 }

pub op-jump_at :
    (s : ISeq) (p q b : ℕ) (at : get_elem? s p ≡ some b) (jumps : is_jump b ≡ true)
    (leads : jump_target s p ≡ some q)
    → (jump_at {s = s} {p = p} {q = q} at jumps leads).op ≡ b
unfolding jump_at
op-jump_at s p q b at jumps leads = refl

pub stop_at : {s : ISeq} {q b : ℕ} → get_elem? s q ≡ some b → is_jump b ≡ false → StopsAt s q b
unfolding is_jump opcode
stop_at at h = record { at = at; no_jmp = λ e. ground arith; no_jmp_back = λ e. ground arith }

JumpAt-is_jump : {s : ISeq} {p q : ℕ} (j : JumpAt s p q) → is_jump j.op ≡ true
unfolding is_jump opcode
JumpAt-is_jump j = elim j.jumps [ inl e ↦ rw e refl | inr e ↦ rw e refl ]

JumpAt-target : {s : ISeq} {p q : ℕ} → JumpAt s p q → jump_target s p ≡ some q
unfolding jump_target
JumpAt-target j = rw (j.read, jump_target) (ap some j.leads)

StopsAt-is_jump : {s : ISeq} {q b : ℕ} → StopsAt s q b → is_jump b ≡ false
unfolding is_jump opcode
StopsAt-is_jump {b = b} t = let h = t.no_jmp in let h' = t.no_jmp_back in ground arith

-- The answer that the code makes.
abbrev pub answer : ℕ → ℕ → Bool → Chased
answer b q non_conditional =
    if is_terminator b then (if non_conditional then inst b else dest q) else dest q

Leaves-is_terminator : (b : ℕ) → Leaves b → is_terminator b ≡ true
unfolding Leaves is_terminator opcode
Leaves-is_terminator b (inl e) = rw e refl
Leaves-is_terminator b (inr (inl e)) = rw e refl
Leaves-is_terminator b (inr (inr e)) = rw e refl

no_terminator :
    (b : ℕ)
    → b ≢ opcode Inst.return
    → b ≢ opcode Inst.break
    → b ≢ opcode Inst.mreturn
    → is_terminator b ≡ false
unfolding is_terminator opcode
no_terminator b h h' h'' = ground arith

answer-IsAnswer : (b q : ℕ) (nc : Bool) → IsAnswer b q nc (answer b q nc)
answer-IsAnswer b q nc = record {
  ends = λ e l. rw (Leaves-is_terminator b l, e) refl;
  goes_on = λ h h' h''. rw (no_terminator b h h' h'') refl;
  conditional =
      λ e. rw e (elim (Bool-cases (is_terminator b)) [ inl t ↦ rw t refl | inr t ↦ rw t refl ]);
}

chase_step :
    (fuel : ℕ) (s : ISeq) (p q : ℕ) (nc : Bool)
    → JumpAt s p q
    → chase (suc fuel) s p nc ≡ chase fuel s q nc
unfolding chase
chase_step fuel s p q nc j = rw (j.at, JumpAt-is_jump j, JumpAt-target j, chase)

chase_stop :
    (fuel : ℕ) (s : ISeq) (q b : ℕ) (nc : Bool)
    → StopsAt s q b
    → chase (suc fuel) s q nc ≡ answer b q nc
unfolding chase
chase_stop fuel s q b nc t = rw (t.at, StopsAt-is_jump t, chase)

pub chase-answer :
    {s : ISeq} {p q n : ℕ} (fuel b : ℕ) (nc : Bool)
    → Hops s p q n
    → StopsAt s q b
    → n < fuel
    → chase fuel s p nc ≡ answer b q nc
chase-answer zero b nc h t l = absurd (omega arith)
chase-answer {s} {q = q} (suc fuel) b nc here t l = chase_stop fuel s q b nc t
chase-answer (suc fuel) b nc (hop j h) t l =
    rw (chase_step fuel _ _ _ nc j) (chase-answer fuel b nc h t (omega arith))

-- Where `n` jumps in a row end at an instruction that is none, a chase on more than `n` fuel finds
-- it: its opcode for an unconditional jump to where a method or a block ends, its position otherwise.
pub chase_finds :
    {s : ISeq} {p q n : ℕ} (fuel b : ℕ) (nc : Bool)
    → Hops s p q n
    → StopsAt s q b
    → n < fuel
    → IsAnswer b q nc (chase fuel s p nc)
chase_finds fuel b nc h t l = rw (chase-answer fuel b nc h t l) (answer-IsAnswer b _ nc)

-- How a chase from `p` ended.
pub record Found (s : ISeq) (p : ℕ) (nc : Bool) (r : Chased) : Type 0 where
  pub count : ℕ
  pub place : ℕ
  pub op : ℕ
  pub hops : Hops s p place count
  pub stop : StopsAt s place op
  pub answers : IsAnswer op place nc r

Found-step :
    {s : ISeq} {p q : ℕ} {nc : Bool} {r : Chased} → JumpAt s p q → Found s q nc r → Found s p nc r
Found-step j f = record {
  count = suc f.count;
  place = f.place;
  op = f.op;
  hops = hop j f.hops;
  stop = f.stop;
  answers = f.answers;
}

-- An answer of `chase`, where it does not panic and has fuel enough to end, is right: jumps in a
-- row lead to an instruction that is no jump, and the answer is that instruction's.
pub chase_sound :
    (fuel : ℕ) (s : ISeq) (p : ℕ) (nc : Bool)
    → chase fuel s p nc ≢ fault
    → chase fuel s p nc ≢ unfinished
    → Found s p nc (chase fuel s p nc)
chase_sound zero s p nc nf nu = absurd (nu (unfold chase in refl))
chase_sound (suc fuel) s p nc nf nu = elim (Option-cases (get_elem? s p)) [
  | inl e ↦ absurd (nf (unfold chase in rw (e, chase)))
  | inr (b, at) ↦ elim (Bool-cases (is_jump b)) [
    | inr stop ↦
        let t : StopsAt s p b = stop_at at stop in
        record {
          count = 0;
          place = p;
          op = b;
          hops = here;
          stop = t;
          answers = rw (chase_stop fuel s p b nc t) (answer-IsAnswer b p nc);
        }
    | inl jump ↦ elim (Option-cases (jump_target s p)) [
      | inl e ↦ absurd (nf (unfold chase in rw (at, jump, e, chase)))
      | inr (q, leads) ↦
          let j : JumpAt s p q = jump_at at jump leads in
          let e = chase_step fuel s p q nc j in
          rw e (Found-step j (chase_sound fuel s q nc (λ h. nf (e ∙ h)) (λ h. nu (e ∙ h))))
    ]
  ]
]
