-- ===== src/ISeq/Optimize.antt =====
-- src/vm/iseq.rs: `optimize` and `chase`, which make a jump to a jump go straight to the end.
use ruruby.Prelude.{
  ℕ, zero, suc, ◌+◌, Bool, true, false, ◌||◌, Option, none, some, ltb, ◌==◌, if◌then◌else◌, length,
  set, get_elem?,
}
use ruruby.ISeq.{ISeq, add_disp, sub_usize, read_disp, write_disp}
use ruruby.ISeq.Inst.{Inst, opcode, decode, inst_size}

-- `Inst::inst_size` of a byte; `none` is the panic on an unknown opcode.
unfoldable pub size_of : ℕ → Option ℕ
size_of b = elim (decode b) [ none ↦ none | some i ↦ some (inst_size i) ]

unfoldable pub is_jump : ℕ → Bool
unfolding opcode
is_jump b = b == opcode Inst.jmp || b == opcode Inst.jmp_back

unfoldable pub is_terminator : ℕ → Bool
unfolding opcode
is_terminator b = b == opcode Inst.return || b == opcode Inst.break || b == opcode Inst.mreturn

-- The conditional jumps of `optimize`.
unfoldable pub is_branch : ℕ → Bool
unfolding opcode
is_branch b =
    b == opcode Inst.jmp_t
    || b == opcode Inst.jmp_f
    || b == opcode Inst.jmp_f_eq
    || b == opcode Inst.jmp_f_ne
    || b == opcode Inst.jmp_f_gt
    || b == opcode Inst.jmp_f_ge
    || b == opcode Inst.jmp_f_lt
    || b == opcode Inst.jmp_f_le
    || b == opcode Inst.jmp_f_eqi
    || b == opcode Inst.jmp_f_nei
    || b == opcode Inst.jmp_f_gti
    || b == opcode Inst.jmp_f_gei
    || b == opcode Inst.jmp_f_lti
    || b == opcode Inst.jmp_f_lei

-- `DestKind`, with what else can happen to `chase`: a panic, or, on fuel, no answer yet. A cycle of
-- jumps is chased for ever.
pub data Chased : Type 0 where
  dest : ℕ → Chased
  inst : ℕ → Chased
  fault : Chased
  unfinished : Chased

-- One jump: where the jump at `p` leads.
unfoldable pub jump_target : ISeq → ℕ → Option ℕ
jump_target s p = elim (read_disp s (p + 1)) [ none ↦ none | some d ↦ some (add_disp (p + 5) d) ]

unfoldable pub chase : ℕ → ISeq → ℕ → Bool → Chased
chase zero s p non_conditional = Chased.unfinished
chase (suc fuel) s p non_conditional = elim (get_elem? s p) [
  | none ↦ Chased.fault
  | some b ↦ elim (is_jump b) [
    | true ↦ elim (jump_target s p) [
      | none ↦ Chased.fault
      | some q ↦ chase fuel s q non_conditional
    ]
    | false ↦
        if is_terminator b
        then (if non_conditional then Chased.inst b else Chased.dest p)
        else Chased.dest p
  ]
]

-- The result of a rewriting step: the buffer, or no buffer for a panic and for a chase that has
-- no end. The loop on fuel can also run out of rounds.
pub data Rewritten : Type 0 where
  code : ISeq → Rewritten
  panicked : Rewritten
  diverged : Rewritten
  out_of_rounds : Rewritten

abbrev pub written : Option ISeq → Rewritten
written none = Rewritten.panicked
written (some s) = Rewritten.code s

-- `self[pos] = b; …; self[pos + 4] = b`.
abbrev pub set5 : ISeq → ℕ → ℕ → ISeq
set5 s p b = set (set (set (set (set s p b) (p + 1) b) (p + 2) b) (p + 3) b) (p + 4) b

-- The rewriting of an unconditional jump at `p`, whose instruction ends at `next`.
unfoldable pub rewrite_jump : ISeq → ℕ → ℕ → Chased → Rewritten
rewrite_jump s p next (Chased.dest q) = written (write_disp s next q)
rewrite_jump s p next (Chased.inst b) =
    if ltb (p + 4) (length s) then Rewritten.code (set5 s p b) else Rewritten.panicked
rewrite_jump s p next Chased.fault = Rewritten.panicked
rewrite_jump s p next Chased.unfinished = Rewritten.diverged

-- Of a conditional jump; a terminator is unreachable.
unfoldable pub rewrite_branch : ISeq → ℕ → Chased → Rewritten
rewrite_branch s next (Chased.dest q) = written (write_disp s next q)
rewrite_branch s next (Chased.inst b) = Rewritten.panicked
rewrite_branch s next Chased.fault = Rewritten.panicked
rewrite_branch s next Chased.unfinished = Rewritten.diverged

-- `next_pos + self.read_disp(next_pos - 4)`.
unfoldable pub target_before : ISeq → ℕ → Option ℕ
target_before s next = elim (read_disp s (sub_usize next 4)) [
  | none ↦ none
  | some d ↦ some (add_disp next d)
]

-- The body of the loop at a position that holds `b`, an instruction of `n` bytes.
unfoldable pub rewrite_at : ℕ → ISeq → ℕ → ℕ → ℕ → Rewritten
rewrite_at fuel s p b n =
    if is_jump b
    then elim (target_before s (p + n)) [
      | none ↦ Rewritten.panicked
      | some q ↦ rewrite_jump s p (p + n) (chase fuel s q true)
    ]
    else (if is_branch b
        then elim (target_before s (p + n)) [
          | none ↦ Rewritten.panicked
          | some q ↦ rewrite_branch s (p + n) (chase fuel s q false)
        ]
        else Rewritten.code s)

-- The loop of `optimize`, from `p` on, with fuel for the rounds and for each chase.
unfoldable pub optimize_from : ℕ → ℕ → ISeq → ℕ → Rewritten
optimize_from zero fuel s p = Rewritten.out_of_rounds
optimize_from (suc rounds) fuel s p = elim (ltb p (length s)) [
  | false ↦ Rewritten.code s
  | true ↦ elim (get_elem? s p) [
    | none ↦ Rewritten.panicked
    | some b ↦ elim (size_of b) [
      | none ↦ Rewritten.panicked
      | some n ↦ elim (rewrite_at fuel s p b n) [
        | Rewritten.code s' ↦ optimize_from rounds fuel s' (p + n)
        | Rewritten.panicked ↦ Rewritten.panicked
        | Rewritten.diverged ↦ Rewritten.diverged
        | Rewritten.out_of_rounds ↦ Rewritten.out_of_rounds
      ]
    ]
  ]
]

-- A round moves on by at least a byte, so `length s` rounds and one to see the end are enough.
unfoldable pub optimize : ℕ → ISeq → Rewritten
unfolding optimize_from rewrite_at rewrite_jump rewrite_branch target_before is_branch is_jump
    is_terminator size_of chase
optimize fuel s = optimize_from (suc (length s)) fuel s 0
