-- ===== src/ISeq/Examples.antt =====
-- src/vm/iseq.rs on small pieces of bytecode.
use ruruby.Prelude.{
  ◌+◌, ◌-◌, ◌^◌, ◌%◌, ◌≡◌, ◌≢◌, refl, false, [], ◌∷◌, ◌++◌, some, arith, length, get_elem?, inr,
}
use ruruby.Prelude.Int.{negsuc}
use ruruby.ISeq.{
  ISeq, slice, sub_usize, disp_to, add_disp, read_disp, write_disp, read16, read32, read64, push16,
  push32, push64,
}
use ruruby.ISeq.Inst.{opcode, decode, inst_size}
use ruruby.ISeq.Codec.{read-push}
use ruruby.ISeq.Optimize.{
  Chased, Rewritten, chase, optimize, optimize_from, optimize_from, rewrite_at, target_before,
  is_jump, is_branch, is_terminator, jump_target,
}
use ruruby.ISeq.Chase.{Hops, stop_at, StopsAt, JumpAt, Found, IsAnswer, chase_finds, chase_sound}
use ruruby.ISeq.Rounds.{optimize_from-rounds}
use ruruby.ISeq.Rewrite.{Shortened, KeepsOutside, rewrite_at-jump, rewrite_at-branch}

-- `jmp 5; nil; jmp_f 0; return; jmp 10`, where each displacement counts from behind the jump: the
-- first jump leads to the `return` at 11, and the branch at 6 to the last jump, which leads back to
-- `nil`.
abbrev program : ISeq
program = 100 ∷ 6 ∷ 0 ∷ 0 ∷ 0 ∷ 5 ∷ 102 ∷ 1 ∷ 0 ∷ 0 ∷ 0 ∷ 104 ∷ 101 ∷ 244 ∷ 255 ∷ 255 ∷ 255 ∷ []

abbrev at_return : StopsAt program 11 104
at_return = stop_at refl (unfold is_jump opcode in refl)

abbrev at_nil : StopsAt program 5 5
at_nil = stop_at refl (unfold is_jump opcode in refl)

abbrev back_jump : JumpAt program 12 5
unfolding read32 slice
back_jump = record {
  op = 101;
  at = refl;
  jumps = inr (unfold opcode in refl);
  disp = negsuc 11;
  read = unfold read_disp in refl;
  leads = unfold add_disp in refl;
}

abbrev one_hop : Hops program 12 5 1
one_hop = Hops.hop back_jump Hops.here

read-push_example :
    (read16 (push16 program 70000 ++ program) (length program) ≡ some (70000 % 2 ^ 16))
    × (read32 (push32 program 70000 ++ program) (length program) ≡ some (70000 % 2 ^ 32))
    × (read64 (push64 program 70000 ++ program) (length program) ≡ some (70000 % 2 ^ 64))
read-push_example = read-push program program 70000

chase_finds_example : IsAnswer 5 5 false (chase 2 program 12 false)
chase_finds_example = chase_finds 2 5 false one_hop at_nil (omega arith)

found_nil : chase 2 program 12 false ≡ Chased.dest 5
unfolding chase is_jump opcode jump_target read_disp read32 slice add_disp is_terminator
found_nil = refl

no_fault : chase 2 program 12 false ≢ Chased.fault
no_fault e = cc (e, found_nil)

no_end : chase 2 program 12 false ≢ Chased.unfinished
no_end e = cc (e, found_nil)

chase_sound_example : Found program 12 false (chase 2 program 12 false)
chase_sound_example = chase_sound 2 program 12 false no_fault no_end

rewrite_at-jump_example :
    (s' : ISeq) × (rewrite_at 1 program 0 100 5 ≡ Rewritten.code s')
    × Shortened s' 0 100 11 104
    × KeepsOutside 0 (0 + 5) program s'
unfolding read32 slice sub_usize
rewrite_at-jump_example =
    rewrite_at-jump 1 program 0 100 11 11 104 0 refl Hops.here at_return (omega arith) (omega arith)
      (unfold is_jump opcode in refl) (omega arith)
      (unfold target_before read_disp add_disp in refl)

rewrite_at-branch_example :
    (s' : ISeq) × (rewrite_at 2 program 6 102 5 ≡ Rewritten.code s')
    × (get_elem? s' 6 ≡ some 102)
    × (target_before s' (6 + 5) ≡ some 5)
    × KeepsOutside (6 + 5 - 4) (6 + 5) program s'
unfolding read32 slice sub_usize
rewrite_at-branch_example =
    rewrite_at-branch 2 program 6 102 12 5 5 1 refl one_hop at_nil (omega arith) (omega arith) 5
      (omega arith) (unfold is_jump opcode in refl) (unfold is_branch opcode in refl) (omega arith)
      (unfold target_before read_disp add_disp in refl)

optimize_from-rounds_example : optimize_from 19 2 program 0 ≢ Rewritten.out_of_rounds
optimize_from-rounds_example = optimize_from-rounds 19 2 program 0 (omega arith) (omega arith)

-- The jump at 0 becomes five `return`s, and the branch at 6 goes to `nil`; the jump at 12 stays.
optimized :
    optimize 2 program
    ≡ Rewritten.code (
        104 ∷ 104 ∷ 104 ∷ 104 ∷ 104 ∷ 5 ∷ 102 ∷ 250 ∷ 255 ∷ 255 ∷ 255 ∷ 104 ∷ 101 ∷ 244 ∷ 255 ∷ 255
        ∷ 255 ∷ [])
unfolding optimize decode read_disp read32 slice sub_usize inst_size add_disp jump_target write_disp
    disp_to
optimized = refl
