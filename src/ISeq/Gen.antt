-- ===== src/ISeq/Gen.antt =====
-- src/vm/iseq.rs (`gen_*`) and the generators of src/parse/codegen.rs that only push: each appends
-- one instruction, the opcode and its operands.
use ruruby.Prelude.{ℕ, ◌^◌, ltb, Bool, Option, none, some, if◌then◌else◌}
use ruruby.Prelude.Int.{ℤ, negsuc, as_u32, as_u64, ◌+ℤ◌}
use ruruby.ISeq.{ISeq, current, disp_to, push, push32, push64}
use ruruby.ISeq.Inst.{Inst, opcode}

-- `self.push(op); self.push32(n)` and the like.
abbrev pub op0 : Inst → ISeq → ISeq
op0 i s = push s (opcode i)

abbrev pub op32 : Inst → ℕ → ISeq → ISeq
op32 i n s = push32 (op0 i s) n

-- What appends one instruction.
pub data Gen : Type 0 where
  push_nil push_self create_regexp set_array_elem splat return break method_return pop : Gen
  fixnum subi : ℤ → Gen
  const_val symbol create_array create_hash get_ivar set_ivar get_gvar set_gvar set_const : ℕ → Gen
  dup sinkn topn take concat : ℕ → Gen
  jmp_if_f jmp_if_t jmp : Gen
  jmp_back opt_case opt_case2 : ℕ → Gen
  ivar_addi : ℕ → ℕ → Gen

-- `gen_jmp_back`: the displacement is computed before the opcode is pushed.
unfoldable pub gen_jmp_back : ℕ → ISeq → ISeq
gen_jmp_back dest s =
    let disp = disp_to (current s) dest +ℤ negsuc 4 in op32 Inst.jmp_back (as_u32 disp) s

unfoldable pub emit : Gen → ISeq → ISeq
unfolding gen_jmp_back
emit push_nil s = op0 Inst.push_nil s
emit push_self s = op0 Inst.push_self s
emit create_regexp s = op0 Inst.create_regexp s
emit set_array_elem s = op0 Inst.set_index s
emit splat s = op0 Inst.splat s
emit return s = op0 Inst.return s
emit break s = op0 Inst.break s
emit method_return s = op0 Inst.mreturn s
emit pop s = op0 Inst.pop s
emit (fixnum i) s = push64 (op0 Inst.push_fixnum s) (as_u64 i)
emit (subi i) s = op32 Inst.subi (as_u32 i) s
emit (const_val id) s = op32 Inst.const_val id s
emit (symbol id) s = op32 Inst.push_symbol id s
emit (create_array n) s = op32 Inst.create_array n s
emit (create_hash n) s = op32 Inst.create_hash n s
emit (get_ivar id) s = op32 Inst.get_ivar id s
emit (set_ivar id) s = op32 Inst.set_ivar id s
emit (get_gvar id) s = op32 Inst.get_gvar id s
emit (set_gvar id) s = op32 Inst.set_gvar id s
emit (set_const id) s = op32 Inst.set_const id s
emit (dup n) s = op32 Inst.dup n s
emit (sinkn n) s = op32 Inst.sinkn n s
emit (topn n) s = op32 Inst.topn n s
emit (take n) s = op32 Inst.take n s
emit (concat n) s = op32 Inst.concat_string n s
emit jmp_if_f s = op32 Inst.jmp_f 0 s
emit jmp_if_t s = op32 Inst.jmp_t 0 s
emit jmp s = op32 Inst.jmp 0 s
emit (jmp_back dest) s = gen_jmp_back dest s
emit (opt_case id) s = push32 (op32 Inst.opt_case id s) 0
emit (opt_case2 id) s = push32 (op32 Inst.opt_case2 id s) 0
emit (ivar_addi id val) s = push32 (op32 Inst.ivar_addi id s) val

-- `gen_const_val`: an id above those of 32 bits is a panic, `none`.
unfoldable gen_const_val : ℕ → ISeq → Option ISeq
unfolding emit
gen_const_val id s = if ltb id (2 ^ 32) then some (emit (const_val id) s) else none

-- `gen_ivar_addi`: the sum is read back if it is used.
unfoldable gen_ivar_addi : ℕ → ℕ → Bool → ISeq → ISeq
unfolding emit
gen_ivar_addi id val use_value s =
    let sum = emit (ivar_addi id val) s in if use_value then emit (get_ivar id) sum else sum

-- The instruction that a call appends.
unfoldable pub head : Gen → Inst
head push_nil = Inst.push_nil
head push_self = Inst.push_self
head create_regexp = Inst.create_regexp
head set_array_elem = Inst.set_index
head splat = Inst.splat
head return = Inst.return
head break = Inst.break
head method_return = Inst.mreturn
head pop = Inst.pop
head (fixnum i) = Inst.push_fixnum
head (subi i) = Inst.subi
head (const_val id) = Inst.const_val
head (symbol id) = Inst.push_symbol
head (create_array n) = Inst.create_array
head (create_hash n) = Inst.create_hash
head (get_ivar id) = Inst.get_ivar
head (set_ivar id) = Inst.set_ivar
head (get_gvar id) = Inst.get_gvar
head (set_gvar id) = Inst.set_gvar
head (set_const id) = Inst.set_const
head (dup n) = Inst.dup
head (sinkn n) = Inst.sinkn
head (topn n) = Inst.topn
head (take n) = Inst.take
head (concat n) = Inst.concat_string
head jmp_if_f = Inst.jmp_f
head jmp_if_t = Inst.jmp_t
head jmp = Inst.jmp
head (jmp_back dest) = Inst.jmp_back
head (opt_case id) = Inst.opt_case
head (opt_case2 id) = Inst.opt_case2
head (ivar_addi id val) = Inst.ivar_addi
