-- ===== src/Codegen/Gen.antt =====
-- src/parse/codegen.rs: `gen` on the nodes of expressions, with `gen_jmp_if_false`, `gen_comp_stmt` and
-- the generators of local variables. What `gen` makes of a node depends on its parts by their code, so the
-- functions here take the generators of the parts.
use ruruby.Prelude.{ℕ, Bool, true, false, not, ◌&&◌, Option, none, some, ◌==◌, if◌then◌else◌}
use ruruby.Prelude.Int.{ℤ, as_i32, as_u32, as_u64}
use ruruby.Prelude.Outcome.{Outcome, ok, err, panic, RubyError, ◌>>=◌}
use ruruby.ISeq.{ISeq, current, push32, write_disp_from_cur}
use ruruby.ISeq.Inst.{Inst}
use ruruby.ISeq.Gen.{op0, op32, emit, Gen}
use ruruby.Codegen.{Node, Nodes, BinOp, UnOp, Codegen, get_local_var, is_cmp_op, is_empty}

abbrev pub Code : Type 0
Code = ISeq → Outcome ISeq

-- One piece of code behind another.
infixr 6 ◌then◌
unfoldable pub ◌then◌ : Code → Code → Code
(a then b) s = a s >>= b

unfoldable pub nothing : Code
nothing s = ok s

unfoldable pub inst0 : Inst → Code
inst0 i s = ok (op0 i s)

unfoldable pub inst32 : Inst → ℕ → Code
inst32 i n s = ok (op32 i n s)

unfoldable pub inst32_32 : Inst → ℕ → ℕ → Code
inst32_32 i n k s = ok (push32 (op32 i n s) k)

unfoldable pub emits : Gen → Code
unfolding emit
emits g s = ok (emit g s)

-- `write_disp_from_cur(src)`.
unfoldable pub lead_here : ℕ → Code
unfolding write_disp_from_cur
lead_here src s = elim (write_disp_from_cur s src) [ none ↦ panic | some s' ↦ ok s' ]

-- The value is popped where it is not used.
unfoldable pub drop_unused : Bool → Code
unfolding nothing emits
drop_unused use_value = if use_value then nothing else emits Gen.pop

-- `*i as i32 as i64 == *i`, and `is_imm_i32`.
unfoldable pub imm_i32 : Node → Option ℤ
imm_i32 (Node.integer i) =
    let n = as_i32 (as_u32 i) in if as_u64 n == as_u64 i then some n else none
imm_i32 _ = none

module _ (g : Codegen) where
  unfoldable pub gen_get_local : ℕ → Code
  unfolding inst32 inst32_32
  gen_get_local id = elim (get_local_var g id) [
    | none ↦ λ s. err RubyError.name
    | some v ↦ if v.0 == 0 then inst32 Inst.get_local v.1 else inst32_32 Inst.get_dynlocal v.1 v.0
  ]

  unfoldable pub gen_set_local : ℕ → Code
  unfolding inst32 inst32_32
  gen_set_local id = elim (get_local_var g id) [
    | none ↦ λ s. panic
    | some v ↦ if v.0 == 0 then inst32 Inst.set_local v.1 else inst32_32 Inst.set_dynlocal v.1 v.0
  ]

  -- `id = id + val`.
  unfoldable pub gen_lvar_addi : ℕ → ℤ → Bool → Code
  unfolding ◌then◌ nothing inst32 inst32_32 emits gen_get_local
  gen_lvar_addi id val use_value = elim (get_local_var g id) [
    | none ↦ λ s. err RubyError.name
    | some v ↦
        if v.0 == 0
        then inst32_32 Inst.lvar_addi v.1 (as_u32 val)
        then (if use_value then gen_get_local id else nothing)
        else inst32_32 Inst.get_dynlocal v.1 v.0
          then inst32 Inst.addi (as_u32 val)
          then (if use_value then emits (Gen.dup 1) else nothing)
          then inst32_32 Inst.set_dynlocal v.1 v.0
  ]

-- The instructions of an operator: on two values, with an immediate, and in a jump if the comparison does
-- not hold.
unfoldable pub inst_of : BinOp → Inst
inst_of BinOp.add = Inst.add
inst_of BinOp.sub = Inst.sub
inst_of BinOp.mul = Inst.mul
inst_of BinOp.div = Inst.div
inst_of BinOp.rem = Inst.rem
inst_of BinOp.exp = Inst.pow
inst_of BinOp.shr = Inst.shr
inst_of BinOp.shl = Inst.shl
inst_of BinOp.bit_and = Inst.band
inst_of BinOp.bit_or = Inst.bor
inst_of BinOp.bit_xor = Inst.bxor
inst_of BinOp.eq = Inst.eq
inst_of BinOp.ne = Inst.ne
inst_of BinOp.teq = Inst.teq
inst_of BinOp.gt = Inst.gt
inst_of BinOp.ge = Inst.ge
inst_of BinOp.lt = Inst.lt
inst_of BinOp.le = Inst.le
inst_of BinOp.cmp = Inst.cmp
inst_of BinOp.land = Inst.jmp_f
inst_of BinOp.lor = Inst.jmp_t

unfoldable pub has_imm : BinOp → Bool
has_imm BinOp.add = true
has_imm BinOp.sub = true
has_imm BinOp.bit_and = true
has_imm BinOp.bit_or = true
has_imm BinOp.eq = true
has_imm BinOp.ne = true
has_imm BinOp.gt = true
has_imm BinOp.ge = true
has_imm BinOp.lt = true
has_imm BinOp.le = true
has_imm _ = false

unfoldable pub imm_inst_of : BinOp → Inst
imm_inst_of BinOp.add = Inst.addi
imm_inst_of BinOp.sub = Inst.subi
imm_inst_of BinOp.bit_and = Inst.b_andi
imm_inst_of BinOp.bit_or = Inst.b_ori
imm_inst_of BinOp.eq = Inst.eqi
imm_inst_of BinOp.ne = Inst.nei
imm_inst_of BinOp.gt = Inst.gti
imm_inst_of BinOp.ge = Inst.gei
imm_inst_of BinOp.lt = Inst.lti
imm_inst_of _ = Inst.lei

unfoldable pub jump_inst_of : BinOp → Inst
jump_inst_of BinOp.eq = Inst.jmp_f_eq
jump_inst_of BinOp.ne = Inst.jmp_f_ne
jump_inst_of BinOp.ge = Inst.jmp_f_ge
jump_inst_of BinOp.gt = Inst.jmp_f_gt
jump_inst_of BinOp.le = Inst.jmp_f_le
jump_inst_of _ = Inst.jmp_f_lt

unfoldable pub jump_imm_inst_of : BinOp → Inst
jump_imm_inst_of BinOp.eq = Inst.jmp_f_eqi
jump_imm_inst_of BinOp.ne = Inst.jmp_f_nei
jump_imm_inst_of BinOp.ge = Inst.jmp_f_gei
jump_imm_inst_of BinOp.gt = Inst.jmp_f_gti
jump_imm_inst_of BinOp.le = Inst.jmp_f_lei
jump_imm_inst_of _ = Inst.jmp_f_lti

-- The right operand as an immediate, where the operator has such an instruction.
unfoldable pub immediate_operand : BinOp → Option ℤ → Option ℤ
unfolding has_imm
immediate_operand op imm = if has_imm op then imm else none

module _ (lhs rhs : Code) where
  -- `binop!` and `binop_imm!`.
  unfoldable pub gen_operator : BinOp → Option ℤ → Code
  unfolding ◌then◌ inst0 inst32 inst_of imm_inst_of
  gen_operator op none = lhs then rhs then inst0 (inst_of op)
  gen_operator op (some i) = lhs then inst32 (imm_inst_of op) (as_u32 i)

  -- `&&` and `||`: the value of the left operand is kept if it decides.
  unfoldable pub gen_logical : Code → Gen → Code
  unfolding ◌then◌ emits lead_here
  gen_logical replace jump s = (lhs then replace then emits (Gen.dup 1) then emits jump) s >>= λ s1.
      (emits Gen.pop then rhs) s1 >>= lead_here (current s1)

  unfoldable pub gen_bin_op : BinOp → Option ℤ → Code
  unfolding inst0 nothing gen_operator gen_logical immediate_operand
  gen_bin_op BinOp.land imm = gen_logical (inst0 Inst.rep_uninit) Gen.jmp_if_f
  gen_bin_op BinOp.lor imm = gen_logical nothing Gen.jmp_if_t
  gen_bin_op op imm = gen_operator op (immediate_operand op imm)

  -- A comparison in a condition.
  unfoldable pub gen_jmp_compare : BinOp → Option ℤ → Code
  unfolding ◌then◌ inst32 inst32_32 jump_inst_of jump_imm_inst_of
  gen_jmp_compare op none = lhs then rhs then inst32 (jump_inst_of op) 0
  gen_jmp_compare op (some i) = lhs then inst32_32 (jump_imm_inst_of op) (as_u32 i) 0

unfoldable pub gen_un_op : Code → UnOp → Code
unfolding ◌then◌ inst0
gen_un_op lhs UnOp.bit_not = lhs then inst0 Inst.bnot
gen_un_op lhs UnOp.not = lhs then inst0 Inst.not_inst
gen_un_op lhs UnOp.neg = lhs then inst0 Inst.neg
gen_un_op lhs UnOp.pos = lhs

-- A conditional. `else_code` is none where no code is made for the `else` part.
unfoldable pub gen_if : Code → Code → Option Code → Code
unfolding emits lead_here
gen_if cond then_code none s = cond s >>= λ s1. then_code s1 >>= lead_here (current s1)
gen_if cond then_code (some else_code) s = cond s >>= λ s1.
    (then_code s1 >>= emits Gen.jmp) >>= λ s2.
    lead_here (current s1) s2 >>= else_code >>= lead_here (current s2)

-- A loop that nothing breaks: the jump behind it leads over the `POP` of a value that only a `break`
-- leaves.
unfoldable pub gen_while : Code → Code → Bool → Code
unfolding emits lead_here nothing ◌then◌
gen_while cond body use_value s = cond s >>= λ s1.
    body s1 >>= emits (Gen.jmp_back (current s)) >>= lead_here (current s1) >>= λ s2.
    ((if use_value then emits Gen.push_nil else nothing) then emits Gen.jmp) s2 >>= λ s3.
    (if use_value then nothing else emits Gen.pop) s3 >>= lead_here (current s3)

-- The code of a node, its value used or not, and that of the node as a condition.
pub record Gens : Type 0 where
  pub gen : Bool → Code
  pub gen_jmp_if_false : Code

-- A node that is no comparison is a condition by its value.
unfoldable pub by_value : (Bool → Code) → Gens
unfolding ◌then◌ emits
by_value gen = record { gen = gen; gen_jmp_if_false = gen true then emits Gen.jmp_if_f }

-- A constant, for which there is no code where its value is not used.
unfoldable pub constant : Code → Bool → Code
unfolding nothing
constant code use_value = if use_value then code else nothing

-- `id = id + val`, else the operands.
unfoldable pub lvar_add : ℕ → Node → Option ℤ
unfolding imm_i32
lvar_add id (Node.bin_op BinOp.add (Node.local_var id') rhs) =
    if id == id' then imm_i32 rhs else none
lvar_add id _ = none

module _ (g : Codegen) where
  -- `gen_assign2` of a local variable, with `gen_assign_val`.
  unfoldable pub gen_assign_local : ℕ → Code → Option ℤ → Bool → Code
  unfolding ◌then◌ nothing emits gen_set_local gen_lvar_addi
  gen_assign_local id rhs (some i) use_value = gen_lvar_addi g id i use_value
  gen_assign_local id rhs none use_value =
      rhs then (if use_value then emits (Gen.dup 1) else nothing) then gen_set_local g id

  unfoldable mutual
    unfolding ◌then◌ nothing inst0 inst32 emits by_value constant drop_unused imm_i32 is_cmp_op
        is_empty gen_get_local gen_bin_op gen_jmp_compare gen_un_op gen_if gen_while
        gen_assign_local lvar_add

    pub gens : Node → Gens
    gens Node.self_value = by_value (constant (emits Gen.push_self))
    gens Node.nil = by_value (constant (emits Gen.push_nil))
    gens (Node.bool b) = by_value (constant (inst0 (if b then Inst.push_true else Inst.push_false)))
    gens (Node.integer i) = by_value (constant (emits (Gen.fixnum i)))
    gens (Node.symbol id) = by_value (constant (emits (Gen.symbol id)))
    gens (Node.local_var id) = by_value λ use_value. gen_get_local g id then drop_unused use_value
    gens (Node.bin_op op lhs rhs) =
        let l = gens lhs in
        let r = gens rhs in
        let gen : Bool → Code = λ use_value.
          gen_bin_op (l.gen true) (r.gen true) op (imm_i32 rhs) then drop_unused use_value in
        if is_cmp_op op
        then record {
          gen = gen;
          gen_jmp_if_false = gen_jmp_compare (l.gen true) (r.gen true) op (imm_i32 rhs);
        }
        else by_value gen
    gens (Node.un_op op lhs) =
        let l = gens lhs in
        by_value λ use_value. gen_un_op (l.gen true) op then drop_unused use_value
    gens (Node.assign id rhs) =
        let r = gens rhs in by_value (gen_assign_local id (r.gen true) (lvar_add id rhs))
    gens (Node.comp_stmt nodes) = by_value (gen_comp_stmt nodes)
    gens (Node.if_node cond then_ else_) =
        let c = gens cond in
        let t = gens then_ in
        let e = gens else_ in
        by_value λ use_value.
          gen_if c.gen_jmp_if_false (t.gen use_value)
            (if not use_value && is_empty else_ then none else some (e.gen use_value))
    gens (Node.while_node cond body cond_op) =
        let c = gens cond in
        let b = gens body in
        by_value (
          gen_while (if cond_op then c.gen_jmp_if_false else c.gen true then emits Gen.jmp_if_t)
            (b.gen false))

    pub gen_comp_stmt : Nodes → Bool → Code
    gen_comp_stmt Nodes.no_nodes use_value = constant (emits Gen.push_nil) use_value
    gen_comp_stmt (Nodes.node_and node Nodes.no_nodes) use_value = (gens node).gen use_value
    gen_comp_stmt (Nodes.node_and node (Nodes.node_and next nodes)) use_value =
        (gens node).gen false then gen_comp_stmt (Nodes.node_and next nodes) use_value
