-- ===== src/ISeq/Inst.antt =====
-- src/vm/vm_inst.rs: the instructions, their opcodes and their sizes in bytes.
use ruruby.Prelude.{ℕ, ◌≡◌, refl, List, [], ◌∷◌, Option, none, some, ◌==◌, if◌then◌else◌}

pub data Inst : Type 0 where
  push_fixnum push_flonum push_true push_false push_nil push_symbol push_self : Inst
  create_range create_array create_proc create_hash create_regexp const_val set_local : Inst
  get_local set_dynlocal get_dynlocal get_const set_const get_const_top get_scope : Inst
  get_ivar set_ivar get_gvar set_gvar get_cvar set_cvar get_index set_index get_idx_i : Inst
  set_idx_i check_local check_const check_ivar check_gvar send send_self opt_send : Inst
  opt_send_self opt_nsend opt_nsend_self for pop dup take splat concat_string to_s sinkn : Inst
  topn rep_uninit def_class def_sclass def_method def_smethod jmp jmp_back jmp_f jmp_t : Inst
  return break opt_case mreturn yield rescue throw opt_case2 add sub mul div rem eq ne : Inst
  teq gt ge lt le not_inst shr shl bor band bxor bnot pow cmp neg addi subi eqi nei gti : Inst
  gei lti lei b_andi b_ori ivar_addi lvar_addi jmp_f_eq jmp_f_ne jmp_f_gt jmp_f_ge : Inst
  jmp_f_lt jmp_f_le jmp_f_eqi jmp_f_nei jmp_f_gti jmp_f_gei jmp_f_lti jmp_f_lei : Inst

-- `Inst::X` as a `u8`.
unfoldable pub opcode : Inst → ℕ
opcode push_fixnum = 1
opcode push_flonum = 2
opcode push_true = 3
opcode push_false = 4
opcode push_nil = 5
opcode push_symbol = 7
opcode push_self = 8
opcode create_range = 10
opcode create_array = 11
opcode create_proc = 12
opcode create_hash = 13
opcode create_regexp = 14
opcode const_val = 15
opcode set_local = 30
opcode get_local = 31
opcode set_dynlocal = 32
opcode get_dynlocal = 33
opcode get_const = 34
opcode set_const = 35
opcode get_const_top = 36
opcode get_scope = 37
opcode get_ivar = 38
opcode set_ivar = 39
opcode get_gvar = 40
opcode set_gvar = 41
opcode get_cvar = 42
opcode set_cvar = 43
opcode get_index = 52
opcode set_index = 53
opcode get_idx_i = 54
opcode set_idx_i = 55
opcode check_local = 56
opcode check_const = 57
opcode check_ivar = 58
opcode check_gvar = 59
opcode send = 60
opcode send_self = 61
opcode opt_send = 66
opcode opt_send_self = 67
opcode opt_nsend = 68
opcode opt_nsend_self = 69
opcode for = 70
opcode pop = 80
opcode dup = 81
opcode take = 82
opcode splat = 83
opcode concat_string = 84
opcode to_s = 85
opcode sinkn = 86
opcode topn = 87
opcode rep_uninit = 88
opcode def_class = 90
opcode def_sclass = 91
opcode def_method = 92
opcode def_smethod = 93
opcode jmp = 100
opcode jmp_back = 101
opcode jmp_f = 102
opcode jmp_t = 103
opcode return = 104
opcode break = 105
opcode opt_case = 106
opcode mreturn = 107
opcode yield = 108
opcode rescue = 109
opcode throw = 110
opcode opt_case2 = 111
opcode add = 120
opcode sub = 121
opcode mul = 122
opcode div = 123
opcode rem = 124
opcode eq = 125
opcode ne = 126
opcode teq = 127
opcode gt = 128
opcode ge = 129
opcode lt = 130
opcode le = 131
opcode not_inst = 132
opcode shr = 133
opcode shl = 134
opcode bor = 135
opcode band = 136
opcode bxor = 137
opcode bnot = 138
opcode pow = 139
opcode cmp = 140
opcode neg = 141
opcode addi = 150
opcode subi = 151
opcode eqi = 152
opcode nei = 153
opcode gti = 154
opcode gei = 155
opcode lti = 156
opcode lei = 157
opcode b_andi = 160
opcode b_ori = 161
opcode ivar_addi = 162
opcode lvar_addi = 163
opcode jmp_f_eq = 170
opcode jmp_f_ne = 171
opcode jmp_f_gt = 172
opcode jmp_f_ge = 173
opcode jmp_f_lt = 174
opcode jmp_f_le = 175
opcode jmp_f_eqi = 180
opcode jmp_f_nei = 181
opcode jmp_f_gti = 182
opcode jmp_f_gei = 183
opcode jmp_f_lti = 184
opcode jmp_f_lei = 185

-- The instructions in the order of their opcodes.
all_insts : List Inst
all_insts =
    push_fixnum ∷ push_flonum ∷ push_true ∷ push_false ∷ push_nil ∷ push_symbol ∷ push_self
    ∷ create_range ∷ create_array ∷ create_proc ∷ create_hash ∷ create_regexp ∷ const_val
    ∷ set_local ∷ get_local ∷ set_dynlocal ∷ get_dynlocal ∷ get_const ∷ set_const ∷ get_const_top
    ∷ get_scope ∷ get_ivar ∷ set_ivar ∷ get_gvar ∷ set_gvar ∷ get_cvar ∷ set_cvar ∷ get_index
    ∷ set_index ∷ get_idx_i ∷ set_idx_i ∷ check_local ∷ check_const ∷ check_ivar ∷ check_gvar ∷ send
    ∷ send_self ∷ opt_send ∷ opt_send_self ∷ opt_nsend ∷ opt_nsend_self ∷ for ∷ pop ∷ dup ∷ take
    ∷ splat ∷ concat_string ∷ to_s ∷ sinkn ∷ topn ∷ rep_uninit ∷ def_class ∷ def_sclass ∷ def_method
    ∷ def_smethod ∷ jmp ∷ jmp_back ∷ jmp_f ∷ jmp_t ∷ return ∷ break ∷ opt_case ∷ mreturn ∷ yield
    ∷ rescue ∷ throw ∷ opt_case2 ∷ add ∷ sub ∷ mul ∷ div ∷ rem ∷ eq ∷ ne ∷ teq ∷ gt ∷ ge ∷ lt ∷ le
    ∷ not_inst ∷ shr ∷ shl ∷ bor ∷ band ∷ bxor ∷ bnot ∷ pow ∷ cmp ∷ neg ∷ addi ∷ subi ∷ eqi ∷ nei
    ∷ gti ∷ gei ∷ lti ∷ lei ∷ b_andi ∷ b_ori ∷ ivar_addi ∷ lvar_addi ∷ jmp_f_eq ∷ jmp_f_ne
    ∷ jmp_f_gt ∷ jmp_f_ge ∷ jmp_f_lt ∷ jmp_f_le ∷ jmp_f_eqi ∷ jmp_f_nei ∷ jmp_f_gti ∷ jmp_f_gei
    ∷ jmp_f_lti ∷ jmp_f_lei ∷ []

find_inst : List Inst → ℕ → Option Inst
unfolding opcode
find_inst [] b = none
find_inst (i ∷ is) b = if opcode i == b then some i else find_inst is b

-- The instruction that a `match` on a byte selects; `none` is its `_` arm.
unfoldable pub decode : ℕ → Option Inst
unfolding all_insts find_inst
decode b = find_inst all_insts b

-- `Inst::inst_size`, of an instruction.
unfoldable pub inst_size : Inst → ℕ
inst_size push_fixnum = 9
inst_size push_flonum = 9
inst_size push_true = 1
inst_size push_false = 1
inst_size push_nil = 1
inst_size push_symbol = 5
inst_size push_self = 1
inst_size create_range = 1
inst_size create_array = 5
inst_size create_proc = 5
inst_size create_hash = 5
inst_size create_regexp = 1
inst_size const_val = 5
inst_size set_local = 5
inst_size get_local = 5
inst_size set_dynlocal = 9
inst_size get_dynlocal = 9
inst_size get_const = 9
inst_size set_const = 5
inst_size get_const_top = 5
inst_size get_scope = 5
inst_size get_ivar = 5
inst_size set_ivar = 5
inst_size get_gvar = 5
inst_size set_gvar = 5
inst_size get_cvar = 5
inst_size set_cvar = 5
inst_size get_index = 1
inst_size set_index = 1
inst_size get_idx_i = 5
inst_size set_idx_i = 5
inst_size check_local = 9
inst_size check_const = 5
inst_size check_ivar = 5
inst_size check_gvar = 5
inst_size send = 17
inst_size send_self = 17
inst_size opt_send = 15
inst_size opt_send_self = 15
inst_size opt_nsend = 15
inst_size opt_nsend_self = 15
inst_size for = 9
inst_size pop = 1
inst_size dup = 5
inst_size take = 5
inst_size splat = 1
inst_size concat_string = 5
inst_size to_s = 1
inst_size sinkn = 5
inst_size topn = 5
inst_size rep_uninit = 1
inst_size def_class = 10
inst_size def_sclass = 5
inst_size def_method = 9
inst_size def_smethod = 9
inst_size jmp = 5
inst_size jmp_back = 5
inst_size jmp_f = 5
inst_size jmp_t = 5
inst_size return = 1
inst_size break = 1
inst_size opt_case = 9
inst_size mreturn = 1
inst_size yield = 5
inst_size rescue = 5
inst_size throw = 1
inst_size opt_case2 = 9
inst_size add = 1
inst_size sub = 1
inst_size mul = 1
inst_size div = 1
inst_size rem = 1
inst_size eq = 1
inst_size ne = 1
inst_size teq = 1
inst_size gt = 1
inst_size ge = 1
inst_size lt = 1
inst_size le = 1
inst_size not_inst = 1
inst_size shr = 1
inst_size shl = 1
inst_size bor = 1
inst_size band = 1
inst_size bxor = 1
inst_size bnot = 1
inst_size pow = 1
inst_size cmp = 1
inst_size neg = 1
inst_size addi = 5
inst_size subi = 5
inst_size eqi = 5
inst_size nei = 5
inst_size gti = 5
inst_size gei = 5
inst_size lti = 5
inst_size lei = 5
inst_size b_andi = 5
inst_size b_ori = 5
inst_size ivar_addi = 9
inst_size lvar_addi = 9
inst_size jmp_f_eq = 5
inst_size jmp_f_ne = 5
inst_size jmp_f_gt = 5
inst_size jmp_f_ge = 5
inst_size jmp_f_lt = 5
inst_size jmp_f_le = 5
inst_size jmp_f_eqi = 9
inst_size jmp_f_nei = 9
inst_size jmp_f_gti = 9
inst_size jmp_f_gei = 9
inst_size jmp_f_lti = 9
inst_size jmp_f_lei = 9

-- Each opcode selects its own instruction: no two instructions share a byte.
pub decode-opcode : (i : Inst) → decode (opcode i) ≡ some i
unfolding decode opcode
decode-opcode push_fixnum = refl
decode-opcode _ = refl
