-- ===== src/Cpu/DpImm/AddSub.antt =====
-- libcpu/src/interpreter/DataProcessingImm.cpp: additions, wide moves and addresses.
use Prim.Native.Nat.{bit_and, bit_or}
use switch_emu_pub.Base.{ℕ, ◌+◌, ◌-◌, ◌*◌, ◌%◌, ◌^◌, ◌==◌, Bool, true, false, if◌then◌else◌}
use switch_emu_pub.Bits.{u64, complement, shl, test_bit, sign_extend}
use switch_emu_pub.Cpu.State.{Core, set_reg}
use switch_emu_pub.Cpu.Inst.{rd, rn, f5_20, f10_21, hw, opc, immhi, immlo}
use switch_emu_pub.Cpu.Alu.{add_with_carry, truncate}
use switch_emu_pub.Cpu.DpReg.AddSub.{negate_if, carry_in, reg_or_sp, write_reg_or_sp}

unfoldable pub add_sub_imm_generic : Bool → Bool → Bool → Core → ℕ → Core
add_sub_imm_generic is64 is_sub updates_flags core inst =
    let imm = shl (f10_21 inst) (if test_bit inst 22 then 12 else 0) in
    let operand1 = reg_or_sp core (rn inst) in
    let operand2 = negate_if is_sub imm in
    let (result, state) =
      add_with_carry is64 updates_flags operand1 operand2 (carry_in is_sub) core.pstate in
    write_reg_or_sp (record core { pstate = state }) updates_flags (rd inst) result

abbrev pub add32_imm : Core → ℕ → Core
add32_imm = add_sub_imm_generic false false false

abbrev pub adds32_imm : Core → ℕ → Core
adds32_imm = add_sub_imm_generic false false true

abbrev pub sub32_imm : Core → ℕ → Core
sub32_imm = add_sub_imm_generic false true false

abbrev pub subs32_imm : Core → ℕ → Core
subs32_imm = add_sub_imm_generic false true true

abbrev pub add64_imm : Core → ℕ → Core
add64_imm = add_sub_imm_generic true false false

abbrev pub adds64_imm : Core → ℕ → Core
adds64_imm = add_sub_imm_generic true false true

abbrev pub sub64_imm : Core → ℕ → Core
sub64_imm = add_sub_imm_generic true true false

abbrev pub subs64_imm : Core → ℕ → Core
subs64_imm = add_sub_imm_generic true true true

-- MOVN, MOVK and MOVZ, by `opc`.
unfoldable pub wide_immediate : ℕ → ℕ → ℕ → ℕ → ℕ
wide_immediate opc shift half old =
    let imm = shl half shift in
    if opc == 0
    then complement imm
    else if opc == 3
    then bit_or (bit_and old (complement (shl 0xFFFF shift))) imm
    else imm

unfoldable pub move_wide_imm_generic : Bool → Core → ℕ → Core
unfolding wide_immediate
move_wide_imm_generic is64 core inst =
    let imm = wide_immediate (opc inst) (hw inst * 16) (f5_20 inst) (core.gp_regs (rd inst)) in
    set_reg core (rd inst) (truncate is64 imm)

abbrev pub mov32 : Core → ℕ → Core
mov32 = move_wide_imm_generic false

abbrev pub mov64 : Core → ℕ → Core
mov64 = move_wide_imm_generic true

unfoldable pub pc_relative_generic : Bool → Core → ℕ → Core
pc_relative_generic is_page core inst =
    let imm = sign_extend 21 (bit_or (shl (immhi inst) 2) (immlo inst)) in
    let offset = if is_page then shl imm 12 else imm in
    let base = if is_page then core.pc - core.pc % 2 ^ 12 else core.pc in
    set_reg core (rd inst) (u64 (base + offset))

abbrev pub adr : Core → ℕ → Core
adr = pc_relative_generic false

abbrev pub adrp : Core → ℕ → Core
adrp = pc_relative_generic true
