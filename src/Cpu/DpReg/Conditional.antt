-- ===== src/Cpu/DpReg/Conditional.antt =====
-- libcpu/src/interpreter/DataProcessingReg.cpp: conditional compare and select.
use switch_emu_pub.Base.{ℕ, ◌+◌, Bool, true, false, if◌then◌else◌}
use switch_emu_pub.Bits.{u64, complement, test_bit}
use switch_emu_pub.Cpu.State.{Core, PState, set_reg}
use switch_emu_pub.Cpu.Inst.{rd, rn, rm, cond_comp, f16_20}
use switch_emu_pub.Cpu.Alu.{condition, test_condition, add_with_carry, truncate}
use switch_emu_pub.Cpu.DpReg.AddSub.{negate_if, carry_in}

-- The flags that the instruction word holds for a condition that fails.
abbrev pub immediate_flags : ℕ → PState
immediate_flags inst = record {
  n = test_bit inst 3;
  z = test_bit inst 2;
  c = test_bit inst 1;
  v = test_bit inst 0;
}

unfoldable pub cond_compare_reg_generic : Bool → Bool → Core → ℕ → Core
cond_compare_reg_generic is64 negate core inst =
    let operand1 = core.gp_regs (rn inst) in
    let operand2 = negate_if negate (core.gp_regs (rm inst)) in
    let compared = add_with_carry is64 true operand1 operand2 (carry_in negate) core.pstate in
    record core {
      pstate =
          if test_condition core.pstate (condition (cond_comp inst))
          then compared.1
          else immediate_flags inst;
    }

abbrev pub ccmp32_reg : Core → ℕ → Core
ccmp32_reg = cond_compare_reg_generic false true

abbrev pub ccmn32_reg : Core → ℕ → Core
ccmn32_reg = cond_compare_reg_generic false false

abbrev pub ccmp64_reg : Core → ℕ → Core
ccmp64_reg = cond_compare_reg_generic true true

abbrev pub ccmn64_reg : Core → ℕ → Core
ccmn64_reg = cond_compare_reg_generic true false

unfoldable pub cond_compare_imm_generic : Bool → Bool → Core → ℕ → Core
cond_compare_imm_generic is64 negate core inst =
    let operand1 = core.gp_regs (rn inst) in
    let operand2 = negate_if negate (f16_20 inst) in
    let compared = add_with_carry is64 true operand1 operand2 (carry_in negate) core.pstate in
    record core {
      pstate =
          if test_condition core.pstate (condition (cond_comp inst))
          then compared.1
          else immediate_flags inst;
    }

abbrev pub ccmp32_imm : Core → ℕ → Core
ccmp32_imm = cond_compare_imm_generic false true

abbrev pub ccmn32_imm : Core → ℕ → Core
ccmn32_imm = cond_compare_imm_generic false false

abbrev pub ccmp64_imm : Core → ℕ → Core
ccmp64_imm = cond_compare_imm_generic true true

abbrev pub ccmn64_imm : Core → ℕ → Core
ccmn64_imm = cond_compare_imm_generic true false

unfoldable pub cond_sel_generic : Bool → Bool → Bool → Core → ℕ → Core
cond_sel_generic is64 invert increment core inst =
    let op2 = core.gp_regs (rm inst) in
    let inverted = if invert then complement op2 else op2 in
    let other = if increment then u64 (inverted + 1) else inverted in
    let res =
      if test_condition core.pstate (condition (cond_comp inst))
      then core.gp_regs (rn inst)
      else other in
    set_reg core (rd inst) (truncate is64 res)

abbrev pub csel32 : Core → ℕ → Core
csel32 = cond_sel_generic false false false

abbrev pub csinc32 : Core → ℕ → Core
csinc32 = cond_sel_generic false false true

abbrev pub csinv32 : Core → ℕ → Core
csinv32 = cond_sel_generic false true false

abbrev pub csneg32 : Core → ℕ → Core
csneg32 = cond_sel_generic false true true

abbrev pub csel64 : Core → ℕ → Core
csel64 = cond_sel_generic true false false

abbrev pub csinc64 : Core → ℕ → Core
csinc64 = cond_sel_generic true false true

abbrev pub csinv64 : Core → ℕ → Core
csinv64 = cond_sel_generic true true false

abbrev pub csneg64 : Core → ℕ → Core
csneg64 = cond_sel_generic true true true
