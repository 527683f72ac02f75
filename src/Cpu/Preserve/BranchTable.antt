-- ===== src/Cpu/Preserve/BranchTable.antt =====
-- Every handler that libcpu/src/interpreter/Branch.cpp registers keeps the registers within 64 bits.
use switch_emu_pub.Base.{true, false, Each, nil, ◌▸◌}
use switch_emu_pub.Cpu.Interpreter.Entry.{unimplemented}
use switch_emu_pub.Cpu.Interpreter.BranchTable.{branch_instructions}
use switch_emu_pub.Cpu.Preserve.Branch.{
  cond_branch-Fits, uncond_branch_reg-Fits, uncond_branch_imm-Fits, compare_branch-Fits,
  test_bit_branch-Fits,
}
use switch_emu_pub.Cpu.Preserve.DpReg.{KeepsFits}

unimplemented-Fits : KeepsFits unimplemented
unfolding unimplemented
unimplemented-Fits core inst fits = fits

pub branch_instructions-Fits : Each (λ e. KeepsFits e.1) branch_instructions
branch_instructions-Fits =
    cond_branch-Fits
    ▸ uncond_branch_reg-Fits false
    ▸ uncond_branch_reg-Fits true
    ▸ uncond_branch_reg-Fits false
    ▸ unimplemented-Fits
    ▸ unimplemented-Fits
    ▸ uncond_branch_imm-Fits false
    ▸ uncond_branch_imm-Fits true
    ▸ compare_branch-Fits false false
    ▸ compare_branch-Fits false true
    ▸ compare_branch-Fits true false
    ▸ compare_branch-Fits true true
    ▸ test_bit_branch-Fits true
    ▸ test_bit_branch-Fits false
    ▸ nil
