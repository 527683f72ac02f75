-- ===== src/Cpu/Interpreter/BranchTable.antt =====
-- The instructions that libcpu/src/interpreter/Branch.cpp registers, in its order.
use switch_emu_pub.Base.{ℕ, List, [], ◌∷◌}
use switch_emu_pub.Cpu.State.{Core}
use switch_emu_pub.Cpu.InstructionId.{InstructionId}
use switch_emu_pub.Cpu.Branch.{
  cond_branch, uncond_branch_reg_no_link, uncond_branch_reg_link, uncond_branch_imm_no_link,
  uncond_branch_imm_link, cbz32, cbnz32, cbz64, cbnz64, tbz, tbnz,
}
use switch_emu_pub.Cpu.Interpreter.Entry.{unimplemented}

abbrev pub branch_instructions : List (InstructionId × (Core → ℕ → Core))
branch_instructions =
    (InstructionId.b_cond, cond_branch)
    ∷ (InstructionId.br, uncond_branch_reg_no_link)
    ∷ (InstructionId.blr, uncond_branch_reg_link)
    ∷ (InstructionId.ret, uncond_branch_reg_no_link)
    ∷ (InstructionId.eret, unimplemented)
    ∷ (InstructionId.drps, unimplemented)
    ∷ (InstructionId.b, uncond_branch_imm_no_link)
    ∷ (InstructionId.bl, uncond_branch_imm_link)
    ∷ (InstructionId.cbz_32, cbz32)
    ∷ (InstructionId.cbnz_32, cbnz32)
    ∷ (InstructionId.cbz_64, cbz64)
    ∷ (InstructionId.cbnz_64, cbnz64)
    ∷ (InstructionId.tbz, tbz)
    ∷ (InstructionId.tbnz, tbnz)
    ∷ []
