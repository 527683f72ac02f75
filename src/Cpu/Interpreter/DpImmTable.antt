-- ===== src/Cpu/Interpreter/DpImmTable.antt =====
-- The instructions that libcpu/src/interpreter/DataProcessingImm.cpp registers, in its order.
use switch_emu_pub.Base.{ℕ, List, [], ◌∷◌}
use switch_emu_pub.Cpu.State.{Core}
use switch_emu_pub.Cpu.InstructionId.{InstructionId}
use switch_emu_pub.Cpu.DpImm.AddSub.{
  adr, adrp, add32_imm, adds32_imm, sub32_imm, subs32_imm, add64_imm, adds64_imm, sub64_imm,
  subs64_imm, mov32, mov64,
}
use switch_emu_pub.Cpu.DpImm.Logical.{
  and32_imm, orr32_imm, eor32_imm, ands32_imm, and64_imm, orr64_imm, eor64_imm, ands64_imm,
}
use switch_emu_pub.Cpu.DpImm.Bitfield.{sbfm32, bfm32, ubfm32, sbfm64, bfm64, ubfm64, extr32, extr64}

abbrev pub dp_imm_instructions : List (InstructionId × (Core → ℕ → Core))
dp_imm_instructions =
    (InstructionId.adr, adr)
    ∷ (InstructionId.adrp, adrp)
    ∷ (InstructionId.add_32_imm, add32_imm)
    ∷ (InstructionId.adds_32_imm, adds32_imm)
    ∷ (InstructionId.sub_32_imm, sub32_imm)
    ∷ (InstructionId.subs_32_imm, subs32_imm)
    ∷ (InstructionId.add_64_imm, add64_imm)
    ∷ (InstructionId.adds_64_imm, adds64_imm)
    ∷ (InstructionId.sub_64_imm, sub64_imm)
    ∷ (InstructionId.subs_64_imm, subs64_imm)
    ∷ (InstructionId.and_32_imm, and32_imm)
    ∷ (InstructionId.orr_32_imm, orr32_imm)
    ∷ (InstructionId.eor_32_imm, eor32_imm)
    ∷ (InstructionId.ands_32_imm, ands32_imm)
    ∷ (InstructionId.and_64_imm, and64_imm)
    ∷ (InstructionId.orr_64_imm, orr64_imm)
    ∷ (InstructionId.eor_64_imm, eor64_imm)
    ∷ (InstructionId.ands_64_imm, ands64_imm)
    ∷ (InstructionId.movn_32, mov32)
    ∷ (InstructionId.movz_32, mov32)
    ∷ (InstructionId.movk_32, mov32)
    ∷ (InstructionId.movn_64, mov64)
    ∷ (InstructionId.movz_64, mov64)
    ∷ (InstructionId.movk_64, mov64)
    ∷ (InstructionId.sbfm_32, sbfm32)
    ∷ (InstructionId.bfm_32, bfm32)
    ∷ (InstructionId.ubfm_32, ubfm32)
    ∷ (InstructionId.sbfm_64, sbfm64)
    ∷ (InstructionId.bfm_64, bfm64)
    ∷ (InstructionId.ubfm_64, ubfm64)
    ∷ (InstructionId.extr_32, extr32)
    ∷ (InstructionId.extr_64, extr64)
    ∷ []
