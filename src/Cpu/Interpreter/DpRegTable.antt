-- ===== src/Cpu/Interpreter/DpRegTable.antt =====
-- The instructions that libcpu/src/interpreter/DataProcessingReg.cpp registers, in its order.
use switch_emu_pub.Base.{ℕ, List, [], ◌∷◌}
use switch_emu_pub.Cpu.State.{Core}
use switch_emu_pub.Cpu.InstructionId.{InstructionId}
use switch_emu_pub.Cpu.DpReg.Divide.{
  udiv32, sdiv32, lslv32, lsrv32, asrv32, rorv32, udiv64, sdiv64, lslv64, lsrv64, asrv64, rorv64,
}
use switch_emu_pub.Cpu.DpReg.Reverse.{rbit32, rev16_32, rev32, rbit64, rev16_64, rev32_64, rev64}
use switch_emu_pub.Cpu.DpReg.Count.{clz32, cls32, clz64, cls64}
use switch_emu_pub.Cpu.DpReg.Logical.{
  and32_shifted, bic32_shifted, orr32_shifted, orn32_shifted, eor32_shifted, eon32_shifted,
  ands32_shifted, bics32_shifted, and64_shifted, bic64_shifted, orr64_shifted, orn64_shifted,
  eor64_shifted, eon64_shifted, ands64_shifted, bics64_shifted,
}
use switch_emu_pub.Cpu.DpReg.AddSub.{
  add32_shifted, adds32_shifted, sub32_shifted, subs32_shifted, add64_shifted, adds64_shifted,
  sub64_shifted, subs64_shifted, add32_extended, adds32_extended, sub32_extended, subs32_extended,
  add64_extended, adds64_extended, sub64_extended, subs64_extended, adc32, adcs32, sbc32, sbcs32,
  adc64, adcs64, sbc64, sbcs64,
}
use switch_emu_pub.Cpu.DpReg.Conditional.{
  ccmn32_reg, ccmp32_reg, ccmn64_reg, ccmp64_reg, ccmn32_imm, ccmp32_imm, ccmn64_imm, ccmp64_imm,
  csel32, csinc32, csinv32, csneg32, csel64, csinc64, csinv64, csneg64,
}
use switch_emu_pub.Cpu.DpReg.Multiply.{
  madd32, msub32, madd64, msub64, smaddl, smsubl, smulh, umaddl, umsubl, umulh,
}
use switch_emu_pub.Cpu.Interpreter.Entry.{unimplemented}

abbrev pub dp_reg_instructions : List (InstructionId × (Core → ℕ → Core))
dp_reg_instructions =
    (InstructionId.udiv_32, udiv32)
    ∷ (InstructionId.sdiv_32, sdiv32)
    ∷ (InstructionId.lslv_32, lslv32)
    ∷ (InstructionId.lsrv_32, lsrv32)
    ∷ (InstructionId.asrv_32, asrv32)
    ∷ (InstructionId.rorv_32, rorv32)
    ∷ (InstructionId.udiv_64, udiv64)
    ∷ (InstructionId.sdiv_64, sdiv64)
    ∷ (InstructionId.lslv_64, lslv64)
    ∷ (InstructionId.lsrv_64, lsrv64)
    ∷ (InstructionId.asrv_64, asrv64)
    ∷ (InstructionId.rorv_64, rorv64)
    ∷ (InstructionId.crc32b, unimplemented)
    ∷ (InstructionId.crc32h, unimplemented)
    ∷ (InstructionId.crc32w, unimplemented)
    ∷ (InstructionId.crc32x, unimplemented)
    ∷ (InstructionId.crc32cb, unimplemented)
    ∷ (InstructionId.crc32ch, unimplemented)
    ∷ (InstructionId.crc32cw, unimplemented)
    ∷ (InstructionId.crc32cx, unimplemented)
    ∷ (InstructionId.rbit_32, rbit32)
    ∷ (InstructionId.rev16_32, rev16_32)
    ∷ (InstructionId.rev_32, rev32)
    ∷ (InstructionId.clz_32, clz32)
    ∷ (InstructionId.cls_32, cls32)
    ∷ (InstructionId.rbit_64, rbit64)
    ∷ (InstructionId.rev16_64, rev16_64)
    ∷ (InstructionId.rev32_64, rev32_64)
    ∷ (InstructionId.rev_64, rev64)
    ∷ (InstructionId.clz_64, clz64)
    ∷ (InstructionId.cls_64, cls64)
    ∷ (InstructionId.and_32_shifted, and32_shifted)
    ∷ (InstructionId.bic_32_shifted, bic32_shifted)
    ∷ (InstructionId.orr_32_shifted, orr32_shifted)
    ∷ (InstructionId.orn_32_shifted, orn32_shifted)
    ∷ (InstructionId.eor_32_shifted, eor32_shifted)
    ∷ (InstructionId.eon_32_shifted, eon32_shifted)
    ∷ (InstructionId.ands_32_shifted, ands32_shifted)
    ∷ (InstructionId.bics_32_shifted, bics32_shifted)
    ∷ (InstructionId.and_64_shifted, and64_shifted)
    ∷ (InstructionId.bic_64_shifted, bic64_shifted)
    ∷ (InstructionId.orr_64_shifted, orr64_shifted)
    ∷ (InstructionId.orn_64_shifted, orn64_shifted)
    ∷ (InstructionId.eor_64_shifted, eor64_shifted)
    ∷ (InstructionId.eon_64_shifted, eon64_shifted)
    ∷ (InstructionId.ands_64_shifted, ands64_shifted)
    ∷ (InstructionId.bics_64_shifted, bics64_shifted)
    ∷ (InstructionId.add_32_shifted, add32_shifted)
    ∷ (InstructionId.adds_32_shifted, adds32_shifted)
    ∷ (InstructionId.sub_32_shifted, sub32_shifted)
    ∷ (InstructionId.subs_32_shifted, subs32_shifted)
    ∷ (InstructionId.add_64_shifted, add64_shifted)
    ∷ (InstructionId.adds_64_shifted, adds64_shifted)
    ∷ (InstructionId.sub_64_shifted, sub64_shifted)
    ∷ (InstructionId.subs_64_shifted, subs64_shifted)
    ∷ (InstructionId.add_32_extended, add32_extended)
    ∷ (InstructionId.adds_32_extended, adds32_extended)
    ∷ (InstructionId.sub_32_extended, sub32_extended)
    ∷ (InstructionId.subs_32_extended, subs32_extended)
    ∷ (InstructionId.add_64_extended, add64_extended)
    ∷ (InstructionId.adds_64_extended, adds64_extended)
    ∷ (InstructionId.sub_64_extended, sub64_extended)
    ∷ (InstructionId.subs_64_extended, subs64_extended)
    ∷ (InstructionId.adc_32, adc32)
    ∷ (InstructionId.adcs_32, adcs32)
    ∷ (InstructionId.sbc_32, sbc32)
    ∷ (InstructionId.sbcs_32, sbcs32)
    ∷ (InstructionId.adc_64, adc64)
    ∷ (InstructionId.adcs_64, adcs64)
    ∷ (InstructionId.sbc_64, sbc64)
    ∷ (InstructionId.sbcs_64, sbcs64)
    ∷ (InstructionId.ccmn_32_reg, ccmn32_reg)
    ∷ (InstructionId.ccmp_32_reg, ccmp32_reg)
    ∷ (InstructionId.ccmn_64_reg, ccmn64_reg)
    ∷ (InstructionId.ccmp_64_reg, ccmp64_reg)
    ∷ (InstructionId.ccmn_32_imm, ccmn32_imm)
    ∷ (InstructionId.ccmp_32_imm, ccmp32_imm)
    ∷ (InstructionId.ccmn_64_imm, ccmn64_imm)
    ∷ (InstructionId.ccmp_64_imm, ccmp64_imm)
    ∷ (InstructionId.csel_32, csel32)
    ∷ (InstructionId.csinc_32, csinc32)
    ∷ (InstructionId.csinv_32, csinv32)
    ∷ (InstructionId.csneg_32, csneg32)
    ∷ (InstructionId.csel_64, csel64)
    ∷ (InstructionId.csinc_64, csinc64)
    ∷ (InstructionId.csinv_64, csinv64)
    ∷ (InstructionId.csneg_64, csneg64)
    ∷ (InstructionId.madd_32, madd32)
    ∷ (InstructionId.msub_32, msub32)
    ∷ (InstructionId.madd_64, madd64)
    ∷ (InstructionId.msub_64, msub64)
    ∷ (InstructionId.smaddl, smaddl)
    ∷ (InstructionId.smsubl, smsubl)
    ∷ (InstructionId.smulh, smulh)
    ∷ (InstructionId.umaddl, umaddl)
    ∷ (InstructionId.umsubl, umsubl)
    ∷ (InstructionId.umulh, umulh)
    ∷ []
