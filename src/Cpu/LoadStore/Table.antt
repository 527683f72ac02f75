-- ===== src/Cpu/LoadStore/Table.antt =====
-- The instructions that registerLoadStoreInstructions registers, in its order.
use switch_emu_pub.Base.{ℕ, List, [], ◌∷◌}
use switch_emu_pub.Cpu.State.{Machine}
use switch_emu_pub.Cpu.Outcome.{Outcome, done}
use switch_emu_pub.Cpu.InstructionId.{InstructionId}
use switch_emu_pub.Cpu.LoadStore.Instances.StoreReg.{
  stlr32_imm, stlr64_imm, stlrb_imm, stlrh_imm, stlxr32_imm, stlxr64_imm, stlxrb_imm, stlxrh_imm,
  str128_imm, str128_post, str128_pre, str16_imm_float, str16_post_float, str16_pre_float,
  str32_imm, str32_imm_float, str32_post, str32_post_float, str32_pre, str32_pre_float, str64_imm,
  str64_imm_float, str64_post, str64_post_float, str64_pre, str64_pre_float, str8_imm_float,
  str8_post_float, str8_pre_float, strb_imm, strb_post, strb_pre, strh_imm, strh_post, strh_pre,
  stur128, stur16_float, stur32, stur32_float, stur64, stur64_float, stur8_float, sturb, sturh,
  stxr32_imm, stxr64_imm, stxrb_imm, stxrh_imm,
}
use switch_emu_pub.Cpu.LoadStore.Instances.LoadReg.{
  ldar32_imm, ldar64_imm, ldarb_imm, ldarh_imm, ldaxr32_imm, ldaxr64_imm, ldaxrb_imm, ldaxrh_imm,
  ldr128_imm, ldr128_post, ldr128_pre, ldr16_imm_float, ldr16_post_float, ldr16_pre_float,
  ldr32_imm, ldr32_imm_float, ldr32_post, ldr32_post_float, ldr32_pre, ldr32_pre_float, ldr64_imm,
  ldr64_imm_float, ldr64_post, ldr64_post_float, ldr64_pre, ldr64_pre_float, ldr8_imm_float,
  ldr8_post_float, ldr8_pre_float, ldrb_imm, ldrb_post, ldrb_pre, ldrh_imm, ldrh_post, ldrh_pre,
  ldrsb32_imm, ldrsb32_post, ldrsb32_pre, ldrsb64_imm, ldrsb64_post, ldrsb64_pre, ldrsh32_imm,
  ldrsh32_post, ldrsh32_pre, ldrsh64_imm, ldrsh64_post, ldrsh64_pre, ldrsw_imm, ldrsw_post,
  ldrsw_pre, ldur128, ldur16_float, ldur32, ldur32_float, ldur64, ldur64_float, ldur8_float, ldurb,
  ldurh, ldursb32, ldursb64, ldursh32, ldursh64, ldursw, ldxr32_imm, ldxr64_imm, ldxrb_imm,
  ldxrh_imm,
}
use switch_emu_pub.Cpu.LoadStore.Instances.StorePair.{
  stlxp32, stlxp64, stnp128_float, stnp32, stnp32_float, stnp64, stnp64_float, stp128_off_float,
  stp128_post_float, stp128_pre_float, stp32_off, stp32_off_float, stp32_post, stp32_post_float,
  stp32_pre, stp32_pre_float, stp64_off, stp64_off_float, stp64_post, stp64_post_float, stp64_pre,
  stp64_pre_float, stxp32, stxp64,
}
use switch_emu_pub.Cpu.LoadStore.Instances.LoadPair.{
  ldaxp32, ldaxp64, ldnp128_float, ldnp32, ldnp32_float, ldnp64, ldnp64_float, ldp128_off_float,
  ldp128_post_float, ldp128_pre_float, ldp32_off, ldp32_off_float, ldp32_post, ldp32_post_float,
  ldp32_pre, ldp32_pre_float, ldp64_off, ldp64_off_float, ldp64_post, ldp64_post_float, ldp64_pre,
  ldp64_pre_float, ldxp32, ldxp64,
}
use switch_emu_pub.Cpu.LoadStore.Instances.Literal.{
  ldr128_literal, ldr32_literal, ldr32_literal_float, ldr64_literal, ldr64_literal_float,
  ldrsw_literal,
}
use switch_emu_pub.Cpu.LoadStore.Instances.RegOff.{
  ldr128_regoff_float, ldr32_regoff, ldr32_regoff_float, ldr64_regoff, ldr64_regoff_float,
  ldrb_regoff, ldrb_regoff_float, ldrh_regoff, ldrh_regoff_float, ldrsb32_regoff, ldrsb64_regoff,
  ldrsh32_regoff, ldrsh64_regoff, ldrsw_regoff, str128_regoff_float, str32_regoff,
  str32_regoff_float, str64_regoff, str64_regoff_float, strb_regoff, strb_regoff_float, strh_regoff,
  strh_regoff_float,
}

-- A prefetch, and an instruction that is only reported.
abbrev pub no_access : Machine → ℕ → Outcome Machine
no_access m inst = done m

unfoldable pub load_store_instructions : List (InstructionId × (Machine → ℕ → Outcome Machine))
load_store_instructions =
    (InstructionId.stxrb, stxrb_imm)
    ∷ (InstructionId.stlxrb, stlxrb_imm)
    ∷ (InstructionId.ldxrb, ldxrb_imm)
    ∷ (InstructionId.ldaxrb, ldaxrb_imm)
    ∷ (InstructionId.stlrb, stlrb_imm)
    ∷ (InstructionId.ldarb, ldarb_imm)
    ∷ (InstructionId.stxrh, stxrh_imm)
    ∷ (InstructionId.stlxrh, stlxrh_imm)
    ∷ (InstructionId.ldxrh, ldxrh_imm)
    ∷ (InstructionId.ldaxrh, ldaxrh_imm)
    ∷ (InstructionId.stlrh, stlrh_imm)
    ∷ (InstructionId.ldarh, ldarh_imm)
    ∷ (InstructionId.stxr32, stxr32_imm)
    ∷ (InstructionId.stlxr32, stlxr32_imm)
    ∷ (InstructionId.stxp32, stxp32)
    ∷ (InstructionId.stlxp32, stlxp32)
    ∷ (InstructionId.ldxr32, ldxr32_imm)
    ∷ (InstructionId.ldaxr32, ldaxr32_imm)
    ∷ (InstructionId.ldxp32, ldxp32)
    ∷ (InstructionId.ldaxp32, ldaxp32)
    ∷ (InstructionId.stlr32, stlr32_imm)
    ∷ (InstructionId.ldar32, ldar32_imm)
    ∷ (InstructionId.stxr64, stxr64_imm)
    ∷ (InstructionId.stlxr64, stlxr64_imm)
    ∷ (InstructionId.stxp64, stxp64)
    ∷ (InstructionId.stlxp64, stlxp64)
    ∷ (InstructionId.ldxr64, ldxr64_imm)
    ∷ (InstructionId.ldaxr64, ldaxr64_imm)
    ∷ (InstructionId.ldxp64, ldxp64)
    ∷ (InstructionId.ldaxp64, ldaxp64)
    ∷ (InstructionId.stlr64, stlr64_imm)
    ∷ (InstructionId.ldar64, ldar64_imm)
    ∷ (InstructionId.ldr32_literal, ldr32_literal)
    ∷ (InstructionId.ldr32_literal_float, ldr32_literal_float)
    ∷ (InstructionId.ldr64_literal, ldr64_literal)
    ∷ (InstructionId.ldr64_literal_float, ldr64_literal_float)
    ∷ (InstructionId.ldrsw_literal, ldrsw_literal)
    ∷ (InstructionId.ldr128_literal, ldr128_literal)
    ∷ (InstructionId.prfm_literal, no_access)
    ∷ (InstructionId.stnp32, stnp32)
    ∷ (InstructionId.ldnp32, ldnp32)
    ∷ (InstructionId.stnp32_float, stnp32_float)
    ∷ (InstructionId.ldnp32_float, ldnp32_float)
    ∷ (InstructionId.stnp64, stnp64)
    ∷ (InstructionId.ldnp64, ldnp64)
    ∷ (InstructionId.stnp64_float, stnp64_float)
    ∷ (InstructionId.ldnp64_float, ldnp64_float)
    ∷ (InstructionId.stnp128, stnp128_float)
    ∷ (InstructionId.ldnp128, ldnp128_float)
    ∷ (InstructionId.stp32_post, stp32_post)
    ∷ (InstructionId.ldp32_post, ldp32_post)
    ∷ (InstructionId.stp32_post_float, stp32_post_float)
    ∷ (InstructionId.ldp32_post_float, ldp32_post_float)
    ∷ (InstructionId.ldpsw_post, no_access)
    ∷ (InstructionId.stp64_post, stp64_post)
    ∷ (InstructionId.ldp64_post, ldp64_post)
    ∷ (InstructionId.stp64_post_float, stp64_post_float)
    ∷ (InstructionId.ldp64_post_float, ldp64_post_float)
    ∷ (InstructionId.stp128_post, stp128_post_float)
    ∷ (InstructionId.ldp128_post, ldp128_post_float)
    ∷ (InstructionId.stp32_offset, stp32_off)
    ∷ (InstructionId.ldp32_offset, ldp32_off)
    ∷ (InstructionId.stp32_offset_float, stp32_off_float)
    ∷ (InstructionId.ldp32_offset_float, ldp32_off_float)
    ∷ (InstructionId.ldpsw_offset, no_access)
    ∷ (InstructionId.stp64_offset, stp64_off)
    ∷ (InstructionId.ldp64_offset, ldp64_off)
    ∷ (InstructionId.stp64_offset_float, stp64_off_float)
    ∷ (InstructionId.ldp64_offset_float, ldp64_off_float)
    ∷ (InstructionId.stp128_offset, stp128_off_float)
    ∷ (InstructionId.ldp128_offset, ldp128_off_float)
    ∷ (InstructionId.stp32_pre, stp32_pre)
    ∷ (InstructionId.ldp32_pre, ldp32_pre)
    ∷ (InstructionId.stp32_pre_float, stp32_pre_float)
    ∷ (InstructionId.ldp32_pre_float, ldp32_pre_float)
    ∷ (InstructionId.ldpsw_pre, no_access)
    ∷ (InstructionId.stp64_pre, stp64_pre)
    ∷ (InstructionId.ldp64_pre, ldp64_pre)
    ∷ (InstructionId.stp64_pre_float, stp64_pre_float)
    ∷ (InstructionId.ldp64_pre_float, ldp64_pre_float)
    ∷ (InstructionId.stp128_pre, stp128_pre_float)
    ∷ (InstructionId.ldp128_pre, ldp128_pre_float)
    ∷ (InstructionId.sturb, sturb)
    ∷ (InstructionId.ldurb, ldurb)
    ∷ (InstructionId.ldursb64, ldursb64)
    ∷ (InstructionId.ldursb32, ldursb32)
    ∷ (InstructionId.stur8_float, stur8_float)
    ∷ (InstructionId.ldur8_float, ldur8_float)
    ∷ (InstructionId.stur128, stur128)
    ∷ (InstructionId.ldur128, ldur128)
    ∷ (InstructionId.sturh, sturh)
    ∷ (InstructionId.ldurh, ldurh)
    ∷ (InstructionId.ldursh64, ldursh64)
    ∷ (InstructionId.ldursh32, ldursh32)
    ∷ (InstructionId.stur16_float, stur16_float)
    ∷ (InstructionId.ldur16_float, ldur16_float)
    ∷ (InstructionId.stur32, stur32)
    ∷ (InstructionId.ldur32, ldur32)
    ∷ (InstructionId.ldursw, ldursw)
    ∷ (InstructionId.stur32_float, stur32_float)
    ∷ (InstructionId.ldur32_float, ldur32_float)
    ∷ (InstructionId.stur64, stur64)
    ∷ (InstructionId.ldur64, ldur64)
    ∷ (InstructionId.prfm_unscaled, no_access)
    ∷ (InstructionId.stur64_float, stur64_float)
    ∷ (InstructionId.ldur64_float, ldur64_float)
    ∷ (InstructionId.strb_post, strb_post)
    ∷ (InstructionId.ldrb_post, ldrb_post)
    ∷ (InstructionId.ldrsb64_post, ldrsb64_post)
    ∷ (InstructionId.ldrsb32_post, ldrsb32_post)
    ∷ (InstructionId.str8_post_float, str8_post_float)
    ∷ (InstructionId.ldr8_post_float, ldr8_post_float)
    ∷ (InstructionId.str128_post, str128_post)
    ∷ (InstructionId.ldr128_post, ldr128_post)
    ∷ (InstructionId.strh_post, strh_post)
    ∷ (InstructionId.ldrh_post, ldrh_post)
    ∷ (InstructionId.ldrsh64_post, ldrsh64_post)
    ∷ (InstructionId.ldrsh32_post, ldrsh32_post)
    ∷ (InstructionId.str16_post_float, str16_post_float)
    ∷ (InstructionId.ldr16_post_float, ldr16_post_float)
    ∷ (InstructionId.str32_post, str32_post)
    ∷ (InstructionId.ldr32_post, ldr32_post)
    ∷ (InstructionId.ldrsw_post, ldrsw_post)
    ∷ (InstructionId.str32_post_float, str32_post_float)
    ∷ (InstructionId.ldr32_post_float, ldr32_post_float)
    ∷ (InstructionId.str64_post, str64_post)
    ∷ (InstructionId.ldr64_post, ldr64_post)
    ∷ (InstructionId.str64_post_float, str64_post_float)
    ∷ (InstructionId.ldr64_post_float, ldr64_post_float)
    ∷ (InstructionId.sttrb, no_access)
    ∷ (InstructionId.ldtrb, no_access)
    ∷ (InstructionId.ldtrsb64, no_access)
    ∷ (InstructionId.ldtrsb32, no_access)
    ∷ (InstructionId.sttrh, no_access)
    ∷ (InstructionId.ldtrh, no_access)
    ∷ (InstructionId.ldtrsh64, no_access)
    ∷ (InstructionId.ldtrsh32, no_access)
    ∷ (InstructionId.sttr32, no_access)
    ∷ (InstructionId.ldtr32, no_access)
    ∷ (InstructionId.ldtrsw, no_access)
    ∷ (InstructionId.sttr64, no_access)
    ∷ (InstructionId.ldtr64, no_access)
    ∷ (InstructionId.strb_pre, strb_pre)
    ∷ (InstructionId.ldrb_pre, ldrb_pre)
    ∷ (InstructionId.ldrsb64_pre, ldrsb64_pre)
    ∷ (InstructionId.ldrsb32_pre, ldrsb32_pre)
    ∷ (InstructionId.str8_pre_float, str8_pre_float)
    ∷ (InstructionId.ldr8_pre_float, ldr8_pre_float)
    ∷ (InstructionId.str128_pre, str128_pre)
    ∷ (InstructionId.ldr128_pre, ldr128_pre)
    ∷ (InstructionId.strh_pre, strh_pre)
    ∷ (InstructionId.ldrh_pre, ldrh_pre)
    ∷ (InstructionId.ldrsh64_pre, ldrsh64_pre)
    ∷ (InstructionId.ldrsh32_pre, ldrsh32_pre)
    ∷ (InstructionId.str16_pre_float, str16_pre_float)
    ∷ (InstructionId.ldr16_pre_float, ldr16_pre_float)
    ∷ (InstructionId.str32_pre, str32_pre)
    ∷ (InstructionId.ldr32_pre, ldr32_pre)
    ∷ (InstructionId.ldrsw_pre, ldrsw_pre)
    ∷ (InstructionId.str32_pre_float, str32_pre_float)
    ∷ (InstructionId.ldr32_pre_float, ldr32_pre_float)
    ∷ (InstructionId.str64_pre, str64_pre)
    ∷ (InstructionId.ldr64_pre, ldr64_pre)
    ∷ (InstructionId.str64_pre_float, str64_pre_float)
    ∷ (InstructionId.ldr64_pre_float, ldr64_pre_float)
    ∷ (InstructionId.strb_reg, strb_regoff)
    ∷ (InstructionId.ldrb_reg, ldrb_regoff)
    ∷ (InstructionId.ldrsb64_reg, ldrsb64_regoff)
    ∷ (InstructionId.ldrsb32_reg, ldrsb32_regoff)
    ∷ (InstructionId.str8_reg_float, strb_regoff_float)
    ∷ (InstructionId.ldr8_reg_float, ldrb_regoff_float)
    ∷ (InstructionId.str128_reg, str128_regoff_float)
    ∷ (InstructionId.ldr128_reg, ldr128_regoff_float)
    ∷ (InstructionId.strh_reg, strh_regoff)
    ∷ (InstructionId.ldrh_reg, ldrh_regoff)
    ∷ (InstructionId.ldrsh64_reg, ldrsh64_regoff)
    ∷ (InstructionId.ldrsh32_reg, ldrsh32_regoff)
    ∷ (InstructionId.str16_reg_float, strh_regoff_float)
    ∷ (InstructionId.ldr16_reg_float, ldrh_regoff_float)
    ∷ (InstructionId.str32_reg, str32_regoff)
    ∷ (InstructionId.ldr32_reg, ldr32_regoff)
    ∷ (InstructionId.ldrsw_reg, ldrsw_regoff)
    ∷ (InstructionId.str32_reg_float, str32_regoff_float)
    ∷ (InstructionId.ldr32_reg_float, ldr32_regoff_float)
    ∷ (InstructionId.str64_reg, str64_regoff)
    ∷ (InstructionId.ldr64_reg, ldr64_regoff)
    ∷ (InstructionId.prfm_reg, no_access)
    ∷ (InstructionId.str64_reg_float, str64_regoff_float)
    ∷ (InstructionId.ldr64_reg_float, ldr64_regoff_float)
    ∷ (InstructionId.strb_imm, strb_imm)
    ∷ (InstructionId.ldrb_imm, ldrb_imm)
    ∷ (InstructionId.ldrsb64_imm, ldrsb64_imm)
    ∷ (InstructionId.ldrsb32_imm, ldrsb32_imm)
    ∷ (InstructionId.str8_imm_float, str8_imm_float)
    ∷ (InstructionId.ldr8_imm_float, ldr8_imm_float)
    ∷ (InstructionId.str128_imm, str128_imm)
    ∷ (InstructionId.ldr128_imm, ldr128_imm)
    ∷ (InstructionId.strh_imm, strh_imm)
    ∷ (InstructionId.ldrh_imm, ldrh_imm)
    ∷ (InstructionId.ldrsh64_imm, ldrsh64_imm)
    ∷ (InstructionId.ldrsh32_imm, ldrsh32_imm)
    ∷ (InstructionId.str16_imm_float, str16_imm_float)
    ∷ (InstructionId.ldr16_imm_float, ldr16_imm_float)
    ∷ (InstructionId.str32_imm, str32_imm)
    ∷ (InstructionId.ldr32_imm, ldr32_imm)
    ∷ (InstructionId.ldrsw_imm, ldrsw_imm)
    ∷ (InstructionId.str32_imm_float, str32_imm_float)
    ∷ (InstructionId.ldr32_imm_float, ldr32_imm_float)
    ∷ (InstructionId.str64_imm, str64_imm)
    ∷ (InstructionId.ldr64_imm, ldr64_imm)
    ∷ (InstructionId.prfm_imm, no_access)
    ∷ (InstructionId.str64_imm_float, str64_imm_float)
    ∷ (InstructionId.ldr64_imm_float, ldr64_imm_float)
    ∷ []
