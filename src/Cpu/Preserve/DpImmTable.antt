-- ===== src/Cpu/Preserve/DpImmTable.antt =====
-- Every handler that libcpu/src/interpreter/DataProcessingImm.cpp registers keeps the registers within 64 bits.
use Prim.Native.Nat.{bit_and, bit_or, bit_xor}
use switch_emu_pub.Bits.Bounds.{bit_and-lt, bit_or-lt, bit_xor-lt}
use switch_emu_pub.Base.{true, false, Each, nil, ◌▸◌}
use switch_emu_pub.Cpu.Interpreter.DpImmTable.{dp_imm_instructions}
use switch_emu_pub.Cpu.Preserve.DpImm.{
  pc_relative-Fits, add_sub_imm-Fits, logical-Fits, move_wide_imm-Fits, bitfield_move-Fits,
  extract-Fits,
}
use switch_emu_pub.Cpu.Preserve.DpReg.{KeepsFits}

pub dp_imm_instructions-Fits : Each (λ e. KeepsFits e.1) dp_imm_instructions
dp_imm_instructions-Fits =
    pc_relative-Fits false
    ▸ pc_relative-Fits true
    ▸ add_sub_imm-Fits false false false
    ▸ add_sub_imm-Fits false false true
    ▸ add_sub_imm-Fits false true false
    ▸ add_sub_imm-Fits false true true
    ▸ add_sub_imm-Fits true false false
    ▸ add_sub_imm-Fits true false true
    ▸ add_sub_imm-Fits true true false
    ▸ add_sub_imm-Fits true true true
    ▸ logical-Fits false false bit_and (bit_and-lt 64)
    ▸ logical-Fits false false bit_or (bit_or-lt 64)
    ▸ logical-Fits false false bit_xor (bit_xor-lt 64)
    ▸ logical-Fits false true bit_and (bit_and-lt 64)
    ▸ logical-Fits true false bit_and (bit_and-lt 64)
    ▸ logical-Fits true false bit_or (bit_or-lt 64)
    ▸ logical-Fits true false bit_xor (bit_xor-lt 64)
    ▸ logical-Fits true true bit_and (bit_and-lt 64)
    ▸ move_wide_imm-Fits false
    ▸ move_wide_imm-Fits false
    ▸ move_wide_imm-Fits false
    ▸ move_wide_imm-Fits true
    ▸ move_wide_imm-Fits true
    ▸ move_wide_imm-Fits true
    ▸ bitfield_move-Fits false true true
    ▸ bitfield_move-Fits false false false
    ▸ bitfield_move-Fits false true false
    ▸ bitfield_move-Fits true true true
    ▸ bitfield_move-Fits true false false
    ▸ bitfield_move-Fits true true false
    ▸ extract-Fits false
    ▸ extract-Fits true
    ▸ nil
