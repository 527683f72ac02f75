-- ===== src/Cpu/Preserve/DpRegTable.antt =====
-- Every handler that libcpu/src/interpreter/DataProcessingReg.cpp registers keeps the registers within 64 bits.
use Prim.Native.Nat.{bit_and, bit_or, bit_xor}
use switch_emu_pub.Bits.Bounds.{bit_and-lt, bit_or-lt, bit_xor-lt}
use switch_emu_pub.Base.{true, false, Each, nil, ◌▸◌}
use switch_emu_pub.Cpu.Interpreter.Entry.{unimplemented}
use switch_emu_pub.Cpu.Interpreter.DpRegTable.{dp_reg_instructions}
use switch_emu_pub.Cpu.Preserve.DpReg.{
  unsigned_divide-Fits, signed_divide-Fits, shift_generic-Fits, reverse_bits-Fits, reverse16-Fits,
  reverse_bytes-Fits, count_leading_clear_bits-Fits, count_leading_set_bits-Fits, reverse32-Fits,
  logical_shifted_reg-Fits, add_sub_shifted_reg-Fits, add_sub_extended_reg-Fits, add_sub_carry-Fits,
  cond_compare_reg-Fits, cond_compare_imm-Fits, cond_sel-Fits, multiply-Fits, s_multiply_long-Fits,
  mulh-Fits, u_multiply_long-Fits,
}
use switch_emu_pub.Cpu.Preserve.DpReg.{KeepsFits}

unimplemented-Fits : KeepsFits unimplemented
unfolding unimplemented
unimplemented-Fits core inst fits = fits

pub dp_reg_instructions-Fits : Each (λ e. KeepsFits e.1) dp_reg_instructions
dp_reg_instructions-Fits =
    unsigned_divide-Fits false
    ▸ signed_divide-Fits false
    ▸ shift_generic-Fits false
    ▸ shift_generic-Fits false
    ▸ shift_generic-Fits false
    ▸ shift_generic-Fits false
    ▸ unsigned_divide-Fits true
    ▸ signed_divide-Fits true
    ▸ shift_generic-Fits true
    ▸ shift_generic-Fits true
    ▸ shift_generic-Fits true
    ▸ shift_generic-Fits true
    ▸ unimplemented-Fits
    ▸ unimplemented-Fits
    ▸ unimplemented-Fits
    ▸ unimplemented-Fits
    ▸ unimplemented-Fits
    ▸ unimplemented-Fits
    ▸ unimplemented-Fits
    ▸ unimplemented-Fits
    ▸ reverse_bits-Fits false
    ▸ reverse16-Fits false
    ▸ reverse_bytes-Fits false
    ▸ count_leading_clear_bits-Fits false
    ▸ count_leading_set_bits-Fits false
    ▸ reverse_bits-Fits true
    ▸ reverse16-Fits true
    ▸ reverse32-Fits
    ▸ reverse_bytes-Fits true
    ▸ count_leading_clear_bits-Fits true
    ▸ count_leading_set_bits-Fits true
    ▸ logical_shifted_reg-Fits false false false bit_and (bit_and-lt 64)
    ▸ logical_shifted_reg-Fits false true false bit_and (bit_and-lt 64)
    ▸ logical_shifted_reg-Fits false false false bit_or (bit_or-lt 64)
    ▸ logical_shifted_reg-Fits false true false bit_or (bit_or-lt 64)
    ▸ logical_shifted_reg-Fits false false false bit_xor (bit_xor-lt 64)
    ▸ logical_shifted_reg-Fits false true false bit_xor (bit_xor-lt 64)
    ▸ logical_shifted_reg-Fits false false true bit_and (bit_and-lt 64)
    ▸ logical_shifted_reg-Fits false true true bit_and (bit_and-lt 64)
    ▸ logical_shifted_reg-Fits true false false bit_and (bit_and-lt 64)
    ▸ logical_shifted_reg-Fits true true false bit_and (bit_and-lt 64)
    ▸ logical_shifted_reg-Fits true false false bit_or (bit_or-lt 64)
    ▸ logical_shifted_reg-Fits true true false bit_or (bit_or-lt 64)
    ▸ logical_shifted_reg-Fits true false false bit_xor (bit_xor-lt 64)
    ▸ logical_shifted_reg-Fits true true false bit_xor (bit_xor-lt 64)
    ▸ logical_shifted_reg-Fits true false true bit_and (bit_and-lt 64)
    ▸ logical_shifted_reg-Fits true true true bit_and (bit_and-lt 64)
    ▸ add_sub_shifted_reg-Fits false false false
    ▸ add_sub_shifted_reg-Fits false false true
    ▸ add_sub_shifted_reg-Fits false true false
    ▸ add_sub_shifted_reg-Fits false true true
    ▸ add_sub_shifted_reg-Fits true false false
    ▸ add_sub_shifted_reg-Fits true false true
    ▸ add_sub_shifted_reg-Fits true true false
    ▸ add_sub_shifted_reg-Fits true true true
    ▸ add_sub_extended_reg-Fits false false false
    ▸ add_sub_extended_reg-Fits false false true
    ▸ add_sub_extended_reg-Fits false true false
    ▸ add_sub_extended_reg-Fits false true true
    ▸ add_sub_extended_reg-Fits true false false
    ▸ add_sub_extended_reg-Fits true false true
    ▸ add_sub_extended_reg-Fits true true false
    ▸ add_sub_extended_reg-Fits true true true
    ▸ add_sub_carry-Fits false false false
    ▸ add_sub_carry-Fits false false true
    ▸ add_sub_carry-Fits false true false
    ▸ add_sub_carry-Fits false true true
    ▸ add_sub_carry-Fits true false false
    ▸ add_sub_carry-Fits true false true
    ▸ add_sub_carry-Fits true true false
    ▸ add_sub_carry-Fits true true true
    ▸ cond_compare_reg-Fits false false
    ▸ cond_compare_reg-Fits false true
    ▸ cond_compare_reg-Fits true false
    ▸ cond_compare_reg-Fits true true
    ▸ cond_compare_imm-Fits false false
    ▸ cond_compare_imm-Fits false true
    ▸ cond_compare_imm-Fits true false
    ▸ cond_compare_imm-Fits true true
    ▸ cond_sel-Fits false false false
    ▸ cond_sel-Fits false false true
    ▸ cond_sel-Fits false true false
    ▸ cond_sel-Fits false true true
    ▸ cond_sel-Fits true false false
    ▸ cond_sel-Fits true false true
    ▸ cond_sel-Fits true true false
    ▸ cond_sel-Fits true true true
    ▸ multiply-Fits false false
    ▸ multiply-Fits false true
    ▸ multiply-Fits true false
    ▸ multiply-Fits true true
    ▸ s_multiply_long-Fits false
    ▸ s_multiply_long-Fits true
    ▸ mulh-Fits true
    ▸ u_multiply_long-Fits false
    ▸ u_multiply_long-Fits true
    ▸ mulh-Fits false
    ▸ nil
