-- ===== src/Cpu/Decode/Simd.antt =====
-- libcpu/src/decode/decodeSIMD.cpp: the top level.
pub mod Crypto
pub mod ScalarTwo
pub mod ScalarThree
pub mod ScalarShift
pub mod Move
pub mod TwoReg
pub mod ThreeDifferent
pub mod ThreeSame
pub mod Immediate
pub mod ShiftImmediate
pub mod Indexed
use Prim.Native.Nat.{bit_and}
use switch_emu_pub.Base.{ℕ, ltb, ◌==◌, ◌&&◌, not, if◌then◌else◌}
use switch_emu_pub.Bits.{test_bit, bit_range}
use switch_emu_pub.Cpu.InstructionId.{InstructionId}
use Crypto.{decode_cryptographic_aes, decode_cryptographic_3_reg, decode_cryptographic_2_reg}
use ScalarTwo.{
  decode_simd_scalar_copy, decode_simd_scalar_2_reg, decode_simd_scalar_pairwise,
  decode_simd_scalar_3_different,
}
use ScalarThree.{decode_simd_scalar_3_same, decode_simd_scalar_xindexed}
use ScalarShift.{decode_simd_scalar_shift_immediate}
use Move.{
  decode_simd_table_lookup, decode_simd_permute, decode_simd_extract, decode_simd_copy,
  decode_simd_across_lanes,
}
use TwoReg.{decode_simd_2_reg}
use ThreeDifferent.{decode_simd_3_different}
use ThreeSame.{decode_simd_3_same}
use Immediate.{decode_simd_modified_immediate}
use ShiftImmediate.{decode_simd_shift_immediate}
use Indexed.{decode_simd_vector_xindexed}

unfoldable pub decode_simd : ℕ → InstructionId
unfolding decode_cryptographic_aes decode_cryptographic_3_reg decode_cryptographic_2_reg
    decode_simd_scalar_copy decode_simd_scalar_2_reg decode_simd_scalar_pairwise
    decode_simd_scalar_3_different decode_simd_scalar_3_same decode_simd_scalar_shift_immediate
    decode_simd_scalar_xindexed decode_simd_table_lookup decode_simd_permute decode_simd_extract
    decode_simd_copy decode_simd_2_reg decode_simd_across_lanes decode_simd_3_different
    decode_simd_3_same decode_simd_modified_immediate decode_simd_shift_immediate
    decode_simd_vector_xindexed
decode_simd bits =
    let op0 = bit_range 28 31 bits in
    let op1 = bit_range 23 24 bits in
    let op2 = bit_range 19 22 bits in
    let op3 = bit_range 17 18 bits in
    let op4 = bit_range 10 15 bits in
    if op0 == 4 && ltb op1 2 && bit_and op2 0x7 == 5 && op3 == 0 && bit_and op4 0x3 == 2
    then decode_cryptographic_aes bits
    else if op0 == 5 && ltb op1 2 && not (test_bit op2 2) && bit_and op4 0x23 == 0
    then decode_cryptographic_3_reg bits
    else if op0 == 5 && ltb op1 2 && bit_and op2 0x7 == 5 && op3 == 0 && bit_and op4 0x3 == 2
    then decode_cryptographic_2_reg bits
    else if bit_and op0 0xd == 5 && op1 == 0 && ltb op2 4 && bit_and op4 0x21 == 1
    then decode_simd_scalar_copy bits
    else if bit_and op0 0xd == 5
        && ltb op1 2
        && bit_and op2 0x7 == 4
        && op3 == 0
        && bit_and op4 0x3 == 2
    then decode_simd_scalar_2_reg bits
    else if bit_and op0 0xd == 5
        && ltb op1 2
        && bit_and op2 0x7 == 6
        && op3 == 0
        && bit_and op4 0x3 == 2
    then decode_simd_scalar_pairwise bits
    else if bit_and op0 0xd == 5 && ltb op1 2 && bit_and op2 0x4 == 4 && bit_and op4 0x3 == 0
    then decode_simd_scalar_3_different bits
    else if bit_and op0 0xd == 5 && ltb op1 2 && bit_and op2 0x4 == 4 && bit_and op4 0x1 == 1
    then decode_simd_scalar_3_same bits
    else if bit_and op0 0xd == 5 && op1 == 2 && bit_and op4 0x1 == 1
    then decode_simd_scalar_shift_immediate bits
    else if bit_and op0 0xd == 5 && ltb 1 op1 && bit_and op4 0x1 == 0
    then decode_simd_scalar_xindexed bits
    else if bit_and op0 0xb == 0 && ltb op1 2 && bit_and op2 0x4 == 0 && bit_and op4 0x23 == 0
    then decode_simd_table_lookup bits
    else if bit_and op0 0xb == 0 && ltb op1 2 && bit_and op2 0x4 == 0 && bit_and op4 0x23 == 2
    then decode_simd_permute bits
    else if bit_and op0 0xb == 2 && ltb op1 2 && bit_and op2 0x4 == 0 && bit_and op4 0x21 == 0
    then decode_simd_extract bits
    else if bit_and op0 0x9 == 0 && op1 == 0 && bit_and op2 0xc == 0 && bit_and op4 0x21 == 1
    then decode_simd_copy bits
    else if bit_and op0 0x9 == 0
        && ltb op1 2
        && bit_and op2 0x7 == 4
        && op3 == 0
        && bit_and op4 0x3 == 2
    then decode_simd_2_reg bits
    else if bit_and op0 0x9 == 0
        && ltb op1 2
        && bit_and op2 0x7 == 6
        && op3 == 0
        && bit_and op4 0x3 == 2
    then decode_simd_across_lanes bits
    else if bit_and op0 0x9 == 0 && ltb op1 2 && bit_and op2 0x4 == 4 && bit_and op4 0x3 == 0
    then decode_simd_3_different bits
    else if bit_and op0 0x9 == 0 && ltb op1 2 && bit_and op2 0x4 == 4 && bit_and op4 0x1 == 1
    then decode_simd_3_same bits
    else if bit_and op0 0x9 == 0 && op1 == 2 && op2 == 0 && bit_and op4 0x1 == 1
    then decode_simd_modified_immediate bits
    else if bit_and op0 0x9 == 0 && op1 == 2 && not (op2 == 0) && bit_and op4 0x1 == 1
    then decode_simd_shift_immediate bits
    else if bit_and op0 0x9 == 0 && ltb 1 op1 && bit_and op4 0x1 == 0
    then decode_simd_vector_xindexed bits
    else InstructionId.invalid
