-- ===== src/Cpu/Decode/Simd/Immediate.antt =====
-- libcpu/src/decode/decodeSIMD.cpp: immediates.
use switch_emu_pub.Base.{ℕ, ◌==◌, ◌||◌, not, if◌then◌else◌}
use switch_emu_pub.Bits.{test_bit, bit_range}
use switch_emu_pub.Cpu.InstructionId.{InstructionId}

unfoldable pub decode_simd_modified_immediate : ℕ → InstructionId
decode_simd_modified_immediate bits =
    let q = test_bit bits 30 in
    let op = test_bit bits 29 in
    let cmode = bit_range 12 15 bits in
    if test_bit bits 11
    then InstructionId.invalid
    else if not op
    then (if cmode == 0 || cmode == 2 || cmode == 4 || cmode == 6
        then InstructionId.movi_32_shifted_imm
        else if cmode == 1 || cmode == 3 || cmode == 5 || cmode == 7
        then InstructionId.orr_vec_imm_32
        else if cmode == 8 || cmode == 10
        then InstructionId.movi_16_shifted_imm
        else if cmode == 9 || cmode == 11
        then InstructionId.orr_vec_imm_16
        else if cmode == 12 || cmode == 13
        then InstructionId.movi_32_shifting_ones
        else if cmode == 14
        then InstructionId.movi_8_imm
        else if cmode == 15
        then InstructionId.fmov_vec_imm_single
        else InstructionId.invalid)
    else if cmode == 0 || cmode == 2 || cmode == 4 || cmode == 6
    then InstructionId.mvni_32_shifted_imm
    else if cmode == 1 || cmode == 3 || cmode == 5 || cmode == 7
    then InstructionId.bic_vec_imm_32
    else if cmode == 8 || cmode == 10
    then InstructionId.mvni_16_shifted_imm
    else if cmode == 9 || cmode == 11
    then InstructionId.bic_vec_imm_16
    else if cmode == 12 || cmode == 13
    then InstructionId.mvni_32_shifting_ones
    else if cmode == 14
    then (if q then InstructionId.movi_64_vec else InstructionId.movi_64_scalar)
    else if cmode == 15
    then (if q then InstructionId.fmov_vec_imm_double else InstructionId.invalid)
    else InstructionId.invalid
