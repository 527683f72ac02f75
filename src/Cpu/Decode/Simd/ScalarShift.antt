-- ===== src/Cpu/Decode/Simd/ScalarShift.antt =====
-- libcpu/src/decode/decodeSIMD.cpp: scalar shifts by an immediate.
use switch_emu_pub.Base.{ℕ, ◌==◌, not, if◌then◌else◌}
use switch_emu_pub.Bits.{test_bit, bit_range}
use switch_emu_pub.Cpu.InstructionId.{InstructionId}

unfoldable pub decode_simd_scalar_shift_immediate : ℕ → InstructionId
decode_simd_scalar_shift_immediate bits =
    let u = test_bit bits 29 in
    let opcode = bit_range 11 15 bits in
    if bit_range 19 22 bits == 0
    then InstructionId.invalid
    else if not u
    then (if opcode == 0
        then InstructionId.sshr_scalar
        else if opcode == 2
        then InstructionId.ssra_scalar
        else if opcode == 4
        then InstructionId.srshr_scalar
        else if opcode == 6
        then InstructionId.srsra_scalar
        else if opcode == 10
        then InstructionId.shl_scalar
        else if opcode == 14
        then InstructionId.sqshl_scalar_imm
        else if opcode == 18
        then InstructionId.sqshrn_scalar
        else if opcode == 19
        then InstructionId.sqrshrn_scalar
        else if opcode == 28
        then InstructionId.scvtf_scalar_fixed
        else if opcode == 31
        then InstructionId.fcvtzs_scalar_fixed
        else InstructionId.invalid)
    else if opcode == 0
    then InstructionId.ushr_scalar
    else if opcode == 2
    then InstructionId.usra_scalar
    else if opcode == 4
    then InstructionId.urshr_scalar
    else if opcode == 6
    then InstructionId.ursra_scalar
    else if opcode == 8
    then InstructionId.sri_scalar
    else if opcode == 10
    then InstructionId.sli_scalar
    else if opcode == 12
    then InstructionId.sqshlu_scalar
    else if opcode == 14
    then InstructionId.uqshl_scalar_imm
    else if opcode == 16
    then InstructionId.sqshrun_scalar
    else if opcode == 17
    then InstructionId.sqrshrun_scalar
    else if opcode == 18
    then InstructionId.uqshrn_scalar
    else if opcode == 19
    then InstructionId.uqrshrn_scalar
    else if opcode == 28
    then InstructionId.ucvtf_scalar_fixed
    else if opcode == 31
    then InstructionId.fcvtzu_scalar_fixed
    else InstructionId.invalid
