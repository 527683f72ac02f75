-- ===== src/Cpu/Decode/Simd/ShiftImmediate.antt =====
-- libcpu/src/decode/decodeSIMD.cpp: shifts by an immediate.
use switch_emu_pub.Base.{ℕ, ◌==◌, not, if◌then◌else◌}
use switch_emu_pub.Bits.{test_bit, bit_range}
use switch_emu_pub.Cpu.InstructionId.{InstructionId}

unfoldable pub decode_simd_shift_immediate : ℕ → InstructionId
decode_simd_shift_immediate bits =
    let q = test_bit bits 30 in
    let u = test_bit bits 29 in
    let opcode = bit_range 11 15 bits in
    if not u
    then (if opcode == 0
        then InstructionId.sshr_vec
        else if opcode == 2
        then InstructionId.ssra_vec
        else if opcode == 4
        then InstructionId.srshr_vec
        else if opcode == 6
        then InstructionId.srsra_vec
        else if opcode == 10
        then InstructionId.shl_vec
        else if opcode == 14
        then InstructionId.sqshl_vec_imm
        else if opcode == 16
        then (if not q then InstructionId.shrn_vec else InstructionId.shrn2_vec)
        else if opcode == 17
        then (if not q then InstructionId.rshrn_vec else InstructionId.rshrn2_vec)
        else if opcode == 18
        then (if not q then InstructionId.sqshrn_vec else InstructionId.sqshrn2_vec)
        else if opcode == 19
        then (if not q then InstructionId.sqrshrn_vec else InstructionId.sqrshrn2_vec)
        else if opcode == 20
        then (if not q then InstructionId.sshll_vec else InstructionId.sshll2_vec)
        else if opcode == 28
        then InstructionId.scvtf_vec_fixed
        else if opcode == 31
        then InstructionId.fcvtzs_vec_fixed
        else InstructionId.invalid)
    else if opcode == 0
    then InstructionId.ushr_vec
    else if opcode == 2
    then InstructionId.usra_vec
    else if opcode == 4
    then InstructionId.urshr_vec
    else if opcode == 6
    then InstructionId.ursra_vec
    else if opcode == 8
    then InstructionId.sri_vec
    else if opcode == 10
    then InstructionId.sli_vec
    else if opcode == 12
    then InstructionId.sqshlu_vec
    else if opcode == 14
    then InstructionId.uqshl_vec_imm
    else if opcode == 16
    then (if not q then InstructionId.sqshrun_vec else InstructionId.sqshrun2_vec)
    else if opcode == 17
    then (if not q then InstructionId.sqrshrun_vec else InstructionId.sqrshrun2_vec)
    else if opcode == 18
    then (if not q then InstructionId.uqshrn_vec else InstructionId.uqshrn2_vec)
    else if opcode == 19
    then (if not q then InstructionId.uqrshrn_vec else InstructionId.uqrshrn2_vec)
    else if opcode == 20
    then (if not q then InstructionId.ushll_vec else InstructionId.ushll2_vec)
    else if opcode == 28
    then InstructionId.ucvtf_vec_fixed
    else if opcode == 31
    then InstructionId.fcvtzu_vec_fixed
    else InstructionId.invalid
