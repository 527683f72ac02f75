-- ===== src/Cpu/Decode/Simd/Indexed.antt =====
-- libcpu/src/decode/decodeSIMD.cpp: indexed elements.
use switch_emu_pub.Base.{ℕ, ltb, ◌==◌, not, if◌then◌else◌}
use switch_emu_pub.Bits.{test_bit, bit_range}
use switch_emu_pub.Cpu.InstructionId.{InstructionId}

unfoldable pub decode_simd_vector_xindexed : ℕ → InstructionId
decode_simd_vector_xindexed bits =
    let q = test_bit bits 30 in
    let u = test_bit bits 29 in
    let size = bit_range 22 23 bits in
    let opcode = bit_range 12 15 bits in
    if not u
    then (if opcode == 1
        then (if ltb 1 size then InstructionId.fmla_vec_element else InstructionId.invalid)
        else if opcode == 2
        then (if not q then InstructionId.smlal_vec_element else InstructionId.smlal2_vec_element)
        else if opcode == 3
        then (if not q
            then InstructionId.sqdmlal_vec_element
            else InstructionId.sqdmlal2_vec_element)
        else if opcode == 5
        then (if ltb 1 size then InstructionId.fmls_vec_element else InstructionId.invalid)
        else if opcode == 6
        then (if not q then InstructionId.smlsl_vec_element else InstructionId.smlsl2_vec_element)
        else if opcode == 7
        then (if not q
            then InstructionId.sqdmlsl_vec_element
            else InstructionId.sqdmlsl2_vec_element)
        else if opcode == 8
        then InstructionId.mul_vec_element
        else if opcode == 9
        then (if ltb 1 size then InstructionId.fmul_vec_element else InstructionId.invalid)
        else if opcode == 10
        then (if not q then InstructionId.smull_vec_element else InstructionId.smull2_vec_element)
        else if opcode == 11
        then (if not q
            then InstructionId.sqdmull_vec_element
            else InstructionId.sqdmull2_vec_element)
        else if opcode == 12
        then InstructionId.sqdmulh_vec_element
        else if opcode == 13
        then InstructionId.sqrdmulh_vec_element
        else InstructionId.invalid)
    else if opcode == 0
    then InstructionId.mla_vec_element
    else if opcode == 2
    then (if not q then InstructionId.umlal_vec_element else InstructionId.umlal2_vec_element)
    else if opcode == 4
    then InstructionId.mls_vec_element
    else if opcode == 6
    then (if not q then InstructionId.umlsl_vec_element else InstructionId.umlsl2_vec_element)
    else if opcode == 9
    then (if ltb 1 size then InstructionId.fmulx_vec_element else InstructionId.invalid)
    else if opcode == 10
    then (if not q then InstructionId.umull_vec_element else InstructionId.umull2_vec_element)
    else InstructionId.invalid
