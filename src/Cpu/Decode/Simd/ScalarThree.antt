-- ===== src/Cpu/Decode/Simd/ScalarThree.antt =====
-- libcpu/src/decode/decodeSIMD.cpp: scalar operations on three registers.
use switch_emu_pub.Base.{ℕ, ltb, ◌==◌, ◌&&◌, not, if◌then◌else◌}
use switch_emu_pub.Bits.{test_bit, bit_range}
use switch_emu_pub.Cpu.InstructionId.{InstructionId}

unfoldable pub decode_simd_scalar_3_same : ℕ → InstructionId
decode_simd_scalar_3_same bits =
    let u = test_bit bits 29 in
    let size = bit_range 22 23 bits in
    let opcode = bit_range 11 15 bits in
    if not u
    then (if opcode == 1
        then InstructionId.sqadd_scalar
        else if opcode == 5
        then InstructionId.sqsub_scalar
        else if opcode == 6
        then InstructionId.cmgt_scalar_reg
        else if opcode == 7
        then InstructionId.cmge_scalar_reg
        else if opcode == 8
        then InstructionId.sshl_scalar
        else if opcode == 9
        then InstructionId.sqshl_scalar_reg
        else if opcode == 10
        then InstructionId.srshl_scalar
        else if opcode == 11
        then InstructionId.sqrshl_scalar
        else if opcode == 16
        then InstructionId.add_scalar
        else if opcode == 17
        then InstructionId.cmtst_scalar
        else if opcode == 22
        then InstructionId.sqdmulh_scalar
        else if opcode == 27
        then (if ltb size 2 then InstructionId.fmulx_scalar else InstructionId.invalid)
        else if opcode == 28
        then (if ltb size 2 then InstructionId.fcmeq_scalar_reg else InstructionId.invalid)
        else if opcode == 31
        then (if ltb size 2 then InstructionId.frecps_scalar else InstructionId.frsqrts_scalar)
        else InstructionId.invalid)
    else if opcode == 1
    then InstructionId.uqadd_scalar
    else if opcode == 5
    then InstructionId.uqsub_scalar
    else if opcode == 6
    then InstructionId.cmhi_scalar_reg
    else if opcode == 7
    then InstructionId.cmhs_scalar_reg
    else if opcode == 8
    then InstructionId.ushl_scalar
    else if opcode == 9
    then InstructionId.uqshl_scalar_reg
    else if opcode == 10
    then InstructionId.urshl_scalar
    else if opcode == 11
    then InstructionId.uqrshl_scalar
    else if opcode == 16
    then InstructionId.sub_scalar
    else if opcode == 17
    then InstructionId.cmeq_scalar_reg
    else if opcode == 22
    then InstructionId.sqrdmulh_scalar
    else if opcode == 26
    then (if ltb size 2 then InstructionId.invalid else InstructionId.fabd_scalar)
    else if opcode == 28
    then (if ltb size 2 then InstructionId.fcmge_scalar_reg else InstructionId.fcmgt_scalar_reg)
    else if opcode == 29
    then (if ltb size 2 then InstructionId.facge_scalar else InstructionId.facgt_scalar)
    else InstructionId.invalid

unfoldable pub decode_simd_scalar_xindexed : ℕ → InstructionId
decode_simd_scalar_xindexed bits =
    let u = test_bit bits 29 in
    let size = bit_range 22 23 bits in
    let opcode = bit_range 12 15 bits in
    if not u
    then (if opcode == 1
        then (if ltb 1 size then InstructionId.fmla_scalar_element else InstructionId.invalid)
        else if opcode == 3
        then InstructionId.sqdmlal_scalar_element
        else if opcode == 5
        then (if ltb 1 size then InstructionId.fmls_scalar_element else InstructionId.invalid)
        else if opcode == 7
        then InstructionId.sqdmlsl_scalar_element
        else if opcode == 9
        then (if ltb 1 size then InstructionId.fmul_scalar_element else InstructionId.invalid)
        else if opcode == 11
        then InstructionId.sqdmull_scalar_element
        else if opcode == 12
        then InstructionId.sqdmulh_scalar_element
        else if opcode == 13
        then InstructionId.sqrdmulh_scalar_element
        else InstructionId.invalid)
    else if ltb 1 size && opcode == 9
    then InstructionId.fmulx_scalar_element
    else InstructionId.invalid
