-- ===== src/Cpu/Decode/Simd/ScalarTwo.antt =====
-- libcpu/src/decode/decodeSIMD.cpp: scalar copies, two registers and pairs.
use switch_emu_pub.Base.{ℕ, ltb, ◌==◌, ◌&&◌, not, if◌then◌else◌}
use switch_emu_pub.Bits.{test_bit, bit_range}
use switch_emu_pub.Cpu.InstructionId.{InstructionId}

unfoldable pub decode_simd_scalar_copy : ℕ → InstructionId
decode_simd_scalar_copy bits =
    if not (test_bit bits 29) && not (bit_range 16 19 bits == 0) && bit_range 11 15 bits == 0
    then InstructionId.dup_element_scalar
    else InstructionId.invalid

unfoldable pub decode_simd_scalar_2_reg_not_u : ℕ → InstructionId
decode_simd_scalar_2_reg_not_u bits =
    let size = bit_range 22 23 bits in
    let opcode = bit_range 12 16 bits in
    if opcode == 3
    then InstructionId.suqadd_scalar
    else if opcode == 7
    then InstructionId.sqabs_scalar
    else if opcode == 8
    then InstructionId.cmgt_scalar_zero
    else if opcode == 9
    then InstructionId.cmeq_scalar_zero
    else if opcode == 10
    then InstructionId.cmlt_scalar_zero
    else if opcode == 11
    then InstructionId.abs_scalar
    else if opcode == 12
    then (if ltb size 2 then InstructionId.invalid else InstructionId.fcmgt_scalar_zero)
    else if opcode == 13
    then (if ltb size 2 then InstructionId.invalid else InstructionId.fcmeq_scalar_zero)
    else if opcode == 14
    then (if ltb size 2 then InstructionId.invalid else InstructionId.fcmlt_scalar_zero)
    else if opcode == 20
    then InstructionId.sqxtn_scalar
    else if opcode == 26
    then (if ltb size 2 then InstructionId.fcvtns_scalar else InstructionId.fcvtps_scalar)
    else if opcode == 27
    then (if ltb size 2 then InstructionId.fcvtms_scalar else InstructionId.fcvtzs_scalar_int)
    else if opcode == 28
    then (if ltb size 2 then InstructionId.fcvtas_scalar else InstructionId.invalid)
    else if opcode == 29
    then (if ltb size 2 then InstructionId.scvtf_scalar_int else InstructionId.frecpe_scalar)
    else if opcode == 31
    then (if ltb size 2 then InstructionId.invalid else InstructionId.frecpx_scalar)
    else InstructionId.invalid

unfoldable pub decode_simd_scalar_2_reg_u : ℕ → InstructionId
decode_simd_scalar_2_reg_u bits =
    let size = bit_range 22 23 bits in
    let opcode = bit_range 12 16 bits in
    if opcode == 3
    then InstructionId.usqadd_scalar
    else if opcode == 7
    then InstructionId.sqneg_scalar
    else if opcode == 8
    then InstructionId.cmge_scalar_zero
    else if opcode == 9
    then InstructionId.cmle_scalar_zero
    else if opcode == 11
    then InstructionId.neg_scalar
    else if opcode == 12
    then (if ltb size 2 then InstructionId.invalid else InstructionId.fcmge_scalar_zero)
    else if opcode == 13
    then (if ltb size 2 then InstructionId.invalid else InstructionId.fcmle_scalar_zero)
    else if opcode == 18
    then InstructionId.sqxtun_scalar
    else if opcode == 20
    then InstructionId.uqxtn_scalar
    else if opcode == 22
    then (if ltb size 2 then InstructionId.fcvtxn_scalar else InstructionId.invalid)
    else if opcode == 26
    then (if ltb size 2 then InstructionId.fcvtnu_scalar else InstructionId.fcvtpu_scalar)
    else if opcode == 27
    then (if ltb size 2 then InstructionId.fcvtmu_scalar else InstructionId.fcvtzu_scalar_int)
    else if opcode == 28
    then (if ltb size 2 then InstructionId.fcvtau_scalar else InstructionId.invalid)
    else if opcode == 29
    then (if ltb size 2 then InstructionId.ucvtf_scalar_int else InstructionId.frsqrte_scalar)
    else InstructionId.invalid

unfoldable pub decode_simd_scalar_2_reg : ℕ → InstructionId
unfolding decode_simd_scalar_2_reg_not_u decode_simd_scalar_2_reg_u
decode_simd_scalar_2_reg bits =
    let u = test_bit bits 29 in
    if not u then decode_simd_scalar_2_reg_not_u bits else decode_simd_scalar_2_reg_u bits

unfoldable pub decode_simd_scalar_pairwise : ℕ → InstructionId
decode_simd_scalar_pairwise bits =
    let u = test_bit bits 29 in
    let size = bit_range 22 23 bits in
    let opcode = bit_range 12 16 bits in
    if not u
    then (if opcode == 0x1b then InstructionId.addp_scalar else InstructionId.invalid)
    else if ltb size 2
    then (if opcode == 0xc
        then InstructionId.fmaxnmp_scalar
        else if opcode == 0xd
        then InstructionId.faddp_scalar
        else if opcode == 0xf
        then InstructionId.fmaxp_scalar
        else InstructionId.invalid)
    else if opcode == 0xc
    then InstructionId.fminnmp_scalar
    else if opcode == 0xf
    then InstructionId.fminp_scalar
    else InstructionId.invalid

unfoldable pub decode_simd_scalar_3_different : ℕ → InstructionId
decode_simd_scalar_3_different bits =
    let u = test_bit bits 29 in
    let opcode = bit_range 12 15 bits in
    if not u
    then (if opcode == 0x9
        then InstructionId.sqdmlal_scalar
        else if opcode == 0xb
        then InstructionId.sqdmlsl_scalar
        else if opcode == 0xd
        then InstructionId.sqdmull_scalar
        else InstructionId.invalid)
    else InstructionId.invalid
