-- ===== src/Cpu/Decode/Simd/TwoReg.antt =====
-- libcpu/src/decode/decodeSIMD.cpp: two vectors.
use switch_emu_pub.Base.{ℕ, ltb, ◌==◌, not, if◌then◌else◌}
use switch_emu_pub.Bits.{test_bit, bit_range}
use switch_emu_pub.Cpu.InstructionId.{InstructionId}

unfoldable pub decode_simd_2_reg_not_u : ℕ → InstructionId
decode_simd_2_reg_not_u bits =
    let q = test_bit bits 30 in
    let size = bit_range 22 23 bits in
    let opcode = bit_range 12 16 bits in
    if opcode == 0
    then InstructionId.rev64_vec
    else if opcode == 1
    then InstructionId.rev16_vec
    else if opcode == 2
    then InstructionId.saddlp_vec
    else if opcode == 3
    then InstructionId.suqadd_vec
    else if opcode == 4
    then InstructionId.cls_vec
    else if opcode == 5
    then InstructionId.cnt_vec
    else if opcode == 6
    then InstructionId.sadalp_vec
    else if opcode == 7
    then InstructionId.sqabs_vec
    else if opcode == 8
    then InstructionId.cmgt_vec_zero
    else if opcode == 9
    then InstructionId.cmeq_vec_zero
    else if opcode == 10
    then InstructionId.cmlt_vec_zero
    else if opcode == 11
    then InstructionId.abs_vec
    else if opcode == 12
    then (if ltb size 2 then InstructionId.invalid else InstructionId.fcmgt_vec_zero)
    else if opcode == 13
    then (if ltb size 2 then InstructionId.invalid else InstructionId.fcmeq_vec_zero)
    else if opcode == 14
    then (if ltb size 2 then InstructionId.invalid else InstructionId.fcmlt_vec_zero)
    else if opcode == 15
    then (if ltb size 2 then InstructionId.invalid else InstructionId.fabs_vec)
    else if opcode == 18
    then (if not q then InstructionId.xtn_vec else InstructionId.xtn2_vec)
    else if opcode == 20
    then (if not q then InstructionId.sqxtn_vec else InstructionId.sqxtn2_vec)
    else if opcode == 22
    then (if ltb size 2
        then (if not q then InstructionId.fcvtn_vec else InstructionId.fcvtn2_vec)
        else InstructionId.invalid)
    else if opcode == 23
    then (if ltb size 2
        then (if not q then InstructionId.fcvtl_vec else InstructionId.fcvtl2_vec)
        else InstructionId.invalid)
    else if opcode == 24
    then (if ltb size 2 then InstructionId.frintn_vec else InstructionId.frintp_vec)
    else if opcode == 25
    then (if ltb size 2 then InstructionId.frintm_vec else InstructionId.frintz_vec)
    else if opcode == 26
    then (if ltb size 2 then InstructionId.fcvtns_vec else InstructionId.fcvtps_vec)
    else if opcode == 27
    then (if ltb size 2 then InstructionId.fcvtms_vec else InstructionId.fcvtzs_vec_int)
    else if opcode == 28
    then (if ltb size 2 then InstructionId.fcvtas_vec else InstructionId.urecpe_vec)
    else if opcode == 29
    then (if ltb size 2 then InstructionId.scvtf_vec_int else InstructionId.frecpe_vec)
    else InstructionId.invalid

unfoldable pub decode_simd_2_reg_u : ℕ → InstructionId
decode_simd_2_reg_u bits =
    let q = test_bit bits 30 in
    let size = bit_range 22 23 bits in
    let opcode = bit_range 12 16 bits in
    if opcode == 0
    then InstructionId.rev32_vec
    else if opcode == 2
    then InstructionId.uaddlp_vec
    else if opcode == 3
    then InstructionId.usqadd_vec
    else if opcode == 4
    then InstructionId.clz_vec
    else if opcode == 5
    then (if size == 0
        then InstructionId.not_vec
        else if size == 1
        then InstructionId.rbit_vec
        else InstructionId.invalid)
    else if opcode == 6
    then InstructionId.uadalp_vec
    else if opcode == 7
    then InstructionId.sqneg_vec
    else if opcode == 8
    then InstructionId.cmge_vec_zero
    else if opcode == 9
    then InstructionId.cmle_vec_zero
    else if opcode == 11
    then InstructionId.neg_vec
    else if opcode == 12
    then (if ltb size 2 then InstructionId.invalid else InstructionId.fcmge_vec_zero)
    else if opcode == 13
    then (if ltb size 2 then InstructionId.invalid else InstructionId.fcmle_vec_zero)
    else if opcode == 15
    then (if ltb size 2 then InstructionId.invalid else InstructionId.fneg_vec)
    else if opcode == 18
    then (if not q then InstructionId.sqxtun_vec else InstructionId.sqxtun2_vec)
    else if opcode == 19
    then (if not q then InstructionId.shll_vec else InstructionId.shll2_vec)
    else if opcode == 20
    then (if not q then InstructionId.uqxtn_vec else InstructionId.uqxtn2_vec)
    else if opcode == 22
    then (if ltb size 2
        then (if not q then InstructionId.fcvtxn_vec else InstructionId.fcvtxn2_vec)
        else InstructionId.invalid)
    else if opcode == 24
    then (if ltb size 2 then InstructionId.frinta_vec else InstructionId.invalid)
    else if opcode == 25
    then (if ltb size 2 then InstructionId.frintx_vec else InstructionId.frinti_vec)
    else if opcode == 26
    then (if ltb size 2 then InstructionId.fcvtnu_vec else InstructionId.fcvtpu_vec)
    else if opcode == 27
    then (if ltb size 2 then InstructionId.fcvtmu_vec else InstructionId.fcvtzu_vec_int)
    else if opcode == 28
    then (if ltb size 2 then InstructionId.fcvtau_vec else InstructionId.ursqrte_vec)
    else if opcode == 29
    then (if ltb size 2 then InstructionId.ucvtf_vec_int else InstructionId.frsqrte_vec)
    else if opcode == 31
    then (if ltb size 2 then InstructionId.invalid else InstructionId.fsqrt_vec)
    else InstructionId.invalid

unfoldable pub decode_simd_2_reg : ℕ → InstructionId
unfolding decode_simd_2_reg_not_u decode_simd_2_reg_u
decode_simd_2_reg bits =
    let u = test_bit bits 29 in
    if not u then decode_simd_2_reg_not_u bits else decode_simd_2_reg_u bits
