-- ===== src/Cpu/Decode/Simd/ThreeSame.antt =====
-- libcpu/src/decode/decodeSIMD.cpp: three vectors of one width.
use switch_emu_pub.Base.{ℕ, ltb, ◌==◌, not, if◌then◌else◌}
use switch_emu_pub.Bits.{test_bit, bit_range}
use switch_emu_pub.Cpu.InstructionId.{InstructionId}

unfoldable pub decode_simd_3_same_not_u : ℕ → InstructionId
decode_simd_3_same_not_u bits =
    let size = bit_range 22 23 bits in
    let opcode = bit_range 11 15 bits in
    if opcode == 0
    then InstructionId.shadd_vec
    else if opcode == 1
    then InstructionId.sqadd_vec
    else if opcode == 2
    then InstructionId.srhadd_vec
    else if opcode == 3
    then (if size == 0
        then InstructionId.and_vec
        else if size == 1
        then InstructionId.bic_vec_reg
        else if size == 2
        then InstructionId.orr_vec_reg
        else if size == 3
        then InstructionId.orn_vec
        else InstructionId.invalid)
    else if opcode == 4
    then InstructionId.shsub_vec
    else if opcode == 5
    then InstructionId.sqsub_vec
    else if opcode == 6
    then InstructionId.cmgt_vec_reg
    else if opcode == 7
    then InstructionId.cmge_vec_reg
    else if opcode == 8
    then InstructionId.sshl_vec
    else if opcode == 9
    then InstructionId.sqshl_vec_reg
    else if opcode == 10
    then InstructionId.srshl_vec
    else if opcode == 11
    then InstructionId.sqrshl_vec
    else if opcode == 12
    then InstructionId.smax_vec
    else if opcode == 13
    then InstructionId.smin_vec
    else if opcode == 14
    then InstructionId.sabd_vec
    else if opcode == 15
    then InstructionId.saba_vec
    else if opcode == 16
    then InstructionId.add_vec
    else if opcode == 17
    then InstructionId.cmtst_vec
    else if opcode == 18
    then InstructionId.mla_vec
    else if opcode == 19
    then InstructionId.mul_vec
    else if opcode == 20
    then InstructionId.smaxp_vec
    else if opcode == 21
    then InstructionId.sminp_vec
    else if opcode == 22
    then InstructionId.sqdmulh_vec
    else if opcode == 23
    then InstructionId.addp_vec
    else if opcode == 24
    then (if ltb size 2 then InstructionId.fmaxnm_vec else InstructionId.fminnm_vec)
    else if opcode == 25
    then (if ltb size 2 then InstructionId.fmla_vec else InstructionId.fmls_vec)
    else if opcode == 26
    then (if ltb size 2 then InstructionId.fadd_vec else InstructionId.fsub_vec)
    else if opcode == 27
    then (if ltb size 2 then InstructionId.fmulx_vec else InstructionId.invalid)
    else if opcode == 28
    then (if ltb size 2 then InstructionId.fcmeq_vec_reg else InstructionId.invalid)
    else if opcode == 29
    then InstructionId.invalid
    else if opcode == 30
    then (if ltb size 2 then InstructionId.fmax_vec else InstructionId.fmin_vec)
    else if opcode == 31
    then (if ltb size 2 then InstructionId.frecps_vec else InstructionId.frsqrts_vec)
    else InstructionId.invalid

unfoldable pub decode_simd_3_same_u : ℕ → InstructionId
decode_simd_3_same_u bits =
    let size = bit_range 22 23 bits in
    let opcode = bit_range 11 15 bits in
    if opcode == 0
    then InstructionId.uhadd_vec
    else if opcode == 1
    then InstructionId.uqadd_vec
    else if opcode == 2
    then InstructionId.urhadd_vec
    else if opcode == 3
    then (if size == 0
        then InstructionId.eor_vec
        else if size == 1
        then InstructionId.bsl_vec
        else if size == 2
        then InstructionId.bit_vec
        else if size == 3
        then InstructionId.bif_vec
        else InstructionId.invalid)
    else if opcode == 4
    then InstructionId.uhsub_vec
    else if opcode == 5
    then InstructionId.uqsub_vec
    else if opcode == 6
    then InstructionId.cmhi_vec_reg
    else if opcode == 7
    then InstructionId.cmhs_vec_reg
    else if opcode == 8
    then InstructionId.ushl_vec
    else if opcode == 9
    then InstructionId.uqshl_vec_reg
    else if opcode == 10
    then InstructionId.urshl_vec
    else if opcode == 11
    then InstructionId.uqrshl_vec
    else if opcode == 12
    then InstructionId.umax_vec
    else if opcode == 13
    then InstructionId.umin_vec
    else if opcode == 14
    then InstructionId.uabd_vec
    else if opcode == 15
    then InstructionId.uaba_vec
    else if opcode == 16
    then InstructionId.sub_vec
    else if opcode == 17
    then InstructionId.cmeq_vec_reg
    else if opcode == 18
    then InstructionId.mls_vec
    else if opcode == 19
    then InstructionId.pmul_vec
    else if opcode == 20
    then InstructionId.umaxp_vec
    else if opcode == 21
    then InstructionId.uminp_vec
    else if opcode == 22
    then InstructionId.sqrdmulh_vec
    else if opcode == 23
    then InstructionId.invalid
    else if opcode == 24
    then (if ltb size 2 then InstructionId.fmaxnmp_vec else InstructionId.fminnmp_vec)
    else if opcode == 25
    then InstructionId.invalid
    else if opcode == 26
    then (if ltb size 2 then InstructionId.faddp_vec else InstructionId.fabd_vec)
    else if opcode == 27
    then (if ltb size 2 then InstructionId.fmul_vec else InstructionId.invalid)
    else if opcode == 28
    then (if ltb size 2 then InstructionId.fcmge_vec_reg else InstructionId.fcmgt_vec_reg)
    else if opcode == 29
    then (if ltb size 2 then InstructionId.facge_vec else InstructionId.facgt_vec)
    else if opcode == 30
    then (if ltb size 2 then InstructionId.fmaxp_vec else InstructionId.fminp_vec)
    else if opcode == 31
    then (if ltb size 2 then InstructionId.fdiv_vec else InstructionId.invalid)
    else InstructionId.invalid

unfoldable pub decode_simd_3_same : ℕ → InstructionId
unfolding decode_simd_3_same_not_u decode_simd_3_same_u
decode_simd_3_same bits =
    let u = test_bit bits 29 in
    if not u then decode_simd_3_same_not_u bits else decode_simd_3_same_u bits
