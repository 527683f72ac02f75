-- ===== src/Cpu/Decode/LoadStore/PostIndex.antt =====
-- libcpu/src/decode/decodeLoadStore.cpp: a register, post-indexed.
use switch_emu_pub.Base.{ℕ, ◌==◌, if◌then◌else◌}
use switch_emu_pub.Bits.{test_bit, bit_range}
use switch_emu_pub.Cpu.InstructionId.{InstructionId}

unfoldable pub decode_load_store_reg_imm_post_index_is_simd : ℕ → InstructionId
decode_load_store_reg_imm_post_index_is_simd bits =
    let size = bit_range 30 31 bits in
    let opc = bit_range 22 23 bits in
    if size == 0
    then (if opc == 0
        then InstructionId.str8_post_float
        else if opc == 1
        then InstructionId.ldr8_post_float
        else if opc == 2
        then InstructionId.str128_post
        else InstructionId.ldr128_post)
    else if size == 1
    then (if opc == 0
        then InstructionId.str16_post_float
        else if opc == 1
        then InstructionId.ldr16_post_float
        else InstructionId.invalid)
    else if size == 2
    then (if opc == 0
        then InstructionId.str32_post_float
        else if opc == 1
        then InstructionId.ldr32_post_float
        else InstructionId.invalid)
    else if opc == 0
    then InstructionId.str64_post_float
    else if opc == 1
    then InstructionId.ldr64_post_float
    else InstructionId.invalid

unfoldable pub decode_load_store_reg_imm_post_index_not_is_simd : ℕ → InstructionId
decode_load_store_reg_imm_post_index_not_is_simd bits =
    let size = bit_range 30 31 bits in
    let opc = bit_range 22 23 bits in
    if size == 0
    then (if opc == 0
        then InstructionId.strb_post
        else if opc == 1
        then InstructionId.ldrb_post
        else if opc == 2
        then InstructionId.ldrsb64_post
        else InstructionId.ldrsb32_post)
    else if size == 1
    then (if opc == 0
        then InstructionId.strh_post
        else if opc == 1
        then InstructionId.ldrh_post
        else if opc == 2
        then InstructionId.ldrsh64_post
        else InstructionId.ldrsh32_post)
    else if size == 2
    then (if opc == 0
        then InstructionId.str32_post
        else if opc == 1
        then InstructionId.ldr32_post
        else if opc == 2
        then InstructionId.ldrsw_post
        else InstructionId.invalid)
    else if opc == 0
    then InstructionId.str64_post
    else if opc == 1
    then InstructionId.ldr64_post
    else InstructionId.invalid

unfoldable pub decode_load_store_reg_imm_post_index : ℕ → InstructionId
unfolding decode_load_store_reg_imm_post_index_is_simd
    decode_load_store_reg_imm_post_index_not_is_simd
decode_load_store_reg_imm_post_index bits =
    let is_simd = test_bit bits 26 in
    if is_simd
    then decode_load_store_reg_imm_post_index_is_simd bits
    else decode_load_store_reg_imm_post_index_not_is_simd bits
