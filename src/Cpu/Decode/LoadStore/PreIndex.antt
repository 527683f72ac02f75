-- ===== src/Cpu/Decode/LoadStore/PreIndex.antt =====
-- libcpu/src/decode/decodeLoadStore.cpp: a register, pre-indexed.
use switch_emu_pub.Base.{ℕ, ◌==◌, if◌then◌else◌}
use switch_emu_pub.Bits.{test_bit, bit_range}
use switch_emu_pub.Cpu.InstructionId.{InstructionId}

unfoldable pub decode_load_store_reg_imm_pre_index_is_simd : ℕ → InstructionId
decode_load_store_reg_imm_pre_index_is_simd bits =
    let size = bit_range 30 31 bits in
    let opc = bit_range 22 23 bits in
    if size == 0
    then (if opc == 0
        then InstructionId.str8_pre_float
        else if opc == 1
        then InstructionId.ldr8_pre_float
        else if opc == 2
        then InstructionId.str128_pre
        else InstructionId.ldr128_pre)
    else if size == 1
    then (if opc == 0
        then InstructionId.str16_pre_float
        else if opc == 1
        then InstructionId.ldr16_pre_float
        else InstructionId.invalid)
    else if size == 2
    then (if opc == 0
        then InstructionId.str32_pre_float
        else if opc == 1
        then InstructionId.ldr32_pre_float
        else InstructionId.invalid)
    else if opc == 0
    then InstructionId.str64_pre_float
    else if opc == 1
    then InstructionId.ldr64_pre_float
    else InstructionId.invalid

unfoldable pub decode_load_store_reg_imm_pre_index_not_is_simd : ℕ → InstructionId
decode_load_store_reg_imm_pre_index_not_is_simd bits =
    let size = bit_range 30 31 bits in
    let opc = bit_range 22 23 bits in
    if size == 0
    then (if opc == 0
        then InstructionId.strb_pre
        else if opc == 1
        then InstructionId.ldrb_pre
        else if opc == 2
        then InstructionId.ldrsb64_pre
        else InstructionId.ldrsb32_pre)
    else if size == 1
    then (if opc == 0
        then InstructionId.strh_pre
        else if opc == 1
        then InstructionId.ldrh_pre
        else if opc == 2
        then InstructionId.ldrsh64_pre
        else InstructionId.ldrsh32_pre)
    else if size == 2
    then (if opc == 0
        then InstructionId.str32_pre
        else if opc == 1
        then InstructionId.ldr32_pre
        else if opc == 2
        then InstructionId.ldrsw_pre
        else InstructionId.invalid)
    else if opc == 0
    then InstructionId.str64_pre
    else if opc == 1
    then InstructionId.ldr64_pre
    else InstructionId.invalid

unfoldable pub decode_load_store_reg_imm_pre_index : ℕ → InstructionId
unfolding decode_load_store_reg_imm_pre_index_is_simd
    decode_load_store_reg_imm_pre_index_not_is_simd
decode_load_store_reg_imm_pre_index bits =
    let is_simd = test_bit bits 26 in
    if is_simd
    then decode_load_store_reg_imm_pre_index_is_simd bits
    else decode_load_store_reg_imm_pre_index_not_is_simd bits
