-- ===== src/Cpu/Decode/LoadStore/UnsignedImm.antt =====
-- libcpu/src/decode/decodeLoadStore.cpp: a register with an unsigned offset.
use switch_emu_pub.Base.{ℕ, ◌==◌, if◌then◌else◌}
use switch_emu_pub.Bits.{test_bit, bit_range}
use switch_emu_pub.Cpu.InstructionId.{InstructionId}

unfoldable pub decode_load_store_reg_unsigned_imm_is_simd : ℕ → InstructionId
decode_load_store_reg_unsigned_imm_is_simd bits =
    let size = bit_range 30 31 bits in
    let opc = bit_range 22 23 bits in
    if size == 0
    then (if opc == 0
        then InstructionId.str8_imm_float
        else if opc == 1
        then InstructionId.ldr8_imm_float
        else if opc == 2
        then InstructionId.str128_imm
        else InstructionId.ldr128_imm)
    else if size == 1
    then (if opc == 0
        then InstructionId.str16_imm_float
        else if opc == 1
        then InstructionId.ldr16_imm_float
        else InstructionId.invalid)
    else if size == 2
    then (if opc == 0
        then InstructionId.str32_imm_float
        else if opc == 1
        then InstructionId.ldr32_imm_float
        else InstructionId.invalid)
    else if opc == 0
    then InstructionId.str64_imm_float
    else if opc == 1
    then InstructionId.ldr64_imm_float
    else InstructionId.invalid

unfoldable pub decode_load_store_reg_unsigned_imm_not_is_simd : ℕ → InstructionId
decode_load_store_reg_unsigned_imm_not_is_simd bits =
    let size = bit_range 30 31 bits in
    let opc = bit_range 22 23 bits in
    if size == 0
    then (if opc == 0
        then InstructionId.strb_imm
        else if opc == 1
        then InstructionId.ldrb_imm
        else if opc == 2
        then InstructionId.ldrsb64_imm
        else InstructionId.ldrsb32_imm)
    else if size == 1
    then (if opc == 0
        then InstructionId.strh_imm
        else if opc == 1
        then InstructionId.ldrh_imm
        else if opc == 2
        then InstructionId.ldrsh64_imm
        else InstructionId.ldrsh32_imm)
    else if size == 2
    then (if opc == 0
        then InstructionId.str32_imm
        else if opc == 1
        then InstructionId.ldr32_imm
        else if opc == 2
        then InstructionId.ldrsw_imm
        else InstructionId.invalid)
    else if opc == 0
    then InstructionId.str64_imm
    else if opc == 1
    then InstructionId.ldr64_imm
    else if opc == 2
    then InstructionId.prfm_imm
    else InstructionId.invalid

unfoldable pub decode_load_store_reg_unsigned_imm : ℕ → InstructionId
unfolding decode_load_store_reg_unsigned_imm_is_simd decode_load_store_reg_unsigned_imm_not_is_simd
decode_load_store_reg_unsigned_imm bits =
    let is_simd = test_bit bits 26 in
    if is_simd
    then decode_load_store_reg_unsigned_imm_is_simd bits
    else decode_load_store_reg_unsigned_imm_not_is_simd bits
