-- ===== src/Cpu/Decode/LoadStore/RegOff.antt =====
-- libcpu/src/decode/decodeLoadStore.cpp: a register with a register offset.
use switch_emu_pub.Base.{ℕ, ◌==◌, if◌then◌else◌}
use switch_emu_pub.Bits.{test_bit, bit_range}
use switch_emu_pub.Cpu.InstructionId.{InstructionId}

unfoldable pub decode_load_store_reg_off_is_simd : ℕ → InstructionId
decode_load_store_reg_off_is_simd bits =
    let size = bit_range 30 31 bits in
    let opc = bit_range 22 23 bits in
    if size == 0
    then (if opc == 0
        then InstructionId.str8_reg_float
        else if opc == 1
        then InstructionId.ldr8_reg_float
        else if opc == 2
        then InstructionId.str128_reg
        else InstructionId.ldr128_reg)
    else if size == 1
    then (if opc == 0
        then InstructionId.str16_reg_float
        else if opc == 1
        then InstructionId.ldr16_reg_float
        else InstructionId.invalid)
    else if size == 2
    then (if opc == 0
        then InstructionId.str32_reg_float
        else if opc == 1
        then InstructionId.ldr32_reg_float
        else InstructionId.invalid)
    else if opc == 0
    then InstructionId.str64_reg_float
    else if opc == 1
    then InstructionId.ldr64_reg_float
    else InstructionId.invalid

unfoldable pub decode_load_store_reg_off_not_is_simd : ℕ → InstructionId
decode_load_store_reg_off_not_is_simd bits =
    let size = bit_range 30 31 bits in
    let opc = bit_range 22 23 bits in
    if size == 0
    then (if opc == 0
        then InstructionId.strb_reg
        else if opc == 1
        then InstructionId.ldrb_reg
        else if opc == 2
        then InstructionId.ldrsb64_reg
        else InstructionId.ldrsb32_reg)
    else if size == 1
    then (if opc == 0
        then InstructionId.strh_reg
        else if opc == 1
        then InstructionId.ldrh_reg
        else if opc == 2
        then InstructionId.ldrsh64_reg
        else InstructionId.ldrsh32_reg)
    else if size == 2
    then (if opc == 0
        then InstructionId.str32_reg
        else if opc == 1
        then InstructionId.ldr32_reg
        else if opc == 2
        then InstructionId.ldrsw_reg
        else InstructionId.invalid)
    else if opc == 0
    then InstructionId.str64_reg
    else if opc == 1
    then InstructionId.ldr64_reg
    else if opc == 2
    then InstructionId.prfm_reg
    else InstructionId.invalid

unfoldable pub decode_load_store_reg_off : ℕ → InstructionId
unfolding decode_load_store_reg_off_is_simd decode_load_store_reg_off_not_is_simd
decode_load_store_reg_off bits =
    let is_simd = test_bit bits 26 in
    if is_simd
    then decode_load_store_reg_off_is_simd bits
    else decode_load_store_reg_off_not_is_simd bits
