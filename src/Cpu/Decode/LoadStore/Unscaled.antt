-- ===== src/Cpu/Decode/LoadStore/Unscaled.antt =====
-- libcpu/src/decode/decodeLoadStore.cpp: a register with an unscaled offset.
use switch_emu_pub.Base.{ℕ, ◌==◌, if◌then◌else◌}
use switch_emu_pub.Bits.{test_bit, bit_range}
use switch_emu_pub.Cpu.InstructionId.{InstructionId}

unfoldable pub decode_load_store_reg_unscaled_is_simd : ℕ → InstructionId
decode_load_store_reg_unscaled_is_simd bits =
    let size = bit_range 30 31 bits in
    let opc = bit_range 22 23 bits in
    if size == 0
    then (if opc == 0
        then InstructionId.stur8_float
        else if opc == 1
        then InstructionId.ldur8_float
        else if opc == 2
        then InstructionId.stur128
        else InstructionId.ldur128)
    else if size == 1
    then (if opc == 0
        then InstructionId.stur16_float
        else if opc == 1
        then InstructionId.ldur16_float
        else InstructionId.invalid)
    else if size == 2
    then (if opc == 0
        then InstructionId.stur32_float
        else if opc == 1
        then InstructionId.ldur32_float
        else InstructionId.invalid)
    else if opc == 0
    then InstructionId.stur64_float
    else if opc == 1
    then InstructionId.ldur64_float
    else InstructionId.invalid

unfoldable pub decode_load_store_reg_unscaled_not_is_simd : ℕ → InstructionId
decode_load_store_reg_unscaled_not_is_simd bits =
    let size = bit_range 30 31 bits in
    let opc = bit_range 22 23 bits in
    if size == 0
    then (if opc == 0
        then InstructionId.sturb
        else if opc == 1
        then InstructionId.ldurb
        else if opc == 2
        then InstructionId.ldursb64
        else InstructionId.ldursb32)
    else if size == 1
    then (if opc == 0
        then InstructionId.sturh
        else if opc == 1
        then InstructionId.ldurh
        else if opc == 2
        then InstructionId.ldursh64
        else InstructionId.ldursh32)
    else if size == 2
    then (if opc == 0
        then InstructionId.stur32
        else if opc == 1
        then InstructionId.ldur32
        else if opc == 2
        then InstructionId.ldursw
        else InstructionId.invalid)
    else if opc == 0
    then InstructionId.stur64
    else if opc == 1
    then InstructionId.ldur64
    else if opc == 2
    then InstructionId.prfm_unscaled
    else InstructionId.invalid

unfoldable pub decode_load_store_reg_unscaled : ℕ → InstructionId
unfolding decode_load_store_reg_unscaled_is_simd decode_load_store_reg_unscaled_not_is_simd
decode_load_store_reg_unscaled bits =
    let is_simd = test_bit bits 26 in
    if is_simd
    then decode_load_store_reg_unscaled_is_simd bits
    else decode_load_store_reg_unscaled_not_is_simd bits
