-- ===== src/Cpu/Decode/LoadStore/Pair.antt =====
-- libcpu/src/decode/decodeLoadStore.cpp: pairs of registers.
use switch_emu_pub.Base.{ℕ, ◌==◌, ◌&&◌, ◌||◌, not, if◌then◌else◌}
use switch_emu_pub.Bits.{test_bit, bit_range}
use switch_emu_pub.Cpu.InstructionId.{InstructionId}

unfoldable pub decode_load_store_pair_is_simd : ℕ → InstructionId
decode_load_store_pair_is_simd bits =
    let op3 = bit_range 23 24 bits in
    let opc = bit_range 30 31 bits in
    let is_load = test_bit bits 22 in
    if op3 == 0
    then (if opc == 0
        then (if is_load then InstructionId.ldnp32_float else InstructionId.stnp32_float)
        else if opc == 1
        then (if is_load then InstructionId.ldnp64_float else InstructionId.stnp64_float)
        else if is_load
        then InstructionId.ldnp128
        else InstructionId.stnp128)
    else if op3 == 1
    then (if opc == 0
        then (if is_load then InstructionId.ldp32_post_float else InstructionId.stp32_post_float)
        else if opc == 1
        then (if is_load then InstructionId.ldp64_post_float else InstructionId.stp64_post_float)
        else if is_load
        then InstructionId.ldp128_post
        else InstructionId.stp128_post)
    else if op3 == 2
    then (if opc == 0
        then (if is_load
            then InstructionId.ldp32_offset_float
            else InstructionId.stp32_offset_float)
        else if opc == 1
        then (if is_load
            then InstructionId.ldp64_offset_float
            else InstructionId.stp64_offset_float)
        else if is_load
        then InstructionId.ldp128_offset
        else InstructionId.stp128_offset)
    else if opc == 0
    then (if is_load then InstructionId.ldp32_pre_float else InstructionId.stp32_pre_float)
    else if opc == 1
    then (if is_load then InstructionId.ldp64_pre_float else InstructionId.stp64_pre_float)
    else if is_load
    then InstructionId.ldp128_pre
    else InstructionId.stp128_pre

unfoldable pub decode_load_store_pair_not_is_simd : ℕ → InstructionId
decode_load_store_pair_not_is_simd bits =
    let op3 = bit_range 23 24 bits in
    let opc = bit_range 30 31 bits in
    let is_load = test_bit bits 22 in
    if op3 == 0
    then (if opc == 0
        then (if is_load then InstructionId.ldnp32 else InstructionId.stnp32)
        else if opc == 1
        then InstructionId.invalid
        else if is_load
        then InstructionId.ldnp64
        else InstructionId.stnp64)
    else if op3 == 1
    then (if opc == 0
        then (if is_load then InstructionId.ldp32_post else InstructionId.stp32_post)
        else if opc == 1
        then InstructionId.ldpsw_post
        else if is_load
        then InstructionId.ldp64_post
        else InstructionId.stp64_post)
    else if op3 == 2
    then (if opc == 0
        then (if is_load then InstructionId.ldp32_offset else InstructionId.stp32_offset)
        else if opc == 1
        then InstructionId.ldpsw_offset
        else if is_load
        then InstructionId.ldp64_offset
        else InstructionId.stp64_offset)
    else if opc == 0
    then (if is_load then InstructionId.ldp32_pre else InstructionId.stp32_pre)
    else if opc == 1
    then InstructionId.ldpsw_pre
    else if is_load
    then InstructionId.ldp64_pre
    else InstructionId.stp64_pre

unfoldable pub decode_load_store_pair : ℕ → InstructionId
unfolding decode_load_store_pair_is_simd decode_load_store_pair_not_is_simd
decode_load_store_pair bits =
    let opc = bit_range 30 31 bits in
    let is_simd = test_bit bits 26 in
    let is_load = test_bit bits 22 in
    if opc == 3 || not is_load && not is_simd && opc == 1
    then InstructionId.invalid
    else if is_simd
    then decode_load_store_pair_is_simd bits
    else decode_load_store_pair_not_is_simd bits
