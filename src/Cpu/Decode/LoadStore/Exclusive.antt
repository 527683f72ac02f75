-- ===== src/Cpu/Decode/LoadStore/Exclusive.antt =====
-- libcpu/src/decode/decodeLoadStore.cpp: exclusive accesses and literals.
use switch_emu_pub.Base.{ℕ, ltb, ◌==◌, ◌&&◌, if◌then◌else◌}
use switch_emu_pub.Bits.{test_bit, bit_range}
use switch_emu_pub.Cpu.InstructionId.{InstructionId}

unfoldable pub decode_load_store_exclusive_size_2_o2_0 : ℕ → InstructionId
decode_load_store_exclusive_size_2_o2_0 bits =
    let l = bit_range 22 22 bits in
    let o1 = bit_range 21 21 bits in
    let o0 = bit_range 15 15 bits in
    if o1 == 0
    then (if l == 0
        then (if o0 == 0 then InstructionId.stxr32 else InstructionId.stlxr32)
        else if o0 == 0
        then InstructionId.ldxr32
        else InstructionId.ldaxr32)
    else if l == 0
    then (if o0 == 0 then InstructionId.stxp32 else InstructionId.stlxp32)
    else if o0 == 0
    then InstructionId.ldxp32
    else InstructionId.ldaxp32

unfoldable pub decode_load_store_exclusive_size_2 : ℕ → InstructionId
unfolding decode_load_store_exclusive_size_2_o2_0
decode_load_store_exclusive_size_2 bits =
    let o2 = bit_range 23 23 bits in
    let l = bit_range 22 22 bits in
    if o2 == 0
    then decode_load_store_exclusive_size_2_o2_0 bits
    else if l == 0
    then InstructionId.stlr32
    else InstructionId.ldar32

unfoldable pub decode_load_store_exclusive_size_3_o2_0 : ℕ → InstructionId
decode_load_store_exclusive_size_3_o2_0 bits =
    let l = bit_range 22 22 bits in
    let o1 = bit_range 21 21 bits in
    let o0 = bit_range 15 15 bits in
    if o1 == 0
    then (if l == 0
        then (if o0 == 0 then InstructionId.stxr64 else InstructionId.stlxr64)
        else if o0 == 0
        then InstructionId.ldxr64
        else InstructionId.ldaxr64)
    else if l == 0
    then (if o0 == 0 then InstructionId.stxp64 else InstructionId.stlxp64)
    else if o0 == 0
    then InstructionId.ldxp64
    else InstructionId.ldaxp64

unfoldable pub decode_load_store_exclusive_size_3 : ℕ → InstructionId
unfolding decode_load_store_exclusive_size_3_o2_0
decode_load_store_exclusive_size_3 bits =
    let o2 = bit_range 23 23 bits in
    let l = bit_range 22 22 bits in
    if o2 == 0
    then decode_load_store_exclusive_size_3_o2_0 bits
    else if l == 0
    then InstructionId.stlr64
    else InstructionId.ldar64

unfoldable pub decode_load_store_exclusive : ℕ → InstructionId
unfolding decode_load_store_exclusive_size_2 decode_load_store_exclusive_size_3
decode_load_store_exclusive bits =
    let size = bit_range 30 31 bits in
    let o2 = bit_range 23 23 bits in
    let l = bit_range 22 22 bits in
    let o1 = bit_range 21 21 bits in
    let o0 = bit_range 15 15 bits in
    if o2 == 1 && o1 == 0 && o0 == 0
    then InstructionId.invalid
    else if o2 == 1 && o1 == 1
    then InstructionId.invalid
    else if ltb size 2 && o1 == 1
    then InstructionId.invalid
    else if size == 0
    then (if o2 == 0
        then (if l == 0
            then (if o0 == 0 then InstructionId.stxrb else InstructionId.stlxrb)
            else if o0 == 0
            then InstructionId.ldxrb
            else InstructionId.ldaxrb)
        else if l == 0
        then InstructionId.stlrb
        else InstructionId.ldarb)
    else if size == 1
    then (if o2 == 0
        then (if l == 0
            then (if o0 == 0 then InstructionId.stxrh else InstructionId.stlxrh)
            else if o0 == 0
            then InstructionId.ldxrh
            else InstructionId.ldaxrh)
        else if l == 0
        then InstructionId.stlrh
        else InstructionId.ldarh)
    else if size == 2
    then decode_load_store_exclusive_size_2 bits
    else decode_load_store_exclusive_size_3 bits

unfoldable pub decode_load_reg_literal : ℕ → InstructionId
decode_load_reg_literal bits =
    let opc = bit_range 30 31 bits in
    let is_simd = test_bit bits 26 in
    if is_simd
    then (if opc == 0
        then InstructionId.ldr32_literal_float
        else if opc == 1
        then InstructionId.ldr64_literal_float
        else if opc == 2
        then InstructionId.ldr128_literal
        else InstructionId.invalid)
    else if opc == 0
    then InstructionId.ldr32_literal
    else if opc == 1
    then InstructionId.ldr64_literal
    else if opc == 2
    then InstructionId.ldrsw_literal
    else InstructionId.prfm_literal
