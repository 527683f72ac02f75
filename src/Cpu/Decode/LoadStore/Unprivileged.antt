-- ===== src/Cpu/Decode/LoadStore/Unprivileged.antt =====
-- libcpu/src/decode/decodeLoadStore.cpp: unprivileged accesses.
use switch_emu_pub.Base.{ℕ, ◌==◌, if◌then◌else◌}
use switch_emu_pub.Bits.{test_bit, bit_range}
use switch_emu_pub.Cpu.InstructionId.{InstructionId}

unfoldable pub decode_load_store_unprivileged : ℕ → InstructionId
decode_load_store_unprivileged bits =
    let size = bit_range 30 31 bits in
    let is_simd = test_bit bits 26 in
    let opc = bit_range 22 23 bits in
    if is_simd
    then InstructionId.invalid
    else if size == 0
    then (if opc == 0
        then InstructionId.sttrb
        else if opc == 1
        then InstructionId.ldtrb
        else if opc == 2
        then InstructionId.ldtrsb64
        else if opc == 3
        then InstructionId.ldtrsb32
        else InstructionId.invalid)
    else if size == 1
    then (if opc == 0
        then InstructionId.sttrh
        else if opc == 1
        then InstructionId.ldtrh
        else if opc == 2
        then InstructionId.ldtrsh64
        else if opc == 3
        then InstructionId.ldtrsh32
        else InstructionId.invalid)
    else if size == 2
    then (if opc == 0
        then InstructionId.sttr32
        else if opc == 1
        then InstructionId.ldtr32
        else if opc == 2
        then InstructionId.ldtrsw
        else InstructionId.invalid)
    else if size == 3
    then (if opc == 0
        then InstructionId.sttr64
        else if opc == 1
        then InstructionId.ldtr64
        else InstructionId.invalid)
    else InstructionId.invalid
