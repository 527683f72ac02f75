-- ===== src/Cpu/Decode/LoadStore/Structs.antt =====
-- libcpu/src/decode/decodeLoadStore.cpp: several SIMD structures.
use switch_emu_pub.Base.{ℕ, ◌==◌, not, if◌then◌else◌}
use switch_emu_pub.Bits.{bit_range}
use switch_emu_pub.Cpu.InstructionId.{InstructionId}

unfoldable pub decode_load_store_simd_multiple_structs : ℕ → InstructionId
decode_load_store_simd_multiple_structs bits =
    let l = bit_range 22 22 bits in
    let opcode = bit_range 12 15 bits in
    if opcode == 0
    then (if l == 0 then InstructionId.st4_multi else InstructionId.ld4_multi)
    else if opcode == 2
    then (if l == 0 then InstructionId.st1_multi_4reg else InstructionId.ld1_multi_4reg)
    else if opcode == 4
    then (if l == 0 then InstructionId.st3_multi else InstructionId.ld3_multi)
    else if opcode == 6
    then (if l == 0 then InstructionId.st1_multi_3reg else InstructionId.ld1_multi_3reg)
    else if opcode == 7
    then (if l == 0 then InstructionId.st1_multi_1reg else InstructionId.ld1_multi_1reg)
    else if opcode == 8
    then (if l == 0 then InstructionId.st2_multi else InstructionId.ld2_multi)
    else if opcode == 10
    then (if l == 0 then InstructionId.st1_multi_2reg else InstructionId.ld1_multi_2reg)
    else InstructionId.invalid

unfoldable pub decode_load_store_simd_multiple_structs_post_index : ℕ → InstructionId
decode_load_store_simd_multiple_structs_post_index bits =
    let l = bit_range 22 22 bits in
    let rm = bit_range 16 20 bits in
    let opcode = bit_range 12 15 bits in
    if not (rm == 31)
    then (if opcode == 0
        then (if l == 0 then InstructionId.st4_multi_reg else InstructionId.ld4_multi_reg)
        else if opcode == 2
        then (if l == 0 then InstructionId.st1_multi_reg_4reg else InstructionId.ld1_multi_reg_4reg)
        else if opcode == 4
        then (if l == 0 then InstructionId.st3_multi_reg else InstructionId.ld3_multi_reg)
        else if opcode == 6
        then (if l == 0 then InstructionId.st1_multi_reg_3reg else InstructionId.ld1_multi_reg_3reg)
        else if opcode == 7
        then (if l == 0 then InstructionId.st1_multi_reg_1reg else InstructionId.ld1_multi_reg_1reg)
        else if opcode == 8
        then (if l == 0 then InstructionId.st2_multi_reg else InstructionId.ld2_multi_reg)
        else if opcode == 10
        then (if l == 0 then InstructionId.st1_multi_reg_2reg else InstructionId.ld1_multi_reg_2reg)
        else InstructionId.invalid)
    else if opcode == 0
    then (if l == 0 then InstructionId.st4_multi_offset else InstructionId.ld4_multi_offset)
    else if opcode == 2
    then (if l == 0
        then InstructionId.st1_multi_offset_4reg
        else InstructionId.ld1_multi_offset_4reg)
    else if opcode == 4
    then (if l == 0 then InstructionId.st3_multi_offset else InstructionId.ld3_multi_offset)
    else if opcode == 6
    then (if l == 0
        then InstructionId.st1_multi_offset_3reg
        else InstructionId.ld1_multi_offset_3reg)
    else if opcode == 7
    then (if l == 0
        then InstructionId.st1_multi_offset_1reg
        else InstructionId.ld1_multi_offset_1reg)
    else if opcode == 8
    then (if l == 0 then InstructionId.st2_multi_offset else InstructionId.ld2_multi_offset)
    else if opcode == 10
    then (if l == 0
        then InstructionId.st1_multi_offset_2reg
        else InstructionId.ld1_multi_offset_2reg)
    else InstructionId.invalid
