-- ===== src/Cpu/Decode/LoadStore/SingleStruct.antt =====
-- libcpu/src/decode/decodeLoadStore.cpp: one SIMD structure.
use Prim.Native.Nat.{bit_and}
use switch_emu_pub.Base.{ℕ, ◌==◌, ◌&&◌, if◌then◌else◌}
use switch_emu_pub.Bits.{bit_range}
use switch_emu_pub.Cpu.InstructionId.{InstructionId}

unfoldable pub decode_load_store_simd_single_struct_l_0_r_0 : ℕ → InstructionId
decode_load_store_simd_single_struct_l_0_r_0 bits =
    let opcode = bit_range 13 15 bits in
    let s = bit_range 12 12 bits in
    let size = bit_range 10 11 bits in
    if opcode == 0
    then InstructionId.st1_single_8
    else if opcode == 1
    then InstructionId.st3_single_8
    else if opcode == 2
    then (if bit_and size 0x1 == 0 then InstructionId.st1_single_16 else InstructionId.invalid)
    else if opcode == 3
    then (if bit_and size 0x1 == 0 then InstructionId.st3_single_16 else InstructionId.invalid)
    else if opcode == 4
    then (if size == 0
        then InstructionId.st1_single_32
        else if size == 1 && s == 0
        then InstructionId.st1_single_64
        else InstructionId.invalid)
    else if opcode == 5
    then (if size == 0
        then InstructionId.st3_single_32
        else if size == 1 && s == 0
        then InstructionId.st3_single_64
        else InstructionId.invalid)
    else InstructionId.invalid

unfoldable pub decode_load_store_simd_single_struct_l_0_r_not_0 : ℕ → InstructionId
decode_load_store_simd_single_struct_l_0_r_not_0 bits =
    let opcode = bit_range 13 15 bits in
    let s = bit_range 12 12 bits in
    let size = bit_range 10 11 bits in
    if opcode == 0
    then InstructionId.st2_single_8
    else if opcode == 1
    then InstructionId.st4_single_8
    else if opcode == 2
    then (if bit_and size 0x1 == 0 then InstructionId.st2_single_16 else InstructionId.invalid)
    else if opcode == 3
    then (if bit_and size 0x1 == 0 then InstructionId.st4_single_16 else InstructionId.invalid)
    else if opcode == 4
    then (if size == 0
        then InstructionId.st2_single_32
        else if size == 1 && s == 0
        then InstructionId.st2_single_64
        else InstructionId.invalid)
    else if opcode == 5
    then (if size == 0
        then InstructionId.st4_single_32
        else if size == 1 && s == 0
        then InstructionId.st4_single_64
        else InstructionId.invalid)
    else InstructionId.invalid

unfoldable pub decode_load_store_simd_single_struct_l_not_0_r_0 : ℕ → InstructionId
decode_load_store_simd_single_struct_l_not_0_r_0 bits =
    let opcode = bit_range 13 15 bits in
    let s = bit_range 12 12 bits in
    let size = bit_range 10 11 bits in
    if opcode == 0
    then InstructionId.ld1_single_8
    else if opcode == 1
    then InstructionId.ld3_single_8
    else if opcode == 2
    then (if bit_and size 0x1 == 0 then InstructionId.ld1_single_16 else InstructionId.invalid)
    else if opcode == 3
    then (if bit_and size 0x1 == 0 then InstructionId.ld3_single_16 else InstructionId.invalid)
    else if opcode == 4
    then (if size == 0
        then InstructionId.ld1_single_32
        else if size == 1 && s == 0
        then InstructionId.ld1_single_64
        else InstructionId.invalid)
    else if opcode == 5
    then (if size == 0
        then InstructionId.ld3_single_32
        else if size == 1 && s == 0
        then InstructionId.ld3_single_64
        else InstructionId.invalid)
    else if opcode == 6
    then (if s == 0 then InstructionId.ld1r else InstructionId.invalid)
    else if opcode == 7
    then (if s == 0 then InstructionId.ld3r else InstructionId.invalid)
    else InstructionId.invalid

unfoldable pub decode_load_store_simd_single_struct_l_not_0_r_not_0 : ℕ → InstructionId
decode_load_store_simd_single_struct_l_not_0_r_not_0 bits =
    let opcode = bit_range 13 15 bits in
    let s = bit_range 12 12 bits in
    let size = bit_range 10 11 bits in
    if opcode == 0
    then InstructionId.ld2_single_8
    else if opcode == 1
    then InstructionId.ld4_single_8
    else if opcode == 2
    then (if bit_and size 0x1 == 0 then InstructionId.ld2_single_16 else InstructionId.invalid)
    else if opcode == 3
    then (if bit_and size 0x1 == 0 then InstructionId.ld4_single_16 else InstructionId.invalid)
    else if opcode == 4
    then (if size == 0
        then InstructionId.ld2_single_32
        else if size == 1 && s == 0
        then InstructionId.ld2_single_64
        else InstructionId.invalid)
    else if opcode == 5
    then (if size == 0
        then InstructionId.ld4_single_32
        else if size == 1 && s == 0
        then InstructionId.ld4_single_64
        else InstructionId.invalid)
    else if opcode == 6
    then (if s == 0 then InstructionId.ld2r else InstructionId.invalid)
    else if opcode == 7
    then (if s == 0 then InstructionId.ld4r else InstructionId.invalid)
    else InstructionId.invalid

unfoldable pub decode_load_store_simd_single_struct : ℕ → InstructionId
unfolding decode_load_store_simd_single_struct_l_0_r_0
    decode_load_store_simd_single_struct_l_0_r_not_0
    decode_load_store_simd_single_struct_l_not_0_r_0
    decode_load_store_simd_single_struct_l_not_0_r_not_0
decode_load_store_simd_single_struct bits =
    let l = bit_range 22 22 bits in
    let r = bit_range 21 21 bits in
    if l == 0
    then (if r == 0
        then decode_load_store_simd_single_struct_l_0_r_0 bits
        else decode_load_store_simd_single_struct_l_0_r_not_0 bits)
    else if r == 0
    then decode_load_store_simd_single_struct_l_not_0_r_0 bits
    else decode_load_store_simd_single_struct_l_not_0_r_not_0 bits
