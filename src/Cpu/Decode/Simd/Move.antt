-- ===== src/Cpu/Decode/Simd/Move.antt =====
-- libcpu/src/decode/decodeSIMD.cpp: table lookups, permutations, copies and operations across lanes.
use Prim.Native.Nat.{bit_and}
use switch_emu_pub.Base.{ℕ, ltb, ◌==◌, not, if◌then◌else◌}
use switch_emu_pub.Bits.{test_bit, bit_range}
use switch_emu_pub.Cpu.InstructionId.{InstructionId}

unfoldable pub decode_simd_table_lookup : ℕ → InstructionId
decode_simd_table_lookup bits =
    let len = bit_range 13 14 bits in
    let op = bit_range 12 12 bits in
    if not (bit_range 22 23 bits == 0)
    then InstructionId.invalid
    else if len == 0
    then (if op == 0 then InstructionId.tbl_one_reg else InstructionId.tbx_one_reg)
    else if len == 1
    then (if op == 0 then InstructionId.tbl_two_reg else InstructionId.tbx_two_reg)
    else if len == 2
    then (if op == 0 then InstructionId.tbl_three_reg else InstructionId.tbx_three_reg)
    else if len == 3
    then (if op == 0 then InstructionId.tbl_four_reg else InstructionId.tbx_four_reg)
    else InstructionId.invalid

unfoldable pub decode_simd_permute : ℕ → InstructionId
decode_simd_permute bits =
    let opcode = bit_range 12 14 bits in
    if opcode == 1
    then InstructionId.uzp1
    else if opcode == 2
    then InstructionId.trn1
    else if opcode == 3
    then InstructionId.zip1
    else if opcode == 5
    then InstructionId.uzp2
    else if opcode == 6
    then InstructionId.trn2
    else if opcode == 7
    then InstructionId.zip2
    else InstructionId.invalid

unfoldable pub decode_simd_extract : ℕ → InstructionId
decode_simd_extract bits =
    if bit_range 22 23 bits == 0 then InstructionId.ext else InstructionId.invalid

unfoldable pub decode_simd_copy : ℕ → InstructionId
decode_simd_copy bits =
    let q = test_bit bits 30 in
    let op = test_bit bits 29 in
    let imm5 = bit_range 16 20 bits in
    let imm4 = bit_range 11 14 bits in
    if bit_and imm5 0xf == 0
    then InstructionId.invalid
    else if not op
    then (if imm4 == 0
        then InstructionId.dup_element_vec
        else if imm4 == 1
        then InstructionId.dup_general
        else if imm4 == 3
        then (if q then InstructionId.ins_general else InstructionId.invalid)
        else if imm4 == 5
        then (if q then InstructionId.smov_64 else InstructionId.smov_32)
        else if imm4 == 7
        then (if q
            then (if bit_and imm5 0xf == 8 then InstructionId.umov_64 else InstructionId.invalid)
            else InstructionId.umov_32)
        else InstructionId.invalid)
    else if q
    then InstructionId.ins_element
    else InstructionId.invalid

unfoldable pub decode_simd_across_lanes : ℕ → InstructionId
decode_simd_across_lanes bits =
    let u = test_bit bits 29 in
    let size = bit_range 22 23 bits in
    let opcode = bit_range 12 16 bits in
    if not u
    then (if opcode == 3
        then InstructionId.saddlv_vec
        else if opcode == 10
        then InstructionId.smaxv_vec
        else if opcode == 26
        then InstructionId.sminv_vec
        else if opcode == 27
        then InstructionId.addv_vec
        else InstructionId.invalid)
    else if opcode == 3
    then InstructionId.uaddlv_vec
    else if opcode == 10
    then InstructionId.umaxv_vec
    else if opcode == 12
    then (if ltb size 2 then InstructionId.fmaxnmv_vec else InstructionId.fminnmv_vec)
    else if opcode == 15
    then (if ltb size 2 then InstructionId.fmaxv_vec else InstructionId.fminv_vec)
    else if opcode == 26
    then InstructionId.uminv_vec
    else InstructionId.invalid
