-- ===== src/Cpu/Decode/Simd/ThreeDifferent.antt =====
-- libcpu/src/decode/decodeSIMD.cpp: three vectors of different widths.
use switch_emu_pub.Base.{ℕ, ◌==◌, not, if◌then◌else◌}
use switch_emu_pub.Bits.{test_bit, bit_range}
use switch_emu_pub.Cpu.InstructionId.{InstructionId}

unfoldable pub decode_simd_3_different_not_u : ℕ → InstructionId
decode_simd_3_different_not_u bits =
    let q = test_bit bits 30 in
    let opcode = bit_range 12 15 bits in
    if opcode == 0
    then (if not q then InstructionId.saddl else InstructionId.saddl2)
    else if opcode == 1
    then (if not q then InstructionId.saddw else InstructionId.saddw2)
    else if opcode == 2
    then (if not q then InstructionId.ssubl else InstructionId.ssubl2)
    else if opcode == 3
    then (if not q then InstructionId.ssubw else InstructionId.ssubw2)
    else if opcode == 4
    then (if not q then InstructionId.addhn else InstructionId.addhn2)
    else if opcode == 5
    then (if not q then InstructionId.sabal else InstructionId.sabal2)
    else if opcode == 6
    then (if not q then InstructionId.subhn else InstructionId.subhn2)
    else if opcode == 7
    then (if not q then InstructionId.sabdl else InstructionId.sabdl2)
    else if opcode == 8
    then (if not q then InstructionId.smlal_vec else InstructionId.smlal2_vec)
    else if opcode == 9
    then (if not q then InstructionId.sqdmlal_vec else InstructionId.sqdmlal2_vec)
    else if opcode == 10
    then (if not q then InstructionId.smlsl_vec else InstructionId.smlsl2_vec)
    else if opcode == 11
    then (if not q then InstructionId.sqdmlsl_vec else InstructionId.sqdmlsl2_vec)
    else if opcode == 12
    then (if not q then InstructionId.smull_vec else InstructionId.smull2_vec)
    else if opcode == 13
    then (if not q then InstructionId.sqdmull_vec else InstructionId.sqdmull2_vec)
    else if opcode == 14
    then (if not q then InstructionId.pmull else InstructionId.pmull2)
    else InstructionId.invalid

unfoldable pub decode_simd_3_different_u : ℕ → InstructionId
decode_simd_3_different_u bits =
    let q = test_bit bits 30 in
    let opcode = bit_range 12 15 bits in
    if opcode == 0
    then (if not q then InstructionId.uaddl else InstructionId.uaddl2)
    else if opcode == 1
    then (if not q then InstructionId.uaddw else InstructionId.uaddw2)
    else if opcode == 2
    then (if not q then InstructionId.usubl else InstructionId.usubl2)
    else if opcode == 3
    then (if not q then InstructionId.usubw else InstructionId.usubw2)
    else if opcode == 4
    then (if not q then InstructionId.raddhn else InstructionId.raddhn2)
    else if opcode == 5
    then (if not q then InstructionId.uabal else InstructionId.uabal2)
    else if opcode == 6
    then (if not q then InstructionId.rsubhn else InstructionId.rsubhn2)
    else if opcode == 7
    then (if not q then InstructionId.uabdl else InstructionId.uabdl2)
    else if opcode == 8
    then (if not q then InstructionId.umlal_vec else InstructionId.umlal2_vec)
    else if opcode == 10
    then (if not q then InstructionId.umlsl_vec else InstructionId.umlsl2_vec)
    else if opcode == 12
    then (if not q then InstructionId.umull_vec else InstructionId.umull2_vec)
    else InstructionId.invalid

unfoldable pub decode_simd_3_different : ℕ → InstructionId
unfolding decode_simd_3_different_not_u decode_simd_3_different_u
decode_simd_3_different bits =
    let u = test_bit bits 29 in
    if not u then decode_simd_3_different_not_u bits else decode_simd_3_different_u bits
