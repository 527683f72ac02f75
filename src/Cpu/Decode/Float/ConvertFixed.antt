-- ===== src/Cpu/Decode/Float/ConvertFixed.antt =====
-- libcpu/src/decode/decodeFloat.cpp: conversions to and from fixed point.
use switch_emu_pub.Base.{ℕ, ◌==◌, ◌&&◌, if◌then◌else◌}
use switch_emu_pub.Bits.{bit_range}
use switch_emu_pub.Cpu.InstructionId.{InstructionId}

unfoldable pub decode_convert_float_and_fixed : ℕ → InstructionId
decode_convert_float_and_fixed bits =
    let sf = bit_range 31 31 bits in
    let s = bit_range 29 29 bits in
    let type_field = bit_range 22 23 bits in
    let rmode = bit_range 19 20 bits in
    let opcode = bit_range 16 18 bits in
    if s == 1
    then InstructionId.invalid
    else if sf == 0
    then (if type_field == 0
        then (if rmode == 0 && opcode == 2
            then InstructionId.scvtf_32_single_fixed
            else if rmode == 0 && opcode == 3
            then InstructionId.ucvtf_32_single_fixed
            else if rmode == 3 && opcode == 0
            then InstructionId.fcvtzs_single_32_fixed
            else if rmode == 3 && opcode == 1
            then InstructionId.fcvtzu_single_32_fixed
            else InstructionId.invalid)
        else if type_field == 1
        then (if rmode == 0 && opcode == 2
            then InstructionId.scvtf_32_double_fixed
            else if rmode == 0 && opcode == 3
            then InstructionId.ucvtf_32_double_fixed
            else if rmode == 3 && opcode == 0
            then InstructionId.fcvtzs_double_32_fixed
            else if rmode == 3 && opcode == 1
            then InstructionId.fcvtzu_double_32_fixed
            else InstructionId.invalid)
        else InstructionId.invalid)
    else if type_field == 0
    then (if rmode == 0 && opcode == 2
        then InstructionId.scvtf_64_single_fixed
        else if rmode == 0 && opcode == 3
        then InstructionId.ucvtf_64_single_fixed
        else if rmode == 3 && opcode == 0
        then InstructionId.fcvtzs_single_64_fixed
        else if rmode == 3 && opcode == 1
        then InstructionId.fcvtzu_single_64_fixed
        else InstructionId.invalid)
    else if type_field == 1
    then (if rmode == 0 && opcode == 2
        then InstructionId.scvtf_64_double_fixed
        else if rmode == 0 && opcode == 3
        then InstructionId.ucvtf_64_double_fixed
        else if rmode == 3 && opcode == 0
        then InstructionId.fcvtzs_double_64_fixed
        else if rmode == 3 && opcode == 1
        then InstructionId.fcvtzu_double_64_fixed
        else InstructionId.invalid)
    else InstructionId.invalid
