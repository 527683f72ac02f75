-- ===== src/Cpu/Decode/Float/Compare.antt =====
-- libcpu/src/decode/decodeFloat.cpp: comparisons, immediates and selection.
use Prim.Native.Nat.{bit_and}
use switch_emu_pub.Base.{ℕ, ltb, ◌==◌, ◌||◌, not, if◌then◌else◌}
use switch_emu_pub.Bits.{bit_range}
use switch_emu_pub.Cpu.InstructionId.{InstructionId}

unfoldable pub decode_float_cmp : ℕ → InstructionId
decode_float_cmp bits =
    let m = bit_range 31 31 bits in
    let s = bit_range 29 29 bits in
    let type_field = bit_range 22 23 bits in
    let op = bit_range 14 15 bits in
    let opcode2 = bit_range 0 4 bits in
    if m == 1 || s == 1 || ltb 1 type_field || not (op == 0) || not (bit_and opcode2 0x7 == 0)
    then InstructionId.invalid
    else if type_field == 0
    then (if opcode2 == 0
        then InstructionId.fcmp_single
        else if opcode2 == 8
        then InstructionId.fcmp_single_zero
        else if opcode2 == 16
        then InstructionId.fcmpe_single
        else if opcode2 == 24
        then InstructionId.fcmpe_single_zero
        else InstructionId.invalid)
    else if opcode2 == 0
    then InstructionId.fcmp_double
    else if opcode2 == 8
    then InstructionId.fcmp_double_zero
    else if opcode2 == 16
    then InstructionId.fcmpe_double
    else if opcode2 == 24
    then InstructionId.fcmpe_double_zero
    else InstructionId.invalid

unfoldable pub decode_float_imm : ℕ → InstructionId
decode_float_imm bits =
    let m = bit_range 31 31 bits in
    let s = bit_range 29 29 bits in
    let type_field = bit_range 22 23 bits in
    let imm5 = bit_range 5 9 bits in
    if m == 1 || s == 1 || ltb 1 type_field || not (imm5 == 0)
    then InstructionId.invalid
    else if type_field == 0
    then InstructionId.fmov_imm_single
    else InstructionId.fmov_imm_double

unfoldable pub decode_float_cond_cmp : ℕ → InstructionId
decode_float_cond_cmp bits =
    let m = bit_range 31 31 bits in
    let s = bit_range 29 29 bits in
    let type_field = bit_range 22 23 bits in
    let op = bit_range 4 4 bits in
    if m == 1 || s == 1 || ltb 1 type_field
    then InstructionId.invalid
    else if type_field == 0
    then (if op == 0 then InstructionId.fccmp_single else InstructionId.fccmpe_single)
    else if op == 0
    then InstructionId.fccmp_double
    else InstructionId.fccmpe_double

unfoldable pub decode_float_cond_sel : ℕ → InstructionId
decode_float_cond_sel bits =
    let m = bit_range 31 31 bits in
    let s = bit_range 29 29 bits in
    let type_field = bit_range 22 23 bits in
    if m == 1 || s == 1 || ltb 1 type_field
    then InstructionId.invalid
    else if type_field == 0
    then InstructionId.fcsel_single
    else InstructionId.fcsel_double
