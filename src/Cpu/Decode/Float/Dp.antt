-- ===== src/Cpu/Decode/Float/Dp.antt =====
-- libcpu/src/decode/decodeFloat.cpp: data processing.
use switch_emu_pub.Base.{ℕ, ltb, ◌==◌, ◌||◌, if◌then◌else◌}
use switch_emu_pub.Bits.{bit_range}
use switch_emu_pub.Cpu.InstructionId.{InstructionId}

unfoldable pub decode_float_dp_1_source : ℕ → InstructionId
decode_float_dp_1_source bits =
    let m = bit_range 31 31 bits in
    let s = bit_range 29 29 bits in
    let type_field = bit_range 22 23 bits in
    let opcode = bit_range 15 20 bits in
    if m == 1 || s == 1 || type_field == 2 || ltb 15 opcode
    then InstructionId.invalid
    else if type_field == 0
    then (if opcode == 0
        then InstructionId.fmov_reg_single
        else if opcode == 1
        then InstructionId.fabs_single
        else if opcode == 2
        then InstructionId.fneg_single
        else if opcode == 3
        then InstructionId.fsqrt_single
        else if opcode == 5
        then InstructionId.fcvt_single_double
        else if opcode == 7
        then InstructionId.fcvt_single_half
        else if opcode == 8
        then InstructionId.frintn_single
        else if opcode == 9
        then InstructionId.frintp_single
        else if opcode == 10
        then InstructionId.frintm_single
        else if opcode == 11
        then InstructionId.frintz_single
        else if opcode == 12
        then InstructionId.frinta_single
        else if opcode == 14
        then InstructionId.frintx_single
        else if opcode == 15
        then InstructionId.frinti_single
        else InstructionId.invalid)
    else if type_field == 1
    then (if opcode == 0
        then InstructionId.fmov_reg_double
        else if opcode == 1
        then InstructionId.fabs_double
        else if opcode == 2
        then InstructionId.fneg_double
        else if opcode == 3
        then InstructionId.fsqrt_double
        else if opcode == 4
        then InstructionId.fcvt_double_single
        else if opcode == 7
        then InstructionId.fcvt_double_half
        else if opcode == 8
        then InstructionId.frintn_double
        else if opcode == 9
        then InstructionId.frintp_double
        else if opcode == 10
        then InstructionId.frintm_double
        else if opcode == 11
        then InstructionId.frintz_double
        else if opcode == 12
        then InstructionId.frinta_double
        else if opcode == 14
        then InstructionId.frintx_double
        else if opcode == 15
        then InstructionId.frinti_double
        else InstructionId.invalid)
    else if type_field == 2
    then InstructionId.invalid
    else if opcode == 4
    then InstructionId.fcvt_half_single
    else if opcode == 5
    then InstructionId.fcvt_half_double
    else InstructionId.invalid

unfoldable pub decode_float_dp_2_source : ℕ → InstructionId
decode_float_dp_2_source bits =
    let m = bit_range 31 31 bits in
    let s = bit_range 29 29 bits in
    let type_field = bit_range 22 23 bits in
    let opcode = bit_range 12 15 bits in
    if m == 1 || s == 1 || ltb 1 type_field || ltb 8 opcode
    then InstructionId.invalid
    else if type_field == 0
    then (if opcode == 0
        then InstructionId.fmul_single
        else if opcode == 1
        then InstructionId.fdiv_single
        else if opcode == 2
        then InstructionId.fadd_single
        else if opcode == 3
        then InstructionId.fsub_single
        else if opcode == 4
        then InstructionId.fmax_single
        else if opcode == 5
        then InstructionId.fmin_single
        else if opcode == 6
        then InstructionId.fmaxnm_single
        else if opcode == 7
        then InstructionId.fminnm_single
        else if opcode == 8
        then InstructionId.fnmul_single
        else InstructionId.invalid)
    else if opcode == 0
    then InstructionId.fmul_double
    else if opcode == 1
    then InstructionId.fdiv_double
    else if opcode == 2
    then InstructionId.fadd_double
    else if opcode == 3
    then InstructionId.fsub_double
    else if opcode == 4
    then InstructionId.fmax_double
    else if opcode == 5
    then InstructionId.fmin_double
    else if opcode == 6
    then InstructionId.fmaxnm_double
    else if opcode == 7
    then InstructionId.fminnm_double
    else if opcode == 8
    then InstructionId.fnmul_double
    else InstructionId.invalid

unfoldable pub decode_float_dp_3_source : ℕ → InstructionId
decode_float_dp_3_source bits =
    let m = bit_range 31 31 bits in
    let s = bit_range 29 29 bits in
    let type_field = bit_range 22 23 bits in
    let op1 = bit_range 21 21 bits in
    let op0 = bit_range 15 15 bits in
    if m == 1 || s == 1 || ltb 1 type_field
    then InstructionId.invalid
    else if type_field == 0
    then (if op1 == 0
        then (if op0 == 0 then InstructionId.fmadd_single else InstructionId.fmsub_single)
        else if op0 == 0
        then InstructionId.fnmadd_single
        else InstructionId.fnmsub_single)
    else if op1 == 0
    then (if op0 == 0 then InstructionId.fmadd_double else InstructionId.fmsub_double)
    else if op0 == 0
    then InstructionId.fnmadd_double
    else InstructionId.fnmsub_double
