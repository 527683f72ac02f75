-- ===== src/Cpu/Decode/Float/ConvertInt.antt =====
-- libcpu/src/decode/decodeFloat.cpp: conversions to and from integers.
use switch_emu_pub.Base.{ℕ, ◌==◌, if◌then◌else◌}
use switch_emu_pub.Bits.{bit_range}
use switch_emu_pub.Cpu.InstructionId.{InstructionId}

unfoldable pub decode_convert_float_and_int_sf_0_type_field_0_rmode_0 : ℕ → InstructionId
decode_convert_float_and_int_sf_0_type_field_0_rmode_0 bits =
    let opcode = bit_range 16 18 bits in
    if opcode == 0
    then InstructionId.fcvtns_single_32_int
    else if opcode == 1
    then InstructionId.fcvtnu_single_32_int
    else if opcode == 2
    then InstructionId.scvtf_32_single_int
    else if opcode == 3
    then InstructionId.ucvtf_32_single_int
    else if opcode == 4
    then InstructionId.fcvtas_single_32_int
    else if opcode == 5
    then InstructionId.fcvtau_single_32_int
    else if opcode == 6
    then InstructionId.fmov_single_32
    else InstructionId.fmov_32_single

unfoldable pub decode_convert_float_and_int_sf_0_type_field_not_0_type_field_1_rmode_0 :
    ℕ → InstructionId
decode_convert_float_and_int_sf_0_type_field_not_0_type_field_1_rmode_0 bits =
    let opcode = bit_range 16 18 bits in
    if opcode == 0
    then InstructionId.fcvtns_double_32_int
    else if opcode == 1
    then InstructionId.fcvtnu_double_32_int
    else if opcode == 2
    then InstructionId.scvtf_32_double_int
    else if opcode == 3
    then InstructionId.ucvtf_32_double_int
    else if opcode == 4
    then InstructionId.fcvtas_double_32_int
    else if opcode == 5
    then InstructionId.fcvtau_double_32_int
    else InstructionId.invalid

unfoldable pub decode_convert_float_and_int_sf_0_type_field_not_0_type_field_1 : ℕ → InstructionId
unfolding decode_convert_float_and_int_sf_0_type_field_not_0_type_field_1_rmode_0
decode_convert_float_and_int_sf_0_type_field_not_0_type_field_1 bits =
    let rmode = bit_range 19 20 bits in
    let opcode = bit_range 16 18 bits in
    if rmode == 0
    then decode_convert_float_and_int_sf_0_type_field_not_0_type_field_1_rmode_0 bits
    else if rmode == 1
    then (if opcode == 0
        then InstructionId.fcvtps_double_32_int
        else if opcode == 1
        then InstructionId.fcvtpu_double_32_int
        else InstructionId.invalid)
    else if rmode == 2
    then (if opcode == 0
        then InstructionId.fcvtms_double_32_int
        else if opcode == 1
        then InstructionId.fcvtmu_double_32_int
        else InstructionId.invalid)
    else if opcode == 0
    then InstructionId.fcvtzs_double_32_int
    else if opcode == 1
    then InstructionId.fcvtzu_double_32_int
    else InstructionId.invalid

unfoldable pub decode_convert_float_and_int_sf_0_type_field_0 : ℕ → InstructionId
unfolding decode_convert_float_and_int_sf_0_type_field_0_rmode_0
decode_convert_float_and_int_sf_0_type_field_0 bits =
    let rmode = bit_range 19 20 bits in
    let opcode = bit_range 16 18 bits in
    if rmode == 0
    then decode_convert_float_and_int_sf_0_type_field_0_rmode_0 bits
    else if rmode == 1
    then (if opcode == 0
        then InstructionId.fcvtps_single_32_int
        else if opcode == 1
        then InstructionId.fcvtpu_single_32_int
        else InstructionId.invalid)
    else if rmode == 2
    then (if opcode == 0
        then InstructionId.fcvtms_single_32_int
        else if opcode == 1
        then InstructionId.fcvtmu_single_32_int
        else InstructionId.invalid)
    else if opcode == 0
    then InstructionId.fcvtzs_single_32_int
    else if opcode == 1
    then InstructionId.fcvtzu_single_32_int
    else InstructionId.invalid

unfoldable pub decode_convert_float_and_int_sf_not_0_type_field_0_rmode_0 : ℕ → InstructionId
decode_convert_float_and_int_sf_not_0_type_field_0_rmode_0 bits =
    let opcode = bit_range 16 18 bits in
    if opcode == 0
    then InstructionId.fcvtns_single_64_int
    else if opcode == 1
    then InstructionId.fcvtnu_single_64_int
    else if opcode == 2
    then InstructionId.scvtf_64_single_int
    else if opcode == 3
    then InstructionId.ucvtf_64_single_int
    else if opcode == 4
    then InstructionId.fcvtas_single_64_int
    else if opcode == 5
    then InstructionId.fcvtau_single_64_int
    else InstructionId.invalid

unfoldable pub decode_convert_float_and_int_sf_not_0_type_field_not_0_type_field_1_rmode_0 :
    ℕ → InstructionId
decode_convert_float_and_int_sf_not_0_type_field_not_0_type_field_1_rmode_0 bits =
    let opcode = bit_range 16 18 bits in
    if opcode == 0
    then InstructionId.fcvtns_double_64_int
    else if opcode == 1
    then InstructionId.fcvtnu_double_64_int
    else if opcode == 2
    then InstructionId.scvtf_64_double_int
    else if opcode == 3
    then InstructionId.ucvtf_64_double_int
    else if opcode == 4
    then InstructionId.fcvtas_double_64_int
    else if opcode == 5
    then InstructionId.fcvtau_double_64_int
    else if opcode == 6
    then InstructionId.fmov_double_64
    else InstructionId.fmov_64_double

unfoldable pub decode_convert_float_and_int_sf_not_0_type_field_not_0_type_field_1 :
    ℕ → InstructionId
unfolding decode_convert_float_and_int_sf_not_0_type_field_not_0_type_field_1_rmode_0
decode_convert_float_and_int_sf_not_0_type_field_not_0_type_field_1 bits =
    let rmode = bit_range 19 20 bits in
    let opcode = bit_range 16 18 bits in
    if rmode == 0
    then decode_convert_float_and_int_sf_not_0_type_field_not_0_type_field_1_rmode_0 bits
    else if rmode == 1
    then (if opcode == 0
        then InstructionId.fcvtps_double_64_int
        else if opcode == 1
        then InstructionId.fcvtpu_double_64_int
        else InstructionId.invalid)
    else if rmode == 2
    then (if opcode == 0
        then InstructionId.fcvtms_double_64_int
        else if opcode == 1
        then InstructionId.fcvtmu_double_64_int
        else InstructionId.invalid)
    else if opcode == 0
    then InstructionId.fcvtzs_double_64_int
    else if opcode == 1
    then InstructionId.fcvtzu_double_64_int
    else InstructionId.invalid

unfoldable pub decode_convert_float_and_int_sf_not_0_type_field_0 : ℕ → InstructionId
unfolding decode_convert_float_and_int_sf_not_0_type_field_0_rmode_0
decode_convert_float_and_int_sf_not_0_type_field_0 bits =
    let rmode = bit_range 19 20 bits in
    let opcode = bit_range 16 18 bits in
    if rmode == 0
    then decode_convert_float_and_int_sf_not_0_type_field_0_rmode_0 bits
    else if rmode == 1
    then (if opcode == 0
        then InstructionId.fcvtps_single_64_int
        else if opcode == 1
        then InstructionId.fcvtpu_single_64_int
        else InstructionId.invalid)
    else if rmode == 2
    then (if opcode == 0
        then InstructionId.fcvtms_single_64_int
        else if opcode == 1
        then InstructionId.fcvtmu_single_64_int
        else InstructionId.invalid)
    else if opcode == 0
    then InstructionId.fcvtzs_single_64_int
    else if opcode == 1
    then InstructionId.fcvtzu_single_64_int
    else InstructionId.invalid

unfoldable pub decode_convert_float_and_int_sf_not_0_type_field_not_0 : ℕ → InstructionId
unfolding decode_convert_float_and_int_sf_not_0_type_field_not_0_type_field_1
decode_convert_float_and_int_sf_not_0_type_field_not_0 bits =
    let type_field = bit_range 22 23 bits in
    let rmode = bit_range 19 20 bits in
    let opcode = bit_range 16 18 bits in
    if type_field == 1
    then decode_convert_float_and_int_sf_not_0_type_field_not_0_type_field_1 bits
    else if type_field == 2
    then (if rmode == 1
        then (if opcode == 6
            then InstructionId.fmov_top128_64
            else if opcode == 7
            then InstructionId.fmov_64_top128
            else InstructionId.invalid)
        else InstructionId.invalid)
    else InstructionId.invalid

unfoldable pub decode_convert_float_and_int_sf_0 : ℕ → InstructionId
unfolding decode_convert_float_and_int_sf_0_type_field_0
    decode_convert_float_and_int_sf_0_type_field_not_0_type_field_1
decode_convert_float_and_int_sf_0 bits =
    let type_field = bit_range 22 23 bits in
    if type_field == 0
    then decode_convert_float_and_int_sf_0_type_field_0 bits
    else if type_field == 1
    then decode_convert_float_and_int_sf_0_type_field_not_0_type_field_1 bits
    else InstructionId.invalid

unfoldable pub decode_convert_float_and_int : ℕ → InstructionId
unfolding decode_convert_float_and_int_sf_0 decode_convert_float_and_int_sf_not_0_type_field_0
    decode_convert_float_and_int_sf_not_0_type_field_not_0
decode_convert_float_and_int bits =
    let sf = bit_range 31 31 bits in
    let s = bit_range 29 29 bits in
    let type_field = bit_range 22 23 bits in
    if s == 1
    then InstructionId.invalid
    else if sf == 0
    then decode_convert_float_and_int_sf_0 bits
    else if type_field == 0
    then decode_convert_float_and_int_sf_not_0_type_field_0 bits
    else decode_convert_float_and_int_sf_not_0_type_field_not_0 bits
