-- ===== src/Cpu/Decode/Float.antt =====
-- libcpu/src/decode/decodeFloat.cpp: the top level.
pub mod ConvertFixed
pub mod ConvertInt
pub mod Dp
pub mod Compare
use switch_emu_pub.Base.{ℕ, ltb, if◌then◌else◌}
use switch_emu_pub.Bits.{test_bit, bit_range}
use switch_emu_pub.Cpu.InstructionId.{InstructionId}
use Compare.{decode_float_cond_sel, decode_float_cond_cmp, decode_float_imm, decode_float_cmp}
use Dp.{decode_float_dp_2_source, decode_float_dp_1_source, decode_float_dp_3_source}
use ConvertInt.{decode_convert_float_and_int}
use ConvertFixed.{decode_convert_float_and_fixed}

unfoldable pub decode_float : ℕ → InstructionId
unfolding decode_float_cond_sel decode_float_cond_cmp decode_float_dp_2_source decode_float_imm
    decode_float_cmp decode_float_dp_1_source decode_convert_float_and_int
    decode_convert_float_and_fixed decode_float_dp_3_source
decode_float bits =
    let op1 = bit_range 23 24 bits in
    let op2 = bit_range 19 22 bits in
    let op4 = bit_range 10 15 bits in
    if ltb op1 2
    then (if test_bit op2 2
        then (if test_bit op4 0
            then (if test_bit op4 1 then decode_float_cond_sel bits else decode_float_cond_cmp bits)
            else if test_bit op4 1
            then decode_float_dp_2_source bits
            else if test_bit op4 2
            then decode_float_imm bits
            else if test_bit op4 3
            then decode_float_cmp bits
            else if test_bit op4 4
            then decode_float_dp_1_source bits
            else if test_bit op4 5
            then InstructionId.invalid
            else decode_convert_float_and_int bits)
        else decode_convert_float_and_fixed bits)
    else decode_float_dp_3_source bits
