-- ===== src/Cpu/Simd/Move.antt =====
-- The moves of libcpu/src/interpreter/simd.cpp: DUP, INS, FMOV, MOVI, UMOV and SMOV.
use Prim.Native.Nat.{bit_or}
use switch_emu_pub.Base.{ℕ, ◌+◌, ◌-◌, ◌*◌, ◌/◌, ◌%◌, ◌^◌, ◌==◌, Bool, true, false, if◌then◌else◌}
use switch_emu_pub.Bits.{shl, test_bit, bit_range, sign_extend}
use switch_emu_pub.Cpu.State.{Core, set_reg, set_vreg}
use switch_emu_pub.Cpu.Inst.{rd, rn, f16_20}
use switch_emu_pub.Cpu.Simd.Elements.{
  vector_element, set_vector_element, for_elements, element_bits, num_elements, size_of_imm5,
}

unfoldable pub dup_general : Core → ℕ → Core
dup_general core inst =
    let size = size_of_imm5 (f16_20 inst) in
    let val = core.gp_regs (rn inst) in
    for_elements (λ i c. set_vector_element (rd inst) (element_bits size) i val c)
      (num_elements size inst) 0 core

unfoldable pub ins_general : Core → ℕ → Core
ins_general core inst =
    let size = size_of_imm5 (f16_20 inst) in
    set_vector_element (rd inst) (element_bits size) (f16_20 inst / 2 ^ (size + 1))
      (core.gp_regs (rn inst)) core

-- The immediate of eight bits.
abbrev pub imm8 : ℕ → ℕ
imm8 inst = bit_or (bit_range 5 9 inst) (bit_range 16 18 inst * 2 ^ 5)

abbrev pub single_imm : ℕ → ℕ
single_imm inst =
    let sign = if test_bit (imm8 inst) 7 then 0x80000000 else 0 in
    let exponent = if test_bit (imm8 inst) 6 then 0x3e000000 else 0x40000000 in
    bit_or (bit_or sign exponent) (bit_range 0 5 (imm8 inst) * 2 ^ 19)

unfoldable pub fmov_vector_imm_single : Core → ℕ → Core
fmov_vector_imm_single core inst =
    let imm = single_imm inst in
    let upper = if test_bit inst 30 then imm else 0 in
    let first = set_vector_element (rd inst) 32 0 imm core in
    let second = set_vector_element (rd inst) 32 1 imm first in
    let third = set_vector_element (rd inst) 32 2 upper second in
    set_vector_element (rd inst) 32 3 upper third

abbrev pub movi_shifted : ℕ
movi_shifted = 1

abbrev pub movi_shifting_ones : ℕ
movi_shifting_ones = 2

abbrev pub replicate64 : ℕ → ℕ → ℕ
replicate64 imm size =
    if size == 0
    then imm * 0x0101010101010101 % 2 ^ 64
    else if size == 1
    then imm * 0x0001000100010001 % 2 ^ 64
    else if size == 2
    then imm * 0x0000000100000001 % 2 ^ 64
    else imm

-- Byte `i` is all ones where bit `i` is set.
abbrev pub byte_if : ℕ → ℕ → ℕ
byte_if imm i = if test_bit imm i then 0xff * 2 ^ (8 * i) else 0

abbrev pub byte_mask : ℕ → ℕ
byte_mask imm =
    bit_or
      (bit_or (bit_or (byte_if imm 0) (byte_if imm 1)) (bit_or (byte_if imm 2) (byte_if imm 3)))
      (bit_or (bit_or (byte_if imm 4) (byte_if imm 5)) (bit_or (byte_if imm 6) (byte_if imm 7)))

abbrev pub movi_imm : ℕ → ℕ → ℕ → ℕ
movi_imm size flags inst =
    if flags == movi_shifted
    then shl (imm8 inst) (bit_range 13 14 inst * 8)
    else if flags == movi_shifting_ones
    then bit_or (shl (imm8 inst) ((bit_range 12 12 inst + 1) * 8))
        (2 ^ ((bit_range 12 12 inst + 1) * 8) - 1)
    else if size == 3
    then byte_mask (imm8 inst)
    else imm8 inst

unfoldable pub movi_general : ℕ → ℕ → Core → ℕ → Core
movi_general size flags core inst =
    let imm = replicate64 (movi_imm size flags inst) size in
    set_vreg core (rd inst) (record { d0 = imm; d1 = if test_bit inst 30 then imm else 0 })

abbrev pub movi8 : Core → ℕ → Core
movi8 = movi_general 0 0

abbrev pub movi16_shifted_imm : Core → ℕ → Core
movi16_shifted_imm = movi_general 1 movi_shifted

abbrev pub movi32_shifted_imm : Core → ℕ → Core
movi32_shifted_imm = movi_general 2 movi_shifted

abbrev pub movi32_shifting_ones : Core → ℕ → Core
movi32_shifting_ones = movi_general 2 movi_shifting_ones

abbrev pub movi64_scalar : Core → ℕ → Core
movi64_scalar = movi_general 3 0

abbrev pub movi64_vector : Core → ℕ → Core
movi64_vector = movi_general 3 0

-- The size in bits and the index of the element that UMOV and SMOV read.
abbrev pub moved_element : ℕ → ℕ × ℕ
moved_element inst =
    if test_bit inst 16
    then (8, bit_range 17 20 inst)
    else if test_bit inst 17
    then (16, bit_range 18 20 inst)
    else if test_bit inst 18
    then (32, bit_range 19 20 inst)
    else (64, bit_range 20 20 inst)

unfoldable pub mov_general : Bool → Bool → Core → ℕ → Core
mov_general is64 is_signed core inst =
    let place = moved_element inst in
    let val = vector_element (rn inst) (place.0) (place.1) core in
    let extended = if is_signed then sign_extend (place.0) val else val in
    set_reg core (rd inst) (if is64 then extended else extended % 2 ^ 32)

abbrev pub umov32 : Core → ℕ → Core
umov32 = mov_general false false

abbrev pub umov64 : Core → ℕ → Core
umov64 = mov_general true false

abbrev pub smov32 : Core → ℕ → Core
smov32 = mov_general false true

abbrev pub smov64 : Core → ℕ → Core
smov64 = mov_general true true
