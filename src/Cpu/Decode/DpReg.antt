-- ===== src/Cpu/Decode/DpReg.antt =====
-- libcpu/src/decode/decodeDPReg.cpp.
use switch_emu_pub.Base.{ℕ, Bool, ltb, leb, ◌==◌, ◌&&◌, ◌||◌, not, if◌then◌else◌, [], ◌∷◌}
use switch_emu_pub.Bits.{test_bit, bit_range}
use switch_emu_pub.Cpu.InstructionId.{InstructionId}
use switch_emu_pub.Cpu.Decode.Switch.{switch}

-- `if (is64) { inst.id = x; } else { inst.id = w; }`.
abbrev pub by_size : ℕ → InstructionId → InstructionId → InstructionId
by_size bits x w = if test_bit bits 31 then x else w

unfoldable pub decode_dp_2_source : ℕ → InstructionId
decode_dp_2_source bits =
    let opcode = bit_range 10 15 bits in
    if bit_range 29 29 bits == 1
    then InstructionId.invalid
    else if opcode == 2
    then by_size bits InstructionId.udiv_64 InstructionId.udiv_32
    else if opcode == 3
    then by_size bits InstructionId.sdiv_64 InstructionId.sdiv_32
    else if opcode == 8
    then by_size bits InstructionId.lslv_64 InstructionId.lslv_32
    else if opcode == 9
    then by_size bits InstructionId.lsrv_64 InstructionId.lsrv_32
    else if opcode == 10
    then by_size bits InstructionId.asrv_64 InstructionId.asrv_32
    else if opcode == 11
    then by_size bits InstructionId.rorv_64 InstructionId.rorv_32
    else if opcode == 16
    then by_size bits InstructionId.invalid InstructionId.crc32b
    else if opcode == 17
    then by_size bits InstructionId.invalid InstructionId.crc32h
    else if opcode == 18
    then by_size bits InstructionId.invalid InstructionId.crc32w
    else if opcode == 19
    then by_size bits InstructionId.crc32x InstructionId.invalid
    else if opcode == 20
    then by_size bits InstructionId.invalid InstructionId.crc32cb
    else if opcode == 21
    then by_size bits InstructionId.invalid InstructionId.crc32ch
    else if opcode == 22
    then by_size bits InstructionId.invalid InstructionId.crc32cw
    else if opcode == 23
    then by_size bits InstructionId.crc32cx InstructionId.invalid
    else InstructionId.invalid

unfoldable pub decode_dp_1_source : ℕ → InstructionId
decode_dp_1_source bits =
    let opcode = bit_range 10 15 bits in
    if ltb 5 opcode
    then InstructionId.invalid
    else if not (bit_range 16 20 bits == 0)
    then InstructionId.invalid
    else if bit_range 29 29 bits == 1
    then InstructionId.invalid
    else switch opcode
        (by_size bits InstructionId.rbit_64 InstructionId.rbit_32
          ∷ by_size bits InstructionId.rev16_64 InstructionId.rev16_32
          ∷ by_size bits InstructionId.rev32_64 InstructionId.rev_32
          ∷ by_size bits InstructionId.rev_64 InstructionId.invalid
          ∷ by_size bits InstructionId.clz_64 InstructionId.clz_32
          ∷ by_size bits InstructionId.cls_64 InstructionId.cls_32
          ∷ [])
        InstructionId.invalid

-- `if (negate) { inst.id = x; } else { inst.id = y; }`.
abbrev pub by_bit : ℕ → ℕ → InstructionId → InstructionId → InstructionId
by_bit pos bits x y = if test_bit bits pos then x else y

unfoldable pub decode_logical_reg : ℕ → InstructionId
decode_logical_reg bits =
    let is64 = test_bit bits 31 in
    let opc = bit_range 29 30 bits in
    if not is64 && ltb 31 (bit_range 10 15 bits)
    then InstructionId.invalid
    else if is64
    then switch opc
        (by_bit 21 bits InstructionId.bic_64_shifted InstructionId.and_64_shifted
          ∷ by_bit 21 bits InstructionId.orn_64_shifted InstructionId.orr_64_shifted
          ∷ by_bit 21 bits InstructionId.eon_64_shifted InstructionId.eor_64_shifted
          ∷ by_bit 21 bits InstructionId.bics_64_shifted InstructionId.ands_64_shifted
          ∷ [])
        InstructionId.invalid
    else switch opc
        (by_bit 21 bits InstructionId.bic_32_shifted InstructionId.and_32_shifted
          ∷ by_bit 21 bits InstructionId.orn_32_shifted InstructionId.orr_32_shifted
          ∷ by_bit 21 bits InstructionId.eon_32_shifted InstructionId.eor_32_shifted
          ∷ by_bit 21 bits InstructionId.bics_32_shifted InstructionId.ands_32_shifted
          ∷ [])
        InstructionId.invalid

unfoldable pub decode_add_sub_shifted : ℕ → InstructionId
decode_add_sub_shifted bits =
    if bit_range 22 23 bits == 3
    then InstructionId.invalid
    else if test_bit bits 15 && not (test_bit bits 31)
    then InstructionId.invalid
    else switch (bit_range 29 31 bits)
        (InstructionId.add_32_shifted ∷ InstructionId.adds_32_shifted ∷ InstructionId.sub_32_shifted
          ∷ InstructionId.subs_32_shifted ∷ InstructionId.add_64_shifted
          ∷ InstructionId.adds_64_shifted ∷ InstructionId.sub_64_shifted
          ∷ InstructionId.subs_64_shifted ∷ [])
        InstructionId.invalid

unfoldable pub decode_add_sub_extended : ℕ → InstructionId
decode_add_sub_extended bits =
    if not (bit_range 22 23 bits == 0)
    then InstructionId.invalid
    else if ltb 4 (bit_range 10 12 bits)
    then InstructionId.invalid
    else switch (bit_range 29 31 bits)
        (InstructionId.add_32_extended ∷ InstructionId.adds_32_extended
          ∷ InstructionId.sub_32_extended ∷ InstructionId.subs_32_extended
          ∷ InstructionId.add_64_extended ∷ InstructionId.adds_64_extended
          ∷ InstructionId.sub_64_extended ∷ InstructionId.subs_64_extended ∷ [])
        InstructionId.invalid

unfoldable pub decode_add_sub_carry : ℕ → InstructionId
decode_add_sub_carry bits =
    if not (bit_range 10 15 bits == 0)
    then InstructionId.invalid
    else switch (bit_range 29 31 bits)
        (InstructionId.adc_32 ∷ InstructionId.adcs_32 ∷ InstructionId.sbc_32 ∷ InstructionId.sbcs_32
          ∷ InstructionId.adc_64 ∷ InstructionId.adcs_64 ∷ InstructionId.sbc_64
          ∷ InstructionId.sbcs_64 ∷ [])
        InstructionId.invalid

abbrev pub cond_cmp_refused : ℕ → Bool
cond_cmp_refused bits =
    bit_range 4 4 bits == 1 || bit_range 10 10 bits == 1 || bit_range 29 29 bits == 0

unfoldable pub decode_cond_cmp_reg : ℕ → InstructionId
decode_cond_cmp_reg bits =
    if cond_cmp_refused bits
    then InstructionId.invalid
    else by_size bits (by_bit 30 bits InstructionId.ccmp_64_reg InstructionId.ccmn_64_reg)
        (by_bit 30 bits InstructionId.ccmp_32_reg InstructionId.ccmn_32_reg)

unfoldable pub decode_cond_cmp_imm : ℕ → InstructionId
decode_cond_cmp_imm bits =
    if cond_cmp_refused bits
    then InstructionId.invalid
    else by_size bits (by_bit 30 bits InstructionId.ccmp_64_imm InstructionId.ccmn_64_imm)
        (by_bit 30 bits InstructionId.ccmp_32_imm InstructionId.ccmn_32_imm)

unfoldable pub decode_cond_sel : ℕ → InstructionId
decode_cond_sel bits =
    let op2 = bit_range 10 11 bits in
    if bit_range 29 29 bits == 1 || ltb 1 op2
    then InstructionId.invalid
    else if op2 == 1
    then by_size bits (by_bit 30 bits InstructionId.csneg_64 InstructionId.csinc_64)
        (by_bit 30 bits InstructionId.csneg_32 InstructionId.csinc_32)
    else by_size bits (by_bit 30 bits InstructionId.csinv_64 InstructionId.csel_64)
        (by_bit 30 bits InstructionId.csinv_32 InstructionId.csel_32)

unfoldable pub decode_dp_3_source : ℕ → InstructionId
decode_dp_3_source bits =
    let op31 = bit_range 21 23 bits in
    if not (bit_range 29 30 bits == 0)
    then InstructionId.invalid
    else if test_bit bits 31
    then switch op31
        (by_bit 15 bits InstructionId.msub_64 InstructionId.madd_64
          ∷ by_bit 15 bits InstructionId.smsubl InstructionId.smaddl
          ∷ by_bit 15 bits InstructionId.invalid InstructionId.smulh
          ∷ InstructionId.invalid
          ∷ InstructionId.invalid
          ∷ by_bit 15 bits InstructionId.umsubl InstructionId.umaddl
          ∷ by_bit 15 bits InstructionId.invalid InstructionId.umulh
          ∷ InstructionId.invalid
          ∷ [])
        InstructionId.invalid
    else if not (op31 == 0)
    then InstructionId.invalid
    else by_bit 15 bits InstructionId.msub_32 InstructionId.madd_32

unfoldable pub decode_dp_reg : ℕ → InstructionId
unfolding decode_dp_2_source decode_dp_1_source decode_logical_reg decode_add_sub_shifted
    decode_add_sub_extended decode_add_sub_carry decode_cond_cmp_reg decode_cond_cmp_imm
    decode_cond_sel decode_dp_3_source
decode_dp_reg bits =
    let op2 = bit_range 21 24 bits in
    if bit_range 28 28 bits == 1
    then (if op2 == 0
        then decode_add_sub_carry bits
        else if op2 == 2
        then (if bit_range 11 11 bits == 0
            then decode_cond_cmp_reg bits
            else decode_cond_cmp_imm bits)
        else if op2 == 4
        then decode_cond_sel bits
        else if op2 == 6
        then (if bit_range 30 30 bits == 0
            then decode_dp_2_source bits
            else decode_dp_1_source bits)
        else if leb 8 op2
        then decode_dp_3_source bits
        else InstructionId.invalid)
    else if ltb op2 8
    then decode_logical_reg bits
    else if op2 == 8 || op2 == 10 || op2 == 12 || op2 == 14
    then decode_add_sub_shifted bits
    else decode_add_sub_extended bits
