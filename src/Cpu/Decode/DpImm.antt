-- ===== src/Cpu/Decode/DpImm.antt =====
-- libcpu/src/decode/decodeDPImm.cpp.
use switch_emu_pub.Base.{ℕ, ltb, ◌==◌, ◌&&◌, ◌||◌, not, if◌then◌else◌, [], ◌∷◌}
use switch_emu_pub.Bits.{test_bit, bit_range}
use switch_emu_pub.Cpu.InstructionId.{InstructionId}
use switch_emu_pub.Cpu.Decode.Switch.{switch}

unfoldable pub decode_pc_rel : ℕ → InstructionId
decode_pc_rel bits = if test_bit bits 31 then InstructionId.adrp else InstructionId.adr

unfoldable pub decode_add_sub_imm : ℕ → InstructionId
decode_add_sub_imm bits =
    if ltb 1 (bit_range 22 23 bits)
    then InstructionId.invalid
    else switch (bit_range 29 31 bits)
        (InstructionId.add_32_imm ∷ InstructionId.adds_32_imm ∷ InstructionId.sub_32_imm
          ∷ InstructionId.subs_32_imm ∷ InstructionId.add_64_imm ∷ InstructionId.adds_64_imm
          ∷ InstructionId.sub_64_imm ∷ InstructionId.subs_64_imm ∷ [])
        InstructionId.invalid

unfoldable pub decode_logical_imm : ℕ → InstructionId
decode_logical_imm bits =
    let is64 = test_bit bits 31 in
    let opc = bit_range 29 30 bits in
    if not is64 && bit_range 22 22 bits == 1
    then InstructionId.invalid
    else if is64
    then switch opc
        (InstructionId.and_64_imm ∷ InstructionId.orr_64_imm ∷ InstructionId.eor_64_imm
          ∷ InstructionId.ands_64_imm ∷ [])
        InstructionId.invalid
    else switch opc
        (InstructionId.and_32_imm ∷ InstructionId.orr_32_imm ∷ InstructionId.eor_32_imm
          ∷ InstructionId.ands_32_imm ∷ [])
        InstructionId.invalid

unfoldable pub decode_move_wide : ℕ → InstructionId
decode_move_wide bits =
    let is64 = test_bit bits 31 in
    let opc = bit_range 29 30 bits in
    if (not is64 && ltb 1 (bit_range 21 22 bits)) || opc == 1
    then InstructionId.invalid
    else if is64
    then switch opc
        (InstructionId.movn_64 ∷ InstructionId.invalid ∷ InstructionId.movz_64
          ∷ InstructionId.movk_64 ∷ [])
        InstructionId.invalid
    else switch opc
        (InstructionId.movn_32 ∷ InstructionId.invalid ∷ InstructionId.movz_32
          ∷ InstructionId.movk_32 ∷ [])
        InstructionId.invalid

unfoldable pub decode_bitfield : ℕ → InstructionId
decode_bitfield bits =
    let sf = bit_range 31 31 bits in
    let opc = bit_range 29 30 bits in
    if not (sf == bit_range 22 22 bits) || opc == 3
    then InstructionId.invalid
    else if sf == 0 && (ltb 31 (bit_range 16 21 bits) || ltb 31 (bit_range 10 15 bits))
    then InstructionId.invalid
    else if sf == 1
    then switch opc (InstructionId.sbfm_64 ∷ InstructionId.bfm_64 ∷ InstructionId.ubfm_64 ∷ [])
        InstructionId.invalid
    else switch opc (InstructionId.sbfm_32 ∷ InstructionId.bfm_32 ∷ InstructionId.ubfm_32 ∷ [])
        InstructionId.invalid

unfoldable pub decode_extract : ℕ → InstructionId
decode_extract bits =
    let sf = bit_range 31 31 bits in
    let op21 = bit_range 29 30 bits in
    let n = bit_range 22 22 bits in
    let o0 = bit_range 21 21 bits in
    if sf == 0 && op21 == 0 && n == 0 && o0 == 0 && ltb (bit_range 10 15 bits) 32
    then InstructionId.extr_32
    else if sf == 1 && op21 == 0 && n == 1 && o0 == 0
    then InstructionId.extr_64
    else InstructionId.invalid

unfoldable pub decode_dp_imm : ℕ → InstructionId
unfolding decode_pc_rel decode_add_sub_imm decode_logical_imm decode_move_wide decode_bitfield
    decode_extract
decode_dp_imm bits =
    switch (bit_range 23 25 bits)
      (decode_pc_rel bits
        ∷ decode_pc_rel bits
        ∷ decode_add_sub_imm bits
        ∷ decode_add_sub_imm bits
        ∷ decode_logical_imm bits
        ∷ decode_move_wide bits
        ∷ decode_bitfield bits
        ∷ decode_extract bits
        ∷ [])
      InstructionId.invalid
