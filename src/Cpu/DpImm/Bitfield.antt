-- ===== src/Cpu/DpImm/Bitfield.antt =====
-- libcpu/src/interpreter/DataProcessingImm.cpp: bitfield moves and extraction. The decoder refuses
-- 32-bit instructions with immr or imms above 31, so `imms + width - immr` is not negative.
use Prim.Native.Nat.{bit_and, bit_or}
use switch_emu_pub.Base.{ℕ, ◌+◌, ◌-◌, ◌%◌, ◌^◌, ltb, Bool, true, false, ◌&&◌, if◌then◌else◌}
use switch_emu_pub.Bits.{complement, shl, shr, test_bit, sign_extend}
use switch_emu_pub.Cpu.State.{Core, set_reg}
use switch_emu_pub.Cpu.Inst.{rd, rn, rm, imms, immr}
use switch_emu_pub.Cpu.Alu.{width, truncate}

-- The part of the source register that is moved, at its place in the result.
unfoldable pub moved_field : Bool → ℕ → ℕ → ℕ → ℕ
moved_field is64 imms immr val =
    let final_pos = (imms + width is64 - immr) % width is64 in
    let source_mask = 2 ^ (imms + 1) - 1 in
    let field = truncate is64 val % 2 ^ (imms + 1) in
    let rotated = bit_or (shr field immr) (shl field (width is64 - immr)) in
    let shifted_mask =
      if ltb imms final_pos
      then shl source_mask (final_pos - imms)
      else shr source_mask (imms - final_pos) in
    bit_and rotated shifted_mask

-- The bits of the destination that a BFM keeps.
unfoldable pub kept_bits : Bool → ℕ → ℕ → ℕ → ℕ
kept_bits is64 imms immr old =
    let source_mask = 2 ^ (imms + 1) - 1 in
    let rotated_mask = bit_or (shr source_mask immr) (shl source_mask (width is64 - immr)) in
    bit_and old (complement rotated_mask)

unfoldable pub bitfield_move_generic : Bool → Bool → Bool → Core → ℕ → Core
bitfield_move_generic is64 write_zeros is_signed core inst =
    let source = truncate is64 (core.gp_regs (rn inst)) in
    let final_pos = (imms inst + width is64 - immr inst) % width is64 in
    let field = moved_field is64 (imms inst) (immr inst) source in
    let res =
      if write_zeros
      then (if is_signed && test_bit source (imms inst) then sign_extend final_pos field else field)
      else bit_or field (kept_bits is64 (imms inst) (immr inst) (core.gp_regs (rd inst))) in
    set_reg core (rd inst) (truncate is64 res)

abbrev pub sbfm32 : Core → ℕ → Core
sbfm32 = bitfield_move_generic false true true

abbrev pub bfm32 : Core → ℕ → Core
bfm32 = bitfield_move_generic false false false

abbrev pub ubfm32 : Core → ℕ → Core
ubfm32 = bitfield_move_generic false true false

abbrev pub sbfm64 : Core → ℕ → Core
sbfm64 = bitfield_move_generic true true true

abbrev pub bfm64 : Core → ℕ → Core
bfm64 = bitfield_move_generic true false false

abbrev pub ubfm64 : Core → ℕ → Core
ubfm64 = bitfield_move_generic true true false

unfoldable pub extracted : Bool → ℕ → ℕ → ℕ → ℕ
extracted is64 lsb operand1 operand2 =
    let high = truncate is64 operand1 in
    let low = truncate is64 operand2 in
    truncate is64 (bit_or (shr low lsb) (shl high (width is64 - lsb)))

unfoldable pub extract_generic : Bool → Core → ℕ → Core
unfolding extracted
extract_generic is64 core inst =
    set_reg core (rd inst)
      (extracted is64 (imms inst) (core.gp_regs (rn inst)) (core.gp_regs (rm inst)))

abbrev pub extr32 : Core → ℕ → Core
extr32 = extract_generic false

abbrev pub extr64 : Core → ℕ → Core
extr64 = extract_generic true
