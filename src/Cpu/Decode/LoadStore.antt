-- ===== src/Cpu/Decode/LoadStore.antt =====
-- libcpu/src/decode/decodeLoadStore.cpp: the top level.
pub mod Structs
pub mod SingleStruct
pub mod SingleStructPost
pub mod Exclusive
pub mod Unprivileged
pub mod UnsignedImm
pub mod PostIndex
pub mod PreIndex
pub mod Unscaled
pub mod Pair
pub mod RegOff
use switch_emu_pub.Base.{ℕ, ltb, ◌==◌, ◌||◌, if◌then◌else◌}
use switch_emu_pub.Bits.{bit_range}
use switch_emu_pub.Cpu.InstructionId.{InstructionId}
use Structs.{
  decode_load_store_simd_multiple_structs, decode_load_store_simd_multiple_structs_post_index,
}
use SingleStruct.{decode_load_store_simd_single_struct}
use SingleStructPost.{decode_load_store_simd_single_struct_post_index}
use Exclusive.{decode_load_store_exclusive, decode_load_reg_literal}
use Pair.{decode_load_store_pair}
use Unscaled.{decode_load_store_reg_unscaled}
use PostIndex.{decode_load_store_reg_imm_post_index}
use Unprivileged.{decode_load_store_unprivileged}
use PreIndex.{decode_load_store_reg_imm_pre_index}
use RegOff.{decode_load_store_reg_off}
use UnsignedImm.{decode_load_store_reg_unsigned_imm}

unfoldable pub decode_load_store : ℕ → InstructionId
unfolding decode_load_store_simd_multiple_structs decode_load_store_simd_multiple_structs_post_index
    decode_load_store_simd_single_struct decode_load_store_simd_single_struct_post_index
    decode_load_store_exclusive decode_load_reg_literal decode_load_store_pair
    decode_load_store_reg_unscaled decode_load_store_reg_imm_post_index
    decode_load_store_unprivileged decode_load_store_reg_imm_pre_index decode_load_store_reg_off
    decode_load_store_reg_unsigned_imm
decode_load_store bits =
    let op0 = bit_range 31 31 bits in
    let op1 = bit_range 28 29 bits in
    let op2 = bit_range 26 26 bits in
    let op3 = bit_range 23 24 bits in
    let op4 = bit_range 16 21 bits in
    let op5 = bit_range 10 11 bits in
    if op1 == 0
    then (if op2 == 1
        then (if op0 == 1
            then InstructionId.invalid
            else if op3 == 0
            then (if op4 == 0
                then decode_load_store_simd_multiple_structs bits
                else InstructionId.invalid)
            else if op3 == 1
            then (if ltb op4 32
                then decode_load_store_simd_multiple_structs_post_index bits
                else InstructionId.invalid)
            else if op3 == 2
            then (if op4 == 0 || op4 == 32
                then decode_load_store_simd_single_struct bits
                else InstructionId.invalid)
            else decode_load_store_simd_single_struct_post_index bits)
        else if ltb op3 2
        then decode_load_store_exclusive bits
        else InstructionId.invalid)
    else if op1 == 1
    then (if ltb op3 2 then decode_load_reg_literal bits else InstructionId.invalid)
    else if op1 == 2
    then decode_load_store_pair bits
    else if ltb op3 2
    then (if ltb op4 32
        then (if op5 == 0
            then decode_load_store_reg_unscaled bits
            else if op5 == 1
            then decode_load_store_reg_imm_post_index bits
            else if op5 == 2
            then decode_load_store_unprivileged bits
            else decode_load_store_reg_imm_pre_index bits)
        else if op5 == 2
        then decode_load_store_reg_off bits
        else InstructionId.invalid)
    else decode_load_store_reg_unsigned_imm bits
