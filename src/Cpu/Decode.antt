-- ===== src/Cpu/Decode.antt =====
-- libcpu/src/decode/decode.cpp: the top level of the decoder.
pub mod Switch
pub mod DpImm
pub mod DpReg
pub mod System
pub mod LoadStore
pub mod Float
pub mod Simd
use switch_emu_pub.Base.{ℕ, List, [], ◌∷◌}
use switch_emu_pub.Bits.{bit_range}
use switch_emu_pub.Cpu.InstructionId.{InstructionId}
use Switch.{switch}
use DpImm.{decode_dp_imm}
use DpReg.{decode_dp_reg}
use System.{decode_system_or_branch}
use LoadStore.{decode_load_store}
use Float.{decode_float}
use Simd.{decode_simd}

unfoldable pub decode_float_or_simd : ℕ → InstructionId
unfolding decode_float decode_simd
decode_float_or_simd bits =
    switch (bit_range 28 31 bits)
      (decode_simd bits
        ∷ decode_float bits
        ∷ decode_simd bits
        ∷ decode_float bits
        ∷ decode_simd bits
        ∷ decode_simd bits
        ∷ decode_simd bits
        ∷ decode_simd bits
        ∷ InstructionId.invalid
        ∷ decode_float bits
        ∷ InstructionId.invalid
        ∷ decode_float bits
        ∷ [])
      InstructionId.invalid

unfoldable pub decode : ℕ → InstructionId
unfolding decode_dp_imm decode_dp_reg decode_system_or_branch decode_load_store decode_float_or_simd
decode bits =
    switch (bit_range 25 28 bits)
      (InstructionId.invalid
        ∷ InstructionId.invalid
        ∷ InstructionId.invalid
        ∷ InstructionId.invalid
        ∷ decode_load_store bits
        ∷ decode_dp_reg bits
        ∷ decode_load_store bits
        ∷ decode_float_or_simd bits
        ∷ decode_dp_imm bits
        ∷ decode_dp_imm bits
        ∷ decode_system_or_branch bits
        ∷ decode_system_or_branch bits
        ∷ decode_load_store bits
        ∷ decode_dp_reg bits
        ∷ decode_load_store bits
        ∷ decode_float_or_simd bits
        ∷ [])
      InstructionId.invalid
