-- ===== src/Cpu/Interpreter/SimdTable.antt =====
-- The instructions that libcpu/src/interpreter/simd.cpp registers, in its order.
use switch_emu_pub.Base.{ℕ, List, [], ◌∷◌}
use switch_emu_pub.Cpu.State.{Core, Machine}
use switch_emu_pub.Cpu.Outcome.{Outcome, done, outside}
use switch_emu_pub.Cpu.InstructionId.{InstructionId}
use switch_emu_pub.Cpu.Simd.Move.{
  dup_general, ins_general, movi8, movi16_shifted_imm, movi32_shifted_imm, movi32_shifting_ones,
  movi64_scalar, movi64_vector, fmov_vector_imm_single, umov32, umov64, smov32, smov64,
}
use switch_emu_pub.Cpu.Simd.Arith.{
  orr_register_vector, add_vector, and_vector, cmeq_vec_reg, cmeq_vec_zero, addp_vec,
}

-- A handler that converts integers to floating point, which is not modelled.
abbrev pub simd_handler : Machine → ℕ → Outcome Machine
simd_handler m inst = outside

abbrev pub vector_entry : (Core → ℕ → Core) → Machine → ℕ → Outcome Machine
vector_entry f m inst = done (record m { core = f m.core inst })

unfoldable pub simd_instructions : List (InstructionId × (Machine → ℕ → Outcome Machine))
simd_instructions =
    (InstructionId.dup_general, vector_entry dup_general)
    ∷ (InstructionId.ins_general, vector_entry ins_general)
    ∷ (InstructionId.movi_8_imm, vector_entry movi8)
    ∷ (InstructionId.movi_16_shifted_imm, vector_entry movi16_shifted_imm)
    ∷ (InstructionId.movi_32_shifted_imm, vector_entry movi32_shifted_imm)
    ∷ (InstructionId.movi_32_shifting_ones, vector_entry movi32_shifting_ones)
    ∷ (InstructionId.movi_64_scalar, vector_entry movi64_scalar)
    ∷ (InstructionId.movi_64_vec, vector_entry movi64_vector)
    ∷ (InstructionId.fmov_vec_imm_single, vector_entry fmov_vector_imm_single)
    ∷ (InstructionId.orr_vec_reg, vector_entry orr_register_vector)
    ∷ (InstructionId.ucvtf_scalar_int, simd_handler)
    ∷ (InstructionId.scvtf_scalar_int, simd_handler)
    ∷ (InstructionId.umov_32, vector_entry umov32)
    ∷ (InstructionId.umov_64, vector_entry umov64)
    ∷ (InstructionId.smov_32, vector_entry smov32)
    ∷ (InstructionId.smov_64, vector_entry smov64)
    ∷ (InstructionId.add_vec, vector_entry add_vector)
    ∷ (InstructionId.and_vec, vector_entry and_vector)
    ∷ (InstructionId.cmeq_vec_reg, vector_entry cmeq_vec_reg)
    ∷ (InstructionId.cmeq_vec_zero, vector_entry cmeq_vec_zero)
    ∷ (InstructionId.addp_vec, vector_entry addp_vec)
    ∷ []
