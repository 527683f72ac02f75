-- ===== src/Cpu/Preserve/VectorTable.antt =====
-- Every handler that float.cpp and simd.cpp of libcpu/src/interpreter register keeps the widths.
use switch_emu_pub.Base.{ℕ, true, false, Each, nil, ◌▸◌}
use switch_emu_pub.Cpu.Interpreter.FloatTable.{float_instructions}
use switch_emu_pub.Cpu.Interpreter.SimdTable.{vector_entry, simd_instructions}
use switch_emu_pub.Cpu.State.{Core}
use switch_emu_pub.Cpu.Preserve.DpReg.{KeepsFits}
use switch_emu_pub.Cpu.Preserve.Access.{WellFormed-core}
use switch_emu_pub.Cpu.Preserve.Simd.{
  dup_general-Fits, ins_general-Fits, fmov_vector_imm_single-Fits, movi_general-Fits,
  mov_general-Fits, orr_register_vector-Fits, and_vector-Fits, add_vector-Fits,
  cmeq_vec_generic-Fits, addp_vec-Fits,
}
use switch_emu_pub.Cpu.Preserve.LoadStore.{Keeps}

pub float_instructions-Keeps : Each (λ e. Keeps e.1) float_instructions
unfolding float_instructions
float_instructions-Keeps =
    (λ m inst w. w)
    ▸ (λ m inst w. w)
    ▸ (λ m inst w. w)
    ▸ (λ m inst w. w)
    ▸ (λ m inst w. w)
    ▸ (λ m inst w. w)
    ▸ (λ m inst w. w)
    ▸ (λ m inst w. w)
    ▸ (λ m inst w. w)
    ▸ (λ m inst w. w)
    ▸ (λ m inst w. w)
    ▸ (λ m inst w. w)
    ▸ (λ m inst w. w)
    ▸ (λ m inst w. w)
    ▸ (λ m inst w. w)
    ▸ (λ m inst w. w)
    ▸ (λ m inst w. tt)
    ▸ (λ m inst w. tt)
    ▸ (λ m inst w. tt)
    ▸ (λ m inst w. tt)
    ▸ (λ m inst w. tt)
    ▸ (λ m inst w. tt)
    ▸ (λ m inst w. tt)
    ▸ (λ m inst w. tt)
    ▸ (λ m inst w. tt)
    ▸ (λ m inst w. tt)
    ▸ (λ m inst w. tt)
    ▸ (λ m inst w. tt)
    ▸ (λ m inst w. tt)
    ▸ (λ m inst w. tt)
    ▸ (λ m inst w. tt)
    ▸ (λ m inst w. tt)
    ▸ (λ m inst w. tt)
    ▸ (λ m inst w. tt)
    ▸ (λ m inst w. tt)
    ▸ (λ m inst w. tt)
    ▸ (λ m inst w. tt)
    ▸ (λ m inst w. tt)
    ▸ (λ m inst w. tt)
    ▸ (λ m inst w. tt)
    ▸ (λ m inst w. tt)
    ▸ (λ m inst w. tt)
    ▸ (λ m inst w. tt)
    ▸ (λ m inst w. tt)
    ▸ (λ m inst w. tt)
    ▸ (λ m inst w. tt)
    ▸ (λ m inst w. tt)
    ▸ (λ m inst w. tt)
    ▸ (λ m inst w. tt)
    ▸ (λ m inst w. tt)
    ▸ (λ m inst w. tt)
    ▸ (λ m inst w. tt)
    ▸ (λ m inst w. tt)
    ▸ (λ m inst w. tt)
    ▸ (λ m inst w. tt)
    ▸ (λ m inst w. tt)
    ▸ (λ m inst w. tt)
    ▸ (λ m inst w. tt)
    ▸ (λ m inst w. tt)
    ▸ (λ m inst w. tt)
    ▸ (λ m inst w. tt)
    ▸ (λ m inst w. tt)
    ▸ (λ m inst w. tt)
    ▸ (λ m inst w. tt)
    ▸ (λ m inst w. tt)
    ▸ (λ m inst w. tt)
    ▸ (λ m inst w. tt)
    ▸ (λ m inst w. tt)
    ▸ (λ m inst w. tt)
    ▸ (λ m inst w. tt)
    ▸ (λ m inst w. tt)
    ▸ (λ m inst w. tt)
    ▸ (λ m inst w. tt)
    ▸ (λ m inst w. tt)
    ▸ (λ m inst w. tt)
    ▸ (λ m inst w. tt)
    ▸ (λ m inst w. tt)
    ▸ (λ m inst w. tt)
    ▸ (λ m inst w. tt)
    ▸ (λ m inst w. tt)
    ▸ (λ m inst w. tt)
    ▸ (λ m inst w. tt)
    ▸ (λ m inst w. tt)
    ▸ (λ m inst w. tt)
    ▸ (λ m inst w. tt)
    ▸ (λ m inst w. tt)
    ▸ (λ m inst w. tt)
    ▸ (λ m inst w. tt)
    ▸ (λ m inst w. tt)
    ▸ (λ m inst w. tt)
    ▸ (λ m inst w. tt)
    ▸ (λ m inst w. tt)
    ▸ (λ m inst w. tt)
    ▸ (λ m inst w. tt)
    ▸ (λ m inst w. tt)
    ▸ (λ m inst w. tt)
    ▸ (λ m inst w. tt)
    ▸ (λ m inst w. tt)
    ▸ (λ m inst w. tt)
    ▸ (λ m inst w. tt)
    ▸ (λ m inst w. tt)
    ▸ (λ m inst w. tt)
    ▸ (λ m inst w. tt)
    ▸ (λ m inst w. tt)
    ▸ (λ m inst w. tt)
    ▸ (λ m inst w. tt)
    ▸ (λ m inst w. tt)
    ▸ (λ m inst w. tt)
    ▸ (λ m inst w. tt)
    ▸ (λ m inst w. tt)
    ▸ (λ m inst w. tt)
    ▸ (λ m inst w. tt)
    ▸ (λ m inst w. tt)
    ▸ (λ m inst w. tt)
    ▸ (λ m inst w. tt)
    ▸ (λ m inst w. tt)
    ▸ (λ m inst w. tt)
    ▸ (λ m inst w. tt)
    ▸ (λ m inst w. tt)
    ▸ (λ m inst w. tt)
    ▸ (λ m inst w. tt)
    ▸ (λ m inst w. tt)
    ▸ (λ m inst w. tt)
    ▸ (λ m inst w. tt)
    ▸ (λ m inst w. tt)
    ▸ (λ m inst w. tt)
    ▸ (λ m inst w. tt)
    ▸ (λ m inst w. tt)
    ▸ (λ m inst w. tt)
    ▸ (λ m inst w. tt)
    ▸ (λ m inst w. tt)
    ▸ (λ m inst w. tt)
    ▸ (λ m inst w. tt)
    ▸ (λ m inst w. tt)
    ▸ (λ m inst w. tt)
    ▸ (λ m inst w. tt)
    ▸ (λ m inst w. tt)
    ▸ (λ m inst w. tt)
    ▸ (λ m inst w. tt)
    ▸ (λ m inst w. tt)
    ▸ nil

vector_entry-Keeps : (f : Core → ℕ → Core) → KeepsFits f → Keeps (vector_entry f)
vector_entry-Keeps f k m inst w = WellFormed-core m _ w (k m.core inst w.fits)

pub simd_instructions-Keeps : Each (λ e. Keeps e.1) simd_instructions
unfolding simd_instructions
simd_instructions-Keeps =
    vector_entry-Keeps _ dup_general-Fits
    ▸ vector_entry-Keeps _ ins_general-Fits
    ▸ vector_entry-Keeps _ (movi_general-Fits _ _)
    ▸ vector_entry-Keeps _ (movi_general-Fits _ _)
    ▸ vector_entry-Keeps _ (movi_general-Fits _ _)
    ▸ vector_entry-Keeps _ (movi_general-Fits _ _)
    ▸ vector_entry-Keeps _ (movi_general-Fits _ _)
    ▸ vector_entry-Keeps _ (movi_general-Fits _ _)
    ▸ vector_entry-Keeps _ fmov_vector_imm_single-Fits
    ▸ vector_entry-Keeps _ orr_register_vector-Fits
    ▸ (λ m inst w. tt)
    ▸ (λ m inst w. tt)
    ▸ vector_entry-Keeps _ (mov_general-Fits false false)
    ▸ vector_entry-Keeps _ (mov_general-Fits true false)
    ▸ vector_entry-Keeps _ (mov_general-Fits false true)
    ▸ vector_entry-Keeps _ (mov_general-Fits true true)
    ▸ vector_entry-Keeps _ add_vector-Fits
    ▸ vector_entry-Keeps _ and_vector-Fits
    ▸ vector_entry-Keeps _ (cmeq_vec_generic-Fits false)
    ▸ vector_entry-Keeps _ (cmeq_vec_generic-Fits true)
    ▸ vector_entry-Keeps _ addp_vec-Fits
    ▸ nil
