-- ===== src/Cpu/Interpreter/FloatTable.antt =====
-- The instructions that libcpu/src/interpreter/float.cpp registers, in its order.
use switch_emu_pub.Base.{ℕ, List, [], ◌∷◌}
use switch_emu_pub.Cpu.State.{Machine}
use switch_emu_pub.Cpu.Outcome.{Outcome, done, outside}
use switch_emu_pub.Cpu.InstructionId.{InstructionId}

-- A handler of float.cpp, which is not modelled.
abbrev pub float_handler : Machine → ℕ → Outcome Machine
float_handler m inst = outside

-- An instruction that is only reported.
abbrev pub float_reported : Machine → ℕ → Outcome Machine
float_reported m inst = done m

unfoldable pub float_instructions : List (InstructionId × (Machine → ℕ → Outcome Machine))
float_instructions =
    (InstructionId.scvtf_32_single_fixed, float_reported)
    ∷ (InstructionId.ucvtf_32_single_fixed, float_reported)
    ∷ (InstructionId.fcvtzs_single_32_fixed, float_reported)
    ∷ (InstructionId.fcvtzu_single_32_fixed, float_reported)
    ∷ (InstructionId.scvtf_32_double_fixed, float_reported)
    ∷ (InstructionId.ucvtf_32_double_fixed, float_reported)
    ∷ (InstructionId.fcvtzs_double_32_fixed, float_reported)
    ∷ (InstructionId.fcvtzu_double_32_fixed, float_reported)
    ∷ (InstructionId.scvtf_64_single_fixed, float_reported)
    ∷ (InstructionId.ucvtf_64_single_fixed, float_reported)
    ∷ (InstructionId.fcvtzs_single_64_fixed, float_reported)
    ∷ (InstructionId.fcvtzu_single_64_fixed, float_reported)
    ∷ (InstructionId.scvtf_64_double_fixed, float_reported)
    ∷ (InstructionId.ucvtf_64_double_fixed, float_reported)
    ∷ (InstructionId.fcvtzs_double_64_fixed, float_reported)
    ∷ (InstructionId.fcvtzu_double_64_fixed, float_reported)
    ∷ (InstructionId.fcvtns_single_32_int, float_handler)
    ∷ (InstructionId.fcvtnu_single_32_int, float_handler)
    ∷ (InstructionId.scvtf_32_single_int, float_handler)
    ∷ (InstructionId.ucvtf_32_single_int, float_handler)
    ∷ (InstructionId.fcvtas_single_32_int, float_handler)
    ∷ (InstructionId.fcvtau_single_32_int, float_handler)
    ∷ (InstructionId.fmov_single_32, float_handler)
    ∷ (InstructionId.fmov_32_single, float_handler)
    ∷ (InstructionId.fcvtps_single_32_int, float_handler)
    ∷ (InstructionId.fcvtpu_single_32_int, float_handler)
    ∷ (InstructionId.fcvtms_single_32_int, float_handler)
    ∷ (InstructionId.fcvtmu_single_32_int, float_handler)
    ∷ (InstructionId.fcvtzs_single_32_int, float_handler)
    ∷ (InstructionId.fcvtzu_single_32_int, float_handler)
    ∷ (InstructionId.fcvtns_double_32_int, float_handler)
    ∷ (InstructionId.fcvtnu_double_32_int, float_handler)
    ∷ (InstructionId.scvtf_32_double_int, float_handler)
    ∷ (InstructionId.ucvtf_32_double_int, float_handler)
    ∷ (InstructionId.fcvtas_double_32_int, float_handler)
    ∷ (InstructionId.fcvtau_double_32_int, float_handler)
    ∷ (InstructionId.fcvtps_double_32_int, float_handler)
    ∷ (InstructionId.fcvtpu_double_32_int, float_handler)
    ∷ (InstructionId.fcvtms_double_32_int, float_handler)
    ∷ (InstructionId.fcvtmu_double_32_int, float_handler)
    ∷ (InstructionId.fcvtzs_double_32_int, float_handler)
    ∷ (InstructionId.fcvtzu_double_32_int, float_handler)
    ∷ (InstructionId.fcvtns_single_64_int, float_handler)
    ∷ (InstructionId.fcvtnu_single_64_int, float_handler)
    ∷ (InstructionId.scvtf_64_single_int, float_handler)
    ∷ (InstructionId.ucvtf_64_single_int, float_handler)
    ∷ (InstructionId.fcvtas_single_64_int, float_handler)
    ∷ (InstructionId.fcvtau_single_64_int, float_handler)
    ∷ (InstructionId.fcvtps_single_64_int, float_handler)
    ∷ (InstructionId.fcvtpu_single_64_int, float_handler)
    ∷ (InstructionId.fcvtms_single_64_int, float_handler)
    ∷ (InstructionId.fcvtmu_single_64_int, float_handler)
    ∷ (InstructionId.fcvtzs_single_64_int, float_handler)
    ∷ (InstructionId.fcvtzu_single_64_int, float_handler)
    ∷ (InstructionId.fcvtns_double_64_int, float_handler)
    ∷ (InstructionId.fcvtnu_double_64_int, float_handler)
    ∷ (InstructionId.scvtf_64_double_int, float_handler)
    ∷ (InstructionId.ucvtf_64_double_int, float_handler)
    ∷ (InstructionId.fcvtas_double_64_int, float_handler)
    ∷ (InstructionId.fcvtau_double_64_int, float_handler)
    ∷ (InstructionId.fmov_double_64, float_handler)
    ∷ (InstructionId.fmov_64_double, float_handler)
    ∷ (InstructionId.fcvtps_double_64_int, float_handler)
    ∷ (InstructionId.fcvtpu_double_64_int, float_handler)
    ∷ (InstructionId.fcvtms_double_64_int, float_handler)
    ∷ (InstructionId.fcvtmu_double_64_int, float_handler)
    ∷ (InstructionId.fcvtzs_double_64_int, float_handler)
    ∷ (InstructionId.fcvtzu_double_64_int, float_handler)
    ∷ (InstructionId.fmov_top128_64, float_handler)
    ∷ (InstructionId.fmov_64_top128, float_handler)
    ∷ (InstructionId.fmov_reg_single, float_handler)
    ∷ (InstructionId.fabs_single, float_handler)
    ∷ (InstructionId.fneg_single, float_handler)
    ∷ (InstructionId.fsqrt_single, float_handler)
    ∷ (InstructionId.fcvt_single_double, float_handler)
    ∷ (InstructionId.fcvt_single_half, float_handler)
    ∷ (InstructionId.frintn_single, float_handler)
    ∷ (InstructionId.frintp_single, float_handler)
    ∷ (InstructionId.frintm_single, float_handler)
    ∷ (InstructionId.frintz_single, float_handler)
    ∷ (InstructionId.frinta_single, float_handler)
    ∷ (InstructionId.frintx_single, float_handler)
    ∷ (InstructionId.frinti_single, float_handler)
    ∷ (InstructionId.fmov_reg_double, float_handler)
    ∷ (InstructionId.fabs_double, float_handler)
    ∷ (InstructionId.fneg_double, float_handler)
    ∷ (InstructionId.fsqrt_double, float_handler)
    ∷ (InstructionId.fcvt_double_single, float_handler)
    ∷ (InstructionId.fcvt_double_half, float_handler)
    ∷ (InstructionId.frintn_double, float_handler)
    ∷ (InstructionId.frintp_double, float_handler)
    ∷ (InstructionId.frintm_double, float_handler)
    ∷ (InstructionId.frintz_double, float_handler)
    ∷ (InstructionId.frinta_double, float_handler)
    ∷ (InstructionId.frintx_double, float_handler)
    ∷ (InstructionId.frinti_double, float_handler)
    ∷ (InstructionId.fcvt_half_single, float_handler)
    ∷ (InstructionId.fcvt_half_double, float_handler)
    ∷ (InstructionId.fcmp_single, float_handler)
    ∷ (InstructionId.fcmp_single_zero, float_handler)
    ∷ (InstructionId.fcmpe_single, float_handler)
    ∷ (InstructionId.fcmpe_single_zero, float_handler)
    ∷ (InstructionId.fcmp_double, float_handler)
    ∷ (InstructionId.fcmp_double_zero, float_handler)
    ∷ (InstructionId.fcmpe_double, float_handler)
    ∷ (InstructionId.fcmpe_double_zero, float_handler)
    ∷ (InstructionId.fmov_imm_single, float_handler)
    ∷ (InstructionId.fmov_imm_double, float_handler)
    ∷ (InstructionId.fccmp_single, float_handler)
    ∷ (InstructionId.fccmpe_single, float_handler)
    ∷ (InstructionId.fccmp_double, float_handler)
    ∷ (InstructionId.fccmpe_double, float_handler)
    ∷ (InstructionId.fmul_single, float_handler)
    ∷ (InstructionId.fdiv_single, float_handler)
    ∷ (InstructionId.fadd_single, float_handler)
    ∷ (InstructionId.fsub_single, float_handler)
    ∷ (InstructionId.fmax_single, float_handler)
    ∷ (InstructionId.fmin_single, float_handler)
    ∷ (InstructionId.fmaxnm_single, float_handler)
    ∷ (InstructionId.fminnm_single, float_handler)
    ∷ (InstructionId.fnmul_single, float_handler)
    ∷ (InstructionId.fmul_double, float_handler)
    ∷ (InstructionId.fdiv_double, float_handler)
    ∷ (InstructionId.fadd_double, float_handler)
    ∷ (InstructionId.fsub_double, float_handler)
    ∷ (InstructionId.fmax_double, float_handler)
    ∷ (InstructionId.fmin_double, float_handler)
    ∷ (InstructionId.fmaxnm_double, float_handler)
    ∷ (InstructionId.fminnm_double, float_handler)
    ∷ (InstructionId.fnmul_double, float_handler)
    ∷ (InstructionId.fcsel_single, float_handler)
    ∷ (InstructionId.fcsel_double, float_handler)
    ∷ (InstructionId.fmadd_single, float_handler)
    ∷ (InstructionId.fmsub_single, float_handler)
    ∷ (InstructionId.fnmadd_single, float_handler)
    ∷ (InstructionId.fnmsub_single, float_handler)
    ∷ (InstructionId.fmadd_double, float_handler)
    ∷ (InstructionId.fmsub_double, float_handler)
    ∷ (InstructionId.fnmadd_double, float_handler)
    ∷ (InstructionId.fnmsub_double, float_handler)
    ∷ []
