-- ===== src/Cpu/LoadStore/Instances/LoadReg.antt =====
-- The loads and stores of libcpu/src/interpreter/LoadStore.cpp: the handlers of Cpu/LoadStore/LoadReg.
use Prim.Native.Nat.{bit_or}
use switch_emu_pub.Base.{ℕ}
use switch_emu_pub.Cpu.State.{Machine}
use switch_emu_pub.Cpu.Outcome.{Outcome}
use switch_emu_pub.Cpu.LoadStore.Common.{
  load128_bit_float, load_acquire, load_exclusive, load_extend_result, load_extend_to64, load_float,
  load_imm_signed, load_post_index, load_write_back,
}
use switch_emu_pub.Cpu.LoadStore.LoadReg.{load_reg_imm_generic}

abbrev pub ldrb_imm : Machine → ℕ → Outcome Machine
ldrb_imm = load_reg_imm_generic 1 0

abbrev pub ldrsb32_imm : Machine → ℕ → Outcome Machine
ldrsb32_imm = load_reg_imm_generic 1 load_extend_result

abbrev pub ldrsb64_imm : Machine → ℕ → Outcome Machine
ldrsb64_imm = load_reg_imm_generic 1 (bit_or load_extend_result load_extend_to64)

abbrev pub ldrh_imm : Machine → ℕ → Outcome Machine
ldrh_imm = load_reg_imm_generic 2 0

abbrev pub ldrsh32_imm : Machine → ℕ → Outcome Machine
ldrsh32_imm = load_reg_imm_generic 2 load_extend_result

abbrev pub ldrsh64_imm : Machine → ℕ → Outcome Machine
ldrsh64_imm = load_reg_imm_generic 2 (bit_or load_extend_result load_extend_to64)

abbrev pub ldr32_imm : Machine → ℕ → Outcome Machine
ldr32_imm = load_reg_imm_generic 4 0

abbrev pub ldrsw_imm : Machine → ℕ → Outcome Machine
ldrsw_imm = load_reg_imm_generic 4 (bit_or load_extend_result load_extend_to64)

abbrev pub ldr64_imm : Machine → ℕ → Outcome Machine
ldr64_imm = load_reg_imm_generic 8 0

abbrev pub ldr8_imm_float : Machine → ℕ → Outcome Machine
ldr8_imm_float = load_reg_imm_generic 1 load_float

abbrev pub ldr16_imm_float : Machine → ℕ → Outcome Machine
ldr16_imm_float = load_reg_imm_generic 2 load_float

abbrev pub ldr32_imm_float : Machine → ℕ → Outcome Machine
ldr32_imm_float = load_reg_imm_generic 4 load_float

abbrev pub ldr64_imm_float : Machine → ℕ → Outcome Machine
ldr64_imm_float = load_reg_imm_generic 8 load_float

abbrev pub ldr128_imm : Machine → ℕ → Outcome Machine
ldr128_imm = load_reg_imm_generic 8 (bit_or load_float load128_bit_float)

abbrev pub ldrb_post : Machine → ℕ → Outcome Machine
ldrb_post = load_reg_imm_generic 1 (bit_or (bit_or load_write_back load_post_index) load_imm_signed)

abbrev pub ldrsb32_post : Machine → ℕ → Outcome Machine
ldrsb32_post =
    load_reg_imm_generic 1
      (bit_or (bit_or (bit_or load_write_back load_post_index) load_extend_result) load_imm_signed)

abbrev pub ldrsb64_post : Machine → ℕ → Outcome Machine
ldrsb64_post = load_reg_imm_generic 1 (
    bit_or
      (bit_or (bit_or (bit_or load_write_back load_post_index) load_extend_result) load_extend_to64)
      load_imm_signed)

abbrev pub ldrh_post : Machine → ℕ → Outcome Machine
ldrh_post = load_reg_imm_generic 2 (bit_or (bit_or load_write_back load_post_index) load_imm_signed)

abbrev pub ldrsh32_post : Machine → ℕ → Outcome Machine
ldrsh32_post =
    load_reg_imm_generic 2
      (bit_or (bit_or (bit_or load_write_back load_post_index) load_extend_result) load_imm_signed)

abbrev pub ldrsh64_post : Machine → ℕ → Outcome Machine
ldrsh64_post = load_reg_imm_generic 2 (
    bit_or
      (bit_or (bit_or (bit_or load_write_back load_post_index) load_extend_result) load_extend_to64)
      load_imm_signed)

abbrev pub ldr32_post : Machine → ℕ → Outcome Machine
ldr32_post =
    load_reg_imm_generic 4 (bit_or (bit_or load_write_back load_post_index) load_imm_signed)

abbrev pub ldrsw_post : Machine → ℕ → Outcome Machine
ldrsw_post = load_reg_imm_generic 4 (
    bit_or
      (bit_or (bit_or (bit_or load_write_back load_post_index) load_extend_result) load_extend_to64)
      load_imm_signed)

abbrev pub ldr64_post : Machine → ℕ → Outcome Machine
ldr64_post =
    load_reg_imm_generic 8 (bit_or (bit_or load_write_back load_post_index) load_imm_signed)

abbrev pub ldr8_post_float : Machine → ℕ → Outcome Machine
ldr8_post_float =
    load_reg_imm_generic 1
      (bit_or (bit_or (bit_or load_write_back load_post_index) load_float) load_imm_signed)

abbrev pub ldr16_post_float : Machine → ℕ → Outcome Machine
ldr16_post_float =
    load_reg_imm_generic 2
      (bit_or (bit_or (bit_or load_write_back load_post_index) load_float) load_imm_signed)

abbrev pub ldr32_post_float : Machine → ℕ → Outcome Machine
ldr32_post_float =
    load_reg_imm_generic 4
      (bit_or (bit_or (bit_or load_write_back load_post_index) load_float) load_imm_signed)

abbrev pub ldr64_post_float : Machine → ℕ → Outcome Machine
ldr64_post_float =
    load_reg_imm_generic 8
      (bit_or (bit_or (bit_or load_write_back load_post_index) load_float) load_imm_signed)

abbrev pub ldr128_post : Machine → ℕ → Outcome Machine
ldr128_post = load_reg_imm_generic 8 (
    bit_or (bit_or (bit_or (bit_or load_write_back load_post_index) load_float) load128_bit_float)
      load_imm_signed)

abbrev pub ldrb_pre : Machine → ℕ → Outcome Machine
ldrb_pre = load_reg_imm_generic 1 (bit_or load_write_back load_imm_signed)

abbrev pub ldrsb32_pre : Machine → ℕ → Outcome Machine
ldrsb32_pre =
    load_reg_imm_generic 1 (bit_or (bit_or load_write_back load_extend_result) load_imm_signed)

abbrev pub ldrsb64_pre : Machine → ℕ → Outcome Machine
ldrsb64_pre =
    load_reg_imm_generic 1
      (bit_or (bit_or (bit_or load_write_back load_extend_result) load_extend_to64) load_imm_signed)

abbrev pub ldrh_pre : Machine → ℕ → Outcome Machine
ldrh_pre = load_reg_imm_generic 2 (bit_or load_write_back load_imm_signed)

abbrev pub ldrsh32_pre : Machine → ℕ → Outcome Machine
ldrsh32_pre =
    load_reg_imm_generic 2 (bit_or (bit_or load_write_back load_extend_result) load_imm_signed)

abbrev pub ldrsh64_pre : Machine → ℕ → Outcome Machine
ldrsh64_pre =
    load_reg_imm_generic 2
      (bit_or (bit_or (bit_or load_write_back load_extend_result) load_extend_to64) load_imm_signed)

abbrev pub ldr32_pre : Machine → ℕ → Outcome Machine
ldr32_pre = load_reg_imm_generic 4 (bit_or load_write_back load_imm_signed)

abbrev pub ldrsw_pre : Machine → ℕ → Outcome Machine
ldrsw_pre =
    load_reg_imm_generic 4
      (bit_or (bit_or (bit_or load_write_back load_extend_result) load_extend_to64) load_imm_signed)

abbrev pub ldr64_pre : Machine → ℕ → Outcome Machine
ldr64_pre = load_reg_imm_generic 8 (bit_or load_write_back load_imm_signed)

abbrev pub ldr8_pre_float : Machine → ℕ → Outcome Machine
ldr8_pre_float = load_reg_imm_generic 1 (bit_or (bit_or load_write_back load_float) load_imm_signed)

abbrev pub ldr16_pre_float : Machine → ℕ → Outcome Machine
ldr16_pre_float =
    load_reg_imm_generic 2 (bit_or (bit_or load_write_back load_float) load_imm_signed)

abbrev pub ldr32_pre_float : Machine → ℕ → Outcome Machine
ldr32_pre_float =
    load_reg_imm_generic 4 (bit_or (bit_or load_write_back load_float) load_imm_signed)

abbrev pub ldr64_pre_float : Machine → ℕ → Outcome Machine
ldr64_pre_float =
    load_reg_imm_generic 8 (bit_or (bit_or load_write_back load_float) load_imm_signed)

abbrev pub ldr128_pre : Machine → ℕ → Outcome Machine
ldr128_pre =
    load_reg_imm_generic 8
      (bit_or (bit_or (bit_or load_write_back load_float) load128_bit_float) load_imm_signed)

abbrev pub ldurb : Machine → ℕ → Outcome Machine
ldurb = load_reg_imm_generic 1 load_imm_signed

abbrev pub ldursb32 : Machine → ℕ → Outcome Machine
ldursb32 = load_reg_imm_generic 1 (bit_or load_imm_signed load_extend_result)

abbrev pub ldursb64 : Machine → ℕ → Outcome Machine
ldursb64 =
    load_reg_imm_generic 1 (bit_or (bit_or load_imm_signed load_extend_result) load_extend_to64)

abbrev pub ldurh : Machine → ℕ → Outcome Machine
ldurh = load_reg_imm_generic 2 load_imm_signed

abbrev pub ldursh32 : Machine → ℕ → Outcome Machine
ldursh32 = load_reg_imm_generic 2 (bit_or load_imm_signed load_extend_result)

abbrev pub ldursh64 : Machine → ℕ → Outcome Machine
ldursh64 =
    load_reg_imm_generic 2 (bit_or (bit_or load_imm_signed load_extend_result) load_extend_to64)

abbrev pub ldur32 : Machine → ℕ → Outcome Machine
ldur32 = load_reg_imm_generic 4 load_imm_signed

abbrev pub ldursw : Machine → ℕ → Outcome Machine
ldursw =
    load_reg_imm_generic 4 (bit_or (bit_or load_imm_signed load_extend_result) load_extend_to64)

abbrev pub ldur64 : Machine → ℕ → Outcome Machine
ldur64 = load_reg_imm_generic 8 load_imm_signed

abbrev pub ldur8_float : Machine → ℕ → Outcome Machine
ldur8_float = load_reg_imm_generic 1 (bit_or load_imm_signed load_float)

abbrev pub ldur16_float : Machine → ℕ → Outcome Machine
ldur16_float = load_reg_imm_generic 2 (bit_or load_imm_signed load_float)

abbrev pub ldur32_float : Machine → ℕ → Outcome Machine
ldur32_float = load_reg_imm_generic 4 (bit_or load_imm_signed load_float)

abbrev pub ldur64_float : Machine → ℕ → Outcome Machine
ldur64_float = load_reg_imm_generic 8 (bit_or load_imm_signed load_float)

abbrev pub ldur128 : Machine → ℕ → Outcome Machine
ldur128 = load_reg_imm_generic 8 (bit_or (bit_or load_imm_signed load_float) load128_bit_float)

abbrev pub ldxrb_imm : Machine → ℕ → Outcome Machine
ldxrb_imm = load_reg_imm_generic 1 load_exclusive

abbrev pub ldaxrb_imm : Machine → ℕ → Outcome Machine
ldaxrb_imm = load_reg_imm_generic 1 (bit_or load_acquire load_exclusive)

abbrev pub ldarb_imm : Machine → ℕ → Outcome Machine
ldarb_imm = load_reg_imm_generic 1 load_acquire

abbrev pub ldxrh_imm : Machine → ℕ → Outcome Machine
ldxrh_imm = load_reg_imm_generic 2 load_exclusive

abbrev pub ldaxrh_imm : Machine → ℕ → Outcome Machine
ldaxrh_imm = load_reg_imm_generic 2 (bit_or load_acquire load_exclusive)

abbrev pub ldarh_imm : Machine → ℕ → Outcome Machine
ldarh_imm = load_reg_imm_generic 2 load_acquire

abbrev pub ldxr32_imm : Machine → ℕ → Outcome Machine
ldxr32_imm = load_reg_imm_generic 4 load_exclusive

abbrev pub ldaxr32_imm : Machine → ℕ → Outcome Machine
ldaxr32_imm = load_reg_imm_generic 4 (bit_or load_acquire load_exclusive)

abbrev pub ldar32_imm : Machine → ℕ → Outcome Machine
ldar32_imm = load_reg_imm_generic 4 load_acquire

abbrev pub ldxr64_imm : Machine → ℕ → Outcome Machine
ldxr64_imm = load_reg_imm_generic 8 load_exclusive

abbrev pub ldaxr64_imm : Machine → ℕ → Outcome Machine
ldaxr64_imm = load_reg_imm_generic 8 (bit_or load_acquire load_exclusive)

abbrev pub ldar64_imm : Machine → ℕ → Outcome Machine
ldar64_imm = load_reg_imm_generic 8 load_acquire
