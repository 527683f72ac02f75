-- ===== src/Cpu/LoadStore/Instances/RegOff.antt =====
-- The loads and stores of libcpu/src/interpreter/LoadStore.cpp: the handlers of Cpu/LoadStore/RegOff.
use Prim.Native.Nat.{bit_or}
use switch_emu_pub.Base.{ℕ}
use switch_emu_pub.Cpu.State.{Machine}
use switch_emu_pub.Cpu.Outcome.{Outcome}
use switch_emu_pub.Cpu.LoadStore.Common.{
  load128_bit_float, load_extend_result, load_extend_to64, load_float, store128_bit_float,
  store_float,
}
use switch_emu_pub.Cpu.LoadStore.RegOff.{load_reg_off_generic, store_reg_off_generic}

abbrev pub strb_regoff : Machine → ℕ → Outcome Machine
strb_regoff = store_reg_off_generic 1 0

abbrev pub strh_regoff : Machine → ℕ → Outcome Machine
strh_regoff = store_reg_off_generic 2 0

abbrev pub str32_regoff : Machine → ℕ → Outcome Machine
str32_regoff = store_reg_off_generic 4 0

abbrev pub str64_regoff : Machine → ℕ → Outcome Machine
str64_regoff = store_reg_off_generic 8 0

abbrev pub strb_regoff_float : Machine → ℕ → Outcome Machine
strb_regoff_float = store_reg_off_generic 1 store_float

abbrev pub strh_regoff_float : Machine → ℕ → Outcome Machine
strh_regoff_float = store_reg_off_generic 2 store_float

abbrev pub str32_regoff_float : Machine → ℕ → Outcome Machine
str32_regoff_float = store_reg_off_generic 4 store_float

abbrev pub str64_regoff_float : Machine → ℕ → Outcome Machine
str64_regoff_float = store_reg_off_generic 8 store_float

abbrev pub str128_regoff_float : Machine → ℕ → Outcome Machine
str128_regoff_float = store_reg_off_generic 8 (bit_or store_float store128_bit_float)

abbrev pub ldrb_regoff : Machine → ℕ → Outcome Machine
ldrb_regoff = load_reg_off_generic 1 0

abbrev pub ldrsb32_regoff : Machine → ℕ → Outcome Machine
ldrsb32_regoff = load_reg_off_generic 1 load_extend_result

abbrev pub ldrsb64_regoff : Machine → ℕ → Outcome Machine
ldrsb64_regoff = load_reg_off_generic 1 (bit_or load_extend_result load_extend_to64)

abbrev pub ldrh_regoff : Machine → ℕ → Outcome Machine
ldrh_regoff = load_reg_off_generic 2 0

abbrev pub ldrsh32_regoff : Machine → ℕ → Outcome Machine
ldrsh32_regoff = load_reg_off_generic 2 load_extend_result

abbrev pub ldrsh64_regoff : Machine → ℕ → Outcome Machine
ldrsh64_regoff = load_reg_off_generic 2 (bit_or load_extend_result load_extend_to64)

abbrev pub ldr32_regoff : Machine → ℕ → Outcome Machine
ldr32_regoff = load_reg_off_generic 4 0

abbrev pub ldrsw_regoff : Machine → ℕ → Outcome Machine
ldrsw_regoff = load_reg_off_generic 4 (bit_or load_extend_result load_extend_to64)

abbrev pub ldr64_regoff : Machine → ℕ → Outcome Machine
ldr64_regoff = load_reg_off_generic 8 0

abbrev pub ldrb_regoff_float : Machine → ℕ → Outcome Machine
ldrb_regoff_float = load_reg_off_generic 1 load_float

abbrev pub ldrh_regoff_float : Machine → ℕ → Outcome Machine
ldrh_regoff_float = load_reg_off_generic 2 load_float

abbrev pub ldr32_regoff_float : Machine → ℕ → Outcome Machine
ldr32_regoff_float = load_reg_off_generic 4 load_float

abbrev pub ldr64_regoff_float : Machine → ℕ → Outcome Machine
ldr64_regoff_float = load_reg_off_generic 8 load_float

abbrev pub ldr128_regoff_float : Machine → ℕ → Outcome Machine
ldr128_regoff_float = load_reg_off_generic 8 (bit_or load_float load128_bit_float)
