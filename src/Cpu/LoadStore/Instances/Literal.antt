-- ===== src/Cpu/LoadStore/Instances/Literal.antt =====
-- The loads and stores of libcpu/src/interpreter/LoadStore.cpp: the handlers of Cpu/LoadStore/Literal.
use Prim.Native.Nat.{bit_or}
use switch_emu_pub.Base.{ℕ}
use switch_emu_pub.Cpu.State.{Machine}
use switch_emu_pub.Cpu.Outcome.{Outcome}
use switch_emu_pub.Cpu.LoadStore.Common.{load128_bit_float, load_extend_result, load_float}
use switch_emu_pub.Cpu.LoadStore.Literal.{load_reg_literal_generic}

abbrev pub ldr32_literal : Machine → ℕ → Outcome Machine
ldr32_literal = load_reg_literal_generic 4 0

abbrev pub ldr64_literal : Machine → ℕ → Outcome Machine
ldr64_literal = load_reg_literal_generic 8 0

abbrev pub ldrsw_literal : Machine → ℕ → Outcome Machine
ldrsw_literal = load_reg_literal_generic 4 load_extend_result

abbrev pub ldr32_literal_float : Machine → ℕ → Outcome Machine
ldr32_literal_float = load_reg_literal_generic 4 load_float

abbrev pub ldr64_literal_float : Machine → ℕ → Outcome Machine
ldr64_literal_float = load_reg_literal_generic 8 load_float

abbrev pub ldr128_literal : Machine → ℕ → Outcome Machine
ldr128_literal = load_reg_literal_generic 8 (bit_or load_float load128_bit_float)
