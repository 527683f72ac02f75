-- ===== src/Cpu/LoadStore/Instances/StorePair.antt =====
-- The loads and stores of libcpu/src/interpreter/LoadStore.cpp: the handlers of Cpu/LoadStore/StorePair.
use Prim.Native.Nat.{bit_or}
use switch_emu_pub.Base.{ℕ}
use switch_emu_pub.Cpu.State.{Machine}
use switch_emu_pub.Cpu.Outcome.{Outcome}
use switch_emu_pub.Cpu.LoadStore.Common.{
  store128_bit_float, store_exclusive, store_float, store_post_index, store_release,
  store_write_back,
}
use switch_emu_pub.Cpu.LoadStore.StorePair.{store_pair_generic}

abbrev pub stnp32 : Machine → ℕ → Outcome Machine
stnp32 = store_pair_generic 4 0

abbrev pub stnp64 : Machine → ℕ → Outcome Machine
stnp64 = store_pair_generic 8 0

abbrev pub stp32_off : Machine → ℕ → Outcome Machine
stp32_off = store_pair_generic 4 0

abbrev pub stp64_off : Machine → ℕ → Outcome Machine
stp64_off = store_pair_generic 8 0

abbrev pub stp32_post : Machine → ℕ → Outcome Machine
stp32_post = store_pair_generic 4 (bit_or store_write_back store_post_index)

abbrev pub stp64_post : Machine → ℕ → Outcome Machine
stp64_post = store_pair_generic 8 (bit_or store_write_back store_post_index)

abbrev pub stp32_pre : Machine → ℕ → Outcome Machine
stp32_pre = store_pair_generic 4 store_write_back

abbrev pub stp64_pre : Machine → ℕ → Outcome Machine
stp64_pre = store_pair_generic 8 store_write_back

abbrev pub stnp32_float : Machine → ℕ → Outcome Machine
stnp32_float = store_pair_generic 4 store_float

abbrev pub stnp64_float : Machine → ℕ → Outcome Machine
stnp64_float = store_pair_generic 8 store_float

abbrev pub stnp128_float : Machine → ℕ → Outcome Machine
stnp128_float = store_pair_generic 8 (bit_or store_float store128_bit_float)

abbrev pub stp32_off_float : Machine → ℕ → Outcome Machine
stp32_off_float = store_pair_generic 4 store_float

abbrev pub stp64_off_float : Machine → ℕ → Outcome Machine
stp64_off_float = store_pair_generic 8 store_float

abbrev pub stp128_off_float : Machine → ℕ → Outcome Machine
stp128_off_float = store_pair_generic 8 (bit_or store_float store128_bit_float)

abbrev pub stp32_post_float : Machine → ℕ → Outcome Machine
stp32_post_float =
    store_pair_generic 4 (bit_or (bit_or store_write_back store_post_index) store_float)

abbrev pub stp64_post_float : Machine → ℕ → Outcome Machine
stp64_post_float =
    store_pair_generic 8 (bit_or (bit_or store_write_back store_post_index) store_float)

abbrev pub stp128_post_float : Machine → ℕ → Outcome Machine
stp128_post_float =
    store_pair_generic 8
      (bit_or (bit_or (bit_or store_write_back store_post_index) store_float) store128_bit_float)

abbrev pub stp32_pre_float : Machine → ℕ → Outcome Machine
stp32_pre_float = store_pair_generic 4 (bit_or store_write_back store_float)

abbrev pub stp64_pre_float : Machine → ℕ → Outcome Machine
stp64_pre_float = store_pair_generic 8 (bit_or store_write_back store_float)

abbrev pub stp128_pre_float : Machine → ℕ → Outcome Machine
stp128_pre_float =
    store_pair_generic 8 (bit_or (bit_or store_write_back store_float) store128_bit_float)

abbrev pub stxp32 : Machine → ℕ → Outcome Machine
stxp32 = store_pair_generic 4 store_exclusive

abbrev pub stlxp32 : Machine → ℕ → Outcome Machine
stlxp32 = store_pair_generic 4 (bit_or store_exclusive store_release)

abbrev pub stxp64 : Machine → ℕ → Outcome Machine
stxp64 = store_pair_generic 8 store_exclusive

abbrev pub stlxp64 : Machine → ℕ → Outcome Machine
stlxp64 = store_pair_generic 8 (bit_or store_exclusive store_release)
