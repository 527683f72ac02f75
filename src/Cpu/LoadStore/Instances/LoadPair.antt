-- ===== src/Cpu/LoadStore/Instances/LoadPair.antt =====
-- The loads and stores of libcpu/src/interpreter/LoadStore.cpp: the handlers of Cpu/LoadStore/LoadPair.
use Prim.Native.Nat.{bit_or}
use switch_emu_pub.Base.{ℕ}
use switch_emu_pub.Cpu.State.{Machine}
use switch_emu_pub.Cpu.Outcome.{Outcome}
use switch_emu_pub.Cpu.LoadStore.Common.{
  load128_bit_float, load_acquire, load_exclusive, load_float, load_post_index, load_write_back,
}
use switch_emu_pub.Cpu.LoadStore.LoadPair.{load_pair_generic}

abbrev pub ldnp32 : Machine → ℕ → Outcome Machine
ldnp32 = load_pair_generic 4 0

abbrev pub ldnp64 : Machine → ℕ → Outcome Machine
ldnp64 = load_pair_generic 8 0

abbrev pub ldp32_off : Machine → ℕ → Outcome Machine
ldp32_off = load_pair_generic 4 0

abbrev pub ldp64_off : Machine → ℕ → Outcome Machine
ldp64_off = load_pair_generic 8 0

abbrev pub ldp32_post : Machine → ℕ → Outcome Machine
ldp32_post = load_pair_generic 4 (bit_or load_write_back load_post_index)

abbrev pub ldp64_post : Machine → ℕ → Outcome Machine
ldp64_post = load_pair_generic 8 (bit_or load_write_back load_post_index)

abbrev pub ldp32_pre : Machine → ℕ → Outcome Machine
ldp32_pre = load_pair_generic 4 load_write_back

abbrev pub ldp64_pre : Machine → ℕ → Outcome Machine
ldp64_pre = load_pair_generic 8 load_write_back

abbrev pub ldnp32_float : Machine → ℕ → Outcome Machine
ldnp32_float = load_pair_generic 4 load_float

abbrev pub ldnp64_float : Machine → ℕ → Outcome Machine
ldnp64_float = load_pair_generic 8 load_float

abbrev pub ldnp128_float : Machine → ℕ → Outcome Machine
ldnp128_float = load_pair_generic 8 (bit_or load_float load128_bit_float)

abbrev pub ldp32_off_float : Machine → ℕ → Outcome Machine
ldp32_off_float = load_pair_generic 4 load_float

abbrev pub ldp64_off_float : Machine → ℕ → Outcome Machine
ldp64_off_float = load_pair_generic 8 load_float

abbrev pub ldp128_off_float : Machine → ℕ → Outcome Machine
ldp128_off_float = load_pair_generic 8 (bit_or load_float load128_bit_float)

abbrev pub ldp32_post_float : Machine → ℕ → Outcome Machine
ldp32_post_float = load_pair_generic 4 (bit_or (bit_or load_write_back load_post_index) load_float)

abbrev pub ldp64_post_float : Machine → ℕ → Outcome Machine
ldp64_post_float = load_pair_generic 8 (bit_or (bit_or load_write_back load_post_index) load_float)

abbrev pub ldp128_post_float : Machine → ℕ → Outcome Machine
ldp128_post_float =
    load_pair_generic 8
      (bit_or (bit_or (bit_or load_write_back load_post_index) load_float) load128_bit_float)

abbrev pub ldp32_pre_float : Machine → ℕ → Outcome Machine
ldp32_pre_float = load_pair_generic 4 (bit_or load_write_back load_float)

abbrev pub ldp64_pre_float : Machine → ℕ → Outcome Machine
ldp64_pre_float = load_pair_generic 8 (bit_or load_write_back load_float)

abbrev pub ldp128_pre_float : Machine → ℕ → Outcome Machine
ldp128_pre_float =
    load_pair_generic 8 (bit_or (bit_or load_write_back load_float) load128_bit_float)

abbrev pub ldxp32 : Machine → ℕ → Outcome Machine
ldxp32 = load_pair_generic 4 load_exclusive

abbrev pub ldaxp32 : Machine → ℕ → Outcome Machine
ldaxp32 = load_pair_generic 4 (bit_or load_exclusive load_acquire)

abbrev pub ldxp64 : Machine → ℕ → Outcome Machine
ldxp64 = load_pair_generic 8 load_exclusive

abbrev pub ldaxp64 : Machine → ℕ → Outcome Machine
ldaxp64 = load_pair_generic 8 (bit_or load_exclusive load_acquire)
