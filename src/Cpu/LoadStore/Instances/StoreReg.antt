-- ===== src/Cpu/LoadStore/Instances/StoreReg.antt =====
-- The loads and stores of libcpu/src/interpreter/LoadStore.cpp: the handlers of Cpu/LoadStore/StoreReg.
use Prim.Native.Nat.{bit_or}
use switch_emu_pub.Base.{ℕ}
use switch_emu_pub.Cpu.State.{Machine}
use switch_emu_pub.Cpu.Outcome.{Outcome}
use switch_emu_pub.Cpu.LoadStore.Common.{
  store128_bit_float, store_exclusive, store_float, store_imm_signed, store_post_index,
  store_release, store_write_back,
}
use switch_emu_pub.Cpu.LoadStore.StoreReg.{store_reg_imm_generic}

abbrev pub strb_imm : Machine → ℕ → Outcome Machine
strb_imm = store_reg_imm_generic 1 0

abbrev pub strh_imm : Machine → ℕ → Outcome Machine
strh_imm = store_reg_imm_generic 2 0

abbrev pub str32_imm : Machine → ℕ → Outcome Machine
str32_imm = store_reg_imm_generic 4 0

abbrev pub str64_imm : Machine → ℕ → Outcome Machine
str64_imm = store_reg_imm_generic 8 0

abbrev pub str8_imm_float : Machine → ℕ → Outcome Machine
str8_imm_float = store_reg_imm_generic 1 store_float

abbrev pub str16_imm_float : Machine → ℕ → Outcome Machine
str16_imm_float = store_reg_imm_generic 2 store_float

abbrev pub str32_imm_float : Machine → ℕ → Outcome Machine
str32_imm_float = store_reg_imm_generic 4 store_float

abbrev pub str64_imm_float : Machine → ℕ → Outcome Machine
str64_imm_float = store_reg_imm_generic 8 store_float

abbrev pub str128_imm : Machine → ℕ → Outcome Machine
str128_imm = store_reg_imm_generic 8 (bit_or store_float store128_bit_float)

abbrev pub strb_post : Machine → ℕ → Outcome Machine
strb_post =
    store_reg_imm_generic 1 (bit_or (bit_or store_write_back store_post_index) store_imm_signed)

abbrev pub strh_post : Machine → ℕ → Outcome Machine
strh_post =
    store_reg_imm_generic 2 (bit_or (bit_or store_write_back store_post_index) store_imm_signed)

abbrev pub str32_post : Machine → ℕ → Outcome Machine
str32_post =
    store_reg_imm_generic 4 (bit_or (bit_or store_write_back store_post_index) store_imm_signed)

abbrev pub str64_post : Machine → ℕ → Outcome Machine
str64_post =
    store_reg_imm_generic 8 (bit_or (bit_or store_write_back store_post_index) store_imm_signed)

abbrev pub str8_post_float : Machine → ℕ → Outcome Machine
str8_post_float =
    store_reg_imm_generic 1
      (bit_or (bit_or (bit_or store_write_back store_post_index) store_float) store_imm_signed)

abbrev pub str16_post_float : Machine → ℕ → Outcome Machine
str16_post_float =
    store_reg_imm_generic 2
      (bit_or (bit_or (bit_or store_write_back store_post_index) store_float) store_imm_signed)

abbrev pub str32_post_float : Machine → ℕ → Outcome Machine
str32_post_float =
    store_reg_imm_generic 4
      (bit_or (bit_or (bit_or store_write_back store_post_index) store_float) store_imm_signed)

abbrev pub str64_post_float : Machine → ℕ → Outcome Machine
str64_post_float =
    store_reg_imm_generic 8
      (bit_or (bit_or (bit_or store_write_back store_post_index) store_float) store_imm_signed)

abbrev pub str128_post : Machine → ℕ → Outcome Machine
str128_post = store_reg_imm_generic 8 (
    bit_or
      (bit_or (bit_or (bit_or store_write_back store_post_index) store_float) store128_bit_float)
      store_imm_signed)

abbrev pub strb_pre : Machine → ℕ → Outcome Machine
strb_pre = store_reg_imm_generic 1 (bit_or store_write_back store_imm_signed)

abbrev pub strh_pre : Machine → ℕ → Outcome Machine
strh_pre = store_reg_imm_generic 2 (bit_or store_write_back store_imm_signed)

abbrev pub str32_pre : Machine → ℕ → Outcome Machine
str32_pre = store_reg_imm_generic 4 (bit_or store_write_back store_imm_signed)

abbrev pub str64_pre : Machine → ℕ → Outcome Machine
str64_pre = store_reg_imm_generic 8 (bit_or store_write_back store_imm_signed)

abbrev pub str8_pre_float : Machine → ℕ → Outcome Machine
str8_pre_float =
    store_reg_imm_generic 1 (bit_or (bit_or store_write_back store_float) store_imm_signed)

abbrev pub str16_pre_float : Machine → ℕ → Outcome Machine
str16_pre_float =
    store_reg_imm_generic 2 (bit_or (bit_or store_write_back store_float) store_imm_signed)

abbrev pub str32_pre_float : Machine → ℕ → Outcome Machine
str32_pre_float =
    store_reg_imm_generic 4 (bit_or (bit_or store_write_back store_float) store_imm_signed)

abbrev pub str64_pre_float : Machine → ℕ → Outcome Machine
str64_pre_float =
    store_reg_imm_generic 8 (bit_or (bit_or store_write_back store_float) store_imm_signed)

abbrev pub str128_pre : Machine → ℕ → Outcome Machine
str128_pre =
    store_reg_imm_generic 8
      (bit_or (bit_or (bit_or store_write_back store_float) store128_bit_float) store_imm_signed)

abbrev pub sturb : Machine → ℕ → Outcome Machine
sturb = store_reg_imm_generic 1 store_imm_signed

abbrev pub sturh : Machine → ℕ → Outcome Machine
sturh = store_reg_imm_generic 2 store_imm_signed

abbrev pub stur32 : Machine → ℕ → Outcome Machine
stur32 = store_reg_imm_generic 4 store_imm_signed

abbrev pub stur64 : Machine → ℕ → Outcome Machine
stur64 = store_reg_imm_generic 8 store_imm_signed

abbrev pub stur8_float : Machine → ℕ → Outcome Machine
stur8_float = store_reg_imm_generic 1 (bit_or store_imm_signed store_float)

abbrev pub stur16_float : Machine → ℕ → Outcome Machine
stur16_float = store_reg_imm_generic 2 (bit_or store_imm_signed store_float)

abbrev pub stur32_float : Machine → ℕ → Outcome Machine
stur32_float = store_reg_imm_generic 4 (bit_or store_imm_signed store_float)

abbrev pub stur64_float : Machine → ℕ → Outcome Machine
stur64_float = store_reg_imm_generic 8 (bit_or store_imm_signed store_float)

abbrev pub stur128 : Machine → ℕ → Outcome Machine
stur128 = store_reg_imm_generic 8 (bit_or (bit_or store_imm_signed store_float) store128_bit_float)

abbrev pub stxrb_imm : Machine → ℕ → Outcome Machine
stxrb_imm = store_reg_imm_generic 1 store_exclusive

abbrev pub stlxrb_imm : Machine → ℕ → Outcome Machine
stlxrb_imm = store_reg_imm_generic 1 (bit_or store_release store_exclusive)

abbrev pub stlrb_imm : Machine → ℕ → Outcome Machine
stlrb_imm = store_reg_imm_generic 1 store_release

abbrev pub stxrh_imm : Machine → ℕ → Outcome Machine
stxrh_imm = store_reg_imm_generic 2 store_exclusive

abbrev pub stlxrh_imm : Machine → ℕ → Outcome Machine
stlxrh_imm = store_reg_imm_generic 2 (bit_or store_release store_exclusive)

abbrev pub stlrh_imm : Machine → ℕ → Outcome Machine
stlrh_imm = store_reg_imm_generic 2 store_release

abbrev pub stxr32_imm : Machine → ℕ → Outcome Machine
stxr32_imm = store_reg_imm_generic 4 store_exclusive

abbrev pub stlxr32_imm : Machine → ℕ → Outcome Machine
stlxr32_imm = store_reg_imm_generic 4 (bit_or store_release store_exclusive)

abbrev pub stlr32_imm : Machine → ℕ → Outcome Machine
stlr32_imm = store_reg_imm_generic 4 store_release

abbrev pub stxr64_imm : Machine → ℕ → Outcome Machine
stxr64_imm = store_reg_imm_generic 8 store_exclusive

abbrev pub stlxr64_imm : Machine → ℕ → Outcome Machine
stlxr64_imm = store_reg_imm_generic 8 (bit_or store_release store_exclusive)

abbrev pub stlr64_imm : Machine → ℕ → Outcome Machine
stlr64_imm = store_reg_imm_generic 8 store_release
