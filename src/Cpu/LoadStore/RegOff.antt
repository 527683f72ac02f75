-- ===== src/Cpu/LoadStore/RegOff.antt =====
-- libcpu/src/interpreter/LoadStore.cpp: storeRegOffGeneric and loadRegOffGeneric.
use switch_emu_pub.Base.{ℕ, ◌+◌, ◌*◌, ◌%◌, ◌^◌, Bool, if◌then◌else◌}
use switch_emu_pub.Bits.{u64, const_log2}
use switch_emu_pub.Cpu.State.{Core, Machine}
use switch_emu_pub.Cpu.Outcome.{Outcome, done, ◌>>=◌}
use switch_emu_pub.Cpu.Inst.{rt}
use switch_emu_pub.Cpu.Access.{read, write}
use switch_emu_pub.Cpu.LoadStore.Common.{
  has, base_addr, put_data, reg_offset, extended, store_float, store128_bit_float,
  load_extend_result, load_extend_to64, load_float, load128_bit_float,
}

-- The address in the base register plus the offset in a register.
abbrev pub reg_off_addr : ℕ → Core → ℕ → ℕ
reg_off_addr size core inst = u64 (base_addr core inst + reg_offset (const_log2 64 size) core inst)

abbrev store_upper : ℕ → Bool → ℕ → ℕ → Machine → Outcome Machine
store_upper size is128 addr val m = if is128 then write size (u64 (addr + 8)) val m else done m

unfoldable pub store_reg_off_generic : ℕ → ℕ → Machine → ℕ → Outcome Machine
unfolding const_log2 reg_offset
store_reg_off_generic size flags m inst = do
  let addr = reg_off_addr size m.core inst
  let bits = 2 ^ const_log2 64 size * 8
  let v = m.core.v_regs (rt inst)
  let low = if has flags store_float then v.d0 else m.core.gp_regs (rt inst)
  m1 ← write size addr (low % 2 ^ bits) m
  store_upper size (has flags store128_bit_float) addr (v.d1 % 2 ^ bits) m1

unfoldable pub load_reg_off_generic : ℕ → ℕ → Machine → ℕ → Outcome Machine
unfolding const_log2 reg_offset
load_reg_off_generic size flags m inst = do
  let addr = reg_off_addr size m.core inst
  r ← read size addr m
  let val =
      extended (has flags load_extend_result) (has flags load_extend_to64)
        (2 ^ const_log2 64 size * 8) (r.0)
  put_data size (has flags load_float) (has flags load128_bit_float) 0 addr val (r.1) inst
