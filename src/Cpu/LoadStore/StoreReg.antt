-- ===== src/Cpu/LoadStore/StoreReg.antt =====
-- libcpu/src/interpreter/LoadStore.cpp: storeRegImmGeneric and its instances.
use switch_emu_pub.Base.{ℕ, ◌+◌, ◌*◌, ◌%◌, ◌^◌, Bool, ◌&&◌, not, if◌then◌else◌}
use switch_emu_pub.Bits.{u64, shl, sign_extend}
use switch_emu_pub.Cpu.State.{Machine, set_reg}
use switch_emu_pub.Cpu.Outcome.{Outcome, done, ◌>>=◌}
use switch_emu_pub.Cpu.Inst.{rt, rs, f10_21, f12_20}
use switch_emu_pub.Cpu.Access.{write, exchange}
use switch_emu_pub.Cpu.LoadStore.Common.{
  has, num_bits, base_addr, indexed, write_back, store_write_back, store_imm_signed,
  store_post_index, store_float, store128_bit_float, store_release, store_exclusive,
}

abbrev pub store_imm : ℕ → ℕ → ℕ → ℕ
store_imm size flags inst =
    if has flags store_imm_signed
    then sign_extend 9 (f12_20 inst)
    else if not (has flags store_exclusive) && not (has flags store_release)
    then shl (f10_21 inst) (num_bits (has flags store128_bit_float) size)
    else 0

-- The plain or the exclusive store of the first part. An exclusive store compares the bytes with
-- those that the last exclusive load read.
unfoldable pub store_first : ℕ → Bool → ℕ → ℕ → Machine → ℕ → Outcome Machine
store_first size exclusive addr val m inst =
    if exclusive
    then (do
      r ← exchange size addr val (m.core.exclusive_data0 % 2 ^ (8 * size)) m
      done (record (r.1) { core = set_reg r.1.core (rs inst) (if r.0 then 0 else 1) }))
    else write size addr val m

unfoldable pub store_reg_imm_generic : ℕ → ℕ → Machine → ℕ → Outcome Machine
unfolding num_bits
store_reg_imm_generic size flags m inst = do
  let imm = store_imm size flags inst
  let addr = indexed (has flags store_post_index) (base_addr m.core inst) imm
  let low = if has flags store_float then (m.core.v_regs (rt inst)).d0 else m.core.gp_regs (rt inst)
  let bits =
      if has flags store128_bit_float
      then 64
      else 2 ^ num_bits (has flags store128_bit_float) size * 8
  m1 ← store_first size (has flags store_exclusive) addr (low % 2 ^ bits) m inst
  m2 ←
      if has flags store128_bit_float
      then write size (u64 (addr + 8)) ((m1.core.v_regs (rt inst)).d1) m1
      else done m1
  done (record m2 {
    core =
        write_back (has flags store_write_back) (has flags store_post_index) addr imm m2.core inst;
  })
