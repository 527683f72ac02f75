-- ===== src/Cpu/LoadStore/StorePair.antt =====
-- libcpu/src/interpreter/LoadStore.cpp: storePairGeneric.
use Prim.Native.Nat.{bit_or}
use switch_emu_pub.Base.{ℕ, ◌+◌, ◌*◌, ◌%◌, ◌^◌, ◌==◌, Bool, if◌then◌else◌}
use switch_emu_pub.Bits.{u64, shl, sign_extend}
use switch_emu_pub.Cpu.State.{Machine, set_reg}
use switch_emu_pub.Cpu.Outcome.{Outcome, done, ◌>>=◌}
use switch_emu_pub.Cpu.Inst.{rt, rt2, rs, f15_21}
use switch_emu_pub.Cpu.Access.{write, exchange, exchange128}
use switch_emu_pub.Cpu.LoadStore.Common.{
  has, num_bits, base_addr, indexed, write_back, store_write_back, store_post_index, store_float,
  store128_bit_float, store_exclusive,
}

-- The offset of a pair, in units of the access.
unfoldable pub pair_imm : Bool → Bool → ℕ → ℕ → ℕ
unfolding num_bits
pair_imm exclusive is128 size inst =
    shl (sign_extend 7 (if exclusive then 0 else f15_21 inst)) (num_bits is128 size)

abbrev pub set_status : Bool × Machine → ℕ → Machine
set_status r inst = record (r.1) { core = set_reg r.1.core (rs inst) (if r.0 then 0 else 1) }

-- Two words are compared and stored as one of 64 bits, two double words by an exchange of 128 bits.
unfoldable pub exclusive_pair : ℕ → ℕ → Machine → ℕ → Outcome (Bool × Machine)
exclusive_pair size addr m inst =
    let data1 = m.core.gp_regs (rt inst) in
    let data2 = m.core.gp_regs (rt2 inst) in
    if size == 4
    then exchange 8 addr (bit_or data1 (shl data2 32)) m.core.exclusive_data0 m
    else exchange128 addr data1 data2 m.core.exclusive_data0 m.core.exclusive_data1 m

unfoldable pub vector_pair128 : ℕ → Machine → ℕ → Outcome Machine
vector_pair128 addr m inst = do
  let first = m.core.v_regs (rt inst)
  let second = m.core.v_regs (rt2 inst)
  m1 ← write 8 addr first.d0 m
  m2 ← write 8 (u64 (addr + 8)) first.d1 m1
  m3 ← write 8 (u64 (addr + 16)) second.d0 m2
  write 8 (u64 (addr + 24)) second.d1 m3

unfoldable pub plain_pair : ℕ → ℕ → ℕ → ℕ → Machine → Outcome Machine
plain_pair size addr data1 data2 m = do
  m1 ← write size addr (data1 % 2 ^ (8 * size)) m
  write size (u64 (addr + size)) (data2 % 2 ^ (8 * size)) m1

unfoldable pub store_both : ℕ → ℕ → ℕ → Machine → ℕ → Outcome Machine
store_both size flags addr m inst =
    let core = m.core in
    if has flags store_float
    then (if has flags store128_bit_float
        then vector_pair128 addr m inst
        else plain_pair size addr (core.v_regs (rt inst)).d0 (core.v_regs (rt2 inst)).d0 m)
    else if has flags store_exclusive
    then (do r ← exclusive_pair size addr m inst; done (set_status r inst))
    else plain_pair size addr (core.gp_regs (rt inst)) (core.gp_regs (rt2 inst)) m

unfoldable pub store_pair_generic : ℕ → ℕ → Machine → ℕ → Outcome Machine
store_pair_generic size flags m inst = do
  let imm = pair_imm (has flags store_exclusive) (has flags store128_bit_float) size inst
  let addr = indexed (has flags store_post_index) (base_addr m.core inst) imm
  stored ← store_both size flags addr m inst
  done (record stored {
    core =
        write_back (has flags store_write_back) (has flags store_post_index) addr imm stored.core
          inst;
  })
