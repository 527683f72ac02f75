-- ===== src/Cpu/LoadStore/LoadReg.antt =====
-- libcpu/src/interpreter/LoadStore.cpp: loadRegImmGeneric.
use switch_emu_pub.Base.{ℕ, ◌*◌, ◌^◌, true, ◌&&◌, not, if◌then◌else◌}
use switch_emu_pub.Bits.{shl, sign_extend}
use switch_emu_pub.Cpu.State.{Core, Machine}
use switch_emu_pub.Cpu.Outcome.{Outcome, done, ◌>>=◌}
use switch_emu_pub.Cpu.Inst.{rt, f10_21, f12_20}
use switch_emu_pub.Cpu.Access.{read}
use switch_emu_pub.Cpu.LoadStore.Common.{
  has, num_bits, base_addr, indexed, write_back, final_addr, put_data, extended, load_write_back,
  load_imm_signed, load_post_index, load_extend_result, load_extend_to64, load_float,
  load128_bit_float, load_acquire, load_exclusive,
}

abbrev pub load_imm : ℕ → ℕ → ℕ → ℕ
load_imm size flags inst =
    if has flags load_imm_signed
    then sign_extend 9 (f12_20 inst)
    else if not (has flags load_exclusive) && not (has flags load_acquire)
    then shl (f10_21 inst) (num_bits (has flags load128_bit_float) size)
    else 0

-- An exclusive load notes the address and what the register then holds.
unfoldable pub mark_exclusive : ℕ → ℕ → Core → ℕ → Core
mark_exclusive flags addr core inst =
    let v = core.v_regs (rt inst) in
    if has flags load_exclusive
    then record core {
      exclusive_access = true;
      exclusive_access_addr = addr;
      exclusive_data0 = if has flags load_float then v.d0 else core.gp_regs (rt inst);
      exclusive_data1 = if has flags load_float && has flags load128_bit_float then v.d1 else 0;
    }
    else core

unfoldable pub load_reg_imm_generic : ℕ → ℕ → Machine → ℕ → Outcome Machine
unfolding num_bits
load_reg_imm_generic size flags m inst = do
  let is128 = has flags load128_bit_float
  let imm = load_imm size flags inst
  let addr = indexed (has flags load_post_index) (base_addr m.core inst) imm
  r ← read size addr m
  let val =
      extended (has flags load_extend_result) (has flags load_extend_to64)
        (2 ^ num_bits is128 size * 8) (r.0)
  let upper = (r.1.core.v_regs (rt inst)).d1
  loaded ← put_data size (has flags load_float) is128 upper addr val (r.1) inst
  let based =
      write_back (has flags load_write_back) (has flags load_post_index) addr imm loaded.core inst
  let final = final_addr (has flags load_write_back) (has flags load_post_index) addr imm
  done (record loaded { core = mark_exclusive flags final based inst })
