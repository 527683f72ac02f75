-- ===== src/Cpu/LoadStore/Literal.antt =====
-- libcpu/src/interpreter/LoadStore.cpp: loadRegLiteralGeneric.
use switch_emu_pub.Base.{ℕ, ◌+◌, if◌then◌else◌}
use switch_emu_pub.Bits.{u64, shl, sign_extend}
use switch_emu_pub.Cpu.State.{Machine}
use switch_emu_pub.Cpu.Outcome.{Outcome, ◌>>=◌}
use switch_emu_pub.Cpu.Inst.{rt, f5_23}
use switch_emu_pub.Cpu.Access.{read}
use switch_emu_pub.Cpu.LoadStore.Common.{
  has, put_data, load_extend_result, load_float, load128_bit_float,
}

unfoldable pub load_reg_literal_generic : ℕ → ℕ → Machine → ℕ → Outcome Machine
load_reg_literal_generic size flags m inst = do
  let off = sign_extend 21 (shl (f5_23 inst) 2)
  let addr = u64 (m.core.pc + off)
  r ← read size addr m
  let val = if has flags load_extend_result then sign_extend 32 (r.0) else r.0
  let upper = (r.1.core.v_regs (rt inst)).d1
  put_data size (has flags load_float) (has flags load128_bit_float) upper addr val (r.1) inst
