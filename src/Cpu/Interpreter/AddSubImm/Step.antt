-- ===== src/Cpu/Interpreter/AddSubImm/Step.antt =====
-- A step of libcpu/src/interpreter/interpreter.cpp over an ADD or SUB with an immediate: fetch,
-- decode, handler table, addition and retirement.
use switch_emu_pub.Base.{ℕ, ◌+◌, Bool, if◌then◌else◌}
use switch_emu_pub.Bits.{u64, test_bit, shl}
use switch_emu_pub.Cpu.State.{Machine, PState, WellFormed}
use switch_emu_pub.Cpu.Inst.{rn, f10_21}
use switch_emu_pub.Cpu.Alu.{add_with_carry}
use switch_emu_pub.Cpu.DpReg.AddSub.{reg_or_sp, negate_if, carry_in}
use switch_emu_pub.Cpu.DpImm.AddSub.{add_sub_imm_generic}
use switch_emu_pub.Cpu.Interpreter.{retire}

module _ (is64 is_sub updates : Bool) (m : Machine) (w : ℕ) (formed : WellFormed m) where
  started : Machine
  started = record m { core = record (m.core) { next_pc = u64 (m.core.pc + 4) } }

  finished : Machine
  finished =
      retire (record started { core = add_sub_imm_generic is64 is_sub updates started.core w })

  -- The result that the handler writes.
  sum : ℕ × PState
  sum =
      add_with_carry is64 updates (reg_or_sp m.core (rn w))
        (negate_if is_sub (shl (f10_21 w) (if test_bit w 22 then 12 else 0))) (carry_in is_sub)
        m.core.pstate
