-- ===== src/Cpu/Interpreter/SystemTable.antt =====
-- The instructions that libcpu/src/interpreter/System.cpp registers, in its order.
use switch_emu_pub.Base.{ℕ, List, [], ◌∷◌}
use switch_emu_pub.Cpu.State.{Machine}
use switch_emu_pub.Cpu.Outcome.{Outcome, done}
use switch_emu_pub.Cpu.Inst.{f5_20}
use switch_emu_pub.Cpu.InstructionId.{InstructionId}
use switch_emu_pub.Cpu.System.{mrs, msr_imm, msr_reg, clrex, dmb, sys}

-- `nop`, and an instruction that is only reported.
unfoldable pub nop : Machine → ℕ → Machine
nop m inst = m

-- The handler that the emulator installs gets the number of the call.
unfoldable pub svc : (Machine → ℕ → Outcome Machine) → Machine → ℕ → Outcome Machine
svc svc_handler m inst = svc_handler m (f5_20 inst)

unfoldable pub system_instructions :
    (Machine → ℕ → Outcome Machine) → List (InstructionId × (Machine → ℕ → Outcome Machine))
unfolding nop
system_instructions svc_handler =
    (InstructionId.svc, svc svc_handler)
    ∷ (InstructionId.hvc, λ m inst. done (nop m inst))
    ∷ (InstructionId.smc, λ m inst. done (nop m inst))
    ∷ (InstructionId.brk, λ m inst. done (nop m inst))
    ∷ (InstructionId.hlt, λ m inst. done (nop m inst))
    ∷ (InstructionId.dcps1, λ m inst. done (nop m inst))
    ∷ (InstructionId.dcps2, λ m inst. done (nop m inst))
    ∷ (InstructionId.dcps3, λ m inst. done (nop m inst))
    ∷ (InstructionId.msr_imm, λ m inst. done (msr_imm m inst))
    ∷ (InstructionId.msr_reg, λ m inst. done (msr_reg m inst))
    ∷ (InstructionId.hint, λ m inst. done (nop m inst))
    ∷ (InstructionId.nop, λ m inst. done (nop m inst))
    ∷ (InstructionId.yield, λ m inst. done (nop m inst))
    ∷ (InstructionId.wfe, λ m inst. done (nop m inst))
    ∷ (InstructionId.wfi, λ m inst. done (nop m inst))
    ∷ (InstructionId.sev, λ m inst. done (nop m inst))
    ∷ (InstructionId.sevl, λ m inst. done (nop m inst))
    ∷ (InstructionId.clrex, λ m inst. done (clrex m inst))
    ∷ (InstructionId.dsb, λ m inst. done (nop m inst))
    ∷ (InstructionId.dmb, λ m inst. done (dmb m inst))
    ∷ (InstructionId.isb, λ m inst. done (nop m inst))
    ∷ (InstructionId.sys, λ m inst. done (sys m inst))
    ∷ (InstructionId.sysl, λ m inst. done (nop m inst))
    ∷ (InstructionId.mrs, λ m inst. done (mrs m inst))
    ∷ []
