-- ===== src/Cpu/Interpreter.antt =====
-- libcpu/src/interpreter/interpreter.cpp: the table of handlers and one step of a core.
pub mod Entry
pub mod BranchTable
pub mod DpImmTable
pub mod DpRegTable
pub mod SystemTable
pub mod FloatTable
pub mod SimdTable
pub mod AddSubImm
use Prim.Native.Nat.{bit_or}
use switch_emu_pub.Base.{ℕ, ◌+◌, ◌==◌, if◌then◌else◌, List, [], ◌∷◌}
use switch_emu_pub.Bits.{u64}
use switch_emu_pub.Mem.Access.{fetch}
use switch_emu_pub.Cpu.State.{Core, Machine, set_reg}
use switch_emu_pub.Cpu.Outcome.{Outcome, done, ◌>>=◌}
use switch_emu_pub.Cpu.Access.{mapped_or_fault}
use switch_emu_pub.Cpu.InstructionId.{InstructionId}
use switch_emu_pub.Cpu.InstructionId.Index.{index}
use switch_emu_pub.Cpu.Decode.{decode}
use switch_emu_pub.Cpu.LoadStore.Table.{load_store_instructions}
use BranchTable.{branch_instructions}
use DpImmTable.{dp_imm_instructions}
use DpRegTable.{dp_reg_instructions}
use SystemTable.{system_instructions}
use FloatTable.{float_instructions}
use SimdTable.{simd_instructions}

abbrev pub Handler : Type 0
Handler = Machine → ℕ → Outcome Machine

-- A handler that touches the core only.
abbrev pub on_core : (Core → ℕ → Core) → Handler
on_core f m inst = done (record m { core = f m.core inst })

-- `registerInstruction` for each entry: a later one replaces an earlier one.
abbrev pub register_all : List (InstructionId × Handler) → (ℕ → Handler) → ℕ → Handler
register_all [] table = table
register_all ((id, f) ∷ rest) table = register_all rest (λ i. if index id == i then f else table i)

abbrev pub core_entries : List (InstructionId × (Core → ℕ → Core)) → List (InstructionId × Handler)
core_entries [] = []
core_entries ((id, f) ∷ rest) = (id, on_core f) ∷ core_entries rest

-- What the emulator installs by `setSVCHandler` and `setIllInstHandler`.
pub record Handlers : Type 0 where
  pub svc_handler : Machine → ℕ → Outcome Machine
  pub ill_inst_handler : Machine → Outcome Machine

-- `gInstructionMap` after `init`: every instruction is reported as unimplemented first.
unfoldable pub instruction_map : Handlers → ℕ → Handler
instruction_map h = register_all ((InstructionId.invalid, λ m inst. h.ill_inst_handler m) ∷ []) (
    register_all simd_instructions (
      register_all load_store_instructions (
        register_all float_instructions (
          register_all (core_entries dp_reg_instructions) (
            register_all (core_entries dp_imm_instructions) (
              register_all (system_instructions h.svc_handler)
                (register_all (core_entries branch_instructions) (λ i m inst. done m))))))))

-- `GPRegs[31] = 0`, the check for an endless loop, and the move to the next instruction.
unfoldable pub retire : Machine → Machine
retire m =
    let core = m.core in
    record m {
      core = record core {
        gp_regs = (set_reg core 31 0).gp_regs;
        pc = core.next_pc;
        num_insts = u64 (core.num_insts + 1);
      };
      interrupts = if core.pc == core.next_pc then bit_or m.interrupts 2 else m.interrupts;
    }

-- One step from the fetch on.
unfoldable pub step : Handlers → Machine → Outcome Machine
step h m = do
  bits ← mapped_or_fault (fetch m.core.pc m.memory)
  let started = record m { core = record (m.core) { next_pc = u64 (m.core.pc + 4) } }
  executed ← instruction_map h (index (decode bits)) started bits
  done (retire executed)
