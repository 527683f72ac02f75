-- ===== src/Cpu/State.antt =====
-- libcpu/inc/cpu.h and common/inc/types.h: the state of a core that the interpreter reads and writes,
-- and what it shares with the rest of the emulator.
use switch_emu_pub.Mem.Pages.{Memory}
use switch_emu_pub.Base.{ℕ, ◌≡◌, ◌<◌, ◌^◌, Bool, ◌==◌, if◌then◌else◌}

pub record PState : Type 0 where
  pub n : Bool
  pub z : Bool
  pub c : Bool
  pub v : Bool

-- The two 64-bit halves of a vector register.
pub record VReg : Type 0 where
  pub d0 : ℕ
  pub d1 : ℕ

-- Register 31 is the zero register.
pub record Core : Type 0 where
  pub gp_regs : ℕ → ℕ
  pub pc : ℕ
  pub sp : ℕ
  pub pstate : PState
  pub tls_addr : ℕ
  pub next_pc : ℕ
  pub num_insts : ℕ
  pub exclusive_access : Bool
  pub exclusive_access_addr : ℕ
  pub exclusive_data0 : ℕ
  pub exclusive_data1 : ℕ
  pub v_regs : ℕ → VReg

abbrev pub update : (ℕ → ℕ) → ℕ → ℕ → ℕ → ℕ
update f r val i = if r == i then val else f i

-- `core->GPRegs[r] = val`.
abbrev pub set_reg : Core → ℕ → ℕ → Core
set_reg core r val = record core { gp_regs = update core.gp_regs r val }

abbrev pub set_vreg : Core → ℕ → VReg → Core
set_vreg core r val = record core { v_regs = λ i. if r == i then val else core.v_regs i }

-- A core with what it shares with the rest of the emulator: the timer of
-- libcpu/src/interpreter/System.cpp, the interrupts sent to the core, guest memory, and the set
-- gMemBreakpoints of libcpu/src/mem.cpp.
pub record Machine : Type 0 where
  pub core : Core
  pub timer : ℕ
  pub interrupts : ℕ
  pub memory : Memory
  pub mem_breakpoints : ℕ → Bool

-- A machine with another flag and another address of the exclusive monitor.
abbrev pub set_monitor : Bool → ℕ → Machine → Machine
set_monitor flag addr m = record m {
  core = record (m.core) { exclusive_access = flag; exclusive_access_addr = addr };
}

-- Every register holds a 64-bit value.
pub record Fits (core : Core) : Type 0 where
  pub regs : (r : ℕ) → core.gp_regs r < 2 ^ 64
  pub pc_lt : core.pc < 2 ^ 64
  pub sp_lt : core.sp < 2 ^ 64
  pub tls_lt : core.tls_addr < 2 ^ 64
  pub next_lt : core.next_pc < 2 ^ 64

-- What each instruction preserves.
pub record WellFormed (m : Machine) : Type 0 where
  pub fits : Fits m.core
  pub timer_lt : m.timer < 2 ^ 64
  pub bytes_lt : (a : ℕ) → m.memory.bytes a < 2 ^ 8

-- Between two instructions the zero register reads as zero, too.
pub record IsValid (m : Machine) : Type 0 where
  pub formed : WellFormed m
  pub zero_reg : m.core.gp_regs 31 ≡ 0
