-- ===== src/Kernel/Threads.antt =====
-- switch-emu/src/hle/kernel/thread.cpp: a thread's state, and the switch of a core between threads.
use switch_emu_pub.Base.{ℕ, ltb, Bool, true, false, if◌then◌else◌, List}
use switch_emu_pub.Cpu.State.{Core, PState, VReg}

pub data ThreadStatus : Type 0 where
  uninitiated initialized ready running waiting exited : ThreadStatus

pub record ThreadContext : Type 0 where
  pub gp_regs : ℕ → ℕ
  pub v_regs : ℕ → VReg
  pub pc : ℕ
  pub sp : ℕ
  pub pstate : PState
  pub tls_addr : ℕ

-- The callback of a wake-up is an argument of the operations that call it.
pub record Thread : Type 0 where
  pub context : ThreadContext
  pub status : ThreadStatus
  pub affinity : ℕ
  pub priority : ℕ
  pub waiting_threads : List ℕ

abbrev pub no_priority : ℕ
no_priority = 64

abbrev pub invalid_thread : ℕ
invalid_thread = 0

abbrev pub is_running : ThreadStatus → Bool
is_running ThreadStatus.uninitiated = false
is_running ThreadStatus.initialized = false
is_running ThreadStatus.ready = false
is_running ThreadStatus.running = true
is_running ThreadStatus.waiting = false
is_running ThreadStatus.exited = false

unfoldable pub save_state : Core → ThreadContext → ThreadContext
save_state core context = record {
  gp_regs = λ i. if ltb i 31 then core.gp_regs i else context.gp_regs i;
  v_regs = λ i. if ltb i 32 then core.v_regs i else context.v_regs i;
  pc = core.pc;
  sp = core.sp;
  pstate = core.pstate;
  tls_addr = core.tls_addr;
}

unfoldable pub restore_state : ThreadContext → Core → Core
restore_state context core = record core {
  gp_regs = λ i. if ltb i 31 then context.gp_regs i else core.gp_regs i;
  v_regs = λ i. if ltb i 32 then context.v_regs i else core.v_regs i;
  pc = context.pc;
  sp = context.sp;
  pstate = context.pstate;
  tls_addr = context.tls_addr;
}
