-- ===== src/Cpu/System.antt =====
-- libcpu/src/interpreter/System.cpp. Log messages and the memory fence have no effect on the state.
use switch_emu_pub.Base.{ℕ, ◌+◌, Bool, false, ◌==◌, ◌&&◌, if◌then◌else◌}
use switch_emu_pub.Bits.{u64}
use switch_emu_pub.Cpu.State.{Machine, set_reg}
use switch_emu_pub.Cpu.Inst.{rd, o0, op1, crn, crm, op2}

-- Whether the word names the system register with this code.
abbrev pub names_reg : ℕ → ℕ → ℕ → ℕ → ℕ → ℕ → Bool
names_reg inst o0' op1' crn' crm' op2' =
    o0 inst == o0' && op1 inst == op1' && crn inst == crn' && crm inst == crm' && op2 inst == op2'

abbrev pub put : Machine → ℕ → ℕ → Machine
put m inst val = record m { core = set_reg m.core (rd inst) val }

-- The registers TPIDR_EL0, TPIDRRO_EL0, CNTPCT_EL0, FPCR, FPSR and DCZID_EL0, and any other.
unfoldable pub mrs : Machine → ℕ → Machine
mrs m inst =
    if names_reg inst 1 3 13 0 2
    then put m inst m.core.tls_addr
    else if names_reg inst 1 3 13 0 3
    then put m inst m.core.tls_addr
    else if names_reg inst 1 3 14 0 1
    then record m { core = set_reg m.core (rd inst) m.timer; timer = u64 (m.timer + 1) }
    else if names_reg inst 1 3 4 4 0
    then put m inst 0
    else if names_reg inst 1 3 4 4 1
    then put m inst 0
    else if names_reg inst 1 3 0 0 7
    then put m inst 0x10
    else put m inst 0

-- MSR only reports the register that it does not handle.
unfoldable pub msr_imm : Machine → ℕ → Machine
msr_imm m inst = m

unfoldable pub msr_reg : Machine → ℕ → Machine
msr_reg m inst = m

unfoldable pub clrex : Machine → ℕ → Machine
clrex m inst = record m { core = record (m.core) { exclusive_access = false } }

unfoldable pub dmb : Machine → ℕ → Machine
dmb m inst = m

-- Cache maintenance does nothing, as there are no caches; any other SYS is reported.
unfoldable pub sys : Machine → ℕ → Machine
sys m inst = m
