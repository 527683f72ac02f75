-- ===== src/Cpu/Access.antt =====
-- The accesses of libcpu/inc/mem.h as a core makes them: a breakpoint on the address interrupts the
-- core, and an address that is not mapped is a fault.
use Prim.Native.Nat.{bit_or}
use switch_emu_pub.Base.{ℕ, Bool, if◌then◌else◌, Option, none, some}
use switch_emu_pub.Mem.Pages.{Memory}
use switch_emu_pub.Mem.Access.{inspect, poke, write_atomic, write_atomic128}
use switch_emu_pub.Cpu.State.{Machine}
use switch_emu_pub.Cpu.Outcome.{Outcome, done, fault, ◌>>=◌}

abbrev pub mapped_or_fault {ℓ} : {A : Type ℓ} → Option A → Outcome A
mapped_or_fault none = fault
mapped_or_fault (some a) = done a

-- `sendInterrupts` with DEBUG_BREAK_INTERRUPT.
unfoldable pub check_breakpoint : ℕ → Machine → Machine
check_breakpoint addr m = record m {
  interrupts = if m.mem_breakpoints addr then bit_or m.interrupts 2 else m.interrupts;
}

unfoldable pub read : ℕ → ℕ → Machine → Outcome (ℕ × Machine)
read size addr m = do
  data_read ← mapped_or_fault (inspect size addr m.memory)
  done (data_read, check_breakpoint addr m)

unfoldable pub write : ℕ → ℕ → ℕ → Machine → Outcome Machine
write size addr val m = do
  memory ← mapped_or_fault (poke size addr val m.memory)
  done (record (check_breakpoint addr m) { memory = memory })

abbrev pub with_memory : Machine → Bool × Memory → Bool × Machine
with_memory m r = (r.0, record m { memory = r.1 })

unfoldable pub exchange : ℕ → ℕ → ℕ → ℕ → Machine → Outcome (Bool × Machine)
exchange size addr val expected m = do
  r ← mapped_or_fault (write_atomic size addr val expected m.memory)
  done (with_memory m r)

unfoldable pub exchange128 : ℕ → ℕ → ℕ → ℕ → ℕ → Machine → Outcome (Bool × Machine)
exchange128 addr lo hi expected_lo expected_hi m = do
  r ← mapped_or_fault (write_atomic128 addr lo hi expected_lo expected_hi m.memory)
  done (with_memory m r)
