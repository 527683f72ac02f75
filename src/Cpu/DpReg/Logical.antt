-- ===== src/Cpu/DpReg/Logical.antt =====
-- libcpu/src/interpreter/DataProcessingReg.cpp: logical operations on a shifted register.
use Prim.Native.Nat.{bit_and, bit_or, bit_xor}
use switch_emu_pub.Base.{ℕ, ◌==◌, Bool, true, false, if◌then◌else◌}
use switch_emu_pub.Bits.{complement, test_bit}
use switch_emu_pub.Cpu.State.{Core, PState, set_reg}
use switch_emu_pub.Cpu.Inst.{rd, rn, rm, f10_15, shift_field}
use switch_emu_pub.Cpu.Alu.{shift, shift_type, width, msb, truncate}

-- The flags after an operation on bits: `C` and `V` are cleared.
abbrev pub logical_flags : Bool → ℕ → PState
logical_flags is64 result = record {
  n = test_bit result (msb is64);
  z = result == 0;
  c = false;
  v = false;
}

unfoldable pub logical_shifted_reg_generic : Bool → Bool → Bool → (ℕ → ℕ → ℕ) → Core → ℕ → Core
logical_shifted_reg_generic is64 negate updates_flags func core inst =
    let operand1 = core.gp_regs (rn inst) in
    let shifted =
      shift (core.gp_regs (rm inst)) (shift_type (shift_field inst)) (f10_15 inst) (width is64) in
    let operand2 = if negate then complement shifted else shifted in
    let result = truncate is64 (func operand1 operand2) in
    record core {
      gp_regs = (set_reg core (rd inst) result).gp_regs;
      pstate = if updates_flags then logical_flags is64 result else core.pstate;
    }

abbrev pub and32_shifted : Core → ℕ → Core
and32_shifted = logical_shifted_reg_generic false false false bit_and

abbrev pub bic32_shifted : Core → ℕ → Core
bic32_shifted = logical_shifted_reg_generic false true false bit_and

abbrev pub orr32_shifted : Core → ℕ → Core
orr32_shifted = logical_shifted_reg_generic false false false bit_or

abbrev pub orn32_shifted : Core → ℕ → Core
orn32_shifted = logical_shifted_reg_generic false true false bit_or

abbrev pub eor32_shifted : Core → ℕ → Core
eor32_shifted = logical_shifted_reg_generic false false false bit_xor

abbrev pub eon32_shifted : Core → ℕ → Core
eon32_shifted = logical_shifted_reg_generic false true false bit_xor

abbrev pub ands32_shifted : Core → ℕ → Core
ands32_shifted = logical_shifted_reg_generic false false true bit_and

abbrev pub bics32_shifted : Core → ℕ → Core
bics32_shifted = logical_shifted_reg_generic false true true bit_and

abbrev pub and64_shifted : Core → ℕ → Core
and64_shifted = logical_shifted_reg_generic true false false bit_and

abbrev pub bic64_shifted : Core → ℕ → Core
bic64_shifted = logical_shifted_reg_generic true true false bit_and

abbrev pub orr64_shifted : Core → ℕ → Core
orr64_shifted = logical_shifted_reg_generic true false false bit_or

abbrev pub orn64_shifted : Core → ℕ → Core
orn64_shifted = logical_shifted_reg_generic true true false bit_or

abbrev pub eor64_shifted : Core → ℕ → Core
eor64_shifted = logical_shifted_reg_generic true false false bit_xor

abbrev pub eon64_shifted : Core → ℕ → Core
eon64_shifted = logical_shifted_reg_generic true true false bit_xor

abbrev pub ands64_shifted : Core → ℕ → Core
ands64_shifted = logical_shifted_reg_generic true false true bit_and

abbrev pub bics64_shifted : Core → ℕ → Core
bics64_shifted = logical_shifted_reg_generic true true true bit_and
