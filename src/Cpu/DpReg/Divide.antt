-- ===== src/Cpu/DpReg/Divide.antt =====
-- libcpu/src/interpreter/DataProcessingReg.cpp: division and shifts by a register.
use switch_emu_pub.Base.{ℕ, ◌/◌, ◌%◌, ◌==◌, Bool, true, false, ◌&&◌, if◌then◌else◌}
use switch_emu_pub.Base.Int.{signed, to_word, quot}
use switch_emu_pub.Bits.{u32, sign_extend, bit_range}
use switch_emu_pub.Cpu.State.{Core, set_reg}
use switch_emu_pub.Cpu.Inst.{rd, rn, rm}
use switch_emu_pub.Cpu.Alu.{shift, shift_type, width, truncate}

unfoldable pub unsigned_divide : Bool → Core → ℕ → Core
unsigned_divide is64 core inst =
    let op1 = truncate is64 (core.gp_regs (rn inst)) in
    let op2 = truncate is64 (core.gp_regs (rm inst)) in
    let result = if op2 == 0 then 0 else op1 / op2 in set_reg core (rd inst) (truncate is64 result)

abbrev pub udiv32 : Core → ℕ → Core
udiv32 = unsigned_divide false

abbrev pub udiv64 : Core → ℕ → Core
udiv64 = unsigned_divide true

-- The operand of a signed division as an int64_t bit pattern.
abbrev pub signed_operand : Bool → ℕ → ℕ
signed_operand true op = op
signed_operand false op = sign_extend 32 (u32 op)

unfoldable pub signed_quotient : Bool → ℕ → ℕ → ℕ
signed_quotient is64 op1 op2 =
    if op2 == 0
    then 0
    else if is64 && (op1 == 0x8000000000000000) && (op2 == 0xFFFFFFFFFFFFFFFF)
    then op1
    else to_word 64 (quot (signed 64 op1) (signed 64 op2))

unfoldable pub signed_divide : Bool → Core → ℕ → Core
unfolding signed_quotient
signed_divide is64 core inst =
    let op1 = signed_operand is64 (core.gp_regs (rn inst)) in
    let op2 = signed_operand is64 (core.gp_regs (rm inst)) in
    set_reg core (rd inst) (truncate is64 (signed_quotient is64 op1 op2))

abbrev pub sdiv32 : Core → ℕ → Core
sdiv32 = signed_divide false

abbrev pub sdiv64 : Core → ℕ → Core
sdiv64 = signed_divide true

unfoldable pub shift_generic : Bool → Core → ℕ → Core
shift_generic is64 core inst =
    let amount = core.gp_regs (rm inst) % width is64 in
    let operand = truncate is64 (core.gp_regs (rn inst)) in
    let res = shift operand (shift_type (bit_range 10 11 inst)) amount (width is64) in
    set_reg core (rd inst) (truncate is64 res)

abbrev pub lslv32 : Core → ℕ → Core
lslv32 = shift_generic false

abbrev pub lsrv32 : Core → ℕ → Core
lsrv32 = shift_generic false

abbrev pub asrv32 : Core → ℕ → Core
asrv32 = shift_generic false

abbrev pub rorv32 : Core → ℕ → Core
rorv32 = shift_generic false

abbrev pub lslv64 : Core → ℕ → Core
lslv64 = shift_generic true

abbrev pub lsrv64 : Core → ℕ → Core
lsrv64 = shift_generic true

abbrev pub asrv64 : Core → ℕ → Core
asrv64 = shift_generic true

abbrev pub rorv64 : Core → ℕ → Core
rorv64 = shift_generic true
