-- ===== src/Cpu/DpReg/Multiply.antt =====
-- libcpu/src/interpreter/DataProcessingReg.cpp: multiplications.
use switch_emu_pub.Base.{ℕ, ◌+◌, ◌*◌, Bool, true, false, if◌then◌else◌}
use switch_emu_pub.Base.Int.{◌+ℤ◌, ◌*ℤ◌, neg, signed, to_word}
use switch_emu_pub.Bits.{u64, u32, sub64, shr, test_bit}
use switch_emu_pub.Cpu.State.{Core, set_reg}
use switch_emu_pub.Cpu.Inst.{rd, rn, rm, ra}
use switch_emu_pub.Cpu.Alu.{truncate}

-- `op3 - product` or `op3 + product`.
abbrev pub accumulate : Bool → ℕ → ℕ → ℕ
accumulate true op3 product = sub64 op3 product
accumulate false op3 product = u64 (op3 + product)

unfoldable pub multiply : Bool → Bool → Core → ℕ → Core
multiply is64 is_sub core inst =
    let product = u64 (core.gp_regs (rn inst) * core.gp_regs (rm inst)) in
    let res = accumulate is_sub (core.gp_regs (ra inst)) product in
    set_reg core (rd inst) (truncate is64 res)

abbrev pub madd32 : Core → ℕ → Core
madd32 = multiply false false

abbrev pub msub32 : Core → ℕ → Core
msub32 = multiply false true

abbrev pub madd64 : Core → ℕ → Core
madd64 = multiply true false

abbrev pub msub64 : Core → ℕ → Core
msub64 = multiply true true

unfoldable pub u_multiply_long : Bool → Core → ℕ → Core
u_multiply_long is_sub core inst =
    let product = u64 (u32 (core.gp_regs (rn inst)) * u32 (core.gp_regs (rm inst))) in
    set_reg core (rd inst) (accumulate is_sub (core.gp_regs (ra inst)) product)

abbrev pub umaddl : Core → ℕ → Core
umaddl = u_multiply_long false

abbrev pub umsubl : Core → ℕ → Core
umsubl = u_multiply_long true

-- A signed overflow of the last addition, undefined in C++, wraps.
unfoldable pub s_multiply_long : Bool → Core → ℕ → Core
s_multiply_long is_sub core inst =
    let op1 = signed 32 (u32 (core.gp_regs (rn inst))) in
    let op2 = signed 32 (u32 (core.gp_regs (rm inst))) in
    let op3 = signed 64 (core.gp_regs (ra inst)) in
    let product = op1 *ℤ op2 in
    let res = if is_sub then op3 +ℤ neg product else op3 +ℤ product in
    set_reg core (rd inst) (to_word 64 res)

abbrev pub smaddl : Core → ℕ → Core
smaddl = s_multiply_long false

abbrev pub smsubl : Core → ℕ → Core
smsubl = s_multiply_long true

unfoldable pub unsigned_high : ℕ → ℕ → ℕ
unsigned_high op1 op2 =
    let op1hi = shr op1 32 in
    let op1lo = u32 op1 in
    let op2hi = shr op2 32 in
    let op2lo = u32 op2 in
    let bd = u64 (op1lo * op2lo) in
    let bc = u64 (op1lo * op2hi) in
    let ad = u64 (op1hi * op2lo) in
    let ac = u64 (op1hi * op2hi) in
    let cy = u32 (shr (u64 (u32 ad + u32 bc + shr bd 32)) 32) in
    u64 (ac + shr ad 32 + shr bc 32 + cy)

unfoldable pub signed_high : ℕ → ℕ → ℕ
signed_high op1 op2 =
    let result = unsigned_high op1 op2 in
    let first = if test_bit op1 63 then sub64 result op2 else result in
    if test_bit op2 63 then sub64 first op1 else first

unfoldable pub mulh_generic : Bool → Core → ℕ → Core
unfolding unsigned_high signed_high
mulh_generic is_signed core inst =
    let op1 = core.gp_regs (rn inst) in
    let op2 = core.gp_regs (rm inst) in
    set_reg core (rd inst) (if is_signed then signed_high op1 op2 else unsigned_high op1 op2)

abbrev pub umulh : Core → ℕ → Core
umulh = mulh_generic false

abbrev pub smulh : Core → ℕ → Core
smulh = mulh_generic true
