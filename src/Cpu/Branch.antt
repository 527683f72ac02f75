-- ===== src/Cpu/Branch.antt =====
-- libcpu/src/interpreter/Branch.cpp.
use Prim.Native.Nat.{bit_or}
use switch_emu_pub.Base.{ℕ, ◌+◌, ◌==◌, Bool, true, false, not, if◌then◌else◌}
use switch_emu_pub.Bits.{u64, shl, test_bit, sign_extend}
use switch_emu_pub.Cpu.State.{Core, set_reg}
use switch_emu_pub.Cpu.Inst.{cond, rt, rn, f0_25, f5_18, f5_23, b40, b5}
use switch_emu_pub.Cpu.Alu.{condition, test_condition, truncate}

-- `core->nextPC = core->PC + off`.
abbrev pub branch_to : Core → ℕ → Core
branch_to core off = record core { next_pc = u64 (core.pc + off) }

abbrev pub link_if : Bool → Core → Core
link_if true core = set_reg core 30 (u64 (core.pc + 4))
link_if false core = core

unfoldable pub cond_branch : Core → ℕ → Core
cond_branch core inst =
    let off = sign_extend 21 (shl (f5_23 inst) 2) in
    if test_condition core.pstate (condition (cond inst)) then branch_to core off else core

unfoldable pub uncond_branch_reg_generic : Bool → Core → ℕ → Core
uncond_branch_reg_generic link core inst =
    let addr = core.gp_regs (rn inst) in
    let linked = link_if link core in record linked { next_pc = addr }

abbrev pub uncond_branch_reg_no_link : Core → ℕ → Core
uncond_branch_reg_no_link = uncond_branch_reg_generic false

abbrev pub uncond_branch_reg_link : Core → ℕ → Core
uncond_branch_reg_link = uncond_branch_reg_generic true

unfoldable pub uncond_branch_imm_generic : Bool → Core → ℕ → Core
uncond_branch_imm_generic link core inst =
    let off = sign_extend 28 (shl (f0_25 inst) 2) in branch_to (link_if link core) off

abbrev pub uncond_branch_imm_no_link : Core → ℕ → Core
uncond_branch_imm_no_link = uncond_branch_imm_generic false

abbrev pub uncond_branch_imm_link : Core → ℕ → Core
uncond_branch_imm_link = uncond_branch_imm_generic true

unfoldable pub compare_branch_generic : Bool → Bool → Core → ℕ → Core
compare_branch_generic is64 negate core inst =
    let off = sign_extend 21 (shl (f5_23 inst) 2) in
    let operand = truncate is64 (core.gp_regs (rt inst)) in
    let taken = if negate then not (operand == 0) else operand == 0 in
    if taken then branch_to core off else core

abbrev pub cbz32 : Core → ℕ → Core
cbz32 = compare_branch_generic false false

abbrev pub cbnz32 : Core → ℕ → Core
cbnz32 = compare_branch_generic false true

abbrev pub cbz64 : Core → ℕ → Core
cbz64 = compare_branch_generic true false

abbrev pub cbnz64 : Core → ℕ → Core
cbnz64 = compare_branch_generic true true

unfoldable pub test_bit_branch_generic : Bool → Core → ℕ → Core
test_bit_branch_generic negate core inst =
    let off = sign_extend 16 (shl (f5_18 inst) 2) in
    let operand = core.gp_regs (rt inst) in
    let bit = bit_or (b40 inst) (shl (b5 inst) 5) in
    let taken = if negate then not (test_bit operand bit) else test_bit operand bit in
    if taken then branch_to core off else core

abbrev pub tbz : Core → ℕ → Core
tbz = test_bit_branch_generic true

abbrev pub tbnz : Core → ℕ → Core
tbnz = test_bit_branch_generic false
