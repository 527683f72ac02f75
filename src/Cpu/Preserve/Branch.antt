-- ===== src/Cpu/Preserve/Branch.antt =====
-- libcpu/src/interpreter/Branch.cpp keeps every register and the next address within 64 bits.
use switch_emu_pub.Base.{ℕ, ◌^◌, ◌<◌, Bool, true, false, arith, if◌then◌else◌}
use switch_emu_pub.Cpu.State.{Core, Fits}
use switch_emu_pub.Cpu.Inst.{rn}
use switch_emu_pub.Cpu.Branch.{
  branch_to, link_if, cond_branch, uncond_branch_reg_generic, uncond_branch_imm_generic,
  compare_branch_generic, test_bit_branch_generic,
}
use switch_emu_pub.Cpu.Preserve.Words.{Fits-write}
use switch_emu_pub.Cpu.Preserve.DpReg.{KeepsFits}

Fits-next :
    (core : Core) (addr : ℕ) → Fits core → addr < 2 ^ 64 → Fits (record core { next_pc = addr })
Fits-next core addr fits h = record {
  regs = fits.regs;
  pc_lt = fits.pc_lt;
  sp_lt = fits.sp_lt;
  tls_lt = fits.tls_lt;
  next_lt = h;
}

branch_to-Fits : (core : Core) (off : ℕ) → Fits core → Fits (branch_to core off)
branch_to-Fits core off fits = Fits-next core _ fits (omega arith)

link_if-Fits : (link : Bool) (core : Core) → Fits core → Fits (link_if link core)
link_if-Fits true core fits = Fits-write core 30 _ core.pstate fits (omega arith)
link_if-Fits false core fits = fits

-- A branch that may fall through.
if-Fits :
    (taken : Bool) (core : Core) (off : ℕ)
    → Fits core
    → Fits (if taken then branch_to core off else core)
if-Fits true core off fits = branch_to-Fits core off fits
if-Fits false core off fits = fits

pub cond_branch-Fits : KeepsFits cond_branch
unfolding cond_branch
cond_branch-Fits core inst fits = if-Fits _ core _ fits

pub uncond_branch_reg-Fits : (link : Bool) → KeepsFits (uncond_branch_reg_generic link)
unfolding uncond_branch_reg_generic
uncond_branch_reg-Fits link core inst fits =
    Fits-next (link_if link core) _ (link_if-Fits link core fits) (fits.regs (rn inst))

pub uncond_branch_imm-Fits : (link : Bool) → KeepsFits (uncond_branch_imm_generic link)
unfolding uncond_branch_imm_generic
uncond_branch_imm-Fits link core inst fits = branch_to-Fits _ _ (link_if-Fits link core fits)

pub compare_branch-Fits : (is64 negate : Bool) → KeepsFits (compare_branch_generic is64 negate)
unfolding compare_branch_generic
compare_branch-Fits is64 negate core inst fits = if-Fits _ core _ fits

pub test_bit_branch-Fits : (negate : Bool) → KeepsFits (test_bit_branch_generic negate)
unfolding test_bit_branch_generic
test_bit_branch-Fits negate core inst fits = if-Fits _ core _ fits
