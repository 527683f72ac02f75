-- ===== src/Cpu/Preserve/Words.antt =====
-- The word operations of libcpu/inc/instutils.h and common/inc/bitutils.h stay within 64 bits, and
-- a write of such a word keeps a core within its widths.
use native.Mathlib.Nat.{one-le-pow}
use switch_emu_pub.Base.{ℕ, ◌-◌, ◌^◌, ◌<◌, Bool, true, false, arith}
use switch_emu_pub.Bits.{shl, shr, sign_extend}
use switch_emu_pub.Bits.Bounds.{bit_or-lt}
use switch_emu_pub.Cpu.State.{Core, PState, Fits, update}
use switch_emu_pub.Cpu.Alu.{ShiftType, shift, truncate, add_with_carry}
use switch_emu_pub.Cpu.DpReg.AddSub.{write_reg_or_sp, negate_if}

pub truncate-lt : (is64 : Bool) (x : ℕ) → x < 2 ^ 64 → truncate is64 x < 2 ^ 64
truncate-lt true x h = h
truncate-lt false x h = omega arith

pub shr-lt : (x k : ℕ) → x < 2 ^ 64 → shr x k < 2 ^ 64
shr-lt x k h = omega arith

pub shl-lt : (x k : ℕ) → shl x k < 2 ^ 64
shl-lt x k = omega arith

pub sign_extend-lt : (size val : ℕ) → val < 2 ^ 64 → sign_extend size val < 2 ^ 64
sign_extend-lt size val h = ground (arith, one-le-pow size 2)

pub shift-lt : (x : ℕ) (t : ShiftType) (k w : ℕ) → x < 2 ^ 64 → shift x t k w < 2 ^ 64
unfolding shift
shift-lt x ShiftType.lsl k w h = ground arith
shift-lt x ShiftType.lsr k w h = ground (arith, shr-lt x k)
shift-lt x ShiftType.asr k w h = ground (arith, sign_extend-lt (w - k) (shr x k), shr-lt x k)
shift-lt x ShiftType.ror k w h =
    ground (arith, bit_or-lt 64 (shr x k) (shl x (w - k)), shr-lt x k, shl-lt x (w - k))

pub add_with_carry-lt :
    (is64 updates : Bool) (a b c : ℕ) (s : PState)
    → (add_with_carry is64 updates a b c s).0 < 2 ^ 64
unfolding add_with_carry
add_with_carry-lt true updates a b c s = omega arith
add_with_carry-lt false updates a b c s = omega arith

pub negate_if-lt : (is_sub : Bool) (x : ℕ) → x < 2 ^ 64 → negate_if is_sub x < 2 ^ 64
negate_if-lt true x h = omega arith
negate_if-lt false x h = h

module _ (core : Core) (r val : ℕ) (s : PState) (fits : Fits core) (bound : val < 2 ^ 64) where
  pub Fits-write : Fits (record core { gp_regs = update core.gp_regs r val; pstate = s })
  Fits-write = record {
    regs = λ i. ground (arith, fits.regs i);
    pc_lt = fits.pc_lt;
    sp_lt = fits.sp_lt;
    tls_lt = fits.tls_lt;
    next_lt = fits.next_lt;
  }

  pub Fits-write_sp :
      (updates : Bool) → Fits (write_reg_or_sp (record core { pstate = s }) updates r val)
  Fits-write_sp updates = record {
    regs = λ i. ground (arith, fits.regs i);
    pc_lt = ground (arith, fits.pc_lt);
    sp_lt = ground (arith, fits.sp_lt);
    tls_lt = ground (arith, fits.tls_lt);
    next_lt = ground (arith, fits.next_lt);
  }

pub Fits-flags : (core : Core) (s : PState) → Fits core → Fits (record core { pstate = s })
Fits-flags core s fits = record {
  regs = fits.regs;
  pc_lt = fits.pc_lt;
  sp_lt = fits.sp_lt;
  tls_lt = fits.tls_lt;
  next_lt = fits.next_lt;
}
