-- ===== src/Cpu/Preserve/DpReg.antt =====
-- libcpu/src/interpreter/DataProcessingReg.cpp keeps every register within 64 bits.
use switch_emu_pub.Base.{
  ℕ, zero, suc, ◌+◌, ◌/◌, ◌^◌, ◌<◌, ◌≤◌, Bool, true, false, arith, ◌==◌, if◌then◌else◌,
}
use switch_emu_pub.Base.Int.{ℤ, to_word}
use switch_emu_pub.Bits.{u32, complement}
use switch_emu_pub.Bits.Bounds.{bit_or-lt, bit_and-lt}
use switch_emu_pub.Cpu.State.{Core, Fits}
use switch_emu_pub.Cpu.Inst.{rn, rm, rd}
use switch_emu_pub.Cpu.Alu.{width}
use switch_emu_pub.Cpu.DpReg.Logical.{logical_shifted_reg_generic}
use switch_emu_pub.Cpu.DpReg.AddSub.{
  add_sub_shifted_reg_generic, add_sub_extended_reg_generic, add_sub_carry_generic,
}
use switch_emu_pub.Cpu.DpReg.Reverse.{
  swap_groups, reverse_bits, reverse_bytes, reverse16, reverse32, fold_halves,
}
use switch_emu_pub.Cpu.DpReg.Count.{
  clear_loop, set_loop, count_leading_clear_bits, count_leading_set_bits,
}
use switch_emu_pub.Cpu.DpReg.Divide.{
  unsigned_divide, signed_operand, signed_quotient, signed_divide, shift_generic,
}
use switch_emu_pub.Cpu.DpReg.Multiply.{
  accumulate, multiply, u_multiply_long, s_multiply_long, unsigned_high, signed_high, mulh_generic,
}
use switch_emu_pub.Cpu.DpReg.Conditional.{
  cond_compare_reg_generic, cond_compare_imm_generic, cond_sel_generic,
}
use switch_emu_pub.Cpu.Preserve.Words.{
  truncate-lt, shr-lt, shl-lt, sign_extend-lt, shift-lt, add_with_carry-lt, Fits-write,
  Fits-write_sp, Fits-flags,
}

abbrev pub KeepsFits : (Core → ℕ → Core) → Type 0
KeepsFits f = (core : Core) (inst : ℕ) → Fits core → Fits (f core inst)

-- A bit operation that stays within 64 bits.
abbrev pub KeepsWord : (ℕ → ℕ → ℕ) → Type 0
KeepsWord f = (a b : ℕ) → a < 2 ^ 64 → b < 2 ^ 64 → f a b < 2 ^ 64

negated-lt : (negate : Bool) (x : ℕ) → x < 2 ^ 64 → (if negate then complement x else x) < 2 ^ 64
negated-lt true x h = omega arith
negated-lt false x h = h

pub logical_shifted_reg-Fits :
    (is64 negate updates : Bool) (func : ℕ → ℕ → ℕ)
    → KeepsWord func
    → KeepsFits (logical_shifted_reg_generic is64 negate updates func)
unfolding logical_shifted_reg_generic
logical_shifted_reg-Fits is64 negate updates func word core inst fits = Fits-write core _ _ _ fits (
    truncate-lt is64 _ (
      word _ _ (fits.regs (rn inst))
        (negated-lt negate _ (shift-lt _ _ _ _ (fits.regs (rm inst))))))

pub add_sub_shifted_reg-Fits :
    (is64 is_sub updates : Bool) → KeepsFits (add_sub_shifted_reg_generic is64 is_sub updates)
unfolding add_sub_shifted_reg_generic
add_sub_shifted_reg-Fits is64 is_sub updates core inst fits =
    Fits-write core _ _ _ fits (add_with_carry-lt is64 updates _ _ _ _)

pub add_sub_extended_reg-Fits :
    (is64 is_sub updates : Bool) → KeepsFits (add_sub_extended_reg_generic is64 is_sub updates)
unfolding add_sub_extended_reg_generic
add_sub_extended_reg-Fits is64 is_sub updates core inst fits =
    Fits-write_sp core (rd inst) _ _ fits (add_with_carry-lt is64 updates _ _ _ _) updates

pub add_sub_carry-Fits :
    (is64 is_sub updates : Bool) → KeepsFits (add_sub_carry_generic is64 is_sub updates)
unfolding add_sub_carry_generic
add_sub_carry-Fits is64 is_sub updates core inst fits =
    Fits-write core _ _ _ fits (add_with_carry-lt is64 updates _ _ _ _)

swap_groups-lt :
    (k high low op : ℕ)
    → op < 2 ^ 64
    → high < 2 ^ 64
    → low < 2 ^ 64
    → swap_groups k high low op < 2 ^ 64
unfolding swap_groups
swap_groups-lt k high low op h hh hl =
    bit_or-lt 64 _ _ (bit_and-lt 64 _ _ (shl-lt op k) hh) (bit_and-lt 64 _ _ (shr-lt op k h) hl)

fold_halves-lt : (is64 : Bool) (op : ℕ) → op < 2 ^ 64 → fold_halves is64 op < 2 ^ 64
fold_halves-lt true op h = swap_groups-lt 32 _ _ op h (omega arith) (omega arith)
fold_halves-lt false op h = omega arith

swap_bytes-lt :
    (op : ℕ) → op < 2 ^ 64 → swap_groups 8 0xFF00FF00FF00FF00 0x00FF00FF00FF00FF op < 2 ^ 64
swap_bytes-lt op h = swap_groups-lt 8 _ _ op h (omega arith) (omega arith)

swap_words-lt :
    (op : ℕ) → op < 2 ^ 64 → swap_groups 16 0xFFFF0000FFFF0000 0x0000FFFF0000FFFF op < 2 ^ 64
swap_words-lt op h = swap_groups-lt 16 _ _ op h (omega arith) (omega arith)

pub reverse_bits-Fits : (is64 : Bool) → KeepsFits (reverse_bits is64)
unfolding reverse_bits
reverse_bits-Fits is64 core inst fits = Fits-write core _ _ _ fits (
    fold_halves-lt is64 _ (
      swap_words-lt _ (
        swap_bytes-lt _ (
          swap_groups-lt 4 _ _ _
            (swap_groups-lt 2 _ _ _
              (swap_groups-lt 1 _ _ _ (fits.regs (rn inst)) (omega arith) (omega arith))
              (omega arith) (omega arith))
            (omega arith) (omega arith)))))

pub reverse_bytes-Fits : (is64 : Bool) → KeepsFits (reverse_bytes is64)
unfolding reverse_bytes
reverse_bytes-Fits is64 core inst fits =
    Fits-write core _ _ _ fits
      (fold_halves-lt is64 _ (swap_words-lt _ (swap_bytes-lt _ (fits.regs (rn inst)))))

pub reverse16-Fits : (is64 : Bool) → KeepsFits (reverse16 is64)
unfolding reverse16
reverse16-Fits is64 core inst fits =
    Fits-write core _ _ _ fits (fold_halves-lt is64 _ (swap_words-lt _ (fits.regs (rn inst))))

pub reverse32-Fits : KeepsFits reverse32
unfolding reverse32
reverse32-Fits core inst fits =
    Fits-write core _ _ _ fits (fold_halves-lt true _ (fits.regs (rn inst)))

clear_loop-le : (n op res : ℕ) → clear_loop n op res ≤ n + res
unfolding clear_loop
clear_loop-le zero op res = omega arith
clear_loop-le (suc n) op res = ground (arith, clear_loop-le n op (res + 1))

set_loop-le : (n op res : ℕ) → set_loop n op res ≤ n + res
unfolding set_loop
set_loop-le zero op res = omega arith
set_loop-le (suc n) op res = ground (arith, set_loop-le n op (res + 1))

width-lt : (is64 : Bool) (x : ℕ) → x ≤ width is64 + 0 → x < 2 ^ 64
width-lt true x h = omega arith
width-lt false x h = omega arith

pub count_leading_clear_bits-Fits : (is64 : Bool) → KeepsFits (count_leading_clear_bits is64)
unfolding count_leading_clear_bits
count_leading_clear_bits-Fits is64 core inst fits =
    Fits-write core _ _ _ fits (width-lt is64 _ (clear_loop-le (width is64) _ 0))

pub count_leading_set_bits-Fits : (is64 : Bool) → KeepsFits (count_leading_set_bits is64)
unfolding count_leading_set_bits
count_leading_set_bits-Fits is64 core inst fits =
    Fits-write core _ _ _ fits (width-lt is64 _ (set_loop-le (width is64) _ 0))

pub unsigned_divide-Fits : (is64 : Bool) → KeepsFits (unsigned_divide is64)
unfolding unsigned_divide
unsigned_divide-Fits is64 core inst fits =
    Fits-write core _ _ _ fits
      (truncate-lt is64 _ (quotient-lt _ _ (truncate-lt is64 _ (fits.regs (rn inst)))))
  where
    quotient-lt : (a b : ℕ) → a < 2 ^ 64 → (if b == 0 then 0 else a / b) < 2 ^ 64
    quotient-lt a b h = ground arith

signed_operand-lt : (is64 : Bool) (x : ℕ) → x < 2 ^ 64 → signed_operand is64 x < 2 ^ 64
signed_operand-lt true x h = h
signed_operand-lt false x h = sign_extend-lt 32 (u32 x) (omega arith)

signed_quotient-lt : (is64 : Bool) (a b : ℕ) → a < 2 ^ 64 → signed_quotient is64 a b < 2 ^ 64
unfolding signed_quotient to_word
signed_quotient-lt is64 a b h = ground arith

pub signed_divide-Fits : (is64 : Bool) → KeepsFits (signed_divide is64)
unfolding signed_divide
signed_divide-Fits is64 core inst fits = Fits-write core _ _ _ fits (
    truncate-lt is64 _
      (signed_quotient-lt is64 _ _ (signed_operand-lt is64 _ (fits.regs (rn inst)))))

pub shift_generic-Fits : (is64 : Bool) → KeepsFits (shift_generic is64)
unfolding shift_generic
shift_generic-Fits is64 core inst fits =
    Fits-write core _ _ _ fits
      (truncate-lt is64 _ (shift-lt _ _ _ _ (truncate-lt is64 _ (fits.regs (rn inst)))))

accumulate-lt : (is_sub : Bool) (a b : ℕ) → accumulate is_sub a b < 2 ^ 64
accumulate-lt true a b = omega arith
accumulate-lt false a b = omega arith

pub multiply-Fits : (is64 is_sub : Bool) → KeepsFits (multiply is64 is_sub)
unfolding multiply
multiply-Fits is64 is_sub core inst fits =
    Fits-write core _ _ _ fits (truncate-lt is64 _ (accumulate-lt is_sub _ _))

pub u_multiply_long-Fits : (is_sub : Bool) → KeepsFits (u_multiply_long is_sub)
unfolding u_multiply_long
u_multiply_long-Fits is_sub core inst fits = Fits-write core _ _ _ fits (accumulate-lt is_sub _ _)

to_word-lt : (x : ℤ) → to_word 64 x < 2 ^ 64
unfolding to_word
to_word-lt x = omega arith

pub s_multiply_long-Fits : (is_sub : Bool) → KeepsFits (s_multiply_long is_sub)
unfolding s_multiply_long
s_multiply_long-Fits is_sub core inst fits = Fits-write core _ _ _ fits (to_word-lt _)

unsigned_high-lt : (a b : ℕ) → unsigned_high a b < 2 ^ 64
unfolding unsigned_high
unsigned_high-lt a b = omega arith

high-lt :
    (is_signed : Bool) (a b : ℕ)
    → (if is_signed then signed_high a b else unsigned_high a b) < 2 ^ 64
unfolding signed_high
high-lt true a b = ground (arith, unsigned_high-lt a b)
high-lt false a b = unsigned_high-lt a b

pub mulh-Fits : (is_signed : Bool) → KeepsFits (mulh_generic is_signed)
unfolding mulh_generic
mulh-Fits is_signed core inst fits =
    Fits-write core _ _ _ fits (high-lt is_signed (core.gp_regs (rn inst)) (core.gp_regs (rm inst)))

pub cond_compare_reg-Fits : (is64 negate : Bool) → KeepsFits (cond_compare_reg_generic is64 negate)
unfolding cond_compare_reg_generic
cond_compare_reg-Fits is64 negate core inst fits = Fits-flags core _ fits

pub cond_compare_imm-Fits : (is64 negate : Bool) → KeepsFits (cond_compare_imm_generic is64 negate)
unfolding cond_compare_imm_generic
cond_compare_imm-Fits is64 negate core inst fits = Fits-flags core _ fits

pub cond_sel-Fits :
    (is64 invert increment : Bool) → KeepsFits (cond_sel_generic is64 invert increment)
unfolding cond_sel_generic
cond_sel-Fits is64 invert increment core inst fits =
    Fits-write core _ _ _ fits
      (truncate-lt is64 _ (ground (arith, fits.regs (rn inst), fits.regs (rm inst))))
