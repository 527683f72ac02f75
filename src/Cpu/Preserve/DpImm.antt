-- ===== src/Cpu/Preserve/DpImm.antt =====
-- libcpu/src/interpreter/DataProcessingImm.cpp keeps every register within 64 bits.
use Prim.Native.Nat.{bit_and, bit_or}
use native.Mathlib.Nat.{one-le-pow, pow-suc, pow-le-pow_right}
use switch_emu_pub.Base.{
  ℕ, zero, suc, ◌+◌, ◌*◌, ◌/◌, ◌%◌, ◌-◌, ◌^◌, ◌<◌, ◌≤◌, ◌≡◌, refl, Bool, arith,
}
use switch_emu_pub.Bits.{complement, shl, sign_extend}
use switch_emu_pub.Bits.Bounds.{bit_or-lt, bit_and-lt}
use switch_emu_pub.Cpu.Inst.{rn, rm, rd, imms, immr, n_field, hw, opc}
use switch_emu_pub.Cpu.Alu.{width, truncate}
use switch_emu_pub.Cpu.DpImm.AddSub.{
  add_sub_imm_generic, wide_immediate, move_wide_imm_generic, pc_relative_generic,
}
use switch_emu_pub.Cpu.DpImm.Logical.{
  length_loop, repeat_loop, repeated_element, logical_immediate, get_logical_immediate,
  logical_generic,
}
use switch_emu_pub.Cpu.DpImm.Bitfield.{
  moved_field, kept_bits, bitfield_move_generic, extracted, extract_generic,
}
use switch_emu_pub.Cpu.Preserve.Words.{
  truncate-lt, shr-lt, shl-lt, sign_extend-lt, add_with_carry-lt, Fits-write, Fits-write_sp,
  Fits-flags,
}
use switch_emu_pub.Cpu.Preserve.DpReg.{KeepsFits, KeepsWord}

pub add_sub_imm-Fits :
    (is64 is_sub updates : Bool) → KeepsFits (add_sub_imm_generic is64 is_sub updates)
unfolding add_sub_imm_generic
add_sub_imm-Fits is64 is_sub updates core inst fits =
    Fits-write_sp core (rd inst) _ _ fits (add_with_carry-lt is64 updates _ _ _ _) updates

wide_immediate-lt :
    (opc shift half old : ℕ) → old < 2 ^ 64 → wide_immediate opc shift half old < 2 ^ 64
unfolding wide_immediate
wide_immediate-lt opc shift half old h = ground (
  arith,
  shl-lt half shift,
  bit_and-lt 64 old (complement (shl 0xFFFF shift)),
  bit_or-lt 64 (bit_and old (complement (shl 0xFFFF shift))) (shl half shift),
)

pub move_wide_imm-Fits : (is64 : Bool) → KeepsFits (move_wide_imm_generic is64)
unfolding move_wide_imm_generic
move_wide_imm-Fits is64 core inst fits =
    Fits-write core _ _ _ fits
      (truncate-lt is64 _ (wide_immediate-lt (opc inst) _ _ _ (fits.regs (rd inst))))

pub pc_relative-Fits : (is_page : Bool) → KeepsFits (pc_relative_generic is_page)
unfolding pc_relative_generic
pc_relative-Fits is_page core inst fits = Fits-write core _ _ _ fits (omega arith)

repeat_loop-lt :
    (left esize welem ret : ℕ)
    → welem < 2 ^ 64
    → ret < 2 ^ 64
    → repeat_loop left esize welem ret < 2 ^ 64
unfolding repeat_loop
repeat_loop-lt zero esize welem ret hw hr = hr
repeat_loop-lt (suc left) esize welem ret hw hr =
    repeat_loop-lt left esize _ _ (shl-lt welem esize) (bit_or-lt 64 ret welem hr hw)

length_loop-le :
    (fuel j size length : ℕ) → size < 2 ^ suc j → length_loop fuel size length ≤ length + j
unfolding length_loop
length_loop-le zero j size length h = omega arith
length_loop-le (suc fuel) zero size length h = ground arith
length_loop-le (suc fuel) (suc j) size length h =
    ground (arith, pow-suc 2 (suc j), length_loop-le fuel j (size / 2) (length + 1))

-- A mask of at most 64 ones.
ones-lt : (s : ℕ) → s < 64 → 2 ^ (s + 1) - 1 < 2 ^ 64
ones-lt s h =
    omega (arith, pow-le-pow_right {n = 2} (omega arith) {i = s + 1} {j = 64} (omega arith))

repeated_element-lt : (k s r : ℕ) → k ≤ 6 → repeated_element k s r < 2 ^ 64
unfolding repeated_element
repeated_element-lt k s r h =
    repeat_loop-lt (64 / 2 ^ k) (2 ^ k) _ 0
      (bit_or-lt 64 _ _ (shr-lt _ (r % 2 ^ k) (ones-lt (s % 2 ^ k) few)) (omega arith))
      (omega arith)
  where
    few : s % 2 ^ k < 64
    few = omega (arith, one-le-pow k 2, pow-le-pow_right {n = 2} (omega arith) h)

logical_immediate_lem :
    (n s r : ℕ)
    → logical_immediate n s r
      ≡ repeated_element (length_loop 7 (n * 2 ^ 6 + complement s % 2 ^ 6) 0) s r
unfolding logical_immediate
logical_immediate_lem n s r = refl

logical_immediate-lt : (n s r : ℕ) → n < 2 → logical_immediate n s r < 2 ^ 64
logical_immediate-lt n s r h = rw (logical_immediate_lem n s r) (
    repeated_element-lt _ s r
      (length_loop-le 7 6 (n * 2 ^ 6 + complement s % 2 ^ 6) 0 (omega arith)))

pub logical-Fits :
    (is64 updates : Bool) (func : ℕ → ℕ → ℕ)
    → KeepsWord func
    → KeepsFits (logical_generic is64 updates func)
unfolding logical_generic get_logical_immediate
logical-Fits is64 updates func word core inst fits = Fits-flags _ _ (
    Fits-write_sp core (rd inst) _ core.pstate fits
      (truncate-lt is64 _ (
        word _ _ (fits.regs (rn inst))
          (logical_immediate-lt (n_field inst) (imms inst) (immr inst) (omega arith))))
      updates)

pub extract-Fits : (is64 : Bool) → KeepsFits (extract_generic is64)
unfolding extract_generic
extract-Fits is64 core inst fits =
    Fits-write core _ _ _ fits (extracted-lt is64 _ _ _ (fits.regs (rm inst)))
  where
    extracted-lt : (is64 : Bool) (lsb a b : ℕ) → b < 2 ^ 64 → extracted is64 lsb a b < 2 ^ 64
    extracted-lt is64 lsb a b h =
        truncate-lt is64 _ (bit_or-lt 64 _ _ (shr-lt _ lsb (truncate-lt is64 b h)) (shl-lt _ _))

moved_field-lt :
    (is64 : Bool) (s r val : ℕ) → s < 64 → val < 2 ^ 64 → moved_field is64 s r val < 2 ^ 64
unfolding moved_field
moved_field-lt is64 s r val hs h =
    bit_and-lt 64 _ _
      (bit_or-lt 64 _ _ (shr-lt _ r (field-lt _ (truncate-lt is64 val h))) (shl-lt _ _))
      (ground (arith, ones-lt s, shr-lt (2 ^ (s + 1) - 1)))
  where
    field-lt : (x : ℕ) → x < 2 ^ 64 → x % 2 ^ (s + 1) < 2 ^ 64
    field-lt x hx = omega arith

kept_bits-lt : (is64 : Bool) (s r old : ℕ) → old < 2 ^ 64 → kept_bits is64 s r old < 2 ^ 64
unfolding kept_bits
kept_bits-lt is64 s r old h = bit_and-lt 64 _ _ h (omega arith)

pub bitfield_move-Fits :
    (is64 write_zeros is_signed : Bool)
    → KeepsFits (bitfield_move_generic is64 write_zeros is_signed)
unfolding bitfield_move_generic
bitfield_move-Fits is64 write_zeros is_signed core inst fits =
    Fits-write core _ _ _ fits (truncate-lt is64 _ (ground (arith, field, kept, extended)))
  where
    source : ℕ
    source = truncate is64 (core.gp_regs (rn inst))

    final_pos : ℕ
    final_pos = (imms inst + width is64 - immr inst) % width is64

    field : moved_field is64 (imms inst) (immr inst) source < 2 ^ 64
    field = moved_field-lt is64 _ _ _ (omega arith) (truncate-lt is64 _ (fits.regs (rn inst)))

    extended : sign_extend final_pos (moved_field is64 (imms inst) (immr inst) source) < 2 ^ 64
    extended = sign_extend-lt final_pos _ field

    kept :
        bit_or
          (moved_field is64 (imms inst) (immr inst) source)
          (kept_bits is64 (imms inst) (immr inst) (core.gp_regs (rd inst)))
        < 2 ^ 64
    kept = bit_or-lt 64 _ _ field (kept_bits-lt is64 _ _ _ (fits.regs (rd inst)))
