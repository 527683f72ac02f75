-- ===== src/Cpu/Preserve/Simd.antt =====
-- The handlers of libcpu/src/interpreter/simd.cpp keep the general registers within 64 bits.
use native.Mathlib.Nat.{mod-lt, one-le-pow, pow-le-pow_right}
use switch_emu_pub.Base.{
  ℕ, zero, suc, ◌+◌, ◌*◌, ◌/◌, ◌%◌, ◌^◌, ◌<◌, ◌≤◌, ltb, Bool, true, false, if◌then◌else◌, arith,
}
use switch_emu_pub.Bits.{sign_extend}
use switch_emu_pub.Cpu.State.{Core, VReg, Fits, set_vreg}
use switch_emu_pub.Cpu.Inst.{rd, rn}
use switch_emu_pub.Cpu.Simd.Elements.{part, element, for_elements}
use switch_emu_pub.Cpu.Simd.Move.{
  dup_general, ins_general, fmov_vector_imm_single, movi_general, mov_general, moved_element,
}
use switch_emu_pub.Cpu.Simd.Arith.{
  orr_register_vector, and_vector, add_vector, cmeq_vec_generic, addp_vec,
}
use switch_emu_pub.Cpu.Preserve.Words.{Fits-write, sign_extend-lt}
use switch_emu_pub.Cpu.Preserve.DpReg.{KeepsFits}

set_vreg-Fits : (core : Core) (r : ℕ) (v : VReg) → Fits core → Fits (set_vreg core r v)
set_vreg-Fits core r v fits = record {
  regs = fits.regs;
  pc_lt = fits.pc_lt;
  sp_lt = fits.sp_lt;
  tls_lt = fits.tls_lt;
  next_lt = fits.next_lt;
}

for_elements-Fits :
    (body : ℕ → Core → Core) (count first : ℕ) (core : Core)
    → ((i : ℕ) (c : Core) → Fits c → Fits (body i c))
    → Fits core
    → Fits (for_elements body count first core)
unfolding for_elements
for_elements-Fits body zero first core keeps fits = fits
for_elements-Fits body (suc count) first core keeps fits =
    for_elements-Fits body count (first + 1) (body first core) keeps (keeps first core fits)

pub dup_general-Fits : KeepsFits dup_general
unfolding dup_general
dup_general-Fits core inst fits =
    for_elements-Fits _ _ 0 core (λ i c f. set_vreg-Fits c (rd inst) _ f) fits

pub ins_general-Fits : KeepsFits ins_general
unfolding ins_general
ins_general-Fits core inst fits = set_vreg-Fits core (rd inst) _ fits

pub fmov_vector_imm_single-Fits : KeepsFits fmov_vector_imm_single
unfolding fmov_vector_imm_single
fmov_vector_imm_single-Fits core inst fits = set_vreg-Fits _ (rd inst) _ (
    set_vreg-Fits _ (rd inst) _ (set_vreg-Fits _ (rd inst) _ (set_vreg-Fits core (rd inst) _ fits)))

pub movi_general-Fits : (size flags : ℕ) → KeepsFits (movi_general size flags)
unfolding movi_general
movi_general-Fits size flags core inst fits = set_vreg-Fits core (rd inst) _ fits

pub orr_register_vector-Fits : KeepsFits orr_register_vector
unfolding orr_register_vector
orr_register_vector-Fits core inst fits = set_vreg-Fits core (rd inst) _ fits

pub and_vector-Fits : KeepsFits and_vector
unfolding and_vector
and_vector-Fits core inst fits = set_vreg-Fits core (rd inst) _ fits

pub add_vector-Fits : KeepsFits add_vector
unfolding add_vector
add_vector-Fits core inst fits =
    for_elements-Fits _ _ 0 core (λ i c f. set_vreg-Fits c (rd inst) _ f) fits

pub cmeq_vec_generic-Fits : (is_zero : Bool) → KeepsFits (cmeq_vec_generic is_zero)
unfolding cmeq_vec_generic
cmeq_vec_generic-Fits is_zero core inst fits =
    for_elements-Fits _ _ 0 core (λ i c f. set_vreg-Fits c (rd inst) _ f) fits

pub addp_vec-Fits : KeepsFits addp_vec
unfolding addp_vec
addp_vec-Fits core inst fits =
    for_elements-Fits _ _ 0 core
      (λ i c f. set_vreg-Fits _ (rd inst) _ (set_vreg-Fits c (rd inst) _ f)) fits

part-lt : (bits pos half : ℕ) → bits ≤ 64 → part bits pos half < 2 ^ 64
part-lt bits pos half small =
    let top : 2 ^ bits ≤ 2 ^ 64 = pow-le-pow_right (omega arith) small in
    omega (arith, mod-lt (half / 2 ^ pos) (one-le-pow bits 2 (omega arith)), top)

element-lt : (bits i : ℕ) (v : VReg) → bits ≤ 64 → element bits i v < 2 ^ 64
unfolding element
element-lt bits i v small = either (ltb (i * bits) 64)
  where
    either :
        (b : Bool)
        → (if b then part bits (i * bits % 64) v.d0 else part bits (i * bits % 64) v.d1) < 2 ^ 64
    either true = part-lt bits (i * bits % 64) v.d0 small
    either false = part-lt bits (i * bits % 64) v.d1 small

moved_value-lt :
    (is64 is_signed : Bool) (bits val : ℕ)
    → val < 2 ^ 64
    → (if is64
        then (if is_signed then sign_extend bits val else val)
        else (if is_signed then sign_extend bits val else val) % 2 ^ 32)
      < 2 ^ 64
moved_value-lt true true bits val h = sign_extend-lt bits val h
moved_value-lt true false bits val h = h
moved_value-lt false is_signed bits val h = omega arith

pub mov_general-Fits : (is64 is_signed : Bool) → KeepsFits (mov_general is64 is_signed)
unfolding mov_general
mov_general-Fits is64 is_signed core inst fits =
    let small : (moved_element inst).0 ≤ 64 = ground arith in
    Fits-write core (rd inst) _ core.pstate fits (
      moved_value-lt is64 is_signed ((moved_element inst).0) _ (
        element-lt ((moved_element inst).0) ((moved_element inst).1) (core.v_regs (rn inst)) small))
