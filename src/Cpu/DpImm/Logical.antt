-- ===== src/Cpu/DpImm/Logical.antt =====
-- libcpu/src/interpreter/DataProcessingImm.cpp and getLogicalImmediate of libcpu/inc/instutils.h.
use Prim.Native.Nat.{bit_and, bit_or, bit_xor}
use switch_emu_pub.Base.{
  ℕ, zero, suc, ◌+◌, ◌-◌, ◌*◌, ◌/◌, ◌%◌, ◌^◌, ltb, Bool, true, false, if◌then◌else◌,
}
use switch_emu_pub.Bits.{complement, shl, shr}
use switch_emu_pub.Cpu.State.{Core}
use switch_emu_pub.Cpu.Inst.{rd, rn, imms, immr, n_field}
use switch_emu_pub.Cpu.Alu.{truncate}
use switch_emu_pub.Cpu.DpReg.AddSub.{write_reg_or_sp}
use switch_emu_pub.Cpu.DpReg.Logical.{logical_flags}

-- `for (; size > 1; length++, size >>= 1)`; seven rounds are enough for a size below 2 ^ 7.
unfoldable pub length_loop : ℕ → ℕ → ℕ → ℕ
length_loop zero size length = length
length_loop (suc fuel) size length =
    let rest = length_loop fuel (size / 2) (length + 1) in if ltb 1 size then rest else length

-- `ret |= welem; welem <<= esize`, for the rounds left.
unfoldable pub repeat_loop : ℕ → ℕ → ℕ → ℕ → ℕ
repeat_loop zero esize welem ret = ret
repeat_loop (suc left) esize welem ret = repeat_loop left esize (shl welem esize) (bit_or ret welem)

-- The element of `2 ^ length` bits, and its copies in the word.
unfoldable pub repeated_element : ℕ → ℕ → ℕ → ℕ
unfolding repeat_loop
repeated_element length imms immr =
    let s = imms % 2 ^ length in
    let r = immr % 2 ^ length in
    let esize = 2 ^ length in
    let ones = 2 ^ (s + 1) - 1 in
    let welem = bit_or (shr ones r) (shl ones (esize - r) % 2 ^ esize) in
    repeat_loop (64 / esize) esize welem 0

unfoldable pub logical_immediate : ℕ → ℕ → ℕ → ℕ
unfolding length_loop repeated_element
logical_immediate n imms immr =
    let size = n * 2 ^ 6 + complement imms % 2 ^ 6 in
    repeated_element (length_loop 7 size 0) imms immr

unfoldable pub get_logical_immediate : ℕ → ℕ
unfolding logical_immediate
get_logical_immediate inst = logical_immediate (n_field inst) (imms inst) (immr inst)

unfoldable pub logical_generic : Bool → Bool → (ℕ → ℕ → ℕ) → Core → ℕ → Core
logical_generic is64 updates_flags func core inst =
    let res = truncate is64 (func (core.gp_regs (rn inst)) (get_logical_immediate inst)) in
    let written = write_reg_or_sp core updates_flags (rd inst) res in
    record written { pstate = if updates_flags then logical_flags is64 res else core.pstate }

abbrev pub and32_imm : Core → ℕ → Core
and32_imm = logical_generic false false bit_and

abbrev pub orr32_imm : Core → ℕ → Core
orr32_imm = logical_generic false false bit_or

abbrev pub eor32_imm : Core → ℕ → Core
eor32_imm = logical_generic false false bit_xor

abbrev pub ands32_imm : Core → ℕ → Core
ands32_imm = logical_generic false true bit_and

abbrev pub and64_imm : Core → ℕ → Core
and64_imm = logical_generic true false bit_and

abbrev pub orr64_imm : Core → ℕ → Core
orr64_imm = logical_generic true false bit_or

abbrev pub eor64_imm : Core → ℕ → Core
eor64_imm = logical_generic true false bit_xor

abbrev pub ands64_imm : Core → ℕ → Core
ands64_imm = logical_generic true true bit_and
