-- ===== src/Cpu/DpReg/Quotient.antt =====
-- SDIV in libcpu/src/interpreter/DataProcessingReg.cpp divides signed numbers, at both widths.
use switch_emu_pub.Base.{
  ℕ, ◌^◌, ◌<◌, ◌≡◌, refl, ap, ◌==◌, ==_iff, Bool, Bool-cases, inl, inr, true, false, if◌then◌else◌,
  arith,
}
use switch_emu_pub.Base.Int.{ℤ, pos, negsuc, signed, to_word, quot}
use switch_emu_pub.Bits.{u32, sign_extend}
use switch_emu_pub.Cpu.State.{Core, set_reg}
use switch_emu_pub.Cpu.Inst.{rd, rn, rm}
use switch_emu_pub.Cpu.Alu.{width, truncate}
use switch_emu_pub.Cpu.DpReg.Divide.{signed_quotient, signed_divide}

-- Division that rounds to zero, with 0 for a division by 0.
unfoldable pub divided : ℕ → ℕ → ℕ → ℕ
divided w a b = if b == 0 then 0 else to_word w (quot (signed w a) (signed w b))

signed_extended : (x : ℕ) → x < 2 ^ 32 → signed 64 (sign_extend 32 x) ≡ signed 32 x
signed_extended x h = ground arith

extended_zero : (x : ℕ) → x < 2 ^ 32 → (sign_extend 32 x == 0) ≡ (x == 0)
extended_zero x h = ground arith

low_word : (z : ℤ) → u32 (to_word 64 z) ≡ to_word 32 z
unfolding to_word
low_word (pos n) = omega arith
low_word (negsuc n) = omega arith

overflow_case :
    0x8000000000000000
    ≡ to_word 64 (quot (signed 64 0x8000000000000000) (signed 64 0xFFFFFFFFFFFFFFFF))
unfolding to_word quot
overflow_case = refl

quotient_wide : (a b : ℕ) → signed_quotient true a b ≡ divided 64 a b
unfolding signed_quotient divided
quotient_wide a b = elim (Bool-cases (a == 0x8000000000000000)) [
  | inl t ↦ elim (Bool-cases (b == 0xFFFFFFFFFFFFFFFF)) [
    | inl u ↦ rw ((==_iff _ _).0 t, (==_iff _ _).0 u) overflow_case
    | inr u ↦ rw (t, u) refl
  ]
  | inr t ↦ rw t refl
]

quotient_narrow :
    (a b : ℕ)
    → a < 2 ^ 32
    → b < 2 ^ 32
    → u32 (signed_quotient false (sign_extend 32 a) (sign_extend 32 b)) ≡ divided 32 a b
unfolding signed_quotient divided
quotient_narrow a b ha hb = elim (Bool-cases (b == 0)) [
  | inl t ↦ rw (extended_zero b hb, t) refl
  | inr t ↦ rw (extended_zero b hb, t, signed_extended a ha, signed_extended b hb) (low_word _)
]

-- At either width, SDIV writes the two's complement of the quotient, rounded to zero, of the low
-- bits of its operands as signed numbers, 0 for a division by 0, and changes nothing else.
pub signed_divide_lem :
    (is64 : Bool) (core : Core) (inst : ℕ)
    → signed_divide is64 core inst
      ≡ set_reg core (rd inst) (
          divided
            (width is64)
            (truncate is64 (core.gp_regs (rn inst)))
            (truncate is64 (core.gp_regs (rm inst))))
unfolding signed_divide
signed_divide_lem true core inst =
    ap (set_reg core (rd inst)) (quotient_wide (core.gp_regs (rn inst)) (core.gp_regs (rm inst)))
signed_divide_lem false core inst =
    ap (set_reg core (rd inst)) (quotient_narrow _ _ (omega arith) (omega arith))
