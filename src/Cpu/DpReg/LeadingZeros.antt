-- ===== src/Cpu/DpReg/LeadingZeros.antt =====
-- The loop of CLZ in libcpu/src/interpreter/DataProcessingReg.cpp finds the highest bit that is set.
use native.Mathlib.Nat.{
  pow-suc, mod-add-div, mod-lt, mod-eq_of_lt, add-mul-mod_self_right, one-le-pow,
}
use switch_emu_pub.Base.{
  ℕ, zero, suc, ◌+◌, ◌-◌, ◌*◌, ◌/◌, ◌%◌, ◌^◌, ◌<◌, ◌≤◌, ◌≡◌, Bool, Bool-cases, inl, inr, true,
  false, refl, ap, subst, sym, ==_iff, ◌∙◌, arith,
}
use switch_emu_pub.Bits.{test_bit}
use switch_emu_pub.Cpu.Alu.{width}
use switch_emu_pub.Cpu.State.{Core, set_reg}
use switch_emu_pub.Cpu.Inst.{rd, rn}
use switch_emu_pub.Cpu.DpReg.Count.{clear_loop, count_leading_clear_bits}

-- `count` zeros stand above the highest bit of the low `w` bits of `val`.
pub record LeadingZeros (w val count : ℕ) : Type 0 where
  pub at_most : count ≤ w
  pub zeros : val < 2 ^ (w - count)
  pub top : 2 ^ (w - count) ≤ 2 * val + 1

regroup : (op m : ℕ) → op ≡ op % m + op / m % 2 * m + op / m / 2 * (m * 2)
regroup op m =
    let halves : m * (op / m) ≡ m * (op / m % 2 + 2 * (op / m / 2)) =
      ap (λ (t : ℕ). m * t) (omega arith) in
    omega (arith, mod-add-div op m, halves)

two_digits : (r d m : ℕ) → r < m → d < 2 → r + d * m < m * 2
two_digits r zero m hr hd = omega arith
two_digits r (suc zero) m hr hd = omega arith
two_digits r (suc (suc d)) m hr hd = absurd (omega arith)

split_top : (n op : ℕ) → op % 2 ^ suc n ≡ op % 2 ^ n + op / 2 ^ n % 2 * 2 ^ n
split_top n op =
    let m = 2 ^ n in
    let small : op % m + op / m % 2 * m < m * 2 =
      two_digits _ _ m (mod-lt op (one-le-pow n 2 (omega arith))) (omega arith) in
    rw (pow-suc 2 n) (
      ap (λ (t : ℕ). t % (m * 2)) (regroup op m)
      ∙ add-mul-mod_self_right (op % m + op / m % 2 * m) (op / m / 2) (m * 2)
      ∙ mod-eq_of_lt small)

found : (n op : ℕ) → test_bit op n ≡ true → op % 2 ^ suc n ≡ op % 2 ^ n + 2 ^ n
found n op h = ground (arith, split_top n op)

passed : (n op : ℕ) → test_bit op n ≡ false → op % 2 ^ suc n ≡ op % 2 ^ n
passed n op h = ground (arith, split_top n op)

none_above : (w val : ℕ) → val < 2 ^ w → 2 ^ w ≤ 2 * val + 1 → LeadingZeros w val 0
none_above w val below top =
    let whole : w ≡ w - 0 = omega arith in
    record {
      at_most = omega arith;
      zeros = subst (λ (t : ℕ). val < 2 ^ t) whole below;
      top = subst (λ (t : ℕ). 2 ^ t ≤ 2 * val + 1) whole top;
    }

one_more : (w val count : ℕ) → LeadingZeros w val count → LeadingZeros (suc w) val (suc count)
one_more w val count rest =
    let same : w - count ≡ suc w - suc count = omega arith in
    record {
      at_most = omega (arith, rest.at_most);
      zeros = subst (λ (t : ℕ). val < 2 ^ t) same rest.zeros;
      top = subst (λ (t : ℕ). 2 ^ t ≤ 2 * val + 1) same rest.top;
    }

clear_loop_run :
    (n op res : ℕ)
    → (count : ℕ) × (clear_loop n op res ≡ res + count) × LeadingZeros n (op % 2 ^ n) count
unfolding clear_loop
clear_loop_run zero op res =
    (0, omega arith, record { at_most = omega arith; zeros = omega arith; top = omega arith })
clear_loop_run (suc n) op res = elim (Bool-cases (test_bit op n)) [
  | inl t ↦ (
    0,
    rw t (omega arith),
    none_above (suc n) (op % 2 ^ suc n) (mod-lt op (one-le-pow (suc n) 2 (omega arith)))
        (omega (arith, found n op t, pow-suc 2 n)),
  )
  | inr t ↦
      let (count, run, rest) = clear_loop_run n op (res + 1) in
      (suc count, rw t (run ∙ omega arith), rw (passed n op t) (one_more n (op % 2 ^ n) count rest))
]

written : (core : Core) (r val : ℕ) → (set_reg core r val).gp_regs r ≡ val
written core r val = rw ((==_iff r r).1 refl) refl

-- At either width, CLZ writes the number of zeros above the highest bit that is set in the low
-- bits of its operand, and the width where none is set.
pub count_leading_clear_bits-LeadingZeros :
    (is64 : Bool) (core : Core) (inst : ℕ)
    → LeadingZeros
        (width is64)
        (core.gp_regs (rn inst) % 2 ^ width is64)
        ((count_leading_clear_bits is64 core inst).gp_regs (rd inst))
unfolding count_leading_clear_bits
count_leading_clear_bits-LeadingZeros is64 core inst =
    let (count, run, zeros) = clear_loop_run (width is64) (core.gp_regs (rn inst)) 0 in
    subst (LeadingZeros (width is64) _) (sym (written core (rd inst) _ ∙ run ∙ omega arith)) zeros
