-- ===== src/Cpu/Simd/Arith.antt =====
-- The operations of libcpu/src/interpreter/simd.cpp on elements and on whole registers.
use Prim.Native.Nat.{bit_and, bit_or}
use switch_emu_pub.Base.{ℕ, ◌+◌, ◌-◌, ◌*◌, ◌/◌, ◌^◌, ◌==◌, Bool, true, false, if◌then◌else◌}
use switch_emu_pub.Bits.{test_bit}
use switch_emu_pub.Cpu.State.{Core, set_vreg}
use switch_emu_pub.Cpu.Inst.{rd, rn, rm, f22_23}
use switch_emu_pub.Cpu.Simd.Elements.{
  vector_element, set_vector_element, for_elements, element_bits, num_elements,
}

unfoldable pub orr_register_vector : Core → ℕ → Core
orr_register_vector core inst =
    let a = core.v_regs (rn inst) in
    let b = core.v_regs (rm inst) in
    set_vreg core (rd inst)
      (record { d0 = bit_or a.d0 b.d0; d1 = if test_bit inst 30 then bit_or a.d1 b.d1 else 0 })

-- The upper half stays where the operation is of 64 bits.
unfoldable pub and_vector : Core → ℕ → Core
and_vector core inst =
    let a = core.v_regs (rn inst) in
    let b = core.v_regs (rm inst) in
    set_vreg core (rd inst) (record {
      d0 = bit_and a.d0 b.d0;
      d1 = if test_bit inst 30 then bit_and a.d1 b.d1 else (core.v_regs (rd inst)).d1;
    })

unfoldable pub add_vector : Core → ℕ → Core
add_vector core inst =
    let bits = element_bits (f22_23 inst) in
    for_elements
      (λ i c.
        set_vector_element (rd inst) bits i
          (vector_element (rn inst) bits i c + vector_element (rm inst) bits i c) c)
      (num_elements (f22_23 inst) inst) 0 core

unfoldable pub cmeq_vec_generic : Bool → Core → ℕ → Core
cmeq_vec_generic is_zero core inst =
    let bits = element_bits (f22_23 inst) in
    for_elements
      (λ i c.
        set_vector_element (rd inst) bits i
          (if vector_element (rn inst) bits i c
              == (if is_zero then 0 else vector_element (rm inst) bits i c)
            then 2 ^ bits - 1
            else 0)
          c)
      (num_elements (f22_23 inst) inst) 0 core

abbrev pub cmeq_vec_reg : Core → ℕ → Core
cmeq_vec_reg = cmeq_vec_generic false

abbrev pub cmeq_vec_zero : Core → ℕ → Core
cmeq_vec_zero = cmeq_vec_generic true

-- The sum of the elements `2 * i` and `2 * i + 1` of a register.
abbrev pub pair_sum : ℕ → ℕ → ℕ → Core → ℕ
pair_sum r bits i core = vector_element r bits (2 * i) core + vector_element r bits (2 * i + 1) core

unfoldable pub addp_vec : Core → ℕ → Core
addp_vec core inst =
    let bits = element_bits (f22_23 inst) in
    let half = num_elements (f22_23 inst) inst / 2 in
    for_elements
      (λ i c.
        let low = set_vector_element (rd inst) bits i (pair_sum (rn inst) bits i c) c in
        set_vector_element (rd inst) bits (i + half) (pair_sum (rm inst) bits i low) low)
      half 0 core
