-- ===== src/Cpu/Simd/Elements.antt =====
-- The elements B, H, S and D of a vector register, and the loops of simd.cpp over them.
use switch_emu_pub.Base.{ℕ, zero, suc, ◌+◌, ◌*◌, ◌/◌, ◌%◌, ◌^◌, ltb, if◌then◌else◌}
use switch_emu_pub.Bits.{test_bit}
use switch_emu_pub.Cpu.State.{Core, VReg, set_vreg}

-- Bits of a half of the register, from `pos` on.
abbrev pub part : ℕ → ℕ → ℕ → ℕ
part bits pos half = half / 2 ^ pos % 2 ^ bits

abbrev pub set_part : ℕ → ℕ → ℕ → ℕ → ℕ
set_part bits pos val half =
    half % 2 ^ pos + val % 2 ^ bits * 2 ^ pos + half / (2 ^ pos * 2 ^ bits) * (2 ^ pos * 2 ^ bits)

-- The element at an index, of `bits` bits.
unfoldable pub element : ℕ → ℕ → VReg → ℕ
element bits i v =
    let pos = i * bits % 64 in if ltb (i * bits) 64 then part bits pos v.d0 else part bits pos v.d1

unfoldable pub set_element : ℕ → ℕ → ℕ → VReg → VReg
set_element bits i val v =
    let pos = i * bits % 64 in
    if ltb (i * bits) 64
    then record v { d0 = set_part bits pos val v.d0 }
    else record v { d1 = set_part bits pos val v.d1 }

-- `core->VRegs[r]` at an index, read and written.
abbrev pub vector_element : ℕ → ℕ → ℕ → Core → ℕ
vector_element r bits i core = element bits i (core.v_regs r)

abbrev pub set_vector_element : ℕ → ℕ → ℕ → ℕ → Core → Core
set_vector_element r bits i val core = set_vreg core r (set_element bits i val (core.v_regs r))

-- `for (i = first; ...; i++)` with `count` rounds; each round sees what the earlier ones wrote.
unfoldable pub for_elements : (ℕ → Core → Core) → ℕ → ℕ → Core → Core
for_elements body zero first core = core
for_elements body (suc count) first core = for_elements body count (first + 1) (body first core)

-- `esize`, and the number of elements in 128 or 64 bits.
abbrev pub element_bits : ℕ → ℕ
element_bits size = 8 * 2 ^ size

abbrev pub num_elements : ℕ → ℕ → ℕ
num_elements size inst = (if test_bit inst 30 then 128 else 64) / element_bits size

-- The size that the lowest bit of `_16_20` names; 0 where none does.
abbrev pub size_of_imm5 : ℕ → ℕ
size_of_imm5 imm5 =
    if test_bit imm5 0
    then 0
    else if test_bit imm5 1
    then 1
    else if test_bit imm5 2
    then 2
    else if test_bit imm5 3
    then 3
    else 0
