-- ===== src/Cpu/DpReg/Count.antt =====
-- libcpu/src/interpreter/DataProcessingReg.cpp: runs of equal bits from the top.
use switch_emu_pub.Base.{ℕ, zero, suc, ◌+◌, Bool, true, false, if◌then◌else◌}
use switch_emu_pub.Bits.{test_bit}
use switch_emu_pub.Cpu.State.{Core, set_reg}
use switch_emu_pub.Cpu.Inst.{rd, rn}
use switch_emu_pub.Cpu.Alu.{width}

-- The loop `while (index >= 0 && !testBit(op, index))`; the first argument is `index + 1`.
unfoldable pub clear_loop : ℕ → ℕ → ℕ → ℕ
clear_loop zero op res = res
clear_loop (suc index) op res =
    let rest = clear_loop index op (res + 1) in if test_bit op index then res else rest

unfoldable pub count_leading_clear_bits : Bool → Core → ℕ → Core
unfolding clear_loop
count_leading_clear_bits is64 core inst =
    set_reg core (rd inst) (clear_loop (width is64) (core.gp_regs (rn inst)) 0)

abbrev pub clz32 : Core → ℕ → Core
clz32 = count_leading_clear_bits false

abbrev pub clz64 : Core → ℕ → Core
clz64 = count_leading_clear_bits true

-- The same loop on `testBit(op, index)`.
unfoldable pub set_loop : ℕ → ℕ → ℕ → ℕ
set_loop zero op res = res
set_loop (suc index) op res =
    let rest = set_loop index op (res + 1) in if test_bit op index then rest else res

unfoldable pub count_leading_set_bits : Bool → Core → ℕ → Core
unfolding set_loop
count_leading_set_bits is64 core inst =
    set_reg core (rd inst) (set_loop (width is64) (core.gp_regs (rn inst)) 0)

abbrev pub cls32 : Core → ℕ → Core
cls32 = count_leading_set_bits false

abbrev pub cls64 : Core → ℕ → Core
cls64 = count_leading_set_bits true
