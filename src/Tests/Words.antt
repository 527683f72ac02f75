-- ===== src/Tests/Words.antt =====
-- Runs of the operations on words of libcpu/inc/instutils.h and DataProcessingReg.cpp.
use switch_emu_pub.Base.{◌≡◌, refl, true, false, arith, ◌^◌, ◌/◌, ◌*◌}
use switch_emu_pub.Base.Int.{signed, ◌*ℤ◌, to_word}
use switch_emu_pub.Cpu.State.{PState}
use switch_emu_pub.Cpu.Alu.{Condition, test_condition, add_with_carry}
use switch_emu_pub.Cpu.Alu.Flags.{IsSum, add_with_carry-IsSum}
use switch_emu_pub.Cpu.Alu.Compare.{test_condition-compare, compare_flags, relation}
use switch_emu_pub.Cpu.DpReg.Multiply.{unsigned_high, signed_high}
use switch_emu_pub.Cpu.DpReg.HighProduct.{unsigned_high_lem, signed_high_lem}

abbrev clear_flags : PState
clear_flags = record { n = false; z = false; c = false; v = false }

-- 2 ^ 31 - 1 and 1, with high bits that the 32-bit adder is not to see.
add_with_carry-IsSum_example :
    IsSum 32 0x7fffffff 1 0 (add_with_carry false true 0x17fffffff 0x200000001 0 clear_flags)
add_with_carry-IsSum_example =
    add_with_carry-IsSum false 0x17fffffff 0x200000001 0 clear_flags (omega arith) (omega arith)
      (omega arith)

-- -1 against 1: less as signed numbers.
test_condition-compare_example :
    test_condition (compare_flags false 0xffffffff 1 clear_flags) Condition.lt
    ≡ relation 32 0xffffffff 1 Condition.lt
test_condition-compare_example =
    test_condition-compare false 0xffffffff 1 clear_flags Condition.lt (omega arith) (omega arith)

unsigned_high_lem_example :
    unsigned_high 0xffffffffffffffff 0xfffffffffffffffe
    ≡ 0xffffffffffffffff * 0xfffffffffffffffe / 2 ^ 64
unsigned_high_lem_example =
    unsigned_high_lem 0xffffffffffffffff 0xfffffffffffffffe (omega arith) (omega arith)

-- -1 times 5.
signed_high_lem_example :
    signed_high 0xffffffffffffffff 5
    ≡ to_word 128 (signed 64 0xffffffffffffffff *ℤ signed 64 5) / 2 ^ 64
signed_high_lem_example = signed_high_lem 0xffffffffffffffff 5 (omega arith) (omega arith)

signed_high_run : signed_high 0xffffffffffffffff 5 ≡ 0xffffffffffffffff
unfolding signed_high unsigned_high
signed_high_run = refl
