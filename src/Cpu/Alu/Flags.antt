-- ===== src/Cpu/Alu/Flags.antt =====
-- The adder of libcpu/inc/instutils.h against exact arithmetic on unsigned and signed numbers.
use switch_emu_pub.Base.{
  ℕ, ◌+◌, ◌-◌, ◌%◌, ◌^◌, ◌<◌, ◌≤◌, ◌≡◌, refl, ◌==◌, Bool, true, false, not, leb, arith,
}
use switch_emu_pub.Base.Int.{pos, ◌+ℤ◌, signed, eq_ℤ}
use native.Mathlib.Nat.{mod-eq_of_lt}
use switch_emu_pub.Bits.{u64, u32, test_bit}
use switch_emu_pub.Cpu.State.{PState}
use switch_emu_pub.Cpu.Alu.{add_with_carry, width}

-- What the adder is to return on two operands of `w` bits.
pub record IsSum (w a b carry : ℕ) (r : ℕ × PState) : Type 0 where
  pub result : r.0 ≡ (a + b + carry) % 2 ^ w
  pub negative : r.1.n ≡ leb (2 ^ (w - 1)) r.0
  pub zero : r.1.z ≡ (r.0 == 0)
  pub carry_out : r.1.c ≡ leb (2 ^ w) (a + b + carry)
  pub overflow : r.1.v ≡ not (eq_ℤ (signed w r.0) (signed w a +ℤ signed w b +ℤ pos carry))

add_with_carry-IsSum_of_lt :
    (is64 : Bool) (a b carry : ℕ) (state : PState)
    → a < 2 ^ width is64
    → b < 2 ^ width is64
    → carry ≤ 1
    → IsSum (width is64) a b carry (add_with_carry is64 true a b carry state)
unfolding add_with_carry ◌+ℤ◌
add_with_carry-IsSum_of_lt true a b carry state ha hb hc = record {
  result = ground arith;
  negative = ground arith;
  zero = ground arith;
  carry_out = ground arith;
  overflow = ground arith;
}
add_with_carry-IsSum_of_lt false a b carry state ha hb hc = record {
  result = ground arith;
  negative = ground arith;
  zero = ground arith;
  carry_out = ground arith;
  overflow = ground arith;
}

-- The 32-bit adder does not see the high halves of its operands.
pub add_with_carry_low :
    (updates : Bool) (op1 op2 carry : ℕ) (state : PState)
    → carry ≤ 1
    → add_with_carry false updates op1 op2 carry state
      ≡ add_with_carry false updates (op1 % 2 ^ 32) (op2 % 2 ^ 32) carry state
unfolding add_with_carry
add_with_carry_low true op1 op2 carry state h =
    rw (sums, tops op1, tops op2, lows op1, lows op2) refl
  where
    sums : u32 (u64 (op1 + op2 + carry)) ≡ u32 (u64 (op1 % 2 ^ 32 + op2 % 2 ^ 32 + carry))
    sums = omega arith

    tops : (x : ℕ) → test_bit x 31 ≡ test_bit (x % 2 ^ 32) 31
    tops x = ground arith

    lows : (x : ℕ) → x % 2 ^ 31 ≡ x % 2 ^ 32 % 2 ^ 31
    lows x = omega arith
add_with_carry_low false op1 op2 carry state h = ground arith

-- With a carry of at most 1 and operands below 2 ^ 64, at either width, the result is the sum
-- modulo the width of the low bits of the operands, N is its top bit, Z says that it is zero, C
-- that the exact sum does not fit, and V that the signed reading of the result is not the exact
-- signed sum.
pub add_with_carry-IsSum :
    (is64 : Bool) (op1 op2 carry : ℕ) (state : PState)
    → op1 < 2 ^ 64
    → op2 < 2 ^ 64
    → carry ≤ 1
    → IsSum
        (width is64)
        (op1 % 2 ^ width is64)
        (op2 % 2 ^ width is64)
        carry
        (add_with_carry is64 true op1 op2 carry state)
add_with_carry-IsSum true op1 op2 carry state h1 h2 hc =
    rw (mod-eq_of_lt h1, mod-eq_of_lt h2)
      (add_with_carry-IsSum_of_lt true op1 op2 carry state h1 h2 hc)
add_with_carry-IsSum false op1 op2 carry state h1 h2 hc =
    rw (add_with_carry_low true op1 op2 carry state hc)
      (add_with_carry-IsSum_of_lt false _ _ carry state (omega arith) (omega arith) hc)

pub add_with_carry_keeps :
    (is64 : Bool) (op1 op2 carry : ℕ) (state : PState)
    → add_with_carry is64 false op1 op2 carry state
      ≡ ((add_with_carry is64 true op1 op2 carry state).0, state)
unfolding add_with_carry
add_with_carry_keeps true op1 op2 carry state = refl
add_with_carry_keeps false op1 op2 carry state = refl
