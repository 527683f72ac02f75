-- ===== src/Cpu/Alu/Compare.antt =====
-- What the condition codes of libcpu/inc/instutils.h say after a subtraction that sets the flags.
use switch_emu_pub.Base.{
  ℕ, ◌+◌, ◌-◌, ◌%◌, ◌^◌, ◌<◌, ◌≡◌, ◌==◌, Bool, true, false, not, ◌||◌, leb, ltb, arith,
}
use switch_emu_pub.Base.Int.{ℤ, pos_part, neg_part, signed}
use switch_emu_pub.Bits.{complement}
use switch_emu_pub.Cpu.State.{PState}
use switch_emu_pub.Cpu.Alu.{Condition, test_condition, add_with_carry, width}

abbrev pub lt_ℤ : ℤ → ℤ → Bool
lt_ℤ a b = ltb (pos_part a + neg_part b) (pos_part b + neg_part a)

-- Whether the integer a - b is outside the range of `w` bits.
abbrev pub overflows : ℕ → ℤ → ℤ → Bool
overflows w a b =
    not (ltb (pos_part a + neg_part b) (pos_part b + neg_part a + 2 ^ (w - 1)))
    || ltb (pos_part a + neg_part b + 2 ^ (w - 1)) (pos_part b + neg_part a)

-- The order that each condition stands for after `a` was compared with `b`.
pub relation : ℕ → ℕ → ℕ → Condition → Bool
relation w a b Condition.eq = a == b
relation w a b Condition.ne = not (a == b)
relation w a b Condition.cs = leb b a
relation w a b Condition.cc = ltb a b
relation w a b Condition.mi = leb (2 ^ (w - 1)) ((a + 2 ^ w - b) % 2 ^ w)
relation w a b Condition.pl = ltb ((a + 2 ^ w - b) % 2 ^ w) (2 ^ (w - 1))
relation w a b Condition.vs = overflows w (signed w a) (signed w b)
relation w a b Condition.vc = not (overflows w (signed w a) (signed w b))
relation w a b Condition.hi = ltb b a
relation w a b Condition.ls = leb a b
relation w a b Condition.ge = not (lt_ℤ (signed w a) (signed w b))
relation w a b Condition.lt = lt_ℤ (signed w a) (signed w b)
relation w a b Condition.gt = lt_ℤ (signed w b) (signed w a)
relation w a b Condition.le = not (lt_ℤ (signed w b) (signed w a))
relation w a b Condition.al = true
relation w a b Condition.a2 = true

abbrev pub compare_flags : Bool → ℕ → ℕ → PState → PState
compare_flags is64 a b state = (add_with_carry is64 true a (complement b) 1 state).1

-- For operands within the width, after the adder set the flags for a - b each condition code
-- holds exactly when the relation it is named for holds between a and b.
pub test_condition-compare :
    (is64 : Bool) (a b : ℕ) (state : PState) (cond : Condition)
    → a < 2 ^ width is64
    → b < 2 ^ width is64
    → test_condition (compare_flags is64 a b state) cond ≡ relation (width is64) a b cond
unfolding add_with_carry test_condition relation
test_condition-compare true a b state Condition.eq ha hb = ground arith
test_condition-compare true a b state _ ha hb = ground arith
test_condition-compare false a b state Condition.eq ha hb = ground arith
test_condition-compare false a b state _ ha hb = ground arith
