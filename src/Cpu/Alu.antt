-- ===== src/Cpu/Alu.antt =====
-- libcpu/inc/instutils.h: condition codes, shifts and the adder.
pub mod Flags
pub mod Compare
use switch_emu_pub.Base.{
  ℕ, ◌+◌, ◌-◌, ◌%◌, ◌^◌, ◌==◌, Bool, true, false, ◌&&◌, ◌||◌, not, same, if◌then◌else◌,
}
use switch_emu_pub.Bits.{u64, u32, shl, shr, test_bit, sign_extend}
use switch_emu_pub.Cpu.State.{PState}
use Prim.Native.Nat.{bit_or}

pub data ShiftType : Type 0 where
  lsl lsr asr ror : ShiftType

-- `static_cast<SHIFT_TYPE>` of a two-bit field.
unfoldable pub shift_type : ℕ → ShiftType
shift_type t =
    if t == 0
    then ShiftType.lsl
    else if t == 1
    then ShiftType.lsr
    else if t == 2
    then ShiftType.asr
    else ShiftType.ror

unfoldable pub shift_by : ShiftType → ℕ → ℕ → ℕ → ℕ
shift_by ShiftType.lsl val amount bits = shl val amount
shift_by ShiftType.lsr val amount bits = shr val amount
shift_by ShiftType.asr val amount bits = sign_extend (bits - amount) (shr val amount)
shift_by ShiftType.ror val amount bits = bit_or (shr val amount) (shl val (bits - amount))

unfoldable pub shift : ℕ → ShiftType → ℕ → ℕ → ℕ
unfolding shift_by
shift val t amount bits = if amount == 0 then val else shift_by t val amount bits

pub data Condition : Type 0 where
  eq ne cs cc mi pl vs vc hi ls ge lt gt le al a2 : Condition

unfoldable pub test_condition : PState → Condition → Bool
test_condition state Condition.eq = state.z
test_condition state Condition.ne = not state.z
test_condition state Condition.cs = state.c
test_condition state Condition.cc = not state.c
test_condition state Condition.mi = state.n
test_condition state Condition.pl = not state.n
test_condition state Condition.vs = state.v
test_condition state Condition.vc = not state.v
test_condition state Condition.hi = state.c && not state.z
test_condition state Condition.ls = not (state.c && not state.z)
test_condition state Condition.ge = same state.n state.v
test_condition state Condition.lt = not (same state.n state.v)
test_condition state Condition.gt = same state.n state.v && not state.z
test_condition state Condition.le = not (same state.n state.v && not state.z)
test_condition state Condition.al = true
test_condition state Condition.a2 = true

-- The operand width in bits.
abbrev pub width : Bool → ℕ
width true = 64
width false = 32

abbrev pub msb : Bool → ℕ
msb true = 63
msb false = 31

-- The low bits that an instruction of the width keeps.
abbrev pub truncate : Bool → ℕ → ℕ
truncate true val = val
truncate false val = u32 val

-- The result and the flags after it; `updates_flags` false leaves the flags alone.
unfoldable pub add_with_carry : Bool → Bool → ℕ → ℕ → ℕ → PState → ℕ × PState
add_with_carry is64 updates_flags op1 op2 carry state =
    let result = truncate is64 (u64 (op1 + op2 + carry)) in
    let op1_msb = test_bit op1 (msb is64) in
    let op2_msb = test_bit op2 (msb is64) in
    let res_msb = test_bit result (msb is64) in
    let partial = u64 (op1 % 2 ^ msb is64 + op2 % 2 ^ msb is64 + carry) in
    let par_msb = test_bit partial (msb is64) in
    (
      result,
      if updates_flags
          then record {
            n = res_msb;
            z = result == 0;
            c = (op1_msb && op2_msb) || (op1_msb && par_msb) || (op2_msb && par_msb);
            v = same op1_msb op2_msb && not (same op1_msb res_msb);
          }
          else state,
    )

-- `static_cast<Condition>` of a four-bit field.
unfoldable pub condition : ℕ → Condition
condition c =
    if c == 0
    then Condition.eq
    else if c == 1
    then Condition.ne
    else if c == 2
    then Condition.cs
    else if c == 3
    then Condition.cc
    else if c == 4
    then Condition.mi
    else if c == 5
    then Condition.pl
    else if c == 6
    then Condition.vs
    else if c == 7
    then Condition.vc
    else if c == 8
    then Condition.hi
    else if c == 9
    then Condition.ls
    else if c == 10
    then Condition.ge
    else if c == 11
    then Condition.lt
    else if c == 12
    then Condition.gt
    else if c == 13
    then Condition.le
    else if c == 14
    then Condition.al
    else Condition.a2
