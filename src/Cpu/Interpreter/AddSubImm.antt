-- ===== src/Cpu/Interpreter/AddSubImm.antt =====
-- The words of ADD and SUB with an immediate from decode to the handler table, and what a step of
-- libcpu/src/interpreter/interpreter.cpp over one leaves in the machine.
pub mod Step
use switch_emu_pub.Base.{
  ℕ, ◌+◌, ◌-◌, ◌*◌, ◌/◌, ◌%◌, ◌^◌, ◌<◌, ◌≤◌, ◌≡◌, ◌≢◌, inl, inr, refl, sym, ◌∙◌, ap, subst, Bool,
  Bool-cases, true, false, not, ◌&&◌, Option, some, ◌==◌, ==_iff, test_false, if◌then◌else◌, ltb,
  arith,
}
use switch_emu_pub.Bits.{u64, bit_range, test_bit, shl}
use switch_emu_pub.Mem.Access.{fetch}
use switch_emu_pub.Cpu.State.{Core, Machine, PState, IsValid, WellFormed, Fits}
use switch_emu_pub.Cpu.Outcome.{Outcome, done, ◌>>=◌}
use switch_emu_pub.Cpu.Access.{mapped_or_fault}
use switch_emu_pub.Cpu.Inst.{rd, rn, f10_21}
use switch_emu_pub.Cpu.Decode.{decode}
use switch_emu_pub.Cpu.Decode.DpImm.{decode_dp_imm, decode_add_sub_imm}
use switch_emu_pub.Cpu.InstructionId.{InstructionId}
use switch_emu_pub.Cpu.InstructionId.Index.{index}
use switch_emu_pub.Cpu.Alu.{width, add_with_carry, truncate}
use switch_emu_pub.Cpu.Alu.Flags.{IsSum, add_with_carry-IsSum, add_with_carry_keeps}
use switch_emu_pub.Cpu.DpReg.AddSub.{reg_or_sp, negate_if, carry_in}
use switch_emu_pub.Cpu.DpImm.AddSub.{add_sub_imm_generic}
use switch_emu_pub.Cpu.Interpreter.{Handlers, on_core, instruction_map, step, retire}
use switch_emu_pub.Cpu.Interpreter.FloatTable.{float_instructions}
use switch_emu_pub.Cpu.Interpreter.SimdTable.{simd_instructions}
use switch_emu_pub.Cpu.LoadStore.Table.{load_store_instructions}

-- The fields of the encoding: bits 31 to 29 are sf, op and S, bits 28 to 23 are 100010.
pub record IsAddSubImm (is64 is_sub updates : Bool) (w : ℕ) : Type 0 where
  pub operation :
      bit_range 29 31 w
      ≡ (if is64 then 4 else 0) + (if is_sub then 2 else 0) + (if updates then 1 else 0)
  pub group : bit_range 25 28 w ≡ 8
  pub class : bit_range 23 25 w ≡ 2
  pub shifted : bit_range 22 23 w ≤ 1

unfoldable pub identifier : Bool → Bool → Bool → InstructionId
identifier false false false = InstructionId.add_32_imm
identifier false false true = InstructionId.adds_32_imm
identifier false true false = InstructionId.sub_32_imm
identifier false true true = InstructionId.subs_32_imm
identifier true false false = InstructionId.add_64_imm
identifier true false true = InstructionId.adds_64_imm
identifier true true false = InstructionId.sub_64_imm
identifier true true true = InstructionId.subs_64_imm

below_two : (w : ℕ) → bit_range 22 23 w ≤ 1 → ltb 1 (bit_range 22 23 w) ≡ false
below_two w h = ground arith

pub decoded :
    (is64 is_sub updates : Bool) (w : ℕ)
    → IsAddSubImm is64 is_sub updates w
    → decode w ≡ identifier is64 is_sub updates
unfolding decode decode_dp_imm decode_add_sub_imm identifier
decoded false false false w f =
    let one = below_two w f.shifted in rw (f.group, f.class, one, f.operation) refl
decoded false false true w f =
    let one = below_two w f.shifted in rw (f.group, f.class, one, f.operation) refl
decoded false true false w f =
    let one = below_two w f.shifted in rw (f.group, f.class, one, f.operation) refl
decoded false true true w f =
    let one = below_two w f.shifted in rw (f.group, f.class, one, f.operation) refl
decoded true false false w f =
    let one = below_two w f.shifted in rw (f.group, f.class, one, f.operation) refl
decoded true false true w f =
    let one = below_two w f.shifted in rw (f.group, f.class, one, f.operation) refl
decoded true true false w f =
    let one = below_two w f.shifted in rw (f.group, f.class, one, f.operation) refl
decoded true true true w f =
    let one = below_two w f.shifted in rw (f.group, f.class, one, f.operation) refl

pub handler :
    (h : Handlers) (is64 is_sub updates : Bool)
    → instruction_map h (index (identifier is64 is_sub updates))
      ≡ on_core (add_sub_imm_generic is64 is_sub updates)
unfolding instruction_map index identifier simd_instructions load_store_instructions
    float_instructions
handler h false false false = refl
handler h false false true = refl
handler h false true false = refl
handler h false true true = refl
handler h true false false = refl
handler h true false true = refl
handler h true true false = refl
handler h true true true = refl

-- The immediate of the instruction, shifted by 12 where bit 22 is set.
abbrev pub immediate : ℕ → ℕ
immediate w = f10_21 w * (if test_bit w 22 then 2 ^ 12 else 1)

-- The sum or the difference at a width.
abbrev pub combined : Bool → Bool → ℕ → ℕ → ℕ
combined is64 false a b = (a + b) % 2 ^ width is64
combined is64 true a b = (a % 2 ^ width is64 + 2 ^ width is64 - b) % 2 ^ width is64

pub immediate_lem : (w : ℕ) → shl (f10_21 w) (if test_bit w 22 then 12 else 0) ≡ immediate w
immediate_lem w = elim (Bool-cases (test_bit w 22)) [
  | inl e ↦ rw e (omega arith)
  | inr e ↦ rw e (omega arith)
]

pub combined_lem :
    (is64 is_sub updates : Bool) (a b : ℕ) (state : PState)
    → a < 2 ^ 64
    → b < 2 ^ 24
    → (add_with_carry is64 updates a (negate_if is_sub b) (carry_in is_sub) state).0
      ≡ combined is64 is_sub a b
unfolding add_with_carry
combined_lem false false updates a b state ha hb = omega arith
combined_lem false true updates a b state ha hb = omega arith
combined_lem true false updates a b state ha hb = omega arith
combined_lem true true updates a b state ha hb = omega arith

-- What the step leaves in the machine.
pub record IsAdded (is64 is_sub updates : Bool) (w : ℕ) (m m' : Machine) : Type 0 where
  pub written :
      rd w ≢ 31
      → m'.core.gp_regs (rd w) ≡ combined is64 is_sub (reg_or_sp m.core (rn w)) (immediate w)
  pub others : (r : ℕ) → r ≢ rd w → r ≢ 31 → m'.core.gp_regs r ≡ m.core.gp_regs r
  pub zero_reg : m'.core.gp_regs 31 ≡ 0
  pub stack : m'.core.sp ≡ (
      if rd w == 31 && not updates
      then combined is64 is_sub (reg_or_sp m.core (rn w)) (immediate w)
      else m.core.sp)
  pub flags_kept : updates ≡ false → m'.core.pstate ≡ m.core.pstate
  pub flags_set :
      updates ≡ true
      → IsSum
          (width is64)
          (reg_or_sp m.core (rn w) % 2 ^ width is64)
          (negate_if is_sub (immediate w) % 2 ^ width is64)
          (carry_in is_sub)
          (combined is64 is_sub (reg_or_sp m.core (rn w)) (immediate w), m'.core.pstate)
  pub next : m'.core.pc ≡ u64 (m.core.pc + 4)
  pub same_vectors : m'.core.v_regs ≡ m.core.v_regs
  pub same_memory : m'.memory ≡ m.memory
  pub same_interrupts : m'.interrupts ≡ m.interrupts
  pub same_timer : m'.timer ≡ m.timer
