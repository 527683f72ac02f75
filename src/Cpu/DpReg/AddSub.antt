-- ===== src/Cpu/DpReg/AddSub.antt =====
-- libcpu/src/interpreter/DataProcessingReg.cpp: additions and subtractions of registers.
use switch_emu_pub.Base.{ℕ, ◌%◌, ◌^◌, ◌==◌, Bool, true, false, if◌then◌else◌, not, ltb}
use switch_emu_pub.Bits.{complement, shl, sign_extend}
use switch_emu_pub.Cpu.State.{Core, set_reg}
use switch_emu_pub.Cpu.Inst.{rd, rn, rm, f10_12, f10_15, shift_field, extend_option}
use switch_emu_pub.Cpu.Alu.{shift, shift_type, width, add_with_carry}

-- `~operand` where the operation subtracts.
abbrev pub negate_if : Bool → ℕ → ℕ
negate_if true val = complement val
negate_if false val = val

abbrev pub carry_in : Bool → ℕ
carry_in true = 1
carry_in false = 0

-- The value in the operand of an address or an immediate: register 31 is the stack pointer.
abbrev pub reg_or_sp : Core → ℕ → ℕ
reg_or_sp core r = if r == 31 then core.sp else core.gp_regs r

-- A write of the result: register 31 is the stack pointer, which an instruction that sets the
-- flags leaves alone.
abbrev pub write_reg_or_sp : Core → Bool → ℕ → ℕ → Core
write_reg_or_sp core updates_flags r result =
    if r == 31
    then (if updates_flags then core else record core { sp = result })
    else set_reg core r result

unfoldable pub add_sub_shifted_reg_generic : Bool → Bool → Bool → Core → ℕ → Core
add_sub_shifted_reg_generic is64 is_sub updates_flags core inst =
    let operand1 = core.gp_regs (rn inst) in
    let shifted =
      shift (core.gp_regs (rm inst)) (shift_type (shift_field inst)) (f10_15 inst) (width is64) in
    let operand2 = negate_if is_sub shifted in
    let (result, state) =
      add_with_carry is64 updates_flags operand1 operand2 (carry_in is_sub) core.pstate in
    set_reg (record core { pstate = state }) (rd inst) result

abbrev pub add32_shifted : Core → ℕ → Core
add32_shifted = add_sub_shifted_reg_generic false false false

abbrev pub adds32_shifted : Core → ℕ → Core
adds32_shifted = add_sub_shifted_reg_generic false false true

abbrev pub sub32_shifted : Core → ℕ → Core
sub32_shifted = add_sub_shifted_reg_generic false true false

abbrev pub subs32_shifted : Core → ℕ → Core
subs32_shifted = add_sub_shifted_reg_generic false true true

abbrev pub add64_shifted : Core → ℕ → Core
add64_shifted = add_sub_shifted_reg_generic true false false

abbrev pub adds64_shifted : Core → ℕ → Core
adds64_shifted = add_sub_shifted_reg_generic true false true

abbrev pub sub64_shifted : Core → ℕ → Core
sub64_shifted = add_sub_shifted_reg_generic true true false

abbrev pub subs64_shifted : Core → ℕ → Core
subs64_shifted = add_sub_shifted_reg_generic true true true

-- The size and signedness that `option` names: UXTB, UXTH, UXTW, UXTX, SXTB, SXTH, SXTW, SXTX.
abbrev pub extend_size : ℕ → ℕ
extend_size opt =
    if opt % 4 == 0 then 8 else if opt % 4 == 1 then 16 else if opt % 4 == 2 then 32 else 64

abbrev pub extend_signed : ℕ → Bool
extend_signed opt = not (ltb opt 4)

unfoldable pub extend_reg : ℕ → ℕ → ℕ → ℕ
extend_reg opt amount val =
    let low = val % 2 ^ extend_size opt in
    let extended = if extend_signed opt then sign_extend (extend_size opt) low else low in
    shl extended amount

unfoldable pub add_sub_extended_reg_generic : Bool → Bool → Bool → Core → ℕ → Core
unfolding extend_reg
add_sub_extended_reg_generic is64 is_sub updates_flags core inst =
    let operand1 = reg_or_sp core (rn inst) in
    let extended = extend_reg (extend_option inst) (f10_12 inst) (core.gp_regs (rm inst)) in
    let operand2 = negate_if is_sub extended in
    let (result, state) =
      add_with_carry is64 updates_flags operand1 operand2 (carry_in is_sub) core.pstate in
    write_reg_or_sp (record core { pstate = state }) updates_flags (rd inst) result

abbrev pub add32_extended : Core → ℕ → Core
add32_extended = add_sub_extended_reg_generic false false false

abbrev pub adds32_extended : Core → ℕ → Core
adds32_extended = add_sub_extended_reg_generic false false true

abbrev pub sub32_extended : Core → ℕ → Core
sub32_extended = add_sub_extended_reg_generic false true false

abbrev pub subs32_extended : Core → ℕ → Core
subs32_extended = add_sub_extended_reg_generic false true true

abbrev pub add64_extended : Core → ℕ → Core
add64_extended = add_sub_extended_reg_generic true false false

abbrev pub adds64_extended : Core → ℕ → Core
adds64_extended = add_sub_extended_reg_generic true false true

abbrev pub sub64_extended : Core → ℕ → Core
sub64_extended = add_sub_extended_reg_generic true true false

abbrev pub subs64_extended : Core → ℕ → Core
subs64_extended = add_sub_extended_reg_generic true true true

unfoldable pub add_sub_carry_generic : Bool → Bool → Bool → Core → ℕ → Core
add_sub_carry_generic is64 is_sub updates_flags core inst =
    let operand1 = core.gp_regs (rn inst) in
    let operand2 = negate_if is_sub (core.gp_regs (rm inst)) in
    let (result, state) =
      add_with_carry is64 updates_flags operand1 operand2 (carry_in core.pstate.c) core.pstate in
    set_reg (record core { pstate = state }) (rd inst) result

abbrev pub adc32 : Core → ℕ → Core
adc32 = add_sub_carry_generic false false false

abbrev pub adcs32 : Core → ℕ → Core
adcs32 = add_sub_carry_generic false false true

abbrev pub sbc32 : Core → ℕ → Core
sbc32 = add_sub_carry_generic false true false

abbrev pub sbcs32 : Core → ℕ → Core
sbcs32 = add_sub_carry_generic false true true

abbrev pub adc64 : Core → ℕ → Core
adc64 = add_sub_carry_generic true false false

abbrev pub adcs64 : Core → ℕ → Core
adcs64 = add_sub_carry_generic true false true

abbrev pub sbc64 : Core → ℕ → Core
sbc64 = add_sub_carry_generic true true false

abbrev pub sbcs64 : Core → ℕ → Core
sbcs64 = add_sub_carry_generic true true true
