-- ===== src/Cpu/Decode/System.antt =====
-- libcpu/src/decode/decodeSystem.cpp and decodeSystemOrBranch of libcpu/src/decode/decode.cpp.
use switch_emu_pub.Base.{ℕ, ltb, ◌==◌, ◌||◌, not, if◌then◌else◌, [], ◌∷◌}
use switch_emu_pub.Bits.{test_bit, bit_range}
use switch_emu_pub.Cpu.InstructionId.{InstructionId}
use switch_emu_pub.Cpu.Decode.Switch.{switch}

-- CRn 2 with op0 0: the hints.
unfoldable pub decode_hint : ℕ → InstructionId
decode_hint bits =
    if not (bit_range 16 18 bits == 3)
    then InstructionId.invalid
    else if not (bit_range 0 4 bits == 31)
    then InstructionId.invalid
    else if not (bit_range 8 11 bits == 0)
    then InstructionId.hint
    else switch (bit_range 5 7 bits)
        (InstructionId.nop ∷ InstructionId.yield ∷ InstructionId.wfe ∷ InstructionId.wfi
          ∷ InstructionId.sev ∷ InstructionId.sevl ∷ [])
        InstructionId.hint

-- CRn 3 with op0 0: the barriers.
unfoldable pub decode_barrier : ℕ → InstructionId
decode_barrier bits =
    if not (bit_range 16 18 bits == 3)
    then InstructionId.invalid
    else if not (bit_range 0 4 bits == 31)
    then InstructionId.invalid
    else switch (bit_range 5 7 bits)
        (InstructionId.invalid ∷ InstructionId.invalid ∷ InstructionId.clrex ∷ InstructionId.invalid
          ∷ InstructionId.dsb ∷ InstructionId.dmb ∷ InstructionId.isb ∷ [])
        InstructionId.invalid

unfoldable pub decode_system : ℕ → InstructionId
unfolding decode_hint decode_barrier
decode_system bits =
    let op0 = bit_range 19 20 bits in
    let crn = bit_range 12 15 bits in
    if bit_range 21 21 bits == 1
    then (if op0 == 0
        then InstructionId.invalid
        else if op0 == 1
        then InstructionId.sysl
        else InstructionId.mrs)
    else if op0 == 0
    then (if crn == 4
        then (if bit_range 0 4 bits == 31 then InstructionId.msr_imm else InstructionId.invalid)
        else if crn == 2
        then decode_hint bits
        else if crn == 3
        then decode_barrier bits
        else InstructionId.invalid)
    else if op0 == 1
    then InstructionId.sys
    else InstructionId.msr_reg

unfoldable pub decode_exception_generating : ℕ → InstructionId
decode_exception_generating bits =
    let ll = bit_range 0 1 bits in
    if not (bit_range 2 4 bits == 0)
    then InstructionId.invalid
    else switch (bit_range 21 23 bits)
        (switch ll
            (InstructionId.invalid ∷ InstructionId.svc ∷ InstructionId.hvc ∷ InstructionId.smc ∷ [])
            InstructionId.invalid
          ∷ (if ll == 0 then InstructionId.brk else InstructionId.invalid)
          ∷ (if ll == 0 then InstructionId.hlt else InstructionId.invalid)
          ∷ InstructionId.invalid
          ∷ InstructionId.invalid
          ∷ switch ll
              (InstructionId.invalid ∷ InstructionId.dcps1 ∷ InstructionId.dcps2
                ∷ InstructionId.dcps3 ∷ [])
              InstructionId.invalid
          ∷ [])
        InstructionId.invalid

-- The unconditional branches to a register.
unfoldable pub decode_branch_reg : ℕ → InstructionId
decode_branch_reg bits =
    let to_31 = bit_range 5 9 bits == 31 in
    if not (bit_range 16 20 bits == 31)
      || not (bit_range 10 15 bits == 0)
      || not (bit_range 0 4 bits == 0)
    then InstructionId.invalid
    else switch (bit_range 21 24 bits)
        (InstructionId.br
          ∷ InstructionId.blr
          ∷ InstructionId.ret
          ∷ InstructionId.invalid
          ∷ (if to_31 then InstructionId.eret else InstructionId.invalid)
          ∷ (if to_31 then InstructionId.drps else InstructionId.invalid)
          ∷ [])
        InstructionId.invalid

unfoldable pub decode_system_or_branch : ℕ → InstructionId
unfolding decode_system decode_exception_generating decode_branch_reg
decode_system_or_branch bits =
    let op0 = bit_range 29 31 bits in
    let op1 = bit_range 22 25 bits in
    if op0 == 2
    then (if ltb op1 8
        then (if test_bit bits 4 || test_bit bits 24
            then InstructionId.invalid
            else InstructionId.b_cond)
        else InstructionId.invalid)
    else if op0 == 6
    then (if ltb 7 op1
        then decode_branch_reg bits
        else if ltb op1 4
        then decode_exception_generating bits
        else if op1 == 4
        then decode_system bits
        else InstructionId.invalid)
    else if op0 == 0 || op0 == 4
    then (if test_bit bits 31 then InstructionId.bl else InstructionId.b)
    else if op0 == 1 || op0 == 5
    then (if ltb op1 8
        then (if test_bit bits 31
            then (if test_bit bits 24 then InstructionId.cbnz_64 else InstructionId.cbz_64)
            else (if test_bit bits 24 then InstructionId.cbnz_32 else InstructionId.cbz_32))
        else (if test_bit bits 24 then InstructionId.tbnz else InstructionId.tbz))
    else InstructionId.invalid
