-- ===== src/Cpu/Preserve/Step.antt =====
-- One step of libcpu/src/interpreter/interpreter.cpp keeps the machine valid.
use switch_emu_pub.Base.{
  ℕ, ◌+◌, ◌^◌, ◌<◌, ◌≡◌, refl, ◌==◌, Bool, true, false, if◌then◌else◌, arith, List, [], ◌∷◌, Each,
  nil, ◌▸◌,
}
use switch_emu_pub.Bits.{u64}
use switch_emu_pub.Cpu.State.{Core, Machine, WellFormed, IsValid, set_reg}
use switch_emu_pub.Cpu.Inst.{rd, f5_20}
use switch_emu_pub.Cpu.InstructionId.{InstructionId}
use switch_emu_pub.Cpu.InstructionId.Index.{index}
use switch_emu_pub.Cpu.Decode.{decode}
use switch_emu_pub.Cpu.System.{mrs, msr_imm, msr_reg, clrex, dmb, sys, put, names_reg}
use switch_emu_pub.Cpu.Interpreter.SystemTable.{nop, svc, system_instructions}
use switch_emu_pub.Cpu.Interpreter.{
  Handler, Handlers, register_all, core_entries, instruction_map, retire, step,
}
use switch_emu_pub.Cpu.Preserve.Words.{Fits-write}
use switch_emu_pub.Cpu.Preserve.DpReg.{KeepsFits}
use switch_emu_pub.Cpu.Outcome.{Outcome, done, fault, outside, Ensures, Ensures-bind, Ensures-done}
use switch_emu_pub.Mem.Access.{fetch}
use switch_emu_pub.Cpu.Access.{mapped_or_fault}
use switch_emu_pub.Cpu.Preserve.VectorTable.{float_instructions-Keeps, simd_instructions-Keeps}
use switch_emu_pub.Cpu.Preserve.Access.{WellFormed-core}
use switch_emu_pub.Cpu.Preserve.LoadStore.{Keeps, put_general-WellFormed}
use switch_emu_pub.Cpu.Preserve.LoadStoreTable.{load_store_instructions-Keeps}
use switch_emu_pub.Cpu.Preserve.BranchTable.{branch_instructions-Fits}
use switch_emu_pub.Cpu.Preserve.DpImmTable.{dp_imm_instructions-Fits}
use switch_emu_pub.Cpu.Preserve.DpRegTable.{dp_reg_instructions-Fits}

register_all-Keeps :
    (entries : List (InstructionId × Handler)) (table : ℕ → Handler)
    → Each (λ e. Keeps e.1) entries
    → ((i : ℕ) → Keeps (table i))
    → (i : ℕ) → Keeps (register_all entries table i)
register_all-Keeps [] table nil old i = old i
register_all-Keeps ((id, f) ∷ rest) table (p ▸ ps) old i =
    register_all-Keeps rest _ ps (λ j. replaced (index id == j) j) i
  where
    replaced : (b : Bool) (j : ℕ) → Keeps (if b then f else table j)
    replaced true j = p
    replaced false j = old j

core_entries-Keeps :
    (entries : List (InstructionId × (Core → ℕ → Core)))
    → Each (λ e. KeepsFits e.1) entries
    → Each (λ e. Keeps e.1) (core_entries entries)
core_entries-Keeps [] nil = nil
core_entries-Keeps ((id, f) ∷ rest) (p ▸ ps) =
    (λ m inst w. WellFormed-core m _ w (p m.core inst w.fits)) ▸ core_entries-Keeps rest ps

put-Keeps : (m : Machine) (inst val : ℕ) → val < 2 ^ 64 → WellFormed m → WellFormed (put m inst val)
put-Keeps m inst val h w = put_general-WellFormed m (rd inst) val w h

if-WellFormed :
    (b : Bool) {x y : Machine} → WellFormed x → WellFormed y → WellFormed (if b then x else y)
if-WellFormed true wx wy = wx
if-WellFormed false wx wy = wy

-- `f` returns a machine.
abbrev KeepsAlways : (Machine → ℕ → Machine) → Type 0
KeepsAlways f = (m : Machine) (inst : ℕ) → WellFormed m → WellFormed (f m inst)

mrs-Keeps : KeepsAlways mrs
unfolding mrs
mrs-Keeps m inst w =
    let tls = put-Keeps m inst _ w.fits.tls_lt w in
    let zeros = put-Keeps m inst 0 (omega arith) w in
    let ticked : WellFormed
        (record m { core = set_reg m.core (rd inst) m.timer; timer = u64 (m.timer + 1) }) =
      record {
        fits = Fits-write m.core (rd inst) m.timer m.core.pstate w.fits w.timer_lt;
        timer_lt = omega arith;
        bytes_lt = w.bytes_lt;
      } in
    if-WellFormed (names_reg inst 1 3 13 0 2) tls (
      if-WellFormed (names_reg inst 1 3 13 0 3) tls (
        if-WellFormed (names_reg inst 1 3 14 0 1) ticked (
          if-WellFormed (names_reg inst 1 3 4 4 0) zeros (
            if-WellFormed (names_reg inst 1 3 4 4 1) zeros (
              if-WellFormed (names_reg inst 1 3 0 0 7) (put-Keeps m inst 0x10 (omega arith) w)
                zeros)))))

clrex-Keeps : KeepsAlways clrex
unfolding clrex
clrex-Keeps m inst w = record {
  fits = record {
    regs = w.fits.regs;
    pc_lt = w.fits.pc_lt;
    sp_lt = w.fits.sp_lt;
    tls_lt = w.fits.tls_lt;
    next_lt = w.fits.next_lt;
  };
  timer_lt = w.timer_lt;
  bytes_lt = w.bytes_lt;
}

nop-Keeps : KeepsAlways nop
unfolding nop
nop-Keeps m inst w = w

-- Nothing is known of the word that is fetched.
abbrev AnyWord : ℕ → Type 0
AnyWord bits = Unit

module _ (h : Handlers) (svc_keeps : Keeps h.svc_handler)
    (ill_keeps : (m : Machine) → WellFormed m → Ensures WellFormed (h.ill_inst_handler m)) where
  system_instructions-Keeps : Each (λ e. Keeps e.1) (system_instructions h.svc_handler)
  unfolding system_instructions svc msr_imm msr_reg dmb sys
  system_instructions-Keeps =
      (λ m inst w. svc_keeps m (f5_20 inst) w)
      ▸ nop-Keeps
      ▸ nop-Keeps
      ▸ nop-Keeps
      ▸ nop-Keeps
      ▸ nop-Keeps
      ▸ nop-Keeps
      ▸ nop-Keeps
      ▸ (λ m inst w. w)
      ▸ (λ m inst w. w)
      ▸ nop-Keeps
      ▸ nop-Keeps
      ▸ nop-Keeps
      ▸ nop-Keeps
      ▸ nop-Keeps
      ▸ nop-Keeps
      ▸ nop-Keeps
      ▸ clrex-Keeps
      ▸ nop-Keeps
      ▸ (λ m inst w. w)
      ▸ nop-Keeps
      ▸ (λ m inst w. w)
      ▸ nop-Keeps
      ▸ mrs-Keeps
      ▸ nil

  instruction_map-Keeps : (i : ℕ) → Keeps (instruction_map h i)
  unfolding instruction_map
  instruction_map-Keeps = register_all-Keeps _ _ ((λ m inst w. ill_keeps m w) ▸ nil) (
      register_all-Keeps _ _ simd_instructions-Keeps (
        register_all-Keeps _ _ load_store_instructions-Keeps (
          register_all-Keeps _ _ float_instructions-Keeps (
            register_all-Keeps _ _ (core_entries-Keeps _ dp_reg_instructions-Fits) (
              register_all-Keeps _ _ (core_entries-Keeps _ dp_imm_instructions-Fits) (
                register_all-Keeps _ _ system_instructions-Keeps (
                  register_all-Keeps _ _ (core_entries-Keeps _ branch_instructions-Fits)
                    (λ i m inst w. w))))))))

  retire-IsValid : (m : Machine) → WellFormed m → IsValid (retire m)
  unfolding retire
  retire-IsValid m w = record {
    formed = record {
      fits = record {
        regs = λ i. ground (arith, w.fits.regs i);
        pc_lt = w.fits.next_lt;
        sp_lt = w.fits.sp_lt;
        tls_lt = w.fits.tls_lt;
        next_lt = w.fits.next_lt;
      };
      timer_lt = w.timer_lt;
      bytes_lt = w.bytes_lt;
    };
    zero_reg = refl;
  }

  started-WellFormed :
      (m : Machine)
      → WellFormed m
      → WellFormed (record m { core = record (m.core) { next_pc = u64 (m.core.pc + 4) } })
  started-WellFormed m w = WellFormed-core m _ w (record {
    regs = w.fits.regs;
    pc_lt = w.fits.pc_lt;
    sp_lt = w.fits.sp_lt;
    tls_lt = w.fits.tls_lt;
    next_lt = omega arith;
  })

  -- A step from a valid machine, whatever word it fetches, leaves a valid machine if it returns
  -- one: all general registers, PC, SP and the timer within 64 bits, every byte of memory below
  -- 256 and the zero register zero. The SVC and illegal-instruction handlers are assumed to keep
  -- the widths.
  step-IsValid : (m m' : Machine) → IsValid m → step h m ≡ done m' → IsValid m'
  unfolding step
  step-IsValid m m' v e = Ensures-done IsValid _ m' kept e
    where
      fetched : (r : Outcome ℕ) → Ensures AnyWord r
      fetched (done a) = tt
      fetched fault = tt
      fetched outside = tt

      kept : Ensures IsValid (step h m)
      kept =
          Ensures-bind AnyWord IsValid (mapped_or_fault (fetch m.core.pc m.memory)) _
            (fetched (mapped_or_fault (fetch m.core.pc m.memory)))
            (λ bits u.
              Ensures-bind WellFormed IsValid _ _
                (instruction_map-Keeps (index (decode bits)) _ bits (started-WellFormed m v.formed))
                (λ m1 w. retire-IsValid m1 w))
