-- ===== src/Cpu/Preserve/LoadReg.antt =====
-- The loads of one register, and the accesses with a register offset, keep a machine within its widths.
use switch_emu_pub.Base.{ℕ, ◌^◌, ◌<◌, ◌≤◌, Bool, true, false, ◌&&◌, if◌then◌else◌}
use switch_emu_pub.Bits.{sign_extend}
use switch_emu_pub.Cpu.State.{Core, Fits, WellFormed}
use switch_emu_pub.Cpu.Outcome.{Ensures-bind}
use switch_emu_pub.Cpu.Inst.{rt}
use switch_emu_pub.Cpu.LoadStore.Common.{
  has, base_addr, indexed, store128_bit_float, load_post_index, load_extend_result, load_float,
  load128_bit_float, load_exclusive,
}
use switch_emu_pub.Cpu.Preserve.Words.{sign_extend-lt}
use switch_emu_pub.Cpu.Preserve.Access.{ReadKeeps, WellFormed-core, read-Keeps, write-Keeps}
use switch_emu_pub.Cpu.Preserve.LoadStore.{
  Keeps, Ensures-if, base_addr-lt, indexed-lt, write_back-Fits, extended-lt, put_data-Keeps,
}
use switch_emu_pub.Cpu.LoadStore.LoadReg.{load_imm, mark_exclusive, load_reg_imm_generic}
use switch_emu_pub.Cpu.LoadStore.RegOff.{store_reg_off_generic, load_reg_off_generic}
use switch_emu_pub.Cpu.LoadStore.Literal.{load_reg_literal_generic}

mark_exclusive-Fits :
    (flags addr : ℕ) (core : Core) (inst : ℕ)
    → Fits core
    → Fits (mark_exclusive flags addr core inst)
unfolding mark_exclusive
mark_exclusive-Fits flags addr core inst fits = marked (has flags load_exclusive)
  where
    marked :
        (b : Bool)
        → Fits (
            if b
            then record core {
              exclusive_access = true;
              exclusive_access_addr = addr;
              exclusive_data0 =
                  if has flags load_float
                  then (core.v_regs (rt inst)).d0
                  else core.gp_regs (rt inst);
              exclusive_data1 =
                  if has flags load_float && has flags load128_bit_float
                  then (core.v_regs (rt inst)).d1
                  else 0;
            }
            else core)
    marked true = record {
      regs = fits.regs;
      pc_lt = fits.pc_lt;
      sp_lt = fits.sp_lt;
      tls_lt = fits.tls_lt;
      next_lt = fits.next_lt;
    }
    marked false = fits

pub load_reg_imm_generic-Keeps :
    (size flags : ℕ) → size ≤ 8 → Keeps (load_reg_imm_generic size flags)
unfolding load_reg_imm_generic
load_reg_imm_generic-Keeps size flags small m inst w =
    let imm = load_imm size flags inst in
    let addr = indexed (has flags load_post_index) (base_addr m.core inst) imm in
    let addr_lt : addr < 2 ^ 64 = indexed-lt _ _ imm (base_addr-lt m.core inst w.fits) in
    Ensures-bind ReadKeeps WellFormed _ _ (read-Keeps addr m w size small) (λ r k.
      Ensures-bind WellFormed WellFormed _ _
        (put_data-Keeps size _ _ _ addr _ small (extended-lt _ _ _ (r.0) (k.0)) (r.1) inst (k.1))
        (λ m2 w2. WellFormed-core m2 _ w2 (
          mark_exclusive-Fits flags _ _ inst
            (write_back-Fits _ _ addr imm m2.core inst addr_lt w2.fits))))

pub store_reg_off_generic-Keeps : (size flags : ℕ) → Keeps (store_reg_off_generic size flags)
unfolding store_reg_off_generic
store_reg_off_generic-Keeps size flags m inst w =
    Ensures-bind WellFormed WellFormed _ _ (write-Keeps _ m w size _) (λ m1 w1.
      Ensures-if WellFormed (has flags store128_bit_float) _ _ (write-Keeps _ m1 w1 size _) w1)

pub load_reg_off_generic-Keeps :
    (size flags : ℕ) → size ≤ 8 → Keeps (load_reg_off_generic size flags)
unfolding load_reg_off_generic
load_reg_off_generic-Keeps size flags small m inst w =
    Ensures-bind ReadKeeps WellFormed _ _ (read-Keeps _ m w size small)
      (λ r k. put_data-Keeps size _ _ 0 _ _ small (extended-lt _ _ _ (r.0) (k.0)) (r.1) inst (k.1))

literal-lt : (b : Bool) (x : ℕ) → x < 2 ^ 64 → (if b then sign_extend 32 x else x) < 2 ^ 64
literal-lt true x h = sign_extend-lt 32 x h
literal-lt false x h = h

pub load_reg_literal_generic-Keeps :
    (size flags : ℕ) → size ≤ 8 → Keeps (load_reg_literal_generic size flags)
unfolding load_reg_literal_generic
load_reg_literal_generic-Keeps size flags small m inst w =
    Ensures-bind ReadKeeps WellFormed _ _ (read-Keeps _ m w size small) (λ r k.
      put_data-Keeps size _ _ _ _ _ small (literal-lt (has flags load_extend_result) (r.0) (k.0))
        (r.1) inst (k.1))
