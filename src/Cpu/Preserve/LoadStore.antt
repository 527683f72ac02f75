-- ===== src/Cpu/Preserve/LoadStore.antt =====
-- The templates of libcpu/src/interpreter/LoadStore.cpp keep a machine within its widths.
use switch_emu_pub.Base.{ℕ, ◌+◌, ◌^◌, ◌<◌, ◌≤◌, Bool, true, false, if◌then◌else◌, arith}
use switch_emu_pub.Bits.{u64}
use switch_emu_pub.Cpu.State.{Core, Machine, Fits, WellFormed, set_reg}
use switch_emu_pub.Cpu.Outcome.{Outcome, Ensures, Ensures-bind}
use switch_emu_pub.Cpu.Inst.{rt, rs, rn}
use switch_emu_pub.Cpu.LoadStore.Common.{
  has, base_addr, indexed, write_back, put_general, put_vector, put_data, extended,
  store_post_index, store128_bit_float, store_exclusive,
}
use switch_emu_pub.Cpu.Preserve.Words.{Fits-write, Fits-write_sp, sign_extend-lt}
use switch_emu_pub.Cpu.Preserve.Access.{
  ReadKeeps, SwapKeeps, WellFormed-core, read-Keeps, write-Keeps, exchange-Keeps,
}
use switch_emu_pub.Cpu.LoadStore.StoreReg.{store_imm, store_first, store_reg_imm_generic}

abbrev pub Keeps : (Machine → ℕ → Outcome Machine) → Type 0
Keeps f = (m : Machine) (inst : ℕ) → WellFormed m → Ensures WellFormed (f m inst)

pub Ensures-if {ℓ κ} :
    {A : Type ℓ} (P : A → Type κ) (b : Bool) (x y : Outcome A)
    → Ensures P x
    → Ensures P y
    → Ensures P (if b then x else y)
Ensures-if P true x y p q = p
Ensures-if P false x y p q = q

pub base_addr-lt : (core : Core) (inst : ℕ) → Fits core → base_addr core inst < 2 ^ 64
base_addr-lt core inst fits = ground (arith, fits.regs (rn inst), fits.sp_lt)

pub indexed-lt : (post : Bool) (base imm : ℕ) → base < 2 ^ 64 → indexed post base imm < 2 ^ 64
indexed-lt true base imm h = h
indexed-lt false base imm h = omega arith

pub write_back-Fits :
    (does_write post : Bool) (addr imm : ℕ) (core : Core) (inst : ℕ)
    → addr < 2 ^ 64
    → Fits core
    → Fits (write_back does_write post addr imm core inst)
unfolding write_back
write_back-Fits false post addr imm core inst h fits = fits
write_back-Fits true true addr imm core inst h fits =
    Fits-write_sp core (rn inst) (u64 (addr + imm)) core.pstate fits (omega arith) false
write_back-Fits true false addr imm core inst h fits =
    Fits-write_sp core (rn inst) addr core.pstate fits h false

pub put_general-WellFormed :
    (m : Machine) (r val : ℕ) → WellFormed m → val < 2 ^ 64 → WellFormed (put_general m r val)
put_general-WellFormed m r val w h =
    WellFormed-core m _ w (Fits-write m.core r val m.core.pstate w.fits h)

pub put_vector-WellFormed :
    (m : Machine) (r lo hi : ℕ) → WellFormed m → WellFormed (put_vector m r lo hi)
put_vector-WellFormed m r lo hi w = WellFormed-core m _ w (record {
  regs = w.fits.regs;
  pc_lt = w.fits.pc_lt;
  sp_lt = w.fits.sp_lt;
  tls_lt = w.fits.tls_lt;
  next_lt = w.fits.next_lt;
})

pub extended-lt :
    (extend to64 : Bool) (bits val : ℕ) → val < 2 ^ 64 → extended extend to64 bits val < 2 ^ 64
unfolding extended
extended-lt true true bits val h = sign_extend-lt bits val h
extended-lt true false bits val h = omega arith
extended-lt false to64 bits val h = h

pub put_data-Keeps :
    (size : ℕ) (is_float is128 : Bool) (upper addr val : ℕ)
    → size ≤ 8
    → val < 2 ^ 64
    → Keeps (put_data size is_float is128 upper addr val)
unfolding put_data
put_data-Keeps size true true upper addr val small h m inst w =
    Ensures-bind ReadKeeps WellFormed _ _ (read-Keeps (u64 (addr + 8)) m w size small)
      (λ r k. put_vector-WellFormed (r.1) (rt inst) val (r.0) (k.1))
put_data-Keeps size true false upper addr val small h m inst w =
    put_vector-WellFormed m (rt inst) val upper w
put_data-Keeps size false is128 upper addr val small h m inst w =
    put_general-WellFormed m (rt inst) val w h

pub status-WellFormed :
    (r : Bool × Machine) (n : ℕ)
    → SwapKeeps r
    → WellFormed (record (r.1) { core = set_reg r.1.core n (if r.0 then 0 else 1) })
status-WellFormed (b, m) n w = put_general-WellFormed m n _ w (ground arith)

store_first-Keeps :
    (size : ℕ) (exclusive : Bool) (addr val : ℕ) → Keeps (store_first size exclusive addr val)
unfolding store_first
store_first-Keeps size true addr val m inst w =
    Ensures-bind SwapKeeps WellFormed _ _ (exchange-Keeps addr m w size val _)
      (λ r k. status-WellFormed r (rs inst) k)
store_first-Keeps size false addr val m inst w = write-Keeps addr m w size val

pub store_reg_imm_generic-Keeps : (size flags : ℕ) → Keeps (store_reg_imm_generic size flags)
unfolding store_reg_imm_generic
store_reg_imm_generic-Keeps size flags m inst w =
    let imm = store_imm size flags inst in
    let addr = indexed (has flags store_post_index) (base_addr m.core inst) imm in
    let addr_lt : addr < 2 ^ 64 = indexed-lt _ _ imm (base_addr-lt m.core inst w.fits) in
    Ensures-bind WellFormed WellFormed _ _
      (store_first-Keeps size (has flags store_exclusive) addr _ m inst w)
      (λ m1 w1.
        Ensures-bind WellFormed WellFormed _ _
          (Ensures-if WellFormed (has flags store128_bit_float) _ _
            (write-Keeps (u64 (addr + 8)) m1 w1 size _) w1)
          (λ m2 w2.
            WellFormed-core m2 _ w2 (write_back-Fits _ _ addr imm m2.core inst addr_lt w2.fits)))
