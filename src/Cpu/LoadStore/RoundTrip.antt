-- ===== src/Cpu/LoadStore/RoundTrip.antt =====
-- A load reads what a store of the same width at the same address has written.
use native.Mathlib.Nat.{mod-lt, mod-eq_of_lt, one-le-pow}
use switch_emu_pub.Base.{
  ℕ, ◌*◌, ◌%◌, ◌<◌, ◌^◌, ◌≡◌, refl, sym, ap, subst, ◌∙◌, Option, none, some, false, arith,
}
use switch_emu_pub.Bits.{const_log2}
use switch_emu_pub.Mem.Pages.{Memory}
use switch_emu_pub.Mem.Access.{poke, inspect}
use switch_emu_pub.Mem.Access.RoundTrip.{inspect-poke}
use switch_emu_pub.Cpu.State.{Core, Machine}
use switch_emu_pub.Cpu.Outcome.{done, ◌>>=◌, bind_done, bind_run, done_inj}
use switch_emu_pub.Cpu.Inst.{rt}
use switch_emu_pub.Cpu.Access.{mapped_or_fault, check_breakpoint, read, write}
use switch_emu_pub.Cpu.LoadStore.Common.{
  num_bits, base_addr, indexed, write_back, put_data, put_general, extended,
}
use switch_emu_pub.Cpu.LoadStore.StoreReg.{store_imm, store_first, store_reg_imm_generic}
use switch_emu_pub.Cpu.LoadStore.LoadReg.{mark_exclusive, load_reg_imm_generic}

mapped_done : (r : Option Memory) (x : Memory) → mapped_or_fault r ≡ done x → r ≡ some x
mapped_done none x e = cc
mapped_done (some y) x e = ap some (sym (done_inj x y e))

pub write_parts :
    (size addr val : ℕ) (m m' : Machine)
    → write size addr val m ≡ done m'
    → (memory : Memory) × (poke size addr val m.memory ≡ some memory)
      × (m' ≡ record (check_breakpoint addr m) { memory = memory })
unfolding write
write_parts size addr val m m' e =
    let (memory, stored, made) = bind_done (mapped_or_fault (poke size addr val m.memory)) _ m' e in
    (memory, mapped_done _ memory stored, done_inj m' _ made)

-- The widths of an access, in bytes.
pub data IsSize : ℕ → Type 0 where
  byte_size : IsSize 1
  half_size : IsSize 2
  word_size : IsSize 4
  double_size : IsSize 8

access_bits : (size : ℕ) → IsSize size → 2 ^ (2 ^ num_bits false size * 8) ≡ 256 ^ size
unfolding num_bits const_log2
access_bits _ byte_size = refl
access_bits _ half_size = refl
access_bits _ word_size = refl
access_bits _ double_size = refl

pub read-write :
    (size addr val : ℕ) (m m' : Machine)
    → write size addr val m ≡ done m'
    → read size addr m' ≡ done (val % 256 ^ size, check_breakpoint addr m')
unfolding read
read-write size addr val m m' e =
    let (memory, stored, made) = write_parts size addr val m m' e in
    let seen : inspect size addr m'.memory ≡ some (val % 256 ^ size) =
      rw made (inspect-poke size addr val m.memory memory stored) in
    ap
      (λ (o : Option ℕ).
        mapped_or_fault o >>= (λ data_read. done (data_read, check_breakpoint addr m')))
      seen

mod_twice : (x a b : ℕ) → a ≡ b → 0 < b → x % a % b ≡ x % b
mod_twice x a b e h = rw e (mod-eq_of_lt (mod-lt x h))

load_after :
    (size val : ℕ) (m m' : Machine) (inst : ℕ)
    → write size (indexed false (base_addr m.core inst) (store_imm size 0 inst)) val m ≡ done m'
    → (m2 : Machine) × (load_reg_imm_generic size 0 m' inst ≡ done m2)
      × (m2.core.gp_regs (rt inst) ≡ val % 256 ^ size)
unfolding write_back load_reg_imm_generic put_data extended mark_exclusive check_breakpoint
load_after size val m m' inst stored =
    let imm = store_imm size 0 inst in
    let addr = indexed false (base_addr m.core inst) imm in
    let (memory, poked, shape) = write_parts size addr val m m' stored in
    let same_core : m'.core ≡ m.core = ap (λ (x : Machine). x.core) shape in
    let moved : read size (indexed false (base_addr m'.core inst) imm) m'
        ≡ done (val % 256 ^ size, check_breakpoint addr m') =
      subst
        (λ (c : Core).
          read size (indexed false (base_addr c inst) imm) m'
          ≡ done (val % 256 ^ size, check_breakpoint addr m'))
        (sym same_core) (read-write size addr val m m' stored) in
    let loaded = put_general (check_breakpoint addr m') (rt inst) (val % 256 ^ size) in
    (loaded, bind_run _ _ _ loaded moved refl, ground arith)

-- After a store of one, two, four or eight bytes from a general register with an unsigned offset
-- has returned, the load of the same width and instruction fields returns, and the register holds
-- the low bytes of what it held before.
pub store_reg_imm_generic-load_reg_imm_generic :
    (size : ℕ) (m m1 : Machine) (inst : ℕ)
    → IsSize size
    → store_reg_imm_generic size 0 m inst ≡ done m1
    → (m2 : Machine) × (load_reg_imm_generic size 0 m1 inst ≡ done m2)
      × (m2.core.gp_regs (rt inst) ≡ m.core.gp_regs (rt inst) % 256 ^ size)
unfolding store_reg_imm_generic store_first write_back
store_reg_imm_generic-load_reg_imm_generic size m m1 inst sized e =
    let addr = indexed false (base_addr m.core inst) (store_imm size 0 inst) in
    let low = m.core.gp_regs (rt inst) in
    let val = low % 2 ^ (2 ^ num_bits false size * 8) in
    let (m', stored, made) = bind_done (write size addr val m) _ m1 e in
    let (m2, loaded, held) = load_after size val m m' inst stored in
    rw (done_inj m1 m' made) (
      m2,
      loaded,
      held
          ∙ mod_twice low _ (256 ^ size) (access_bits size sized)
              (one-le-pow size 256 (omega arith)),
    )
