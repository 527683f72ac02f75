-- ===== src/Cpu/LoadStore/Exclusive.antt =====
-- The stores of libcpu/src/interpreter/LoadStore.cpp and the exclusive monitor.
use switch_emu_pub.Base.{
  ℕ, ◌*◌, ◌%◌, ◌^◌, ◌==◌, ◌≡◌, refl, Option, none, some, Bool, true, false, Bool-cases, inl, inr,
  if◌then◌else◌, ap, ◌+◌,
}
use switch_emu_pub.Bits.{u64}
use switch_emu_pub.Mem.Pages.{Memory}
use switch_emu_pub.Mem.Access.{poke, write_atomic, write_atomic128}
use switch_emu_pub.Cpu.State.{Machine, set_monitor}
use switch_emu_pub.Cpu.Outcome.{Outcome, done, fault, outside, ◌>>=◌}
use switch_emu_pub.Cpu.Access.{mapped_or_fault, write, exchange, exchange128, check_breakpoint}
use switch_emu_pub.Cpu.LoadStore.Common.{
  has, store_write_back, store_post_index, store_float, store128_bit_float, store_exclusive,
  base_addr, indexed, write_back, num_bits,
}
use switch_emu_pub.Cpu.Inst.{rt, rn}
use switch_emu_pub.Cpu.LoadStore.StoreReg.{store_imm, store_first, store_reg_imm_generic}

-- A sequence whose parts commute with a change of their state commutes with it.
pub bind_commutes :
    {A B : Type 0} (f : A → A) (g : B → B) (r r' : Outcome A) (k k' : A → Outcome B)
    → r' ≡ (r >>= (λ a. done (f a)))
    → ((a : A) → k' (f a) ≡ (k a >>= (λ b. done (g b))))
    → (r' >>= k') ≡ ((r >>= k) >>= (λ b. done (g b)))
bind_commutes f g (done a) r' k k' e h = rw e (h a)
bind_commutes f g fault r' k k' e h = rw e refl
bind_commutes f g outside r' k k' e h = rw e refl

module _ (flag : Bool) (at_addr : ℕ) where
  abbrev pub monitored : Machine → Machine
  monitored = set_monitor flag at_addr

  -- The accesses.
  read_at :
      (o : Option Memory) (m : Machine)
      → (mapped_or_fault o >>= (λ memory. done (record (monitored m) { memory = memory }))) ≡ (
          (mapped_or_fault o >>= (λ memory. done (record m { memory = memory })))
          >>= (λ m'. done (monitored m')))
  read_at none m = refl
  read_at (some memory) m = refl

  pub write_commutes :
      (size addr val : ℕ) (m : Machine)
      → write size addr val (monitored m) ≡ (write size addr val m >>= (λ m'. done (monitored m')))
  unfolding write check_breakpoint
  write_commutes size addr val m = read_at (poke size addr val m.memory) (check_breakpoint addr m)

  abbrev pub with_status : Bool × Machine → Bool × Machine
  with_status r = (r.0, monitored (r.1))

  exchanged_at :
      (o : Option (Bool × Memory)) (m : Machine)
      → (mapped_or_fault o >>= (λ r. done (r.0, record (monitored m) { memory = r.1 }))) ≡ (
          (mapped_or_fault o >>= (λ r. done (r.0, record m { memory = r.1 })))
          >>= (λ r. done (with_status r)))
  exchanged_at none m = refl
  exchanged_at (some r) m = refl

  pub exchange_commutes :
      (size addr val expected : ℕ) (m : Machine)
      → exchange size addr val expected (monitored m)
        ≡ (exchange size addr val expected m >>= (λ r. done (with_status r)))
  unfolding exchange
  exchange_commutes size addr val expected m =
      exchanged_at (write_atomic size addr val expected m.memory) m

  pub exchange128_commutes :
      (addr lo hi expected_lo expected_hi : ℕ) (m : Machine)
      → exchange128 addr lo hi expected_lo expected_hi (monitored m)
        ≡ (exchange128 addr lo hi expected_lo expected_hi m >>= (λ r. done (with_status r)))
  unfolding exchange128
  exchange128_commutes addr lo hi expected_lo expected_hi m =
      exchanged_at (write_atomic128 addr lo hi expected_lo expected_hi m.memory) m

  -- The write-back to the base register.
  pub back_commutes :
      (does_write post : Bool) (addr imm inst : ℕ) (m : Machine)
      → record (monitored m) { core = write_back does_write post addr imm (monitored m).core inst }
        ≡ monitored (record m { core = write_back does_write post addr imm m.core inst })
  unfolding write_back
  back_commutes false post addr imm inst m = refl
  back_commutes true post addr imm inst m = elim (Bool-cases (rn inst == 31)) [
    | inl e ↦ rw e refl
    | inr e ↦ rw e refl
  ]

  first_commutes :
      (size : ℕ) (exclusive : Bool) (addr val : ℕ) (m : Machine) (inst : ℕ)
      → store_first size exclusive addr val (monitored m) inst
        ≡ (store_first size exclusive addr val m inst >>= (λ m'. done (monitored m')))
  unfolding store_first
  first_commutes size false addr val m inst = write_commutes size addr val m
  first_commutes size true addr val m inst =
      bind_commutes with_status monitored
        (exchange size addr val (m.core.exclusive_data0 % 2 ^ (8 * size)) m) _ _ _
        (exchange_commutes size addr val (m.core.exclusive_data0 % 2 ^ (8 * size)) m) (λ r. refl)

  high_commutes :
      (is128 : Bool) (size addr inst : ℕ) (m : Machine)
      → (if is128
          then write size (u64 (addr + 8)) ((monitored m).core.v_regs (rt inst)).d1 (monitored m)
          else done (monitored m))
        ≡ ((if is128 then write size (u64 (addr + 8)) (m.core.v_regs (rt inst)).d1 m else done m)
            >>= (λ m'. done (monitored m')))
  high_commutes true size addr inst m =
      write_commutes size (u64 (addr + 8)) (m.core.v_regs (rt inst)).d1 m
  high_commutes false size addr inst m = refl

  -- A store of one register, of any size and with any flags, from a machine with another flag and
  -- another address in the exclusive monitor comes to what it comes to without the change, status
  -- register, memory and faults included, with only the monitor changed in the result.
  pub store_reg_imm_generic-set_monitor :
      (size flags inst : ℕ) (m : Machine)
      → store_reg_imm_generic size flags (set_monitor flag at_addr m) inst
        ≡ (store_reg_imm_generic size flags m inst >>= (λ m'. done (set_monitor flag at_addr m')))
  unfolding store_reg_imm_generic
  store_reg_imm_generic-set_monitor size flags inst m =
      let imm = store_imm size flags inst in
      let addr = indexed (has flags store_post_index) (base_addr m.core inst) imm in
      let low =
        if has flags store_float then (m.core.v_regs (rt inst)).d0 else m.core.gp_regs (rt inst) in
      let bits =
        if has flags store128_bit_float
        then 64
        else 2 ^ num_bits (has flags store128_bit_float) size * 8 in
      bind_commutes monitored monitored
        (store_first size (has flags store_exclusive) addr (low % 2 ^ bits) m inst) _ _ _
        (first_commutes size (has flags store_exclusive) addr (low % 2 ^ bits) m inst)
        (λ m1.
          bind_commutes monitored monitored _ _ _ _
            (high_commutes (has flags store128_bit_float) size addr inst m1)
            (λ m2. ap done (
              back_commutes (has flags store_write_back) (has flags store_post_index) addr imm inst
                m2)))
