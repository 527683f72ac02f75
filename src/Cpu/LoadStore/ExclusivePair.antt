-- ===== src/Cpu/LoadStore/ExclusivePair.antt =====
-- storePairGeneric of libcpu/src/interpreter/LoadStore.cpp and the exclusive monitor.
use switch_emu_pub.Base.{ℕ, ◌+◌, ◌*◌, ◌%◌, ◌^◌, ◌==◌, ◌≡◌, refl, ap, Bool, Bool-cases, inl, inr}
use switch_emu_pub.Bits.{u64}
use switch_emu_pub.Cpu.State.{Machine, set_monitor}
use switch_emu_pub.Cpu.Outcome.{Outcome, done, ◌>>=◌}
use switch_emu_pub.Cpu.Access.{write}
use switch_emu_pub.Cpu.Inst.{rt, rt2}
use switch_emu_pub.Cpu.LoadStore.Common.{
  has, store_write_back, store_post_index, store_float, store128_bit_float, store_exclusive,
  base_addr, indexed,
}
use switch_emu_pub.Cpu.LoadStore.StorePair.{
  exclusive_pair, vector_pair128, plain_pair, pair_imm, set_status, store_both, store_pair_generic,
}
use switch_emu_pub.Cpu.LoadStore.Exclusive.{
  bind_commutes, monitored, with_status, write_commutes, exchange_commutes, exchange128_commutes,
  back_commutes,
}

module _ (flag : Bool) (at_addr : ℕ) where
  then_write_commutes :
      (size addr val : ℕ) (r r' : Outcome Machine)
      → r' ≡ (r >>= (λ m'. done (monitored flag at_addr m')))
      → (r' >>= write size addr val)
        ≡ ((r >>= write size addr val) >>= (λ m'. done (monitored flag at_addr m')))
  then_write_commutes size addr val r r' e =
      bind_commutes (monitored flag at_addr) (monitored flag at_addr) r r' (write size addr val)
        (write size addr val) e (write_commutes flag at_addr size addr val)

  plain_commutes :
      (size addr data1 data2 : ℕ) (m : Machine)
      → plain_pair size addr data1 data2 (set_monitor flag at_addr m)
        ≡ (plain_pair size addr data1 data2 m >>= (λ m'. done (monitored flag at_addr m')))
  unfolding plain_pair
  plain_commutes size addr data1 data2 m =
      then_write_commutes size (u64 (addr + size)) (data2 % 2 ^ (8 * size)) _ _
        (write_commutes flag at_addr size addr (data1 % 2 ^ (8 * size)) m)

  vector_commutes :
      (addr inst : ℕ) (m : Machine)
      → vector_pair128 addr (set_monitor flag at_addr m) inst
        ≡ (vector_pair128 addr m inst >>= (λ m'. done (monitored flag at_addr m')))
  unfolding vector_pair128
  vector_commutes addr inst m =
      let first = m.core.v_regs (rt inst) in
      let second = m.core.v_regs (rt2 inst) in
      bind_commutes (monitored flag at_addr) (monitored flag at_addr) _ _ _ _
        (write_commutes flag at_addr 8 addr first.d0 m)
        (λ m1.
          bind_commutes (monitored flag at_addr) (monitored flag at_addr) _ _ _ _
            (write_commutes flag at_addr 8 (u64 (addr + 8)) first.d1 m1)
            (λ m2.
              bind_commutes (monitored flag at_addr) (monitored flag at_addr) _ _ _ _
                (write_commutes flag at_addr 8 (u64 (addr + 16)) second.d0 m2)
                (write_commutes flag at_addr 8 (u64 (addr + 24)) second.d1)))

  exclusive_commutes :
      (size addr inst : ℕ) (m : Machine)
      → exclusive_pair size addr (set_monitor flag at_addr m) inst
        ≡ (exclusive_pair size addr m inst >>= (λ r. done (with_status flag at_addr r)))
  unfolding exclusive_pair
  exclusive_commutes size addr inst m = elim (Bool-cases (size == 4)) [
    | inl e ↦ rw e (exchange_commutes flag at_addr 8 addr _ _ m)
    | inr e ↦ rw e (exchange128_commutes flag at_addr addr _ _ _ _ m)
  ]

  exclusive_stored :
      (size addr inst : ℕ) (m : Machine)
      → (exclusive_pair size addr (set_monitor flag at_addr m) inst
          >>= (λ r. done (set_status r inst)))
        ≡ ((exclusive_pair size addr m inst >>= (λ r. done (set_status r inst)))
            >>= (λ m'. done (monitored flag at_addr m')))
  exclusive_stored size addr inst m =
      bind_commutes (with_status flag at_addr) (monitored flag at_addr)
        (exclusive_pair size addr m inst) _ (λ r. done (set_status r inst))
        (λ r. done (set_status r inst)) (exclusive_commutes size addr inst m) (λ r. refl)

  both_commutes :
      (size flags addr inst : ℕ) (m : Machine)
      → store_both size flags addr (set_monitor flag at_addr m) inst
        ≡ (store_both size flags addr m inst >>= (λ m'. done (monitored flag at_addr m')))
  unfolding store_both
  both_commutes size flags addr inst m = elim (Bool-cases (has flags store_float)) [
    | inl float ↦ elim (Bool-cases (has flags store128_bit_float)) [
      | inl wide ↦ rw (float, wide) (vector_commutes addr inst m)
      | inr narrow ↦ rw (float, narrow) (plain_commutes size addr _ _ m)
    ]
    | inr general ↦ elim (Bool-cases (has flags store_exclusive)) [
      | inl exclusive ↦ rw (general, exclusive) (exclusive_stored size addr inst m)
      | inr plain ↦ rw (general, plain) (plain_commutes size addr _ _ m)
    ]
  ]

  -- A store of a pair of registers, of any size and with any flags, from a machine with another
  -- flag and another address in the exclusive monitor comes to what it comes to without the
  -- change, status register, memory and faults included, with only the monitor changed in the
  -- result.
  pub store_pair_generic-set_monitor :
      (size flags inst : ℕ) (m : Machine)
      → store_pair_generic size flags (set_monitor flag at_addr m) inst
        ≡ (store_pair_generic size flags m inst >>= (λ m'. done (set_monitor flag at_addr m')))
  unfolding store_pair_generic
  store_pair_generic-set_monitor size flags inst m =
      let imm = pair_imm (has flags store_exclusive) (has flags store128_bit_float) size inst in
      let addr = indexed (has flags store_post_index) (base_addr m.core inst) imm in
      bind_commutes (monitored flag at_addr) (monitored flag at_addr) _ _ _ _
        (both_commutes size flags addr inst m)
        (λ m1. ap done (
          back_commutes flag at_addr (has flags store_write_back) (has flags store_post_index) addr
            imm inst m1))
