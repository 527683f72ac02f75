-- ===== src/Cpu/Preserve/Pair.antt =====
-- The loads and stores of two registers keep a machine within its widths.
use switch_emu_pub.Base.{ℕ, ◌^◌, ◌<◌, ◌≤◌, ◌==◌, Bool, true, false}
use switch_emu_pub.Cpu.State.{Machine, WellFormed}
use switch_emu_pub.Cpu.Outcome.{Ensures, Ensures-bind}
use switch_emu_pub.Cpu.Inst.{rt, rt2, rs}
use switch_emu_pub.Cpu.LoadStore.Common.{
  has, put_general, store_float, store128_bit_float, store_exclusive, load_float, load128_bit_float,
  load_exclusive,
}
use switch_emu_pub.Cpu.Preserve.Access.{
  ReadKeeps, SwapKeeps, WellFormed-core, read-Keeps, write-Keeps, exchange-Keeps, exchange128-Keeps,
}
use switch_emu_pub.Cpu.Preserve.LoadStore.{
  Keeps, Ensures-if, base_addr-lt, indexed-lt, write_back-Fits, put_general-WellFormed,
  put_vector-WellFormed, status-WellFormed,
}
use switch_emu_pub.Cpu.LoadStore.StorePair.{
  exclusive_pair, vector_pair128, plain_pair, store_both, store_pair_generic,
}
use switch_emu_pub.Cpu.LoadStore.LoadPair.{
  read_pair, load_vector_pair128, set_lower_pair, set_pair, load_both, load_pair_generic,
}

plain_pair-Keeps :
    (size addr data1 data2 : ℕ) (m : Machine)
    → WellFormed m
    → Ensures WellFormed (plain_pair size addr data1 data2 m)
unfolding plain_pair
plain_pair-Keeps size addr data1 data2 m w =
    Ensures-bind WellFormed WellFormed _ _ (write-Keeps addr m w size _)
      (λ m1 w1. write-Keeps _ m1 w1 size _)

vector_pair128-Keeps : (addr : ℕ) → Keeps (vector_pair128 addr)
unfolding vector_pair128
vector_pair128-Keeps addr m inst w =
    Ensures-bind WellFormed WellFormed _ _ (write-Keeps addr m w 8 _) (λ m1 w1.
      Ensures-bind WellFormed WellFormed _ _ (write-Keeps _ m1 w1 8 _) (λ m2 w2.
        Ensures-bind WellFormed WellFormed _ _ (write-Keeps _ m2 w2 8 _)
          (λ m3 w3. write-Keeps _ m3 w3 8 _)))

exclusive_pair-Keeps :
    (size addr : ℕ) (m : Machine) (inst : ℕ)
    → WellFormed m
    → Ensures SwapKeeps (exclusive_pair size addr m inst)
unfolding exclusive_pair
exclusive_pair-Keeps size addr m inst w =
    Ensures-if SwapKeeps (size == 4) _ _ (exchange-Keeps addr m w 8 _ _)
      (exchange128-Keeps addr m w _ _ _ _)

store_both-Keeps : (size flags addr : ℕ) → Keeps (store_both size flags addr)
unfolding store_both
store_both-Keeps size flags addr m inst w =
    Ensures-if WellFormed (has flags store_float) _ _
      (Ensures-if WellFormed (has flags store128_bit_float) _ _ (vector_pair128-Keeps addr m inst w)
        (plain_pair-Keeps size addr _ _ m w))
      (Ensures-if WellFormed (has flags store_exclusive) _ _
        (Ensures-bind SwapKeeps WellFormed _ _ (exclusive_pair-Keeps size addr m inst w)
          (λ r k. status-WellFormed r (rs inst) k))
        (plain_pair-Keeps size addr _ _ m w))

pub store_pair_generic-Keeps : (size flags : ℕ) → Keeps (store_pair_generic size flags)
unfolding store_pair_generic
store_pair_generic-Keeps size flags m inst w =
    Ensures-bind WellFormed WellFormed _ _ (store_both-Keeps size flags _ m inst w) (λ m1 w1.
      WellFormed-core m1 _ w1 (
        write_back-Fits _ _ _ _ m1.core inst (indexed-lt _ _ _ (base_addr-lt m.core inst w.fits))
          w1.fits))

-- Two values that are read are below 2 ^ 64.
abbrev PairKeeps : (ℕ × ℕ) × Machine → Type 0
PairKeeps r = ((r.0.0 < 2 ^ 64) × (r.0.1 < 2 ^ 64)) × WellFormed (r.1)

module _ (size : ℕ) (small : size ≤ 8) where
  read_pair-Keeps :
      (addr : ℕ) (m : Machine) → WellFormed m → Ensures PairKeeps (read_pair size addr m)
  unfolding read_pair
  read_pair-Keeps addr m w =
      Ensures-bind ReadKeeps PairKeeps _ _ (read-Keeps addr m w size small) (λ r k.
        Ensures-bind ReadKeeps PairKeeps _ _ (read-Keeps _ (r.1) (k.1) size small)
          (λ r2 k2. ((k.0, k2.0), k2.1)))

  load_vector_pair128-Keeps : (addr : ℕ) → Keeps (load_vector_pair128 size addr)
  unfolding load_vector_pair128
  load_vector_pair128-Keeps addr m inst w =
      Ensures-bind ReadKeeps WellFormed _ _ (read-Keeps addr m w size small) (λ r1 k1.
        Ensures-bind ReadKeeps WellFormed _ _ (read-Keeps _ (r1.1) (k1.1) size small) (λ r2 k2.
          Ensures-bind ReadKeeps WellFormed _ _
            (read-Keeps _ _ (put_vector-WellFormed (r2.1) (rt inst) _ _ (k2.1)) size small)
            (λ r3 k3.
              Ensures-bind ReadKeeps WellFormed _ _ (read-Keeps _ (r3.1) (k3.1) size small)
                (λ r4 k4. put_vector-WellFormed (r4.1) (rt2 inst) _ _ (k4.1)))))

  set_lower_pair-WellFormed :
      (r : (ℕ × ℕ) × Machine) (inst : ℕ) → PairKeeps r → WellFormed (set_lower_pair r inst)
  set_lower_pair-WellFormed r inst k =
      put_vector-WellFormed _ (rt2 inst) _ _ (put_vector-WellFormed (r.1) (rt inst) _ _ (k.1))

  set_pair-WellFormed :
      (exclusive : Bool) (addr : ℕ) (r : (ℕ × ℕ) × Machine) (inst : ℕ)
      → PairKeeps r
      → WellFormed (set_pair size exclusive addr r inst)
  unfolding set_pair
  set_pair-WellFormed exclusive addr r inst k = marked exclusive
    where
      set : WellFormed (put_general (put_general (r.1) (rt inst) (r.0.0)) (rt2 inst) (r.0.1))
      set =
          put_general-WellFormed _ (rt2 inst) (r.0.1)
            (put_general-WellFormed (r.1) (rt inst) (r.0.0) (k.1) (k.0.0)) (k.0.1)

      marked : (b : Bool) → WellFormed (set_pair size b addr r inst)
      marked true = WellFormed-core _ _ set (record {
        regs = set.fits.regs;
        pc_lt = set.fits.pc_lt;
        sp_lt = set.fits.sp_lt;
        tls_lt = set.fits.tls_lt;
        next_lt = set.fits.next_lt;
      })
      marked false = set

  load_both-Keeps : (flags addr : ℕ) → Keeps (load_both size flags addr)
  unfolding load_both
  load_both-Keeps flags addr m inst w =
      Ensures-if WellFormed (has flags load_float) _ _
        (Ensures-if WellFormed (has flags load128_bit_float) _ _
          (load_vector_pair128-Keeps addr m inst w)
          (Ensures-bind PairKeeps WellFormed _ _ (read_pair-Keeps addr m w)
            (λ r k. set_lower_pair-WellFormed r inst k)))
        (Ensures-bind PairKeeps WellFormed _ _ (read_pair-Keeps addr m w)
          (λ r k. set_pair-WellFormed (has flags load_exclusive) addr r inst k))

  pub load_pair_generic-Keeps : (flags : ℕ) → Keeps (load_pair_generic size flags)
  unfolding load_pair_generic
  load_pair_generic-Keeps flags m inst w =
      Ensures-bind WellFormed WellFormed _ _ (load_both-Keeps flags _ m inst w) (λ m1 w1.
        WellFormed-core m1 _ w1 (
          write_back-Fits _ _ _ _ m1.core inst (indexed-lt _ _ _ (base_addr-lt m.core inst w.fits))
            w1.fits))
