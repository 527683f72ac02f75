-- ===== src/Cpu/Preserve/Access.antt =====
-- The accesses of Cpu/Access keep a machine within its widths.
use native.Mathlib.Nat.{pow-le-pow_right}
use switch_emu_pub.Base.{
  ℕ, zero, suc, ◌+◌, ◌^◌, ◌<◌, ◌≤◌, ◌==◌, ◌&&◌, Bool, true, false, if◌then◌else◌, Option, none,
  some, arith,
}
use switch_emu_pub.Mem.Pages.{Memory, translate}
use switch_emu_pub.Mem.Access.{
  load_bytes, store_bytes, inspect, poke, put_bytes, write_atomic, write_atomic128,
  interlocked_compare_exchange128,
}
use switch_emu_pub.Cpu.State.{Core, Machine, Fits, WellFormed}
use switch_emu_pub.Cpu.Outcome.{done, ◌>>=◌, Ensures}
use switch_emu_pub.Cpu.Access.{
  mapped_or_fault, check_breakpoint, read, write, with_memory, exchange, exchange128,
}

-- Every byte is below 2 ^ 8.
abbrev pub AreBytes : (ℕ → ℕ) → Type 0
AreBytes bytes = (a : ℕ) → bytes a < 2 ^ 8

pub load_bytes-lt : (bytes : ℕ → ℕ) (n p : ℕ) → AreBytes bytes → load_bytes bytes n p < 256 ^ n
unfolding load_bytes
load_bytes-lt bytes zero p h = omega arith
load_bytes-lt bytes (suc n) p h = ground (arith, h p, load_bytes-lt bytes n (p + 1) h)

pub store_bytes-AreBytes :
    (bytes : ℕ → ℕ) (n p v : ℕ) → AreBytes bytes → AreBytes (store_bytes bytes n p v)
unfolding store_bytes
store_bytes-AreBytes bytes n p v h a = ground (arith, h a)

pub WellFormed-memory :
    (m : Machine) (memory : Memory)
    → WellFormed m
    → AreBytes memory.bytes
    → WellFormed (record m { memory = memory })
WellFormed-memory m memory w h = record { fits = w.fits; timer_lt = w.timer_lt; bytes_lt = h }

pub WellFormed-core :
    (m : Machine) (core : Core) → WellFormed m → Fits core → WellFormed (record m { core = core })
WellFormed-core m core w h = record { fits = h; timer_lt = w.timer_lt; bytes_lt = w.bytes_lt }

pub check_breakpoint-WellFormed :
    (addr : ℕ) (m : Machine) → WellFormed m → WellFormed (check_breakpoint addr m)
unfolding check_breakpoint
check_breakpoint-WellFormed addr m w = record {
  fits = w.fits;
  timer_lt = w.timer_lt;
  bytes_lt = w.bytes_lt;
}

load_word-lt : (bytes : ℕ → ℕ) (n p : ℕ) → n ≤ 8 → AreBytes bytes → load_bytes bytes n p < 2 ^ 64
load_word-lt bytes n p small h =
    let top : 256 ^ n ≤ 256 ^ 8 = pow-le-pow_right (omega arith) small in
    omega (arith, load_bytes-lt bytes n p h, top)

-- A value that is read is below 2 ^ 64.
abbrev pub ReadKeeps : ℕ × Machine → Type 0
ReadKeeps r = (r.0 < 2 ^ 64) × WellFormed (r.1)

abbrev pub SwapKeeps : Bool × Machine → Type 0
SwapKeeps r = WellFormed (r.1)

module _ (addr : ℕ) (m : Machine) (w : WellFormed m) where
  pub read-Keeps : (size : ℕ) → size ≤ 8 → Ensures ReadKeeps (read size addr m)
  unfolding read inspect
  read-Keeps size small = loaded (translate addr m.memory)
    where
      loaded :
          (place : Option ℕ)
          → Ensures ReadKeeps (
              mapped_or_fault
                (elim place [ none ↦ none | some p ↦ some (load_bytes m.memory.bytes size p) ])
              >>= (λ v. done (v, check_breakpoint addr m)))
      loaded none = tt
      loaded (some p) = (
        load_word-lt m.memory.bytes size p small w.bytes_lt,
        check_breakpoint-WellFormed addr m w,
      )

  pub write-Keeps : (size val : ℕ) → Ensures WellFormed (write size addr val m)
  unfolding write poke
  write-Keeps size val = stored (translate addr m.memory)
    where
      stored :
          (place : Option ℕ)
          → Ensures WellFormed (
              mapped_or_fault
                (elim place [ none ↦ none | some p ↦ some (put_bytes size p val m.memory) ])
              >>= (λ memory. done (record (check_breakpoint addr m) { memory = memory })))
      stored none = tt
      stored (some p) =
          WellFormed-memory (check_breakpoint addr m) _ (check_breakpoint-WellFormed addr m w)
            (store_bytes-AreBytes m.memory.bytes size p val w.bytes_lt)

  exchanged-WellFormed :
      (b : Bool) (memory : Memory)
      → AreBytes memory.bytes
      → SwapKeeps (with_memory m (if b then (true, memory) else (false, m.memory)))
  exchanged-WellFormed true memory h = WellFormed-memory m memory w h
  exchanged-WellFormed false memory h = w

  pub exchange-Keeps :
      (size val expected : ℕ) → Ensures SwapKeeps (exchange size addr val expected m)
  unfolding exchange write_atomic
  exchange-Keeps size val expected = exchanged (translate addr m.memory)
    where
      exchanged :
          (place : Option ℕ)
          → Ensures SwapKeeps (
              mapped_or_fault (elim place [
                | none ↦ none
                | some p ↦ some (
                    if load_bytes m.memory.bytes size p == expected
                    then (true, put_bytes size p val m.memory)
                    else (false, m.memory))
              ])
              >>= (λ r. done (with_memory m r)))
      exchanged none = tt
      exchanged (some p) =
          exchanged-WellFormed (load_bytes m.memory.bytes size p == expected) _
            (store_bytes-AreBytes m.memory.bytes size p val w.bytes_lt)

  pub exchange128-Keeps :
      (lo hi expected_lo expected_hi : ℕ)
      → Ensures SwapKeeps (exchange128 addr lo hi expected_lo expected_hi m)
  unfolding exchange128 write_atomic128
  exchange128-Keeps lo hi expected_lo expected_hi = exchanged (translate addr m.memory)
    where
      exchanged :
          (place : Option ℕ)
          → Ensures SwapKeeps (
              mapped_or_fault (elim place [
                | none ↦ none
                | some p ↦
                    some (interlocked_compare_exchange128 p lo hi expected_lo expected_hi m.memory)
              ])
              >>= (λ r. done (with_memory m r)))
      exchanged none = tt
      exchanged (some p) =
          exchanged-WellFormed
            (load_bytes m.memory.bytes 8 p == expected_lo
              && load_bytes m.memory.bytes 8 (p + 8) == expected_hi)
            _
            (store_bytes-AreBytes _ 8 (p + 8) lo
              (store_bytes-AreBytes m.memory.bytes 8 p hi w.bytes_lt))
