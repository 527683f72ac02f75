-- ===== src/Mem/Access.antt =====
-- The accesses of libcpu/inc/mem.h to guest memory: values of one to eight bytes, little-endian.
pub mod Region
pub mod RoundTrip
pub mod Isolation
pub mod Exchange
use switch_emu_pub.Base.{
  ℕ, zero, suc, ◌+◌, ◌-◌, ◌*◌, ◌/◌, ◌%◌, ◌^◌, leb, ltb, ◌==◌, ◌&&◌, Bool, true, false,
  if◌then◌else◌, Option, none, some,
}
use switch_emu_pub.Mem.Pages.{Memory, translate}

-- The `n` bytes from the host address `p` on, as a number.
unfoldable pub load_bytes : (ℕ → ℕ) → ℕ → ℕ → ℕ
load_bytes bytes zero p = 0
load_bytes bytes (suc n) p = bytes p + 2 ^ 8 * load_bytes bytes n (p + 1)

-- The host bytes after `v` was stored in `n` bytes at `p`.
unfoldable pub store_bytes : (ℕ → ℕ) → ℕ → ℕ → ℕ → ℕ → ℕ
store_bytes bytes n p v a = if leb p a && ltb a (p + n) then v / 256 ^ (a - p) % 2 ^ 8 else bytes a

-- Accesses to `n` bytes at the guest address `addr`. `none` where the fault handler is called. Only
-- the first byte is translated.
unfoldable pub inspect : ℕ → ℕ → Memory → Option ℕ
inspect n addr m = elim (translate addr m) [ none ↦ none | some p ↦ some (load_bytes m.bytes n p) ]

unfoldable pub fetch : ℕ → Memory → Option ℕ
unfolding inspect
fetch addr m = inspect 4 addr m

abbrev pub put_bytes : ℕ → ℕ → ℕ → Memory → Memory
put_bytes n p v m = record m { bytes = store_bytes m.bytes n p v }

unfoldable pub poke : ℕ → ℕ → ℕ → Memory → Option Memory
poke n addr v m = elim (translate addr m) [ none ↦ none | some p ↦ some (put_bytes n p v m) ]

-- `compare_exchange_strong`: the new value is stored where the old one is the expected one.
unfoldable pub write_atomic : ℕ → ℕ → ℕ → ℕ → Memory → Option (Bool × Memory)
write_atomic n addr v expected m = elim (translate addr m) [
  | none ↦ none
  | some p ↦
      some (if load_bytes m.bytes n p == expected then (true, put_bytes n p v m) else (false, m))
]

-- `_InterlockedCompareExchange128` of the host compiler on two words of 64 bits at `p`: its
-- arguments are the upper word to store, the lower one, and the words that are expected.
abbrev pub interlocked_compare_exchange128 : ℕ → ℕ → ℕ → ℕ → ℕ → Memory → Bool × Memory
interlocked_compare_exchange128 p exchange_high exchange_low expected_lo expected_hi m =
    if load_bytes m.bytes 8 p == expected_lo && load_bytes m.bytes 8 (p + 8) == expected_hi
    then (true, put_bytes 8 (p + 8) exchange_high (put_bytes 8 p exchange_low m))
    else (false, m)

-- The call passes the lower word first.
unfoldable pub write_atomic128 : ℕ → ℕ → ℕ → ℕ → ℕ → Memory → Option (Bool × Memory)
write_atomic128 addr data_lo data_high expected_lo expected_hi m = elim (translate addr m) [
  | none ↦ none
  | some p ↦ some (interlocked_compare_exchange128 p data_lo data_high expected_lo expected_hi m)
]
