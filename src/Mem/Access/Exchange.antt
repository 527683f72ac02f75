-- ===== src/Mem/Access/Exchange.antt =====
-- The exchange of two words by libcpu/inc/mem.h, writeAtomic128.
use switch_emu_pub.Base.{
  ℕ, ◌+◌, ◌%◌, ◌^◌, ◌≡◌, Bool, true, false, if◌then◌else◌, Option, none, some, some_inj, ap, sym,
  ◌∙◌, subst, inr, arith,
}
use switch_emu_pub.Mem.Pages.{Memory, translate}
use switch_emu_pub.Mem.Access.{
  load_bytes, store_bytes, write_atomic128, interlocked_compare_exchange128,
}
use switch_emu_pub.Mem.Access.RoundTrip.{load_bytes-store_bytes, load_bytes-store_bytes-Apart}

abbrev exchanged : Bool → Memory → Memory → Bool × Memory
exchanged b stored old = if b then (true, stored) else (false, old)

abbrev success : Memory → Bool × Memory
success m' = (true, m')

swapped : (b : Bool) (stored old m' : Memory) → exchanged b stored old ≡ success m' → m' ≡ stored
swapped true stored old m' e = ap (λ (r : Bool × Memory). r.1) (sym e)
swapped false stored old m' e = cc

-- When writeAtomic128 succeeds at a translated address, the eight bytes there hold its second
-- data word and the eight bytes after them its first.
pub write_atomic128_stores :
    (addr p data_lo data_high expected_lo expected_hi : ℕ) (m m' : Memory)
    → translate addr m ≡ some p
    → write_atomic128 addr data_lo data_high expected_lo expected_hi m ≡ some (true, m')
    → (load_bytes m'.bytes 8 p ≡ data_high % 2 ^ 64)
      × (load_bytes m'.bytes 8 (p + 8) ≡ data_lo % 2 ^ 64)
unfolding write_atomic128
write_atomic128_stores addr p data_lo data_high expected_lo expected_hi m m' there e =
    let made = swapped _ _ m m' (
      some_inj (
        subst
          (λ (o : Option ℕ).
            elim o [
              | none ↦ none
              | some q ↦
                  some
                    (interlocked_compare_exchange128 q data_lo data_high expected_lo expected_hi m)
            ]
            ≡ some (success m'))
          there e)) in
    let lower = store_bytes m.bytes 8 p data_high in
    rw made (
      load_bytes-store_bytes-Apart lower 8 (p + 8) data_lo 8 p (inr (omega arith))
          ∙ load_bytes-store_bytes m.bytes 8 p data_high,
      load_bytes-store_bytes lower 8 (p + 8) data_lo,
    )
