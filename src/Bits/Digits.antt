-- ===== src/Bits/Digits.antt =====
-- The native bit operations one binary digit at a time.
use Prim.Native.Nat.{
  min, max, digits, bitwise, bit_and, bit_or, bit_xor, differ, bit_and-bitwise, bit_or-bitwise,
  bit_xor-bitwise,
}
use switch_emu_pub.Base.{ℕ, zero, suc, ◌+◌, ◌*◌, ◌/◌, ◌%◌, ◌≤◌, ◌<◌, ◌≡◌, refl, ap, sym, arith}

-- An operation given by `low` on two digits and by `rest` where the left word has run out.
module _ (rest : ℕ → ℕ) (low : ℕ → ℕ → ℕ) where
  exhausted : (fuel y : ℕ) → digits rest low fuel 0 y ≡ rest y
  exhausted zero y = refl
  exhausted (suc fuel) y = refl

  -- Fuel beyond the left word changes nothing.
  surplus :
      (x y least more : ℕ)
      → x ≤ least
      → least ≤ more
      → digits rest low more x y ≡ digits rest low least x y
  surplus zero y least more h g = rw (exhausted more y, exhausted least y) refl
  surplus (suc x) y zero more h g = absurd (omega arith)
  surplus (suc x) y (suc least) zero h g = absurd (omega arith)
  surplus (suc x) y (suc least) (suc more) h g =
      ap (λ (high : ℕ). high * 2 + low (suc x % 2) (y % 2))
        (surplus (suc x / 2) (y / 2) least more (omega arith) (omega arith))

  pub bitwise_step :
      ((y : ℕ) → rest y ≡ rest (y / 2) * 2 + low 0 (y % 2))
      → (x y : ℕ)
      → bitwise rest low x y ≡ bitwise rest low (x / 2) (y / 2) * 2 + low (x % 2) (y % 2)
  bitwise_step runs_out zero y = runs_out y
  bitwise_step runs_out (suc x) y =
      ap (λ (high : ℕ). high * 2 + low (suc x % 2) (y % 2))
        (surplus (suc x / 2) (y / 2) (suc x / 2) x (omega arith) (omega arith))

pub bit_or_step : (x y : ℕ) → bit_or x y ≡ bit_or (x / 2) (y / 2) * 2 + max (x % 2) (y % 2)
bit_or_step x y =
    rw (bit_or-bitwise x y, bit_or-bitwise (x / 2) (y / 2))
      (bitwise_step (λ r. r) max (λ r. omega arith) x y)

pub bit_and_step : (x y : ℕ) → bit_and x y ≡ bit_and (x / 2) (y / 2) * 2 + min (x % 2) (y % 2)
bit_and_step x y =
    rw (bit_and-bitwise x y, bit_and-bitwise (x / 2) (y / 2))
      (bitwise_step (λ r. 0) min (λ r. omega arith) x y)

differ_table : (d e : ℕ) → d < 2 → e < 2 → differ d e ≡ (d + e) % 2
differ_table zero e hd he = omega arith
differ_table (suc zero) zero hd he = refl
differ_table (suc zero) (suc zero) hd he = refl
differ_table d (suc (suc e)) hd he = absurd (omega arith)
differ_table (suc (suc d)) e hd he = absurd (omega arith)

pub bit_xor_step : (x y : ℕ) → bit_xor x y ≡ bit_xor (x / 2) (y / 2) * 2 + (x % 2 + y % 2) % 2
bit_xor_step x y =
    rw
      (
        bit_xor-bitwise x y,
        bit_xor-bitwise (x / 2) (y / 2),
        sym (differ_table (x % 2) (y % 2) (omega arith) (omega arith)),
      )
      (bitwise_step (λ r. r) differ (λ r. omega arith) x y)
