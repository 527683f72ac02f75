-- ===== src/Cpu/DpReg/HighProduct.antt =====
-- mulhGeneric of libcpu/src/interpreter/DataProcessingReg.cpp against the exact 128-bit product.
use native.Mathlib.Nat.{mul-le-mul}
use switch_emu_pub.Base.{
  ℕ, suc, ◌+◌, ◌-◌, ◌*◌, ◌/◌, ◌%◌, ◌^◌, ◌<◌, ◌≤◌, ◌≡◌, sym, ap, ◌∙◌, inl, inr, Bool-cases, ltb,
  if◌then◌else◌, arith,
}
use switch_emu_pub.Base.Int.{◌*ℤ◌, signed, to_word}
use switch_emu_pub.Bits.{sub64, test_bit}
use switch_emu_pub.Cpu.DpReg.Multiply.{unsigned_high, signed_high}

-- The halves of two operands.
expand :
    (a1 a0 b1 b0 : ℕ)
    → (a1 * 2 ^ 32 + a0) * (b1 * 2 ^ 32 + b0)
      ≡ a1 * b1 * 2 ^ 64 + (a1 * b0 + a0 * b1) * 2 ^ 32 + a0 * b0
expand a1 a0 b1 b0 = omega arith

split :
    (a b : ℕ)
    → a * b
      ≡ (a / 2 ^ 32) * (b / 2 ^ 32) * 2 ^ 64
        + ((a / 2 ^ 32) * (b % 2 ^ 32) + (a % 2 ^ 32) * (b / 2 ^ 32)) * 2 ^ 32
        + (a % 2 ^ 32) * (b % 2 ^ 32)
split a b = halves a b ∙ expand (a / 2 ^ 32) (a % 2 ^ 32) (b / 2 ^ 32) (b % 2 ^ 32)
  where
    whole : (x : ℕ) → x ≡ x / 2 ^ 32 * 2 ^ 32 + x % 2 ^ 32
    whole x = omega arith

    halves :
        (x y : ℕ) → x * y ≡ (x / 2 ^ 32 * 2 ^ 32 + x % 2 ^ 32) * (y / 2 ^ 32 * 2 ^ 32 + y % 2 ^ 32)
    halves x y = λ i. whole x i * whole y i

product_bound : (x y : ℕ) → x < 2 ^ 32 → y < 2 ^ 32 → x * y ≤ (2 ^ 32 - 1) * (2 ^ 32 - 1)
product_bound x y hx hy = mul-le-mul {n₂ = 2 ^ 32 - 1} {m₂ = 2 ^ 32 - 1} (omega arith) (omega arith)

pub product-lt : (a b : ℕ) → a < 2 ^ 64 → b < 2 ^ 64 → a * b < 2 ^ 128
product-lt a b ha hb =
    let h : a * b ≤ (2 ^ 64 - 1) * (2 ^ 64 - 1) =
      mul-le-mul {n₂ = 2 ^ 64 - 1} {m₂ = 2 ^ 64 - 1} (omega arith) (omega arith) in
    omega arith

-- For operands below 2 ^ 64, UMULH gives the upper 64 bits of the exact product.
pub unsigned_high_lem : (a b : ℕ) → a < 2 ^ 64 → b < 2 ^ 64 → unsigned_high a b ≡ a * b / 2 ^ 64
unfolding unsigned_high
unsigned_high_lem a b ha hb = omega (
  arith,
  split a b,
  product-lt a b ha hb,
  product_bound (a / 2 ^ 32) (b / 2 ^ 32) (omega arith) (omega arith),
  product_bound (a / 2 ^ 32) (b % 2 ^ 32) (omega arith) (omega arith),
  product_bound (a % 2 ^ 32) (b / 2 ^ 32) (omega arith) (omega arith),
  product_bound (a % 2 ^ 32) (b % 2 ^ 32) (omega arith) (omega arith),
)

mirror : (x y : ℕ) → y < 2 ^ 64 → x * suc (2 ^ 64 - y - 1) + x * y ≡ x * 2 ^ 64
mirror x y h = sym (distrib (suc (2 ^ 64 - y - 1))) ∙ ap (λ (t : ℕ). x * t) (omega arith)
  where
    distrib : (z : ℕ) → x * (z + y) ≡ x * z + x * y
    distrib z = omega arith

-- The two's complement product, by the signs.
high_word : (a b : ℕ) → ℕ
high_word a b =
    let high = a * b / 2 ^ 64 in
    let first = if ltb a (2 ^ 63) then high else (high + 2 ^ 64 - b) % 2 ^ 64 in
    if ltb b (2 ^ 63) then first else (first + 2 ^ 64 - a) % 2 ^ 64

high_word_lem :
    (a b : ℕ)
    → a < 2 ^ 64
    → b < 2 ^ 64
    → high_word a b ≡ to_word 128 (signed 64 a *ℤ signed 64 b) / 2 ^ 64
unfolding high_word to_word ◌*ℤ◌
high_word_lem a b ha hb = elim (Bool-cases (ltb a (2 ^ 63))) [
  | inl p ↦ elim (Bool-cases (ltb b (2 ^ 63))) [
    | inl q ↦ rw (p, q) (ground (arith, product-lt a b ha hb))
    | inr q ↦ rw (p, q) (ground (arith, product-lt a b ha hb, mirror a b hb))
  ]
  | inr p ↦ elim (Bool-cases (ltb b (2 ^ 63))) [
    | inl q ↦ rw (p, q) (ground (arith, product-lt a b ha hb, mirror b a ha))
    | inr q ↦
        rw (p, q)
          (ground (arith, product-lt a b ha hb, mirror (suc (2 ^ 64 - a - 1)) b hb, mirror b a ha))
  ]
]

-- For operands below 2 ^ 64, SMULH gives the upper 64 bits of the 128-bit two's complement
-- product of the operands as signed numbers.
pub signed_high_lem :
    (a b : ℕ)
    → a < 2 ^ 64
    → b < 2 ^ 64
    → signed_high a b ≡ to_word 128 (signed 64 a *ℤ signed 64 b) / 2 ^ 64
unfolding signed_high
signed_high_lem a b ha hb = rw (unsigned_high_lem a b ha hb) (same_word ∙ high_word_lem a b ha hb)
  where
    same_word :
        (let high = a * b / 2 ^ 64 in
          let first = if test_bit a 63 then sub64 high b else high in
          if test_bit b 63 then sub64 first a else first)
        ≡ high_word a b
    same_word = unfold high_word in ground arith
