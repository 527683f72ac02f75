-- ===== src/Base/Int.antt =====
-- Signed integers over the native numbers, under the library's names, and the two's complement
-- reading of a machine word.
use Prim.Native.Nat.{ℕ, suc, ◌+◌, ◌-◌, ◌*◌, ◌/◌, ◌%◌, ◌^◌}
use mathlib.Core.Bool.{Bool, true, false}
use switch_emu_pub.Base.Tests.{ltb, leb, same, ◌==◌, if◌then◌else◌}

-- `negsuc n` is -(n + 1).
pub data ℤ : Type 0 where
  pos : ℕ → ℤ
  negsuc : ℕ → ℤ

abbrev pub pos_part : ℤ → ℕ
pos_part (pos n) = n
pos_part (negsuc n) = 0

abbrev pub neg_part : ℤ → ℕ
neg_part (pos n) = 0
neg_part (negsuc n) = suc n

-- a - b, as an integer.
abbrev pub sub_ℕ : ℕ → ℕ → ℤ
sub_ℕ a b = if leb b a then pos (a - b) else negsuc (b - a - 1)

infixl 65 ◌+ℤ◌
infixl 70 ◌*ℤ◌
unfoldable pub ◌+ℤ◌ : ℤ → ℤ → ℤ
a +ℤ b = sub_ℕ (pos_part a + pos_part b) (neg_part a + neg_part b)

unfoldable pub ◌*ℤ◌ : ℤ → ℤ → ℤ
a *ℤ b =
    sub_ℕ (pos_part a * pos_part b + neg_part a * neg_part b)
      (pos_part a * neg_part b + neg_part a * pos_part b)

-- The integer that the bit pattern `w` of `k` bits stands for.
abbrev pub signed : ℕ → ℕ → ℤ
signed k w = if ltb w (2 ^ (k - 1)) then pos w else negsuc (2 ^ k - w - 1)

abbrev pub eq_ℤ : ℤ → ℤ → Bool
eq_ℤ a b = pos_part a + neg_part b == pos_part b + neg_part a

unfoldable pub neg : ℤ → ℤ
neg a = sub_ℕ (neg_part a) (pos_part a)

abbrev pub magnitude : ℤ → ℕ
magnitude a = pos_part a + neg_part a

abbrev pub is_neg : ℤ → Bool
is_neg (pos n) = false
is_neg (negsuc n) = true

-- Division of C++, which truncates towards zero.
unfoldable pub quot : ℤ → ℤ → ℤ
quot a b =
    if same (is_neg a) (is_neg b)
    then pos (magnitude a / magnitude b)
    else sub_ℕ 0 (magnitude a / magnitude b)

-- The bit pattern of `k` bits that stands for an integer modulo `2 ^ k`.
unfoldable pub to_word : ℕ → ℤ → ℕ
to_word k a = (pos_part a % 2 ^ k + (2 ^ k - neg_part a % 2 ^ k)) % 2 ^ k
