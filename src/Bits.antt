-- ===== src/Bits.antt =====
-- common/inc/bitutils.h over uint64_t, and the shifts and complement of C++ on that type.
-- A mask of low bits is written as a remainder: `val & bitmask(size)` is `val % 2 ^ size`.
pub mod Digits
pub mod Bounds
use switch_emu_pub.Base.{ℕ, zero, suc, ◌+◌, ◌-◌, ◌*◌, ◌/◌, ◌%◌, ◌^◌, Bool, ◌==◌, if◌then◌else◌}

-- uint64_t and uint32_t conversions.
abbrev pub u64 : ℕ → ℕ
u64 n = n % 2 ^ 64

abbrev pub u32 : ℕ → ℕ
u32 n = n % 2 ^ 32

-- `~x` on uint64_t.
abbrev pub complement : ℕ → ℕ
complement x = 2 ^ 64 - 1 - u64 x

-- `a - b` on uint64_t.
abbrev pub sub64 : ℕ → ℕ → ℕ
sub64 a b = (a + 2 ^ 64 - u64 b) % 2 ^ 64

-- `x << k` and `x >> k` on uint64_t. A count of 64 or more, which C++ leaves undefined, is taken
-- modulo 64, as x86-64 does.
abbrev pub shl : ℕ → ℕ → ℕ
shl x k = x * 2 ^ (k % 64) % 2 ^ 64

abbrev pub shr : ℕ → ℕ → ℕ
shr x k = x / 2 ^ (k % 64)

abbrev pub test_bit : ℕ → ℕ → Bool
test_bit val pos = val / 2 ^ pos % 2 == 1

-- The bits from `start` to `end`, both included.
abbrev pub bit_range : ℕ → ℕ → ℕ → ℕ
bit_range start end val = val / 2 ^ start % 2 ^ (end + 1 - start)

-- `val | ~bitmask(size)` keeps the low `size` bits and sets the others. The bit tested is
-- `size - 1`; at size 0 that wraps, and the shift count of the test is taken modulo 64.
abbrev pub sign_extend : ℕ → ℕ → ℕ
sign_extend size val =
    if test_bit val ((size + 63) % 64) then val % 2 ^ size + (2 ^ 64 - 2 ^ size) else val

-- `constLog2(num)`; the first argument bounds the depth of the recursion.
unfoldable pub const_log2 : ℕ → ℕ → ℕ
const_log2 zero num = 0
const_log2 (suc depth) num =
    let rest = const_log2 depth (num / 2) in if num == 1 then 0 else 1 + rest
