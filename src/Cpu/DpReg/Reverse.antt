-- ===== src/Cpu/DpReg/Reverse.antt =====
-- libcpu/src/interpreter/DataProcessingReg.cpp: reversals of bits, bytes and halves.
use Prim.Native.Nat.{bit_and, bit_or}
use switch_emu_pub.Base.{ℕ, Bool, true, false}
use switch_emu_pub.Bits.{u32, shl, shr}
use switch_emu_pub.Cpu.State.{Core, set_reg}
use switch_emu_pub.Cpu.Inst.{rd, rn}

-- One line of the source: neighbouring groups of `k` bits change places.
unfoldable pub swap_groups : ℕ → ℕ → ℕ → ℕ → ℕ
swap_groups k high low op = bit_or (bit_and (shl op k) high) (bit_and (shr op k) low)

abbrev pub swap8 : ℕ → ℕ
swap8 = swap_groups 8 0xFF00FF00FF00FF00 0x00FF00FF00FF00FF

abbrev pub swap16 : ℕ → ℕ
swap16 = swap_groups 16 0xFFFF0000FFFF0000 0x0000FFFF0000FFFF

abbrev pub swap32 : ℕ → ℕ
swap32 = swap_groups 32 0xFFFFFFFF00000000 0x00000000FFFFFFFF

-- The last step: the low half is kept, or the halves change places.
abbrev pub fold_halves : Bool → ℕ → ℕ
fold_halves true op = swap32 op
fold_halves false op = u32 op

abbrev pub reversed_bits : Bool → ℕ → ℕ
reversed_bits is64 op =
    let op1 = swap_groups 1 0xAAAAAAAAAAAAAAAA 0x5555555555555555 op in
    let op2 = swap_groups 2 0xCCCCCCCCCCCCCCCC 0x3333333333333333 op1 in
    let op4 = swap_groups 4 0xF0F0F0F0F0F0F0F0 0x0F0F0F0F0F0F0F0F op2 in
    fold_halves is64 (swap16 (swap8 op4))

unfoldable pub reverse_bits : Bool → Core → ℕ → Core
unfolding swap_groups
reverse_bits is64 core inst = set_reg core (rd inst) (reversed_bits is64 (core.gp_regs (rn inst)))

abbrev pub rbit32 : Core → ℕ → Core
rbit32 = reverse_bits false

abbrev pub rbit64 : Core → ℕ → Core
rbit64 = reverse_bits true

unfoldable pub reverse_bytes : Bool → Core → ℕ → Core
unfolding swap_groups
reverse_bytes is64 core inst =
    set_reg core (rd inst) (fold_halves is64 (swap16 (swap8 (core.gp_regs (rn inst)))))

abbrev pub rev32 : Core → ℕ → Core
rev32 = reverse_bytes false

abbrev pub rev64 : Core → ℕ → Core
rev64 = reverse_bytes true

unfoldable pub reverse16 : Bool → Core → ℕ → Core
unfolding swap_groups
reverse16 is64 core inst =
    set_reg core (rd inst) (fold_halves is64 (swap16 (core.gp_regs (rn inst))))

abbrev pub rev16_32 : Core → ℕ → Core
rev16_32 = reverse16 false

abbrev pub rev16_64 : Core → ℕ → Core
rev16_64 = reverse16 true

unfoldable pub reverse32 : Core → ℕ → Core
unfolding swap_groups
reverse32 core inst = set_reg core (rd inst) (swap32 (core.gp_regs (rn inst)))

abbrev pub rev32_64 : Core → ℕ → Core
rev32_64 = reverse32
