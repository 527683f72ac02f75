-- ===== src/Cpu/LoadStore/Common.antt =====
-- libcpu/src/interpreter/LoadStore.cpp: the template flags, and the code that the templates repeat.
use Prim.Native.Nat.{bit_and}
use switch_emu_pub.Base.{ℕ, ◌+◌, ◌%◌, ◌^◌, ◌==◌, Bool, false, not, ◌&&◌, if◌then◌else◌}
use switch_emu_pub.Bits.{u64, shl, test_bit, sign_extend, const_log2}
use switch_emu_pub.Cpu.State.{Core, Machine, set_reg, set_vreg}
use switch_emu_pub.Cpu.Inst.{rn, rm, rt}
use switch_emu_pub.Cpu.Outcome.{Outcome, done, ◌>>=◌}
use switch_emu_pub.Cpu.Access.{read}
use switch_emu_pub.Cpu.DpReg.AddSub.{reg_or_sp, write_reg_or_sp}

-- `flags & flag`.
abbrev pub has : ℕ → ℕ → Bool
has flags flag = not (bit_and flags flag == 0)

abbrev pub store_write_back : ℕ
store_write_back = 1

abbrev pub store_imm_signed : ℕ
store_imm_signed = 2

abbrev pub store_post_index : ℕ
store_post_index = 4

abbrev pub store_float : ℕ
store_float = 8

abbrev pub store128_bit_float : ℕ
store128_bit_float = 16

abbrev pub store_release : ℕ
store_release = 32

abbrev pub store_exclusive : ℕ
store_exclusive = 64

abbrev pub load_write_back : ℕ
load_write_back = 1

abbrev pub load_imm_signed : ℕ
load_imm_signed = 2

abbrev pub load_post_index : ℕ
load_post_index = 4

abbrev pub load_extend_result : ℕ
load_extend_result = 8

abbrev pub load_extend_to64 : ℕ
load_extend_to64 = 16

abbrev pub load_float : ℕ
load_float = 32

abbrev pub load128_bit_float : ℕ
load128_bit_float = 64

abbrev pub load_acquire : ℕ
load_acquire = 128

abbrev pub load_exclusive : ℕ
load_exclusive = 256

-- `numBits`: the size of the access is 2 ^ numBits bytes. The first argument says whether the
-- access is of 128 bits.
unfoldable pub num_bits : Bool → ℕ → ℕ
unfolding const_log2
num_bits is128 size = if is128 then 4 else const_log2 64 size

-- The address in the base register; register 31 is the stack pointer.
abbrev pub base_addr : Core → ℕ → ℕ
base_addr core inst = reg_or_sp core (rn inst)

-- The address after the offset, which a post-indexed access leaves to the write-back.
abbrev pub indexed : Bool → ℕ → ℕ → ℕ
indexed post base imm = if post then base else u64 (base + imm)

-- The write-back of the address to the base register.
unfoldable pub write_back : Bool → Bool → ℕ → ℕ → Core → ℕ → Core
write_back does_write post addr imm core inst =
    let final = if post then u64 (addr + imm) else addr in
    if does_write then write_reg_or_sp core false (rn inst) final else core

-- The offset in a register: a word is extended, and the offset may be scaled by the size.
unfoldable pub reg_offset : ℕ → Core → ℕ → ℕ
reg_offset bits_shift core inst =
    let full = core.gp_regs (rm inst) in
    let low = full % 2 ^ 32 in
    let offset =
      if test_bit inst 13 then full else if test_bit inst 15 then sign_extend 32 low else low in
    shl offset (if test_bit inst 12 then bits_shift else 0)

-- The address after the write-back: a post-indexed access adds the offset.
abbrev pub final_addr : Bool → Bool → ℕ → ℕ → ℕ
final_addr does_write post addr imm = if does_write && post then u64 (addr + imm) else addr

abbrev pub put_general : Machine → ℕ → ℕ → Machine
put_general m r val = record m { core = set_reg m.core r val }

abbrev pub put_vector : Machine → ℕ → ℕ → ℕ → Machine
put_vector m r lo hi = record m { core = set_vreg m.core r (record { d0 = lo; d1 = hi }) }

-- The data that a load has read goes to its register. A load of 128 bits reads the upper half of
-- the register, too; any other leaves `upper` there.
unfoldable pub put_data : ℕ → Bool → Bool → ℕ → ℕ → ℕ → Machine → ℕ → Outcome Machine
put_data size is_float is128 upper addr val m inst =
    if is_float
    then (if is128
        then (do r ← read size (u64 (addr + 8)) m; done (put_vector (r.1) (rt inst) val (r.0)))
        else done (put_vector m (rt inst) val upper))
    else done (put_general m (rt inst) val)

-- `signExtend` to 64 bits, cut to 32 where the register is a word.
unfoldable pub extended : Bool → Bool → ℕ → ℕ → ℕ
extended extend to64 bits val =
    if extend then (if to64 then sign_extend bits val else sign_extend bits val % 2 ^ 32) else val
