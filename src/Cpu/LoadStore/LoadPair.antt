-- ===== src/Cpu/LoadStore/LoadPair.antt =====
-- libcpu/src/interpreter/LoadStore.cpp: loadPairGeneric.
use Prim.Native.Nat.{bit_or}
use switch_emu_pub.Base.{ℕ, ◌+◌, ◌==◌, Bool, true, if◌then◌else◌}
use switch_emu_pub.Bits.{u64, shl}
use switch_emu_pub.Cpu.State.{Machine}
use switch_emu_pub.Cpu.Outcome.{Outcome, done, ◌>>=◌}
use switch_emu_pub.Cpu.Inst.{rt, rt2}
use switch_emu_pub.Cpu.Access.{read}
use switch_emu_pub.Cpu.LoadStore.Common.{
  has, base_addr, indexed, write_back, put_general, put_vector, load_write_back, load_post_index,
  load_float, load128_bit_float, load_exclusive,
}
use switch_emu_pub.Cpu.LoadStore.StorePair.{pair_imm}

unfoldable pub read_pair : ℕ → ℕ → Machine → Outcome ((ℕ × ℕ) × Machine)
read_pair size addr m = do
  r1 ← read size addr m
  r2 ← read size (u64 (addr + size)) (r1.1)
  done ((r1.0, r2.0), r2.1)

unfoldable pub load_vector_pair128 : ℕ → ℕ → Machine → ℕ → Outcome Machine
load_vector_pair128 size addr m inst = do
  r1 ← read size addr m
  r2 ← read size (u64 (addr + 8)) (r1.1)
  let first = put_vector (r2.1) (rt inst) (r1.0) (r2.0)
  r3 ← read size (u64 (addr + 16)) first
  r4 ← read size (u64 (addr + 24)) (r3.1)
  done (put_vector (r4.1) (rt2 inst) (r3.0) (r4.0))

-- The lower halves of two vector registers are set, in this order.
abbrev pub set_lower_pair : (ℕ × ℕ) × Machine → ℕ → Machine
set_lower_pair r inst =
    let m1 = put_vector (r.1) (rt inst) (r.0.0) (r.1.core.v_regs (rt inst)).d1 in
    put_vector m1 (rt2 inst) (r.0.1) (m1.core.v_regs (rt2 inst)).d1

-- Two general registers are set, in this order; an exclusive load notes the address and the data.
unfoldable pub set_pair : ℕ → Bool → ℕ → (ℕ × ℕ) × Machine → ℕ → Machine
set_pair size exclusive addr r inst =
    let data1 = r.0.0 in
    let data2 = r.0.1 in
    let m1 = put_general (put_general (r.1) (rt inst) data1) (rt2 inst) data2 in
    if exclusive
    then record m1 {
      core = record (m1.core) {
        exclusive_access = true;
        exclusive_access_addr = addr;
        exclusive_data0 = if size == 4 then bit_or data1 (shl data2 32) else data1;
        exclusive_data1 = if size == 4 then 0 else data2;
      };
    }
    else m1

unfoldable pub load_both : ℕ → ℕ → ℕ → Machine → ℕ → Outcome Machine
load_both size flags addr m inst =
    if has flags load_float
    then (if has flags load128_bit_float
        then load_vector_pair128 size addr m inst
        else (do r ← read_pair size addr m; done (set_lower_pair r inst)))
    else (do r ← read_pair size addr m; done (set_pair size (has flags load_exclusive) addr r inst))

unfoldable pub load_pair_generic : ℕ → ℕ → Machine → ℕ → Outcome Machine
load_pair_generic size flags m inst = do
  let imm = pair_imm (has flags load_exclusive) (has flags load128_bit_float) size inst
  let addr = indexed (has flags load_post_index) (base_addr m.core inst) imm
  loaded ← load_both size flags addr m inst
  done (record loaded {
    core =
        write_back (has flags load_write_back) (has flags load_post_index) addr imm loaded.core
          inst;
  })
