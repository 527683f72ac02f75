-- ===== src/Mem/Access/Region.antt =====
-- writeRegion and readRegion of libcpu/src/mem.cpp: whole pages are copied at once, other bytes one
-- by one, each of which checks the breakpoints.
pub mod Loop
pub mod Bytewise
pub mod ReadBytewise
use Prim.Native.Nat.{bit_or}
use switch_emu_pub.Base.{
  ℕ, zero, suc, ◌+◌, ◌-◌, ◌%◌, ◌^◌, leb, ltb, ◌==◌, ◌&&◌, Bool, if◌then◌else◌, Option, none, some,
}
use switch_emu_pub.Bits.{u64}
use switch_emu_pub.Mem.Pages.{page_size, Memory, translate, set_at}
use switch_emu_pub.Mem.Access.{inspect, poke}

-- What a loop comes to: its last state, the address of a fault with the state before it, or, where
-- the rounds run out, a loop that goes on.
pub data Run (S : Type 0) : Type 0 where
  finished : S → Run S
  faulted : ℕ → S → Run S
  unfinished : S → Run S

abbrev pub then_run : {S : Type 0} → Run S → (S → Run S) → Run S
then_run (finished s) f = f s
then_run (faulted a s) f = faulted a s
then_run (unfinished s) f = unfinished s

-- The loop of both functions with its 32-bit counter, in at most `fuel` rounds.
unfoldable pub copy_loop :
    {S : Type 0} → ℕ → (ℕ → S → Run S) → (ℕ → S → Run S) → ℕ → ℕ → ℕ → S → Run S
copy_loop zero byte page addr len i s = if ltb i len then unfinished s else finished s
copy_loop (suc fuel) byte page addr len i s =
    if ltb i len
    then (if u64 (addr + i) % page_size == 0 && ltb (i + page_size) len
        then then_run (page i s)
            (λ s'. copy_loop fuel byte page addr len ((i + page_size) % 2 ^ 32) s')
        else then_run (byte i s) (λ s'. copy_loop fuel byte page addr len ((i + 1) % 2 ^ 32) s'))
    else finished s

-- Guest memory and the interrupts sent to the core.
pub record Written : Type 0 where
  pub memory : Memory
  pub interrupts : ℕ

-- `sendInterrupts` with DEBUG_BREAK_INTERRUPT at a breakpoint.
abbrev pub sent : (ℕ → Bool) → ℕ → ℕ → ℕ
sent breakpoints a interrupts = if breakpoints a then bit_or interrupts 2 else interrupts

-- `memcpy(p, &source[i], n)`.
abbrev pub copy_in : (ℕ → ℕ) → ℕ → (ℕ → ℕ) → ℕ → ℕ → ℕ → ℕ
copy_in bytes p source i n a =
    if leb p a && ltb a (p + n) then source (i + (a - p)) % 2 ^ 8 else bytes a

abbrev pub copy_page : ℕ → (ℕ → ℕ) → ℕ → Written → Run Written
copy_page addr source i s = elim (translate (u64 (addr + i)) s.memory) [
  | none ↦ faulted (u64 (addr + i)) s
  | some p ↦ finished (record s {
    memory = record (s.memory) { bytes = copy_in s.memory.bytes p source i page_size };
  })
]

-- `write(addr + i, source[i])`.
abbrev pub write_byte : (ℕ → Bool) → ℕ → (ℕ → ℕ) → ℕ → Written → Run Written
write_byte breakpoints addr source i s =
    let a = u64 (addr + i) in
    let interrupts = sent breakpoints a s.interrupts in
    elim (poke 1 a (source i) s.memory) [
      | none ↦ faulted a (record s { interrupts = interrupts })
      | some memory ↦ finished (record { memory = memory; interrupts = interrupts })
    ]

-- Each round writes a byte or more.
unfoldable pub write_region : (ℕ → Bool) → ℕ → (ℕ → ℕ) → ℕ → Written → Run Written
write_region breakpoints addr source len s =
    copy_loop len (write_byte breakpoints addr source) (copy_page addr source) addr len 0 s

-- The bytes read so far, and the interrupts sent to the core.
pub record Buffer : Type 0 where
  pub target : ℕ → ℕ
  pub interrupts : ℕ

-- `memcpy(&target[i], p, n)`.
abbrev pub copy_out : (ℕ → ℕ) → ℕ → (ℕ → ℕ) → ℕ → ℕ → ℕ → ℕ
copy_out bytes p target i n j = if leb i j && ltb j (i + n) then bytes (p + (j - i)) else target j

abbrev pub read_page : Memory → ℕ → ℕ → Buffer → Run Buffer
read_page m addr i s = elim (translate (u64 (addr + i)) m) [
  | none ↦ faulted (u64 (addr + i)) s
  | some p ↦ finished (record s { target = copy_out m.bytes p s.target i page_size })
]

-- `target[i] = read<uint8_t>(addr + i)`.
abbrev pub read_byte : (ℕ → Bool) → Memory → ℕ → ℕ → Buffer → Run Buffer
read_byte breakpoints m addr i s =
    let a = u64 (addr + i) in
    let interrupts = sent breakpoints a s.interrupts in
    elim (inspect 1 a m) [
      | none ↦ faulted a (record s { interrupts = interrupts })
      | some v ↦ finished (record { target = set_at s.target i v; interrupts = interrupts })
    ]

unfoldable pub read_region : (ℕ → Bool) → Memory → ℕ → ℕ → Buffer → Run Buffer
read_region breakpoints m addr len s =
    copy_loop len (read_byte breakpoints m addr) (read_page m addr) addr len 0 s

-- One byte after the other, `n` of them from byte `i` on.
abbrev pub each_byte : {S : Type 0} → (ℕ → S → Run S) → ℕ → ℕ → S → Run S
each_byte byte zero i s = finished s
each_byte byte (suc n) i s = then_run (byte i s) (λ s'. each_byte byte n (i + 1) s')
