-- ===== src/Cpu/Decode/Simd/Crypto.antt =====
-- libcpu/src/decode/decodeSIMD.cpp: cryptography.
use switch_emu_pub.Base.{ℕ, ◌==◌, not, if◌then◌else◌}
use switch_emu_pub.Bits.{bit_range}
use switch_emu_pub.Cpu.InstructionId.{InstructionId}

unfoldable pub decode_cryptographic_aes : ℕ → InstructionId
decode_cryptographic_aes bits =
    let size = bit_range 22 23 bits in
    let opcode = bit_range 12 16 bits in
    if not (size == 0)
    then InstructionId.invalid
    else if opcode == 4
    then InstructionId.aese
    else if opcode == 5
    then InstructionId.aesd
    else if opcode == 6
    then InstructionId.aesmc
    else if opcode == 7
    then InstructionId.aesimc
    else InstructionId.invalid

unfoldable pub decode_cryptographic_3_reg : ℕ → InstructionId
decode_cryptographic_3_reg bits =
    let size = bit_range 22 23 bits in
    let opcode = bit_range 12 14 bits in
    if not (size == 0)
    then InstructionId.invalid
    else if opcode == 0
    then InstructionId.sha1c
    else if opcode == 1
    then InstructionId.sha1p
    else if opcode == 2
    then InstructionId.sha1m
    else if opcode == 3
    then InstructionId.sha1su0
    else if opcode == 4
    then InstructionId.sha256h
    else if opcode == 5
    then InstructionId.sha256h2
    else if opcode == 6
    then InstructionId.sha256su1
    else InstructionId.invalid

unfoldable pub decode_cryptographic_2_reg : ℕ → InstructionId
decode_cryptographic_2_reg bits =
    let size = bit_range 22 23 bits in
    let opcode = bit_range 12 16 bits in
    if not (size == 0)
    then InstructionId.invalid
    else if opcode == 0
    then InstructionId.sha1h
    else if opcode == 1
    then InstructionId.sha1su1
    else if opcode == 2
    then InstructionId.sha256su0
    else InstructionId.invalid
