-- ===== src/Cpu.antt =====
-- libcpu: the AArch64 interpreter.
pub mod Outcome
pub mod State
pub mod Inst
pub mod InstructionId
pub mod Decode
pub mod Alu
pub mod DpReg
pub mod DpImm
pub mod Branch
pub mod System
pub mod Access
pub mod LoadStore
pub mod Simd
pub mod Interpreter
pub mod Preserve
