-- ===== src/Cpu/DpImm.antt =====
-- libcpu/src/interpreter/DataProcessingImm.cpp, one module for each family of instructions.
pub mod AddSub
pub mod Logical
pub mod Bitfield
