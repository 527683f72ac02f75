-- ===== src/Cpu/Simd.antt =====
-- libcpu/src/interpreter/simd.cpp: the elements of vector registers.
pub mod Elements
pub mod Move
pub mod Arith
