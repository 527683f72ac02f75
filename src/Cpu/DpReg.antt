-- ===== src/Cpu/DpReg.antt =====
-- libcpu/src/interpreter/DataProcessingReg.cpp, one module for each family of instructions.
pub mod Logical
pub mod AddSub
pub mod Reverse
pub mod Count
pub mod LeadingZeros
pub mod Divide
pub mod Quotient
pub mod Multiply
pub mod Conditional
pub mod HighProduct
