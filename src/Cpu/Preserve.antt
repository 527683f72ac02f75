-- ===== src/Cpu/Preserve.antt =====
-- The instructions keep every register within 64 bits, one module for each file of handlers.
pub mod Words
pub mod DpReg
pub mod DpImm
pub mod Branch
pub mod BranchTable
pub mod DpImmTable
pub mod DpRegTable
pub mod Access
pub mod LoadStore
pub mod LoadReg
pub mod Pair
pub mod LoadStoreTable
pub mod Simd
pub mod VectorTable
pub mod Step
