-- ===== src/Cpu/LoadStore.antt =====
-- libcpu/src/interpreter/LoadStore.cpp: loads and stores of general and vector registers.
pub mod Common
pub mod StoreReg
pub mod LoadReg
pub mod StorePair
pub mod LoadPair
pub mod RegOff
pub mod Literal
pub mod Instances
pub mod Table
pub mod RoundTrip
pub mod Exclusive
pub mod ExclusivePair
