-- ===== src/Cpu/LoadStore/Instances.antt =====
-- libcpu/src/interpreter/LoadStore.cpp: the handlers, one for each width and addressing mode.
pub mod StoreReg
pub mod LoadReg
pub mod StorePair
pub mod LoadPair
pub mod RegOff
pub mod Literal
