-- ===== src/Kernel.antt =====
-- switch-emu/src/hle/kernel: the handle table and the threads of the emulated kernel.
pub mod Handles
pub mod Threads
pub mod Scheduler
pub mod Waiting
