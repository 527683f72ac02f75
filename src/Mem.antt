-- ===== src/Mem.antt =====
-- libcpu/src/mem.cpp and libcpu/inc/mem.h: the page table of guest memory and its page allocator.
pub mod Bytes
pub mod Pages
pub mod Access
