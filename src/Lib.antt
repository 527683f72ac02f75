-- ===== src/Lib.antt =====
-- Switch emulator: a verification library for the emulator's AArch64 interpreter, its guest memory,
-- and the handle table and the scheduler of its emulated kernel.
--
-- The program runs a console program on a software CPU. libcpu fetches a 32-bit word through the
-- page table of guest memory, decodes it to an enumerator, calls the handler registered for the
-- enumerator on the core's registers, and retires it. A supervisor call leaves libcpu for the
-- emulated kernel of switch-emu, which answers it with objects named by handles.
--
-- Files and the code they model:
--   * Base, with children: shared names, Boolean tests, lists and integers over the native numbers.
--   * Bits: common/inc/bitutils.h on uint64_t; Bits.Digits and Bits.Bounds have the laws of the bit
--     operations. Values are natural numbers; each operation writes out its wrap-around.
--   * Cpu.State, Cpu.Inst, Cpu.InstructionId: libcpu/inc/cpu.h, instruction.h, and the
--     enumerators of instructionTable.h.
--     A core is a record, a register file a function on register numbers, an instruction word a
--     number whose fields are quotients and remainders.
--   * Cpu.Alu: libcpu/inc/instutils.h (testCondition, shift, addWithCarry). Alu.Flags and
--     Alu.Compare compare it with exact arithmetic.
--   * Cpu.Decode, with children: libcpu/src/decode (decode.cpp and the decode*.cpp of each class),
--     one function per decoding function, in the order of their tests.
--   * Cpu.DpReg, Cpu.DpImm, Cpu.Branch, Cpu.System: the handlers of libcpu/src/interpreter in
--     DataProcessingReg.cpp, DataProcessingImm.cpp, Branch.cpp and System.cpp; a C++ template is a
--     function of its Boolean arguments and each instantiation a constant of the same name.
--   * Cpu.Outcome, Cpu.Access: what an instruction that accesses memory comes to, and the accesses
--     of libcpu/inc/mem.h as a core makes them.
--   * Cpu.LoadStore, with children: libcpu/src/interpreter/LoadStore.cpp. A C++ template is a
--     function of the size of its type and of its flags, and each handler a constant.
--   * Cpu.Simd, with children: libcpu/src/interpreter/simd.cpp but for two conversions.
--   * Cpu.Interpreter: libcpu/src/interpreter/interpreter.cpp and the registration lists;
--     Cpu.Interpreter.AddSubImm follows the words of ADD and SUB with an immediate through a step.
--   * Cpu.DpReg.HighProduct, Cpu.DpReg.LeadingZeros, Cpu.DpReg.Quotient: what the multiplications,
--     CLZ and SDIV compute.
--   * Cpu.Preserve, with children: the widths of the registers, instruction by instruction.
--   * Mem.Bytes, Mem.Pages: libcpu/src/mem.cpp and libcpu/inc/mem.h. Host memory is a function from
--     addresses to bytes; the free list lives in its bytes, as in the program.
--   * Mem.Access, with children: the typed accesses of libcpu/inc/mem.h as little-endian bytes, and
--     writeRegion and readRegion of mem.cpp.
--   * Kernel.Handles: switch-emu/src/hle/kernel/handleManager.cpp.
--   * Kernel.Threads, Kernel.Scheduler: switch-emu/src/hle/kernel/thread.cpp and scheduler.cpp. The
--     handles of threads, the queue of each core and the registers of the cores are one state.
--   * Kernel.Waiting: the wait lists of thread.cpp, and alarm.cpp. Thread::exit, which no code
--     calls, is left out: a thread exits by exitThread of scheduler.cpp.
--   * Tests, with children: the models and theorems at concrete inputs.
--
-- Bounds: the loops of the modelled code run over a count (pages, bit positions, entries), on which
-- the models recur. The loops of init, writeRegion and readRegion have a 32-bit counter that the
-- models wrap around; they take fuel, the number of pages and the length, which is enough below
-- 2 ^ 32 since each round goes on by a page or a byte, and a loop that is not over by then comes to
-- `none` or `unfinished`. The other region loops count in 32 bits, too; their counts are taken to be
-- below 2 ^ 32. Shift counts of 64 or more, which C++ leaves undefined, are taken modulo 64. A call
-- that waits for a lock which is held is `none`, and so is a translation that calls the fault
-- handler; a step in which one does is a fault, whatever it had stored before, and a region copy in
-- which one does keeps what it has copied.
--
-- Not modelled: the handlers of floating point, at which a step is `outside`, the table
-- decoder decode2, the just-in-time compiler, the disassembler, threads of the cores, graphics,
-- services, loaders and the debugger, and the vendored libraries of proj. The handlers that the
-- emulator installs for supervisor calls and illegal instructions are parameters. Logging and
-- memory fences have no effect on the modelled state and are left out. One core runs at a time,
-- and one operation of the kernel; several of them take no scheduler lock in the program.
pub mod Base
pub mod Bits
pub mod Cpu
pub mod Mem
pub mod Kernel
pub mod Tests
