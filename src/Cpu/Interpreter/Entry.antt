-- ===== src/Cpu/Interpreter/Entry.antt =====
-- libcpu/src/interpreter/interpreter.cpp: what an unimplemented instruction does.
use switch_emu_pub.Base.{ℕ}
use switch_emu_pub.Cpu.State.{Core}

-- It is reported and has no effect.
unfoldable pub unimplemented : Core → ℕ → Core
unimplemented core inst = core
