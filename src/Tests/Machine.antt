-- ===== src/Tests/Machine.antt =====
-- A core that runs `add x1, x1, #1` (0x91000421).
use switch_emu_pub.Base.{◌≡◌, refl, false, ◌%◌, ◌^◌, ◌==◌, if◌then◌else◌}
use switch_emu_pub.Base.Int.{to_word, quot}
use switch_emu_pub.Cpu.State.{Core, Machine, set_reg}
use switch_emu_pub.Mem.Pages.{Memory, Permission}
use switch_emu_pub.Mem.Access.{store_bytes}
use switch_emu_pub.Cpu.Outcome.{done}
use switch_emu_pub.Cpu.Interpreter.{Handlers}
use switch_emu_pub.Cpu.Alu.{truncate}
use switch_emu_pub.Cpu.DpReg.Count.{count_leading_clear_bits}
use switch_emu_pub.Cpu.DpReg.Divide.{signed_divide}
use switch_emu_pub.Cpu.DpReg.LeadingZeros.{LeadingZeros, count_leading_clear_bits-LeadingZeros}
use switch_emu_pub.Cpu.DpReg.Quotient.{divided, signed_divide_lem}

-- The page of the code, with the instruction at its start.
abbrev pub code : Memory
code = record {
  entries = λ i.
      if i == 1
      then record { pointer = 0x10000; perm = Permission.read_execute }
      else record { pointer = 0; perm = Permission.none_allowed };
  free_page_list = 0;
  bytes = store_bytes (λ a. 0) 4 0x10000 0x91000421;
  locked = false;
  mem_base = 0x10000;
}

abbrev pub reset : Machine
reset = record {
  core = record {
    gp_regs = λ i. 0;
    pc = 0x1000;
    sp = 0;
    pstate = record { n = false; z = false; c = false; v = false };
    tls_addr = 0;
    next_pc = 0;
    num_insts = 0;
    exclusive_access = false;
    exclusive_access_addr = 0;
    exclusive_data0 = 0;
    exclusive_data1 = 0;
    v_regs = λ i. record { d0 = 0; d1 = 0 };
  };
  timer = 0;
  interrupts = 0;
  memory = code;
  mem_breakpoints = λ i. false;
}

abbrev quiet : Handlers
quiet = record { svc_handler = λ m num. done m; ill_inst_handler = λ m. done m }

-- Register 1 holds -7 in 32 bits, register 2 holds 2.
abbrev operands : Core
operands = record (reset.core) {
  gp_regs = λ i. if i == 1 then 0xfffffff9 else if i == 2 then 2 else 0;
}

-- `clz w0, w2` and `sdiv w0, w1, w2`.
count_leading_clear_bits-LeadingZeros_example :
    LeadingZeros 32
      (operands.gp_regs 2 % 2 ^ 32)
      ((count_leading_clear_bits false operands 0x5ac01040).gp_regs 0)
count_leading_clear_bits-LeadingZeros_example =
    count_leading_clear_bits-LeadingZeros false operands 0x5ac01040

signed_divide_lem_example :
    signed_divide false operands 0x1ac20c20
    ≡ set_reg operands 0 (divided 32 (truncate false 0xfffffff9) (truncate false 2))
signed_divide_lem_example = signed_divide_lem false operands 0x1ac20c20

signed_divide_run : divided 32 0xfffffff9 2 ≡ 0xfffffffd
unfolding divided to_word quot
signed_divide_run = refl
