-- ===== src/Tests/LoadStore.antt =====
-- `str w1, [x2]` (0xb9000041) and `ldr w1, [x2]` in the page of Tests/Machine.
use switch_emu_pub.Base.{◌≡◌, refl, true, ◌==◌, if◌then◌else◌}
use switch_emu_pub.Mem.Pages.{translate}
use switch_emu_pub.Mem.Access.{poke}
use switch_emu_pub.Cpu.State.{Machine, set_monitor}
use switch_emu_pub.Cpu.Outcome.{Outcome, done, fault, outside, ◌>>=◌}
use switch_emu_pub.Cpu.Access.{write}
use switch_emu_pub.Cpu.LoadStore.StoreReg.{store_first, store_reg_imm_generic}
use switch_emu_pub.Cpu.LoadStore.LoadReg.{load_reg_imm_generic}
use switch_emu_pub.Cpu.LoadStore.RoundTrip.{IsSize, store_reg_imm_generic-load_reg_imm_generic}
use switch_emu_pub.Cpu.LoadStore.Common.{store_exclusive}
use switch_emu_pub.Cpu.LoadStore.Exclusive.{store_reg_imm_generic-set_monitor}
use switch_emu_pub.Cpu.LoadStore.ExclusivePair.{store_pair_generic-set_monitor}
use switch_emu_pub.Cpu.LoadStore.StorePair.{store_pair_generic}
use switch_emu_pub.Tests.Machine.{reset}

abbrev ready : Machine
ready = record reset {
  core = record (reset.core) {
    gp_regs = λ i. if i == 1 then 0x1122334455 else if i == 2 then 0x1800 else 0;
  };
}

abbrev or_ready : Outcome Machine → Machine
or_ready fault = ready
or_ready outside = ready
or_ready (done m) = m

abbrev stored : Machine
stored = or_ready (store_reg_imm_generic 4 0 ready 0xb9000041)

store_run : store_reg_imm_generic 4 0 ready 0xb9000041 ≡ done stored
unfolding store_reg_imm_generic store_first write poke translate
store_run = refl

store_reg_imm_generic-load_reg_imm_generic_example :
    (m2 : Machine) × (load_reg_imm_generic 4 0 stored 0xb9000041 ≡ done m2)
    × (m2.core.gp_regs 1 ≡ 0x22334455)
store_reg_imm_generic-load_reg_imm_generic_example =
    store_reg_imm_generic-load_reg_imm_generic 4 ready stored 0xb9000041 IsSize.word_size store_run

-- `stxr w3, w1, [x2]` (0x88037c41) and `stlxp w3, w1, w4, [x2]` (0x88239041) with another flag
-- and another address in the monitor.
store_reg_imm_generic-set_monitor_example :
    store_reg_imm_generic 4 store_exclusive (set_monitor true 0x40 ready) 0x88037c41 ≡ (
      store_reg_imm_generic 4 store_exclusive ready 0x88037c41
      >>= (λ m'. done (set_monitor true 0x40 m')))
store_reg_imm_generic-set_monitor_example =
    store_reg_imm_generic-set_monitor true 0x40 4 store_exclusive 0x88037c41 ready

store_pair_generic-set_monitor_example :
    store_pair_generic 4 store_exclusive (set_monitor true 0x40 ready) 0x88239041 ≡ (
      store_pair_generic 4 store_exclusive ready 0x88239041
      >>= (λ m'. done (set_monitor true 0x40 m')))
store_pair_generic-set_monitor_example =
    store_pair_generic-set_monitor true 0x40 4 store_exclusive 0x88239041 ready
