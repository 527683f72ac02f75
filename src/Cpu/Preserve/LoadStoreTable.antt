-- ===== src/Cpu/Preserve/LoadStoreTable.antt =====
-- Every handler that registerLoadStoreInstructions registers keeps a machine within its widths.
use switch_emu_pub.Base.{arith, Each, nil, ◌▸◌}
use switch_emu_pub.Cpu.LoadStore.Table.{no_access, load_store_instructions}
use switch_emu_pub.Cpu.Preserve.LoadStore.{Keeps, store_reg_imm_generic-Keeps}
use switch_emu_pub.Cpu.Preserve.LoadReg.{
  load_reg_imm_generic-Keeps, store_reg_off_generic-Keeps, load_reg_off_generic-Keeps,
  load_reg_literal_generic-Keeps,
}
use switch_emu_pub.Cpu.Preserve.Pair.{store_pair_generic-Keeps, load_pair_generic-Keeps}

no_access-Keeps : Keeps no_access
no_access-Keeps m inst w = w

pub load_store_instructions-Keeps : Each (λ e. Keeps e.1) load_store_instructions
unfolding load_store_instructions
load_store_instructions-Keeps =
    store_reg_imm_generic-Keeps 1 _
    ▸ store_reg_imm_generic-Keeps 1 _
    ▸ load_reg_imm_generic-Keeps 1 _ (omega arith)
    ▸ load_reg_imm_generic-Keeps 1 _ (omega arith)
    ▸ store_reg_imm_generic-Keeps 1 _
    ▸ load_reg_imm_generic-Keeps 1 _ (omega arith)
    ▸ store_reg_imm_generic-Keeps 2 _
    ▸ store_reg_imm_generic-Keeps 2 _
    ▸ load_reg_imm_generic-Keeps 2 _ (omega arith)
    ▸ load_reg_imm_generic-Keeps 2 _ (omega arith)
    ▸ store_reg_imm_generic-Keeps 2 _
    ▸ load_reg_imm_generic-Keeps 2 _ (omega arith)
    ▸ store_reg_imm_generic-Keeps 4 _
    ▸ store_reg_imm_generic-Keeps 4 _
    ▸ store_pair_generic-Keeps 4 _
    ▸ store_pair_generic-Keeps 4 _
    ▸ load_reg_imm_generic-Keeps 4 _ (omega arith)
    ▸ load_reg_imm_generic-Keeps 4 _ (omega arith)
    ▸ load_pair_generic-Keeps 4 (omega arith) _
    ▸ load_pair_generic-Keeps 4 (omega arith) _
    ▸ store_reg_imm_generic-Keeps 4 _
    ▸ load_reg_imm_generic-Keeps 4 _ (omega arith)
    ▸ store_reg_imm_generic-Keeps 8 _
    ▸ store_reg_imm_generic-Keeps 8 _
    ▸ store_pair_generic-Keeps 8 _
    ▸ store_pair_generic-Keeps 8 _
    ▸ load_reg_imm_generic-Keeps 8 _ (omega arith)
    ▸ load_reg_imm_generic-Keeps 8 _ (omega arith)
    ▸ load_pair_generic-Keeps 8 (omega arith) _
    ▸ load_pair_generic-Keeps 8 (omega arith) _
    ▸ store_reg_imm_generic-Keeps 8 _
    ▸ load_reg_imm_generic-Keeps 8 _ (omega arith)
    ▸ load_reg_literal_generic-Keeps 4 _ (omega arith)
    ▸ load_reg_literal_generic-Keeps 4 _ (omega arith)
    ▸ load_reg_literal_generic-Keeps 8 _ (omega arith)
    ▸ load_reg_literal_generic-Keeps 8 _ (omega arith)
    ▸ load_reg_literal_generic-Keeps 4 _ (omega arith)
    ▸ load_reg_literal_generic-Keeps 8 _ (omega arith)
    ▸ no_access-Keeps
    ▸ store_pair_generic-Keeps 4 _
    ▸ load_pair_generic-Keeps 4 (omega arith) _
    ▸ store_pair_generic-Keeps 4 _
    ▸ load_pair_generic-Keeps 4 (omega arith) _
    ▸ store_pair_generic-Keeps 8 _
    ▸ load_pair_generic-Keeps 8 (omega arith) _
    ▸ store_pair_generic-Keeps 8 _
    ▸ load_pair_generic-Keeps 8 (omega arith) _
    ▸ store_pair_generic-Keeps 8 _
    ▸ load_pair_generic-Keeps 8 (omega arith) _
    ▸ store_pair_generic-Keeps 4 _
    ▸ load_pair_generic-Keeps 4 (omega arith) _
    ▸ store_pair_generic-Keeps 4 _
    ▸ load_pair_generic-Keeps 4 (omega arith) _
    ▸ no_access-Keeps
    ▸ store_pair_generic-Keeps 8 _
    ▸ load_pair_generic-Keeps 8 (omega arith) _
    ▸ store_pair_generic-Keeps 8 _
    ▸ load_pair_generic-Keeps 8 (omega arith) _
    ▸ store_pair_generic-Keeps 8 _
    ▸ load_pair_generic-Keeps 8 (omega arith) _
    ▸ store_pair_generic-Keeps 4 _
    ▸ load_pair_generic-Keeps 4 (omega arith) _
    ▸ store_pair_generic-Keeps 4 _
    ▸ load_pair_generic-Keeps 4 (omega arith) _
    ▸ no_access-Keeps
    ▸ store_pair_generic-Keeps 8 _
    ▸ load_pair_generic-Keeps 8 (omega arith) _
    ▸ store_pair_generic-Keeps 8 _
    ▸ load_pair_generic-Keeps 8 (omega arith) _
    ▸ store_pair_generic-Keeps 8 _
    ▸ load_pair_generic-Keeps 8 (omega arith) _
    ▸ store_pair_generic-Keeps 4 _
    ▸ load_pair_generic-Keeps 4 (omega arith) _
    ▸ store_pair_generic-Keeps 4 _
    ▸ load_pair_generic-Keeps 4 (omega arith) _
    ▸ no_access-Keeps
    ▸ store_pair_generic-Keeps 8 _
    ▸ load_pair_generic-Keeps 8 (omega arith) _
    ▸ store_pair_generic-Keeps 8 _
    ▸ load_pair_generic-Keeps 8 (omega arith) _
    ▸ store_pair_generic-Keeps 8 _
    ▸ load_pair_generic-Keeps 8 (omega arith) _
    ▸ store_reg_imm_generic-Keeps 1 _
    ▸ load_reg_imm_generic-Keeps 1 _ (omega arith)
    ▸ load_reg_imm_generic-Keeps 1 _ (omega arith)
    ▸ load_reg_imm_generic-Keeps 1 _ (omega arith)
    ▸ store_reg_imm_generic-Keeps 1 _
    ▸ load_reg_imm_generic-Keeps 1 _ (omega arith)
    ▸ store_reg_imm_generic-Keeps 8 _
    ▸ load_reg_imm_generic-Keeps 8 _ (omega arith)
    ▸ store_reg_imm_generic-Keeps 2 _
    ▸ load_reg_imm_generic-Keeps 2 _ (omega arith)
    ▸ load_reg_imm_generic-Keeps 2 _ (omega arith)
    ▸ load_reg_imm_generic-Keeps 2 _ (omega arith)
    ▸ store_reg_imm_generic-Keeps 2 _
    ▸ load_reg_imm_generic-Keeps 2 _ (omega arith)
    ▸ store_reg_imm_generic-Keeps 4 _
    ▸ load_reg_imm_generic-Keeps 4 _ (omega arith)
    ▸ load_reg_imm_generic-Keeps 4 _ (omega arith)
    ▸ store_reg_imm_generic-Keeps 4 _
    ▸ load_reg_imm_generic-Keeps 4 _ (omega arith)
    ▸ store_reg_imm_generic-Keeps 8 _
    ▸ load_reg_imm_generic-Keeps 8 _ (omega arith)
    ▸ no_access-Keeps
    ▸ store_reg_imm_generic-Keeps 8 _
    ▸ load_reg_imm_generic-Keeps 8 _ (omega arith)
    ▸ store_reg_imm_generic-Keeps 1 _
    ▸ load_reg_imm_generic-Keeps 1 _ (omega arith)
    ▸ load_reg_imm_generic-Keeps 1 _ (omega arith)
    ▸ load_reg_imm_generic-Keeps 1 _ (omega arith)
    ▸ store_reg_imm_generic-Keeps 1 _
    ▸ load_reg_imm_generic-Keeps 1 _ (omega arith)
    ▸ store_reg_imm_generic-Keeps 8 _
    ▸ load_reg_imm_generic-Keeps 8 _ (omega arith)
    ▸ store_reg_imm_generic-Keeps 2 _
    ▸ load_reg_imm_generic-Keeps 2 _ (omega arith)
    ▸ load_reg_imm_generic-Keeps 2 _ (omega arith)
    ▸ load_reg_imm_generic-Keeps 2 _ (omega arith)
    ▸ store_reg_imm_generic-Keeps 2 _
    ▸ load_reg_imm_generic-Keeps 2 _ (omega arith)
    ▸ store_reg_imm_generic-Keeps 4 _
    ▸ load_reg_imm_generic-Keeps 4 _ (omega arith)
    ▸ load_reg_imm_generic-Keeps 4 _ (omega arith)
    ▸ store_reg_imm_generic-Keeps 4 _
    ▸ load_reg_imm_generic-Keeps 4 _ (omega arith)
    ▸ store_reg_imm_generic-Keeps 8 _
    ▸ load_reg_imm_generic-Keeps 8 _ (omega arith)
    ▸ store_reg_imm_generic-Keeps 8 _
    ▸ load_reg_imm_generic-Keeps 8 _ (omega arith)
    ▸ no_access-Keeps
    ▸ no_access-Keeps
    ▸ no_access-Keeps
    ▸ no_access-Keeps
    ▸ no_access-Keeps
    ▸ no_access-Keeps
    ▸ no_access-Keeps
    ▸ no_access-Keeps
    ▸ no_access-Keeps
    ▸ no_access-Keeps
    ▸ no_access-Keeps
    ▸ no_access-Keeps
    ▸ no_access-Keeps
    ▸ store_reg_imm_generic-Keeps 1 _
    ▸ load_reg_imm_generic-Keeps 1 _ (omega arith)
    ▸ load_reg_imm_generic-Keeps 1 _ (omega arith)
    ▸ load_reg_imm_generic-Keeps 1 _ (omega arith)
    ▸ store_reg_imm_generic-Keeps 1 _
    ▸ load_reg_imm_generic-Keeps 1 _ (omega arith)
    ▸ store_reg_imm_generic-Keeps 8 _
    ▸ load_reg_imm_generic-Keeps 8 _ (omega arith)
    ▸ store_reg_imm_generic-Keeps 2 _
    ▸ load_reg_imm_generic-Keeps 2 _ (omega arith)
    ▸ load_reg_imm_generic-Keeps 2 _ (omega arith)
    ▸ load_reg_imm_generic-Keeps 2 _ (omega arith)
    ▸ store_reg_imm_generic-Keeps 2 _
    ▸ load_reg_imm_generic-Keeps 2 _ (omega arith)
    ▸ store_reg_imm_generic-Keeps 4 _
    ▸ load_reg_imm_generic-Keeps 4 _ (omega arith)
    ▸ load_reg_imm_generic-Keeps 4 _ (omega arith)
    ▸ store_reg_imm_generic-Keeps 4 _
    ▸ load_reg_imm_generic-Keeps 4 _ (omega arith)
    ▸ store_reg_imm_generic-Keeps 8 _
    ▸ load_reg_imm_generic-Keeps 8 _ (omega arith)
    ▸ store_reg_imm_generic-Keeps 8 _
    ▸ load_reg_imm_generic-Keeps 8 _ (omega arith)
    ▸ store_reg_off_generic-Keeps 1 _
    ▸ load_reg_off_generic-Keeps 1 _ (omega arith)
    ▸ load_reg_off_generic-Keeps 1 _ (omega arith)
    ▸ load_reg_off_generic-Keeps 1 _ (omega arith)
    ▸ store_reg_off_generic-Keeps 1 _
    ▸ load_reg_off_generic-Keeps 1 _ (omega arith)
    ▸ store_reg_off_generic-Keeps 8 _
    ▸ load_reg_off_generic-Keeps 8 _ (omega arith)
    ▸ store_reg_off_generic-Keeps 2 _
    ▸ load_reg_off_generic-Keeps 2 _ (omega arith)
    ▸ load_reg_off_generic-Keeps 2 _ (omega arith)
    ▸ load_reg_off_generic-Keeps 2 _ (omega arith)
    ▸ store_reg_off_generic-Keeps 2 _
    ▸ load_reg_off_generic-Keeps 2 _ (omega arith)
    ▸ store_reg_off_generic-Keeps 4 _
    ▸ load_reg_off_generic-Keeps 4 _ (omega arith)
    ▸ load_reg_off_generic-Keeps 4 _ (omega arith)
    ▸ store_reg_off_generic-Keeps 4 _
    ▸ load_reg_off_generic-Keeps 4 _ (omega arith)
    ▸ store_reg_off_generic-Keeps 8 _
    ▸ load_reg_off_generic-Keeps 8 _ (omega arith)
    ▸ no_access-Keeps
    ▸ store_reg_off_generic-Keeps 8 _
    ▸ load_reg_off_generic-Keeps 8 _ (omega arith)
    ▸ store_reg_imm_generic-Keeps 1 _
    ▸ load_reg_imm_generic-Keeps 1 _ (omega arith)
    ▸ load_reg_imm_generic-Keeps 1 _ (omega arith)
    ▸ load_reg_imm_generic-Keeps 1 _ (omega arith)
    ▸ store_reg_imm_generic-Keeps 1 _
    ▸ load_reg_imm_generic-Keeps 1 _ (omega arith)
    ▸ store_reg_imm_generic-Keeps 8 _
    ▸ load_reg_imm_generic-Keeps 8 _ (omega arith)
    ▸ store_reg_imm_generic-Keeps 2 _
    ▸ load_reg_imm_generic-Keeps 2 _ (omega arith)
    ▸ load_reg_imm_generic-Keeps 2 _ (omega arith)
    ▸ load_reg_imm_generic-Keeps 2 _ (omega arith)
    ▸ store_reg_imm_generic-Keeps 2 _
    ▸ load_reg_imm_generic-Keeps 2 _ (omega arith)
    ▸ store_reg_imm_generic-Keeps 4 _
    ▸ load_reg_imm_generic-Keeps 4 _ (omega arith)
    ▸ load_reg_imm_generic-Keeps 4 _ (omega arith)
    ▸ store_reg_imm_generic-Keeps 4 _
    ▸ load_reg_imm_generic-Keeps 4 _ (omega arith)
    ▸ store_reg_imm_generic-Keeps 8 _
    ▸ load_reg_imm_generic-Keeps 8 _ (omega arith)
    ▸ no_access-Keeps
    ▸ store_reg_imm_generic-Keeps 8 _
    ▸ load_reg_imm_generic-Keeps 8 _ (omega arith)
    ▸ nil
