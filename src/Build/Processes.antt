-- ===== src/Build/Processes.antt =====
-- The scheduler, `exec`, `fork` and the building of tables of `build_common` in mik-os/src/lib.rs.
use mik_os.Common.{◌+◌, ◌-◌, ◌*◌, List, [], ◌∷◌, ◌++◌, map}
use mik_os.Emu.Word.{encode}
use mik_os.Build.{Call, label, emit, jmp_to, beq_to, bne_to, li_to}
use mik_os.Emu.Machine.{csr_epc, csr_ptbr, csr_pmode}
use mik_os.Build.Layout.{
  flags, user_flags, minus_one, proc_table, slot_stride, slot_pc, slot_ptbr, slot_pt4, slot_state,
  cur_slot, kern_pd, child_slot, tbl_pml4, tbl_pdpt, tbl_pd, tbl_pt4, tbl_upage, user_va,
}

-- The save of the running process, the choice of the next, and `exit`.
abbrev pub sched : List Call
sched =
    (label "sched_save" ∷ emit (encode 0x08 15 0 0 cur_slot) ∷ [])
    ++ map (λ i. emit (encode 0x0a 0 15 i ((i - 1) * 8)))
        (1 ∷ 2 ∷ 3 ∷ 4 ∷ 5 ∷ 6 ∷ 7 ∷ 8 ∷ 9 ∷ 10 ∷ 11 ∷ 12 ∷ 13 ∷ 14 ∷ [])
    ++ (emit (encode 0x11 1 0 0 csr_epc)
        ∷ emit (encode 0x0a 0 15 1 slot_pc)
        ∷ label "sched_pick"
        ∷ emit (encode 0x01 1 0 0 proc_table)
        ∷ emit (encode 0x01 3 0 0 (proc_table + slot_stride))
        ∷ beq_to 15 1 "sched_pick_have"
        ∷ emit (encode 0x02 3 1 0 0)
        ∷ label "sched_pick_have"
        ∷ emit (encode 0x08 1 3 0 slot_state)
        ∷ bne_to 1 0 "sched_switch"
        ∷ emit (encode 0x08 1 15 0 slot_state)
        ∷ beq_to 1 0 "sys_halt"
        ∷ jmp_to "sched_restore"
        ∷ label "sched_switch"
        ∷ emit (encode 0x0a 0 0 3 cur_slot)
        ∷ emit (encode 0x02 15 3 0 0)
        ∷ label "sched_restore"
        ∷ emit (encode 0x08 1 15 0 slot_ptbr)
        ∷ emit (encode 0x12 0 1 0 csr_ptbr)
        ∷ emit (encode 0x01 1 0 0 1)
        ∷ emit (encode 0x12 0 1 0 csr_pmode)
        ∷ [])
    ++ map (λ i. emit (encode 0x08 i 15 0 ((i - 1) * 8)))
        (1 ∷ 2 ∷ 3 ∷ 4 ∷ 5 ∷ 6 ∷ 7 ∷ 8 ∷ 9 ∷ 10 ∷ 11 ∷ 12 ∷ 13 ∷ 14 ∷ [])
    ++ (emit (encode 0x08 15 15 0 slot_pc)
        ∷ emit (encode 0x14 0 15 0 0)
        ∷ label "sys_exit"
        ∷ emit (encode 0x08 15 0 0 cur_slot)
        ∷ emit (encode 0x0a 0 15 0 slot_state)
        ∷ jmp_to "sched_pick"
        ∷ [])

-- `exec` up to the word that takes the program's address,
abbrev pub exec_address : List Call
exec_address =
    (label "sys_exec"
      ∷ emit (encode 0x01 3 0 0 1)
      ∷ bne_to 2 3 "sys_ret"
      ∷ emit (encode 0x01 3 0 0 0)
      ∷ [])

-- the word that takes its length,
abbrev pub exec_length : List Call
exec_length = (emit (encode 0x01 1 0 0 0) ∷ [])

-- and the copy.
abbrev pub exec_copy : List Call
exec_copy =
    (emit (encode 0x01 15 0 0 user_va)
      ∷ label "exec_copy"
      ∷ emit (encode 0x07 2 3 0 0)
      ∷ emit (encode 0x09 0 15 2 0)
      ∷ emit (encode 0x03 3 3 0 1)
      ∷ emit (encode 0x03 15 15 0 1)
      ∷ emit (encode 0x03 1 1 0 minus_one)
      ∷ bne_to 1 0 "exec_copy"
      ∷ emit (encode 0x01 15 0 0 user_va)
      ∷ emit (encode 0x14 0 15 0 0)
      ∷ label "sys_ret"
      ∷ emit (encode 0x10 0 0 0 0)
      ∷ [])

-- `fork`: the child's slot, and its pages.
abbrev pub fork_slot : List Call
fork_slot =
    (label "sys_fork"
      ∷ emit (encode 0x08 15 0 0 cur_slot)
      ∷ emit (encode 0x01 1 0 0 proc_table)
      ∷ emit (encode 0x01 3 0 0 (proc_table + slot_stride))
      ∷ beq_to 15 1 "fork_have_slot"
      ∷ emit (encode 0x02 3 1 0 0)
      ∷ label "fork_have_slot"
      ∷ emit (encode 0x0a 0 0 3 child_slot)
      ∷ emit (encode 0x02 15 3 0 0)
      ∷ [])
    ++ map (λ i. emit (encode 0x0a 0 15 i ((i - 1) * 8)))
        (1 ∷ 2 ∷ 3 ∷ 4 ∷ 5 ∷ 6 ∷ 7 ∷ 8 ∷ 9 ∷ 10 ∷ 11 ∷ 12 ∷ 13 ∷ 14 ∷ [])
    ++ (emit (encode 0x0a 0 15 0 8)
        ∷ emit (encode 0x11 1 0 0 csr_epc)
        ∷ emit (encode 0x0a 0 15 1 slot_pc)
        ∷ emit (encode 0x01 1 0 0 1)
        ∷ emit (encode 0x0a 0 15 1 slot_state)
        ∷ li_to 15 "fork_a0"
        ∷ jmp_to "alloc_page"
        ∷ label "fork_a0"
        ∷ emit (encode 0x0a 0 0 2 tbl_pml4)
        ∷ li_to 15 "fork_a1"
        ∷ jmp_to "alloc_page"
        ∷ label "fork_a1"
        ∷ emit (encode 0x0a 0 0 2 tbl_pdpt)
        ∷ li_to 15 "fork_a2"
        ∷ jmp_to "alloc_page"
        ∷ label "fork_a2"
        ∷ emit (encode 0x0a 0 0 2 tbl_pd)
        ∷ li_to 15 "fork_a3"
        ∷ jmp_to "alloc_page"
        ∷ label "fork_a3"
        ∷ emit (encode 0x0a 0 0 2 tbl_pt4)
        ∷ li_to 15 "fork_a4"
        ∷ jmp_to "alloc_page"
        ∷ label "fork_a4"
        ∷ emit (encode 0x0a 0 0 2 tbl_upage)
        ∷ [])

-- The child's tables, and the copy of the user page.
abbrev pub fork_copy : List Call
fork_copy =
    (li_to 15 "fork_bt_ret"
      ∷ jmp_to "build_tables"
      ∷ label "fork_bt_ret"
      ∷ emit (encode 0x08 15 0 0 child_slot)
      ∷ emit (encode 0x08 1 0 0 tbl_pml4)
      ∷ emit (encode 0x0a 0 15 1 slot_ptbr)
      ∷ emit (encode 0x08 1 0 0 tbl_pt4)
      ∷ emit (encode 0x0a 0 15 1 slot_pt4)
      ∷ emit (encode 0x01 1 0 0 user_va)
      ∷ emit (encode 0x08 3 0 0 tbl_upage)
      ∷ emit (encode 0x01 15 0 0 512)
      ∷ label "fork_copy"
      ∷ emit (encode 0x08 2 1 0 0)
      ∷ emit (encode 0x0a 0 3 2 0)
      ∷ emit (encode 0x03 1 1 0 8)
      ∷ emit (encode 0x03 3 3 0 8)
      ∷ emit (encode 0x03 15 15 0 minus_one)
      ∷ bne_to 15 0 "fork_copy"
      ∷ emit (encode 0x01 2 0 0 0)
      ∷ emit (encode 0x08 1 0 0 child_slot)
      ∷ emit (encode 0x01 3 0 0 (proc_table + slot_stride))
      ∷ bne_to 1 3 "fork_ret"
      ∷ emit (encode 0x01 2 0 0 1)
      ∷ label "fork_ret"
      ∷ emit (encode 0x10 0 0 0 0)
      ∷ [])

-- The tables of a process.
abbrev pub build_tables : List Call
build_tables =
    (label "build_tables"
      ∷ emit (encode 0x08 1 0 0 tbl_pml4)
      ∷ emit (encode 0x08 2 0 0 tbl_pdpt)
      ∷ emit (encode 0x01 3 0 0 flags)
      ∷ emit (encode 0x06 2 2 3 0)
      ∷ emit (encode 0x0a 0 1 2 0)
      ∷ emit (encode 0x08 1 0 0 tbl_pdpt)
      ∷ emit (encode 0x08 2 0 0 tbl_pd)
      ∷ emit (encode 0x06 2 2 3 0)
      ∷ emit (encode 0x0a 0 1 2 0)
      ∷ emit (encode 0x08 1 0 0 kern_pd)
      ∷ emit (encode 0x08 2 0 0 tbl_pd)
      ∷ emit (encode 0x08 3 1 0 (0 * 8))
      ∷ emit (encode 0x0a 0 2 3 (0 * 8))
      ∷ emit (encode 0x08 3 1 0 (1 * 8))
      ∷ emit (encode 0x0a 0 2 3 (1 * 8))
      ∷ emit (encode 0x08 3 1 0 (2 * 8))
      ∷ emit (encode 0x0a 0 2 3 (2 * 8))
      ∷ emit (encode 0x08 3 1 0 (3 * 8))
      ∷ emit (encode 0x0a 0 2 3 (3 * 8))
      ∷ emit (encode 0x08 2 0 0 tbl_pt4)
      ∷ emit (encode 0x01 3 0 0 flags)
      ∷ emit (encode 0x06 3 2 3 0)
      ∷ emit (encode 0x08 1 0 0 tbl_pd)
      ∷ emit (encode 0x0a 0 1 3 (4 * 8))
      ∷ emit (encode 0x08 1 0 0 tbl_upage)
      ∷ emit (encode 0x01 3 0 0 user_flags)
      ∷ emit (encode 0x06 3 1 3 0)
      ∷ emit (encode 0x08 2 0 0 tbl_pt4)
      ∷ emit (encode 0x0a 0 2 3 0)
      ∷ emit (encode 0x0f 0 15 0 0)
      ∷ [])
