-- ===== src/Build/Routines.antt =====
-- The subroutines, the trap handler and the page-fault handler of `build_common` in mik-os/src/lib.rs.
use mik_os.Common.{List, [], ◌∷◌}
use mik_os.Emu.Word.{encode}
use mik_os.Build.{Call, label, emit, jmp_to, beq_to, bne_to, li_to}
use mik_os.Build.Layout.{
  flags, user_flags, page_size, pte_size, ptes, minus_one, minus_page, cur_slot, slot_pt4,
  pte_scratch, user_va,
}

-- A page from the free list, or else the next page.
abbrev pub alloc_page : List Call
alloc_page =
    (label "alloc_page"
      ∷ emit (encode 0x08 2 0 0 0x700008)
      ∷ beq_to 2 0 "alloc_bump"
      ∷ emit (encode 0x08 3 2 0 0)
      ∷ emit (encode 0x0a 0 0 3 0x700008)
      ∷ emit (encode 0x0f 0 15 0 0)
      ∷ label "alloc_bump"
      ∷ emit (encode 0x08 2 0 0 0x700000)
      ∷ emit (encode 0x03 3 2 0 page_size)
      ∷ emit (encode 0x0a 0 0 3 0x700000)
      ∷ emit (encode 0x0f 0 15 0 0)
      ∷ [])

-- A page back to the free list.
abbrev pub free_page : List Call
free_page =
    (label "free_page"
      ∷ emit (encode 0x08 3 0 0 0x700008)
      ∷ emit (encode 0x0a 0 2 3 0)
      ∷ emit (encode 0x0a 0 0 2 0x700008)
      ∷ emit (encode 0x0f 0 15 0 0)
      ∷ [])

-- The identity map of one page table.
abbrev pub fill_pt : List Call
fill_pt =
    (label "fill_pt"
      ∷ emit (encode 0x01 3 0 0 ptes)
      ∷ emit (encode 0x01 13 0 0 flags)
      ∷ label "fill_loop"
      ∷ emit (encode 0x06 1 11 13 0)
      ∷ emit (encode 0x0a 0 12 1 0)
      ∷ emit (encode 0x03 11 11 0 page_size)
      ∷ emit (encode 0x03 12 12 0 pte_size)
      ∷ emit (encode 0x03 3 3 0 minus_one)
      ∷ bne_to 3 0 "fill_loop"
      ∷ emit (encode 0x0f 0 15 0 0)
      ∷ [])

-- `print_string` behind the word that is patched.
abbrev pub print_loop : List Call
print_loop =
    (label "loop"
      ∷ emit (encode 0x07 2 1 0 0)
      ∷ beq_to 2 0 "done"
      ∷ emit (encode 0x09 0 0 2 0x1000)
      ∷ emit (encode 0x03 1 1 0 1)
      ∷ jmp_to "loop"
      ∷ [])

-- The dispatch on the system call number.
abbrev pub trap_handler : List Call
trap_handler =
    (label "syscall_handler"
      ∷ beq_to 10 0 "sys_halt"
      ∷ emit (encode 0x01 3 0 0 1)
      ∷ beq_to 10 3 "sys_print_char"
      ∷ emit (encode 0x01 3 0 0 2)
      ∷ beq_to 10 3 "sys_fork"
      ∷ emit (encode 0x01 3 0 0 3)
      ∷ beq_to 10 3 "sys_exec"
      ∷ emit (encode 0x01 3 0 0 4)
      ∷ beq_to 10 3 "sched_save"
      ∷ emit (encode 0x01 3 0 0 5)
      ∷ beq_to 10 3 "sys_exit"
      ∷ emit (encode 0x10 0 0 0 0)
      ∷ label "sys_print_char"
      ∷ emit (encode 0x09 0 0 2 0x1000)
      ∷ emit (encode 0x10 0 0 0 0)
      ∷ label "sys_halt"
      ∷ emit (encode 0x00 0 0 0 0)
      ∷ [])

-- Demand paging, and the report of other faults.
abbrev pub fault_handler : List Call
fault_handler =
    (label "pf_handler"
      ∷ emit (encode 0x01 1 0 0 1)
      ∷ bne_to 10 1 "pf_print"
      ∷ emit (encode 0x01 3 0 0 0xffffe00000)
      ∷ emit (encode 0x05 1 11 3 0)
      ∷ emit (encode 0x01 3 0 0 user_va)
      ∷ bne_to 1 3 "pf_print"
      ∷ emit (encode 0x01 3 0 0 0x1ff000)
      ∷ emit (encode 0x05 1 11 3 0)
      ∷ emit (encode 0x08 15 0 0 cur_slot)
      ∷ emit (encode 0x08 15 15 0 slot_pt4)
      ∷ emit (encode 0x02 3 15 0 0)
      ∷ label "pf_idxloop"
      ∷ beq_to 1 0 "pf_gotidx"
      ∷ emit (encode 0x03 1 1 0 minus_page)
      ∷ emit (encode 0x03 3 3 0 8)
      ∷ jmp_to "pf_idxloop"
      ∷ label "pf_gotidx"
      ∷ emit (encode 0x0a 0 0 3 pte_scratch)
      ∷ li_to 15 "pf_alloc_ret"
      ∷ jmp_to "alloc_page"
      ∷ label "pf_alloc_ret"
      ∷ emit (encode 0x08 3 0 0 pte_scratch)
      ∷ emit (encode 0x01 1 0 0 user_flags)
      ∷ emit (encode 0x06 2 2 1 0)
      ∷ emit (encode 0x0a 0 3 2 0)
      ∷ emit (encode 0x13 0 0 0 0)
      ∷ emit (encode 0x10 0 0 0 0)
      ∷ label "pf_print"
      ∷ emit (encode 0x01 1 0 0 b'F')
      ∷ emit (encode 0x09 0 0 1 0x1000)
      ∷ emit (encode 0x03 1 10 0 b'0')
      ∷ emit (encode 0x09 0 0 1 0x1000)
      ∷ emit (encode 0x00 0 0 0 0)
      ∷ [])
