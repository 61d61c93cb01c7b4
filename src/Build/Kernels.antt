-- ===== src/Build/Kernels.antt =====
-- The kernel images of mik-os/src/lib.rs.
use mik_os.Common.{
  ℕ, ◌+◌, ◌-◌, ◌*◌, leb, if◌then◌else◌, ◌&&◌, Option, none, some, List, [], ◌∷◌, ◌++◌, length,
  to_le_bytes,
}
use mik_os.Emu.Word.{encode}
use mik_os.Emu.Machine.{csr_timer}
use mik_os.Build.{
  Call, label, emit, jmp_to, beq_to, bne_to, li_to, Asm, new, calls, resolve, patch_imm, binary,
  finalize,
}
use mik_os.Build.Layout.{
  flags, read_flags, minus_one, proc_table, slot_pc, slot_ptbr, slot_pt4, slot_state, cur_slot,
  kern_pd, tbl_pml4, tbl_pdpt, tbl_pd, tbl_pt4, tbl_upage, user_va,
}
use mik_os.Build.Boot.{boot_pages, boot_tables, boot_paging}
use mik_os.Build.Routines.{alloc_page, free_page, fill_pt, print_loop, trap_handler, fault_handler}
use mik_os.Build.Processes.{
  sched, exec_address, exec_length, exec_copy, fork_slot, fork_copy, build_tables,
}

pub record Fixups : Type 0 where
  pub string_idx : ℕ
  pub exec_addr_idx : ℕ
  pub exec_len_idx : ℕ

abbrev pub load_addr : ℕ
load_addr = 0x400000

-- `build_common`: the builder behind it, and the words that the caller patches.
unfoldable pub build_common : Asm → Asm × Fixups
build_common a =
    let a1 =
      calls a (boot_pages ++ boot_tables ++ boot_paging ++ alloc_page ++ free_page ++ fill_pt) in
    let a2 = calls a1 (label "print_string" ∷ emit (encode 0x01 1 0 0 0) ∷ []) in
    let a3 = calls a2 (print_loop ++ trap_handler ++ fault_handler ++ sched ++ exec_address) in
    let a4 = calls a3 exec_length in
    let a5 = calls a4 (exec_copy ++ fork_slot ++ fork_copy ++ build_tables) in
    (
      a5,
      record {
        string_idx = length a1.code;
        exec_addr_idx = length a3.code - 1;
        exec_len_idx = length a4.code - 1;
      },
    )

-- What `kernel_binary` adds.
abbrev pub binary_body : List Call
binary_body =
    (label "after_paging"
      ∷ emit (encode 0x02 2 14 0 0)
      ∷ li_to 15 "after_free"
      ∷ jmp_to "free_page"
      ∷ label "after_free"
      ∷ emit (encode 0x01 2 0 0 b'?')
      ∷ emit (encode 0x0e 0 0 0 1)
      ∷ jmp_to "print_string"
      ∷ label "done"
      ∷ emit (encode 0x0e 0 0 0 0)
      ∷ [])

-- What `kernel_pagefault` adds.
abbrev pub pagefault_body : List Call
pagefault_body =
    (label "after_paging"
      ∷ emit (encode 0x08 1 0 0 0x4000000)
      ∷ label "done"
      ∷ emit (encode 0x0e 0 0 0 0)
      ∷ [])

-- What `kernel_freelist` adds.
abbrev pub freelist_body : List Call
freelist_body =
    (label "after_paging"
      ∷ emit (encode 0x02 2 14 0 0)
      ∷ li_to 15 "after_free"
      ∷ jmp_to "free_page"
      ∷ label "after_free"
      ∷ li_to 15 "after_realloc"
      ∷ jmp_to "alloc_page"
      ∷ label "after_realloc"
      ∷ emit (encode 0x01 3 0 0 0xcafebabe)
      ∷ emit (encode 0x0a 0 2 3 0)
      ∷ emit (encode 0x0e 0 0 0 0)
      ∷ label "done"
      ∷ [])

-- What `kernel_user_mode` adds.
abbrev pub user_mode_body : List Call
user_mode_body =
    (label "after_paging"
      ∷ li_to 15 "after_pt4"
      ∷ jmp_to "alloc_page"
      ∷ label "after_pt4"
      ∷ emit (encode 0x02 8 2 0 0)
      ∷ li_to 15 "after_user_page"
      ∷ jmp_to "alloc_page"
      ∷ label "after_user_page"
      ∷ emit (encode 0x02 7 2 0 0)
      ∷ li_to 9 "user_code_data"
      ∷ emit (encode 0x08 1 9 0 0)
      ∷ emit (encode 0x0a 0 7 1 0)
      ∷ emit (encode 0x08 1 9 0 8)
      ∷ emit (encode 0x0a 0 7 1 8)
      ∷ emit (encode 0x02 1 7 0 0)
      ∷ emit (encode 0x03 1 1 0 read_flags)
      ∷ emit (encode 0x0a 0 8 1 0)
      ∷ emit (encode 0x02 1 8 0 0)
      ∷ emit (encode 0x03 1 1 0 flags)
      ∷ emit (encode 0x0a 0 6 1 (4 * 8))
      ∷ emit (encode 0x13 0 0 0 0)
      ∷ emit (encode 0x01 2 0 0 b'U')
      ∷ emit (encode 0x01 1 0 0 0x800000)
      ∷ emit (encode 0x14 0 1 0 0)
      ∷ label "done"
      ∷ emit (encode 0x00 0 0 0 0)
      ∷ label "user_code_data"
      ∷ [])

-- What `kernel_timer` adds.
abbrev pub timer_body : List Call
timer_body =
    (label "after_paging"
      ∷ li_to 1 "timer_handler"
      ∷ emit (encode 0x0a 0 0 1 0x2020)
      ∷ emit (encode 0x0a 0 0 0 0x700010)
      ∷ emit (encode 0x01 1 0 0 100)
      ∷ emit (encode 0x12 0 1 0 csr_timer)
      ∷ li_to 15 "after_pt4"
      ∷ jmp_to "alloc_page"
      ∷ label "after_pt4"
      ∷ emit (encode 0x02 8 2 0 0)
      ∷ li_to 15 "after_user_page"
      ∷ jmp_to "alloc_page"
      ∷ label "after_user_page"
      ∷ emit (encode 0x02 7 2 0 0)
      ∷ li_to 9 "user_code_data"
      ∷ emit (encode 0x08 1 9 0 0)
      ∷ emit (encode 0x0a 0 7 1 0)
      ∷ emit (encode 0x02 1 7 0 0)
      ∷ emit (encode 0x03 1 1 0 read_flags)
      ∷ emit (encode 0x0a 0 8 1 0)
      ∷ emit (encode 0x02 1 8 0 0)
      ∷ emit (encode 0x03 1 1 0 flags)
      ∷ emit (encode 0x0a 0 6 1 (4 * 8))
      ∷ emit (encode 0x13 0 0 0 0)
      ∷ emit (encode 0x01 1 0 0 0x800000)
      ∷ emit (encode 0x14 0 1 0 0)
      ∷ label "done"
      ∷ emit (encode 0x00 0 0 0 0)
      ∷ label "timer_handler"
      ∷ emit (encode 0x08 1 0 0 0x700010)
      ∷ emit (encode 0x03 1 1 0 1)
      ∷ emit (encode 0x0a 0 0 1 0x700010)
      ∷ emit (encode 0x01 2 0 0 b'T')
      ∷ emit (encode 0x09 0 0 2 0x1000)
      ∷ emit (encode 0x01 2 0 0 3)
      ∷ beq_to 1 2 "done"
      ∷ emit (encode 0x16 0 0 0 0)
      ∷ label "user_code_data"
      ∷ [])

-- What `kernel_os` adds: up to the word that takes the address of `init`,
abbrev pub os_address : List Call
os_address =
    (label "after_paging"
      ∷ emit (encode 0x0a 0 0 6 kern_pd)
      ∷ li_to 1 "sched_save"
      ∷ emit (encode 0x0a 0 0 1 0x2020)
      ∷ li_to 15 "os_a0"
      ∷ jmp_to "alloc_page"
      ∷ label "os_a0"
      ∷ emit (encode 0x0a 0 0 2 tbl_pml4)
      ∷ li_to 15 "os_a1"
      ∷ jmp_to "alloc_page"
      ∷ label "os_a1"
      ∷ emit (encode 0x0a 0 0 2 tbl_pdpt)
      ∷ li_to 15 "os_a2"
      ∷ jmp_to "alloc_page"
      ∷ label "os_a2"
      ∷ emit (encode 0x0a 0 0 2 tbl_pd)
      ∷ li_to 15 "os_a3"
      ∷ jmp_to "alloc_page"
      ∷ label "os_a3"
      ∷ emit (encode 0x0a 0 0 2 tbl_pt4)
      ∷ li_to 15 "os_a4"
      ∷ jmp_to "alloc_page"
      ∷ label "os_a4"
      ∷ emit (encode 0x0a 0 0 2 tbl_upage)
      ∷ li_to 15 "os_bt_ret"
      ∷ jmp_to "build_tables"
      ∷ label "os_bt_ret"
      ∷ emit (encode 0x08 1 0 0 tbl_pml4)
      ∷ emit (encode 0x0a 0 0 1 (proc_table + slot_ptbr))
      ∷ emit (encode 0x08 1 0 0 tbl_pt4)
      ∷ emit (encode 0x0a 0 0 1 (proc_table + slot_pt4))
      ∷ emit (encode 0x01 1 0 0 user_va)
      ∷ emit (encode 0x0a 0 0 1 (proc_table + slot_pc))
      ∷ emit (encode 0x01 1 0 0 1)
      ∷ emit (encode 0x0a 0 0 1 (proc_table + slot_state))
      ∷ emit (encode 0x01 3 0 0 0)
      ∷ [])

-- the word that takes its length,
abbrev pub os_length : List Call
os_length = (emit (encode 0x01 1 0 0 0) ∷ [])

-- its copy, and the start of the first process.
abbrev pub os_copy : List Call
os_copy =
    (emit (encode 0x08 15 0 0 tbl_upage)
      ∷ label "os_init_copy"
      ∷ emit (encode 0x07 2 3 0 0)
      ∷ emit (encode 0x09 0 15 2 0)
      ∷ emit (encode 0x03 3 3 0 1)
      ∷ emit (encode 0x03 15 15 0 1)
      ∷ emit (encode 0x03 1 1 0 minus_one)
      ∷ bne_to 1 0 "os_init_copy"
      ∷ emit (encode 0x01 1 0 0 proc_table)
      ∷ emit (encode 0x0a 0 0 1 cur_slot)
      ∷ emit (encode 0x01 1 0 0 100)
      ∷ emit (encode 0x12 0 1 0 csr_timer)
      ∷ emit (encode 0x08 15 0 0 cur_slot)
      ∷ jmp_to "sched_restore"
      ∷ label "done"
      ∷ emit (encode 0x00 0 0 0 0)
      ∷ [])

-- A kernel that is the common part, a body and trailing bytes.
abbrev pub image : List Call → List ℕ → Option (List ℕ)
image body string =
    let (a, fix) = build_common new in finalize (calls a body) load_addr fix.string_idx string

unfoldable pub kernel_binary : Option (List ℕ)
kernel_binary = image binary_body (b'M' ∷ b'i' ∷ b'k' ∷ b' ' ∷ b'O' ∷ b'S' ∷ 10 ∷ 0 ∷ [])

unfoldable pub kernel_pagefault : Option (List ℕ)
kernel_pagefault = image pagefault_body (0 ∷ [])

unfoldable pub kernel_freelist : Option (List ℕ)
kernel_freelist = image freelist_body (0 ∷ [])

unfoldable pub kernel_user_mode : Option (List ℕ)
kernel_user_mode =
    image user_mode_body
      (to_le_bytes 8 (encode 0x0e 0 0 0 1) ++ to_le_bytes 8 (encode 0x0e 0 0 0 0))

unfoldable pub kernel_timer : Option (List ℕ)
kernel_timer = image timer_body (to_le_bytes 8 (encode 0x0d 0 0 0 0))

-- The patches of `kernel_os` in the resolved program, and its binary.
unfoldable pub os_image : Fixups → ℕ → ℕ → Asm → List ℕ → List ℕ → List ℕ
os_image fix init_addr_idx init_len_idx r init_bin prog1_bin =
    let blob_base = load_addr + length r.code * 8 in
    let r1 = patch_imm r fix.string_idx blob_base in
    let r2 = patch_imm r1 init_addr_idx blob_base in
    let r3 = patch_imm r2 init_len_idx (length init_bin) in
    let r4 = patch_imm r3 fix.exec_addr_idx (blob_base + length init_bin) in
    let r5 = patch_imm r4 fix.exec_len_idx (length prog1_bin) in binary r5 (init_bin ++ prog1_bin)

-- `kernel_os`, behind the assembling of `init` and `prog1`, whose binaries it takes; `none` is a panic.
unfoldable pub kernel_os : List ℕ → List ℕ → Option (List ℕ)
kernel_os init_bin prog1_bin =
    if leb (length init_bin) 0x1000 && leb (length prog1_bin) 0x1000
    then (let (a, fix) = build_common new in
        let a1 = calls a os_address in
        let a2 = calls a1 os_length in
        elim (resolve (calls a2 os_copy) load_addr) [
          | none ↦ none
          | some r ↦
              some (os_image fix (length a1.code - 1) (length a2.code - 1) r init_bin prog1_bin)
        ])
    else none
