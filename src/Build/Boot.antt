-- ===== src/Build/Boot.antt =====
-- The boot of every Mik-64 kernel, the first half of `build_common` in mik-os/src/lib.rs.
use mik_os.Common.{◌*◌, List, [], ◌∷◌}
use mik_os.Emu.Word.{encode}
use mik_os.Build.{Call, label, emit, jmp_to, li_to}
use mik_os.Build.Layout.{flags, page_size}

-- From `start` to the pages of the page tables.
abbrev pub boot_pages : List Call
boot_pages =
    (label "start"
      ∷ emit (encode 0x01 1 0 0 0x701000)
      ∷ emit (encode 0x0a 0 0 1 0x700000)
      ∷ li_to 1 "syscall_handler"
      ∷ emit (encode 0x0a 0 0 1 0x2000)
      ∷ li_to 1 "pf_handler"
      ∷ emit (encode 0x0a 0 0 1 0x2010)
      ∷ li_to 15 "after_alloc"
      ∷ jmp_to "alloc_page"
      ∷ label "after_alloc"
      ∷ emit (encode 0x01 13 0 0 b'!')
      ∷ emit (encode 0x09 0 2 13 0)
      ∷ emit (encode 0x07 13 2 0 0)
      ∷ emit (encode 0x09 0 0 13 0x1000)
      ∷ emit (encode 0x02 14 2 0 0)
      ∷ emit (encode 0x01 1 0 0 0x702000)
      ∷ emit (encode 0x0a 0 0 1 0x700000)
      ∷ li_to 15 "after_pgtbl"
      ∷ jmp_to "alloc_page"
      ∷ [])

-- The registers for the tables, and the filling of the four page tables.
abbrev pub boot_tables : List Call
boot_tables =
    (label "after_pgtbl"
      ∷ emit (encode 0x08 3 0 0 0x700000)
      ∷ emit (encode 0x03 3 3 0 (6 * page_size))
      ∷ emit (encode 0x0a 0 0 3 0x700000)
      ∷ emit (encode 0x02 4 2 0 0)
      ∷ emit (encode 0x03 5 4 0 0x1000)
      ∷ emit (encode 0x03 6 4 0 0x2000)
      ∷ emit (encode 0x03 7 4 0 0x3000)
      ∷ emit (encode 0x03 8 4 0 0x4000)
      ∷ emit (encode 0x03 9 4 0 0x5000)
      ∷ emit (encode 0x03 10 4 0 0x6000)
      ∷ emit (encode 0x01 11 0 0 0)
      ∷ emit (encode 0x02 12 7 0 0)
      ∷ li_to 15 "after_fill0"
      ∷ jmp_to "fill_pt"
      ∷ label "after_fill0"
      ∷ emit (encode 0x01 11 0 0 0x200000)
      ∷ emit (encode 0x02 12 8 0 0)
      ∷ li_to 15 "after_fill1"
      ∷ jmp_to "fill_pt"
      ∷ label "after_fill1"
      ∷ emit (encode 0x01 11 0 0 0x400000)
      ∷ emit (encode 0x02 12 9 0 0)
      ∷ li_to 15 "after_fill2"
      ∷ jmp_to "fill_pt"
      ∷ label "after_fill2"
      ∷ emit (encode 0x01 11 0 0 0x600000)
      ∷ emit (encode 0x02 12 10 0 0)
      ∷ li_to 15 "after_fill3"
      ∷ jmp_to "fill_pt"
      ∷ [])

-- The upper tables, and the switch to paging.
abbrev pub boot_paging : List Call
boot_paging =
    (label "after_fill3"
      ∷ emit (encode 0x02 1 5 0 0)
      ∷ emit (encode 0x03 1 1 0 flags)
      ∷ emit (encode 0x0a 0 4 1 0)
      ∷ emit (encode 0x02 1 6 0 0)
      ∷ emit (encode 0x03 1 1 0 flags)
      ∷ emit (encode 0x0a 0 5 1 0)
      ∷ emit (encode 0x02 1 7 0 0)
      ∷ emit (encode 0x03 1 1 0 flags)
      ∷ emit (encode 0x0a 0 6 1 0)
      ∷ emit (encode 0x02 1 8 0 0)
      ∷ emit (encode 0x03 1 1 0 flags)
      ∷ emit (encode 0x0a 0 6 1 0x8)
      ∷ emit (encode 0x02 1 9 0 0)
      ∷ emit (encode 0x03 1 1 0 flags)
      ∷ emit (encode 0x0a 0 6 1 0x10)
      ∷ emit (encode 0x02 1 10 0 0)
      ∷ emit (encode 0x03 1 1 0 flags)
      ∷ emit (encode 0x0a 0 6 1 0x18)
      ∷ emit (encode 0x02 1 4 0 0)
      ∷ emit (encode 0x12 0 1 0 0)
      ∷ emit (encode 0x01 1 0 0 1)
      ∷ emit (encode 0x12 0 1 0 1)
      ∷ jmp_to "after_paging"
      ∷ [])
