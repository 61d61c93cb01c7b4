-- ===== src/Build/Layout.antt =====
-- The constants of mik-os/src/lib.rs: page-table flags, and where the Mik-64 kernel keeps its data.
use mik_os.Common.{ℕ, ◌-◌, ◌^◌}

-- `PTE_P | PTE_W`
abbrev pub flags : ℕ
flags = 3

-- `PTE_P | PTE_W | PTE_U`
abbrev pub user_flags : ℕ
user_flags = 7

-- `PTE_P | PTE_U`
abbrev pub read_flags : ℕ
read_flags = 5

abbrev pub page_size : ℕ
page_size = 0x1000

abbrev pub pte_size : ℕ
pte_size = 8

abbrev pub ptes : ℕ
ptes = 512

-- -1 and -0x1000 as bit patterns.
abbrev pub minus_one : ℕ
minus_one = 2 ^ 64 - 1

abbrev pub minus_page : ℕ
minus_page = 2 ^ 64 - 0x1000

abbrev pub proc_table : ℕ
proc_table = 0x700100

abbrev pub slot_stride : ℕ
slot_stride = 160

abbrev pub slot_pc : ℕ
slot_pc = 112

abbrev pub slot_ptbr : ℕ
slot_ptbr = 120

abbrev pub slot_pt4 : ℕ
slot_pt4 = 128

abbrev pub slot_state : ℕ
slot_state = 136

abbrev pub cur_slot : ℕ
cur_slot = 0x700040

abbrev pub kern_pd : ℕ
kern_pd = 0x700018

abbrev pub child_slot : ℕ
child_slot = 0x700068

abbrev pub pte_scratch : ℕ
pte_scratch = 0x700058

abbrev pub tbl_pml4 : ℕ
tbl_pml4 = 0x700070

abbrev pub tbl_pdpt : ℕ
tbl_pdpt = 0x700078

abbrev pub tbl_pd : ℕ
tbl_pd = 0x700080

abbrev pub tbl_pt4 : ℕ
tbl_pt4 = 0x700088

abbrev pub tbl_upage : ℕ
tbl_upage = 0x700090

abbrev pub user_va : ℕ
user_va = 0x800000
