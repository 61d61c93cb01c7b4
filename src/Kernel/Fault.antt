-- ===== src/Kernel/Fault.antt =====
pub mod UserStrings
pub mod CopyOnWrite
-- User memory in mik-os-x86/kernel/src/sched.rs: `ustr_ok`, and the page-fault handler with its
-- demand paging and copy-on-write.
use mik_os.Common.{
  ℕ, zero, suc, ◌+◌, ◌-◌, ◌*◌, ◌/◌, ◌%◌, ◌==◌, leb, ltb, if◌then◌else◌, Bool, true, false, not,
  ◌&&◌, ◌||◌, Option, none, some, Memory, copy_bytes, load64, store64, bit_or,
}
use mik_os.Common.Bits.{test_bit}
use mik_os.Kernel.Mem.{Frames, alloc_frame}
use mik_os.Kernel.Paging.{table_of, zero_frame, map_4k, find_pte}
use mik_os.Kernel.Paging.Clone.{present_writable_user}
use mik_os.Kernel.Proc.{
  user_code_va, user_data_va, user_region_end, Proc, Board, Os, current, Outcome, resume, panic,
}

-- `*pte & (PTE_P | PTE_U) == (PTE_P | PTE_U)`, where there is an entry.
unfoldable pub page_ok : Memory → ℕ → ℕ → Bool
page_ok mem pml4 page = elim (find_pte mem pml4 page) [
  | none ↦ false
  | some e ↦ test_bit (load64 mem e) 0 && test_bit (load64 mem e) 2
]

-- `while page < ptr + len`, on fuel.
unfoldable pub pages_ok : ℕ → Memory → ℕ → ℕ → ℕ → Bool
pages_ok zero mem pml4 end page = true
pages_ok (suc fuel) mem pml4 end page = elim (ltb page end) [
  | false ↦ true
  | true ↦ elim (page_ok mem pml4 page) [
    | false ↦ false
    | true ↦ pages_ok fuel mem pml4 end (page + 0x1000)
  ]
]

-- There are not more pages than bytes.
unfoldable pub ustr_ok : Memory → ℕ → ℕ → ℕ → Bool
ustr_ok mem pml4 ptr len =
    if len == 0 || (ltb ptr user_code_va || ltb user_region_end (ptr + len))
    then false
    else pages_ok (suc len) mem pml4 (ptr + len) (table_of ptr)

-- The private copy of the frame behind the entry at `e`.
unfoldable pub copy_page : Frames → ℕ → Option Frames
copy_page s e =
    let pte = load64 s.mem e in
    let (frame, s1) = alloc_frame s in
    elim frame [
      | none ↦ none
      | some fr ↦
          let m = copy_bytes s1.mem (table_of pte) fr 4096 in
          let old = load64 m e in
          some (record s1 { mem = store64 m e (bit_or (bit_or fr (old % 0x1000)) 2) })
    ]

-- A present page for user mode without the write bit.
unfoldable pub is_shared : Memory → ℕ → Bool
is_shared mem e =
    test_bit (load64 mem e) 0 && (test_bit (load64 mem e) 2 && not (test_bit (load64 mem e) 1))

unfoldable pub demand_page : Frames → ℕ → ℕ → Option Frames
demand_page s pml4 page =
    let (frame, s1) = alloc_frame s in
    elim frame [
      | none ↦ none
      | some fr ↦
          map_4k (record s1 { mem = zero_frame s1.mem fr }) pml4 page fr present_writable_user
    ]

-- What `pf_handler` does about a fault: it has mended the page tables, it has run out of frames, or
-- it prints the fault and halts.
pub data Handled : Type 0 where
  mended : Frames → Handled
  out_of_frames : Handled
  fatal : Handled

abbrev pub mended_or_out : Option Frames → Handled
mended_or_out none = out_of_frames
mended_or_out (some s) = mended s

-- The second test of `pf_handler`.
unfoldable pub handle_write : Frames → ℕ → ℕ → Handled
handle_write s pml4 cr2 = elim (find_pte s.mem pml4 cr2) [
  | none ↦ fatal
  | some e ↦ if is_shared s.mem e then mended_or_out (copy_page s e) else fatal
]

unfoldable pub handle_fault : Frames → Proc → ℕ → ℕ → Handled
unfolding handle_write
handle_fault s p cr2 err =
    if not (test_bit err 0) && (leb user_data_va cr2 && ltb cr2 p.brk)
    then mended_or_out (demand_page s p.pml4 (table_of cr2))
    else if (test_bit err 0 && test_bit err 1) && (leb user_code_va cr2 && ltb cr2 user_region_end)
    then handle_write s p.pml4 cr2
    else fatal

-- The message of a fatal fault, and the halt behind it, end the kernel as a panic does.
module _ (board : Board) where
  unfoldable pub pf_handler : Os board → ℕ → ℕ → ℕ → Outcome board
  pf_handler k frame cr2 err = elim (handle_fault k.phys (current board k) cr2 err) [
    | mended s ↦ resume frame (record k { phys = s })
    | out_of_frames ↦ panic
    | fatal ↦ panic
  ]
