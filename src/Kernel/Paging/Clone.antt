-- ===== src/Kernel/Paging/Clone.antt =====
-- `clone_user_table` of mik-os-x86/kernel/src/mem.rs: a child's tables share the parent's frames, with
-- the write bit cleared on both sides.
use mik_os.Common.{
  ℕ, zero, suc, ◌+◌, ◌-◌, ◌*◌, bit_or, if◌then◌else◌, true, false, Option, none, some, Memory,
  load64, store64,
}
use mik_os.Common.Bits.{test_bit}
use mik_os.Kernel.Mem.{Frames, alloc_frame}
use mik_os.Kernel.Paging.{table_of, zero_frame, build_user_table}

-- `PTE_P | PTE_W | PTE_U`
abbrev pub present_writable_user : ℕ
present_writable_user = 7

-- `pte & !PTE_W`
abbrev pub read_only : ℕ → ℕ
read_only pte = if test_bit pte 1 then pte - 2 else pte

-- The inner loop, from entry `j` on, over the tables at `p_pt` and `c_pt`.
unfoldable pub share_entries : ℕ → Memory → ℕ → ℕ → ℕ → Memory
share_entries zero mem p_pt c_pt j = mem
share_entries (suc n) mem p_pt c_pt j =
    let pte = load64 mem (p_pt + j * 8) in
    share_entries n
      (if test_bit pte 0
        then store64 (store64 mem (p_pt + j * 8) (read_only pte)) (c_pt + j * 8) (read_only pte)
        else mem)
      p_pt c_pt (j + 1)

-- The body of the outer loop for a present entry `i`.
unfoldable pub clone_table : Frames → ℕ → ℕ → ℕ → Option Frames
clone_table s p_upd c_upd i =
    let (frame, s1) = alloc_frame s in
    elim frame [
      | none ↦ none
      | some c_pt ↦
          let m =
            store64 (zero_frame s1.mem c_pt) (c_upd + i * 8) (bit_or c_pt present_writable_user) in
          some (record s1 {
            mem = share_entries 512 m (table_of (load64 s.mem (p_upd + i * 8))) c_pt 0;
          })
    ]

unfoldable pub clone_tables : ℕ → Frames → ℕ → ℕ → ℕ → Option Frames
clone_tables zero s p_upd c_upd i = some s
clone_tables (suc n) s p_upd c_upd i = elim (test_bit (load64 s.mem (p_upd + i * 8)) 0) [
  | false ↦ clone_tables n s p_upd c_upd (i + 1)
  | true ↦ elim (clone_table s p_upd c_upd i) [
    | none ↦ none
    | some s' ↦ clone_tables n s' p_upd c_upd (i + 1)
  ]
]

-- Behind the building of the child's own tables.
unfoldable pub clone_into : Frames → ℕ → ℕ → Option Frames
clone_into s parent child =
    let p_pdpt = table_of (load64 s.mem parent) in
    let c_pdpt = table_of (load64 s.mem child) in
    let p_upd = table_of (load64 s.mem (p_pdpt + 8)) in
    let (frame, s1) = alloc_frame s in
    elim frame [
      | none ↦ none
      | some c_upd ↦
          let m =
            store64 (zero_frame s1.mem c_upd) (c_pdpt + 8) (bit_or c_upd present_writable_user) in
          clone_tables 512 (record s1 { mem = m }) p_upd c_upd 0
    ]

unfoldable pub clone_user_table : Frames → ℕ → ℕ → Option (ℕ × Frames)
clone_user_table s pd parent = elim (build_user_table s pd) [
  | none ↦ none
  | some (child, s1) ↦ elim (clone_into s1 parent child) [
    | none ↦ none
    | some s2 ↦ some (child, s2)
  ]
]
