-- ===== src/Kernel/Paging.antt =====
pub mod Share
pub mod Clone
-- The page tables that mik-os-x86/kernel/src/mem.rs builds in physical memory. `none` is the panic of
-- `expect`, when there are no frames left.
use mik_os.Common.{
  ℕ, ◌+◌, ◌*◌, ◌/◌, ◌%◌, ◌^◌, ◌≡◌, refl, bit_or, if◌then◌else◌, leb, ltb, ◌&&◌, Option, none, some,
  List, [], ◌∷◌, Memory, load64, store64, arith, Bool-cases, Option-cases, inl, inr,
}
use mik_os.Common.Bits.{test_bit}
use mik_os.Kernel.Mem.{Frames, alloc_frame}

-- `PTE_P | PTE_W`
abbrev pub present_writable : ℕ
present_writable = 3

-- `flags & PTE_U`
abbrev pub user_bit : ℕ → ℕ
user_bit flags = if test_bit flags 2 then 4 else 0

-- `e & !0xFFF`
abbrev pub table_of : ℕ → ℕ
table_of e = e / 0x1000 * 0x1000

-- The address of the entry for `va` in a table.
abbrev pub entry_at : ℕ → ℕ → ℕ → ℕ
entry_at table va shift = table + va / 2 ^ shift % 512 * 8

-- `write_bytes(frame, 0, 4096)`
unfoldable pub zero_frame : Memory → ℕ → Memory
zero_frame mem frame a = if leb frame a && ltb a (frame + 4096) then 0 else mem a

-- One level of `map_4k`: the next table, made if it is missing.
unfoldable pub next_table : Frames → ℕ → ℕ → Option (ℕ × Frames)
next_table s e user =
    if test_bit (load64 s.mem e) 0
    then some (table_of (load64 s.mem e), s)
    else let (frame, s1) = alloc_frame s in
      (elim frame [
        | none ↦ none
        | some next ↦
            let link = bit_or (bit_or next present_writable) user in
            some (table_of link, record s1 { mem = store64 (zero_frame s1.mem next) e link })
      ])

unfoldable pub map_levels : List ℕ → Frames → ℕ → ℕ → ℕ → Option (ℕ × Frames)
map_levels [] s table va user = some (table, s)
map_levels (shift ∷ shifts) s table va user = elim (next_table s (entry_at table va shift) user) [
  | none ↦ none
  | some (table', s') ↦ map_levels shifts s' table' va user
]

abbrev pub levels : List ℕ
levels = 39 ∷ 30 ∷ 21 ∷ []

unfoldable pub map_4k : Frames → ℕ → ℕ → ℕ → ℕ → Option Frames
map_4k s p4 va pa flags = elim (map_levels levels s p4 va (user_bit flags)) [
  | none ↦ none
  | some (table, s') ↦
      some (record s' { mem = store64 s'.mem (entry_at table va 12) (bit_or pa flags) })
]

unfoldable pub find_levels : List ℕ → Memory → ℕ → ℕ → Option ℕ
find_levels [] mem table va = some table
find_levels (shift ∷ shifts) mem table va =
    if test_bit (load64 mem (entry_at table va shift)) 0
    then find_levels shifts mem (table_of (load64 mem (entry_at table va shift))) va
    else none

-- The address of the leaf entry; the null pointer is `none`.
unfoldable pub find_pte : Memory → ℕ → ℕ → Option ℕ
find_pte mem p4 va = elim (find_levels levels mem p4 va) [
  | none ↦ none
  | some table ↦ some (entry_at table va 12)
]

-- `pd` is the address of the kernel's page directory.
unfoldable pub build_user_table : Frames → ℕ → Option (ℕ × Frames)
build_user_table s pd =
    let (frame, s1) = alloc_frame s in
    let (frame', s2) = alloc_frame s1 in
    elim frame [
      | none ↦ none
      | some up4 ↦ elim frame' [
        | none ↦ none
        | some updpt ↦
            let m1 = zero_frame (zero_frame s2.mem up4) updpt in
            let m2 = store64 m1 up4 (bit_or (bit_or updpt present_writable) 4) in
            some (up4, record s2 { mem = store64 m2 updpt (bit_or pd present_writable) })
      ]
    ]

module _ (va user : ℕ) where
  -- A walk that `find_pte` completes is one on which `map_4k` takes no frame.
  find_levels-map_levels :
      (shifts : List ℕ) (s : Frames) (table t : ℕ)
      → find_levels shifts s.mem table va ≡ some t
      → map_levels shifts s table va user ≡ some (t, s)
  unfolding find_levels map_levels next_table
  find_levels-map_levels [] s table t h = ground (arith, h)
  find_levels-map_levels (shift ∷ shifts) s table t h =
      elim (Bool-cases (test_bit (load64 s.mem (entry_at table va shift)) 0)) [
        | inr absent ↦
            absurd (let e : none ≡ some t = rw (find_levels, absent) at h in ground arith)
        | inl there ↦
            rw (map_levels, next_table, there)
              (find_levels-map_levels shifts s (table_of (load64 s.mem (entry_at table va shift))) t
                (rw (find_levels, there) at h))
      ]

-- Mapping a page whose tables exist, as `find_pte` sees them, takes no frame and writes the entry that
-- `find_pte` found.
pub map_4k-find_pte :
    (s : Frames) (p4 va pa flags e : ℕ)
    → find_pte s.mem p4 va ≡ some e
    → map_4k s p4 va pa flags ≡ some (record s { mem = store64 s.mem e (bit_or pa flags) })
unfolding find_pte map_4k
map_4k-find_pte s p4 va pa flags e h = elim (Option-cases (find_levels levels s.mem p4 va)) [
  | inl missing ↦ absurd (let f : none ≡ some e = rw (find_pte, missing) at h in ground arith)
  | inr (t, found) ↦
      let f : some (entry_at t va 12) ≡ some e = rw (find_pte, found) at h in
      let g : entry_at t va 12 ≡ e = ground arith in
      rw (map_4k, find_levels-map_levels va (user_bit flags) levels s p4 t found, g) refl
]
