-- ===== src/Emu/Translate.antt =====
pub mod Frame
pub mod Protection
pub mod Coherence
pub mod Leaf
-- `Machine::translate` of mik-emu/src/lib.rs: the TLB, then the walk of the four-level page table.
use mik_os.Common.{
  ℕ, zero, suc, ◌+◌, ◌-◌, ◌*◌, ◌/◌, ◌%◌, ◌^◌, bit_and, bit_or, ◌==◌, ltb, leb, if◌then◌else◌, Bool,
  true, false, not, ◌&&◌, Option, none, some, Memory, update, load64, store64,
}
use mik_os.Common.Bits.{low_bits, test_bit}
use mik_os.Emu.Word.{shl, shr}
use mik_os.Emu.Machine.{Machine, TlbEntry, Outcome, ok, err, panic, ram_size, csr_ptbr, csr_pmode}

pub data Access : Type 0 where
  load store fetch : Access

abbrev pub is_store : Access → Bool
is_store store = true
is_store _ = false

abbrev pub is_fetch : Access → Bool
is_fetch fetch = true
is_fetch _ = false

pub record PageFault : Type 0 where
  pub code : ℕ
  pub va : ℕ

-- `Result<u64, PageFault>`
pub data Reply : Type 0 where
  mapped : ℕ → Reply
  fault : PageFault → Reply

-- Bit numbers of the page-table entry.
abbrev pub pte_p : ℕ
pte_p = 0

abbrev pub pte_w : ℕ
pte_w = 1

abbrev pub pte_u : ℕ
pte_u = 2

abbrev pub pte_a : ℕ
pte_a = 3

abbrev pub pte_d : ℕ
pte_d = 4

abbrev pub pte_nx : ℕ
pte_nx = 63

abbrev pub pte_ppn_mask : ℕ
pte_ppn_mask = (2 ^ 36 - 1) * 2 ^ 12

-- The permission checks, on the flags of a TLB entry or of a leaf entry: the fault's code.
unfoldable pub permission_fault : Bool → Access → Bool → Bool → Bool → Option ℕ
permission_fault user_mode access user writable nx =
    if user_mode && not user
    then some 5
    else if is_store access && not writable
    then some 2
    else if is_fetch access && nx
    then some 3
    else none

-- The entry with its accessed bit set, and its dirty bit on a store.
unfoldable pub touched : Access → ℕ → ℕ
touched access pte =
    let new_pte = bit_or pte (2 ^ pte_a) in
    if is_store access then bit_or new_pte (2 ^ pte_d) else new_pte

unfoldable pub touch : Memory → ℕ → Access → Memory
touch mem pte_addr access =
    let pte = load64 mem pte_addr in
    let new_pte = touched access pte in if new_pte == pte then mem else store64 mem pte_addr new_pte

unfoldable pub physical : ℕ → ℕ → ℕ
physical ppn va = bit_or (shl ppn 12) (low_bits va 12)

abbrev pub faults : Machine → ℕ → ℕ → Outcome (Reply × Machine)
faults m code va = ok (fault (record { code = code; va = va }), m)

-- A TLB hit. The slice of the entry's address panics out of range.
unfoldable pub hit : Machine → ℕ → Access → TlbEntry → Outcome (Reply × Machine)
hit m va access entry =
    elim (permission_fault m.user_mode access entry.user entry.writable entry.nx) [
      | some code ↦ faults m code va
      | none ↦
          if ltb ram_size (entry.pte_addr + 8)
          then panic
          else ok
              (mapped (physical entry.ppn va), record m { mem = touch m.mem entry.pte_addr access })
    ]

-- The address of the entry for `va` in the table of a level.
abbrev pub pte_address : ℕ → ℕ → ℕ → ℕ
pte_address level table va = table + low_bits (shr va (12 + 9 * level)) 9 * 8

pub data PteRead : Type 0 where
  present : ℕ → ℕ → PteRead
  missing overflow : PteRead

-- Reads the entry at an address: address and entry, if it is in memory and present. An address
-- from 2 ^ 64 - 8 on overflows in `pte_addr + 8`.
unfoldable pub read_pte : Memory → ℕ → PteRead
read_pte mem pte_addr =
    if leb (2 ^ 64) (pte_addr + 8)
    then overflow
    else if ltb ram_size (pte_addr + 8)
    then missing
    else if test_bit (load64 mem pte_addr) pte_p
    then present pte_addr (load64 mem pte_addr)
    else missing

abbrev pub tlb_index : ℕ → ℕ
tlb_index va = low_bits (shr va 12) 4

-- What the walk caches of a leaf entry.
abbrev pub cached : ℕ → ℕ → ℕ → TlbEntry
cached va pte_addr pte = record {
  valid = true;
  vpn = shr va 12;
  ppn = shr (bit_and pte pte_ppn_mask) 12;
  pte_addr = pte_addr;
  writable = test_bit pte pte_w;
  nx = test_bit pte pte_nx;
  user = test_bit pte pte_u;
}

-- Level 0: check the permissions, set the A/D bits, fill the TLB.
unfoldable pub leaf : Machine → ℕ → Access → ℕ → ℕ → Outcome (Reply × Machine)
leaf m va access pte_addr pte =
    elim (permission_fault m.user_mode access (test_bit pte pte_u) (test_bit pte pte_w)
      (test_bit pte pte_nx)) [
        | some code ↦ faults m code va
        | none ↦ ok (
          mapped (physical (shr (bit_and pte pte_ppn_mask) 12) va),
          record m {
            mem = touch m.mem pte_addr access;
            tlb = update m.tlb (tlb_index va) (cached va pte_addr pte);
          },
        )
      ]

-- The loop over the levels, from `level` down to 0.
unfoldable pub walk : ℕ → Machine → ℕ → Access → ℕ → Outcome (Reply × Machine)
walk zero m va access table = elim (read_pte m.mem (pte_address 0 table va)) [
  | present pte_addr pte ↦ leaf m va access pte_addr pte
  | missing ↦ faults m 1 va
  | overflow ↦ panic
]
walk (suc level) m va access table = elim (read_pte m.mem (pte_address (suc level) table va)) [
  | present pte_addr pte ↦ walk level m va access (bit_and pte pte_ppn_mask)
  | missing ↦ faults m 1 va
  | overflow ↦ panic
]

-- `csrs[PTBR] & !0xFFF`
abbrev pub root : Machine → ℕ
root m = m.csrs csr_ptbr / 2 ^ 12 * 2 ^ 12

unfoldable pub translate : Machine → ℕ → Access → Outcome (Reply × Machine)
translate m va access =
    let entry = m.tlb (tlb_index va) in
    if m.csrs csr_pmode == 0
    then ok (mapped va, m)
    else if not (shr va 48 == 0)
    then faults m 4 va
    else if entry.valid && entry.vpn == shr va 12
    then hit m va access entry
    else walk 3 m va access (root m)
