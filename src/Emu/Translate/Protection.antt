-- ===== src/Emu/Translate/Protection.antt =====
-- What an answer of `translate` says about the page table.
use mik_os.Common.{
  ℕ, ◌+◌, ◌-◌, ◌*◌, ◌/◌, ◌%◌, ◌^◌, ◌≤◌, ◌<◌, ◌≡◌, ◌≢◌, refl, ap, sym, ◌∙◌, arith, true, false,
  Memory, bit_and,
}
use mik_os.Common.Bits.{test_bit, low_bits-mod, bit_or-shifted, bit_and-shifted}
use mik_os.Emu.Word.{shr}
use mik_os.Emu.Machine.{Machine, TlbEntry, ok, csr_pmode, flush_tlb}
use mik_os.Emu.Translate.{
  Access, is_store, is_fetch, mapped, fault, PageFault, PteRead, present, missing, overflow, leaf,
  hit, translate, root, tlb_index, permission_fault, physical, pte_ppn_mask, pte_u, pte_w, pte_nx,
}
use mik_os.Emu.Translate.Leaf.{find_leaf, walk-find_leaf, at_leaf}
use mik_os.Emu.Translate.Coherence.{IsCoherent, seen, translate-flush_tlb}

-- The physical address that an entry gives to `va`.
abbrev pub frame_address : ℕ → ℕ → ℕ
frame_address pte va = pte / 2 ^ 12 % 2 ^ 36 * 2 ^ 12 + va % 2 ^ 12

physical_sum : (pte va : ℕ) → physical (shr (bit_and pte pte_ppn_mask) 12) va ≡ frame_address pte va
unfolding physical
physical_sum pte va = ground (
  arith,
  bit_and-shifted 12 pte (2 ^ 36 - 1),
  low_bits-mod 36 (pte / 2 ^ 12),
  low_bits-mod 12 va,
  bit_or-shifted 12 (pte / 2 ^ 12 % 2 ^ 36) (va % 2 ^ 12),
)

-- The page table lets this access through to `pa`.
pub record Allows (m : Machine) (va : ℕ) (access : Access) (pa : ℕ) : Type 0 where
  pub pte_addr : ℕ
  pub pte : ℕ
  pub canonical : va < 2 ^ 48
  pub walked : find_leaf 3 m.mem (root m) va ≡ present pte_addr pte
  pub address : pa ≡ frame_address pte va
  pub user_allowed : m.user_mode ≡ true → test_bit pte pte_u ≡ true
  pub store_allowed : is_store access ≡ true → test_bit pte pte_w ≡ true
  pub fetch_allowed : is_fetch access ≡ true → test_bit pte pte_nx ≡ false

leaf-Allows :
    (m : Machine) (va : ℕ) (access : Access) (r : PteRead) {pa : ℕ} {mem : Memory}
    → va < 2 ^ 48
    → find_leaf 3 m.mem (root m) va ≡ r
    → seen (at_leaf m va access r) ≡ ok (mapped pa, mem)
    → Allows m va access pa
unfolding leaf permission_fault
leaf-Allows m va access missing low found e = cc
leaf-Allows m va access overflow low found e = cc
leaf-Allows m va access (present a pte) low found e = record {
  pte_addr = a;
  pte = pte;
  canonical = low;
  walked = found;
  address = ground (arith, physical_sum pte va);
  user_allowed = ground arith;
  store_allowed = ground arith;
  fetch_allowed = ground arith;
}

walked :
    (m : Machine) (va : ℕ) (access : Access) {pa : ℕ} {mem : Memory}
    → m.csrs csr_pmode ≢ 0
    → seen (translate (flush_tlb m) va access) ≡ ok (mapped pa, mem)
    → (va < 2 ^ 48)
      × (seen (at_leaf (flush_tlb m) va access (find_leaf 3 m.mem (root m) va))
          ≡ ok (mapped pa, mem))
unfolding translate flush_tlb
walked m va access on e = ground (arith, walk-find_leaf 3 (flush_tlb m) va access (root m))

-- With paging on and a TLB that agrees with the page table, an address that `translate` returns
-- is the one that the page table gives to a canonical address, whose leaf entry carries the user
-- bit if the machine is in user mode, the write bit for a store, and no NX bit for a fetch.
pub translate-Allows :
    (m m' : Machine) (va : ℕ) (access : Access) (pa : ℕ)
    → m.csrs csr_pmode ≢ 0
    → IsCoherent m
    → translate m va access ≡ ok (mapped pa, m')
    → Allows m va access pa
unfolding flush_tlb
translate-Allows m m' va access pa on coherent e =
    let (low, at) =
      walked m va access on (sym (translate-flush_tlb m va access coherent) ∙ ap seen e) in
    let a = leaf-Allows (flush_tlb m) va access (find_leaf 3 m.mem (root m) va) low refl at in
    record {
      pte_addr = a.pte_addr;
      pte = a.pte;
      canonical = a.canonical;
      walked = a.walked;
      address = a.address;
      user_allowed = a.user_allowed;
      store_allowed = a.store_allowed;
      fetch_allowed = a.fetch_allowed;
    }

-- What each fault code says of the access.
pub record Explains (m : Machine) (va : ℕ) (access : Access) (code : ℕ) : Type 0 where
  pub known : (0 < code) × (code < 6)
  pub write_denied : code ≡ 2 → is_store access ≡ true
  pub execute_denied : code ≡ 3 → is_fetch access ≡ true
  pub not_canonical : code ≡ 4 → 2 ^ 48 ≤ va
  pub user_denied : code ≡ 5 → m.user_mode ≡ true

at_leaf-fault :
    (m m' : Machine) (va : ℕ) (access : Access) (r : PteRead) (f : PageFault)
    → at_leaf m va access r ≡ ok (fault f, m')
    → (m' ≡ m) × (f.va ≡ va) × Explains m va access f.code
unfolding leaf permission_fault
at_leaf-fault m m' va access (present a pte) f e = ground arith
at_leaf-fault m m' va access missing f e = ground arith
at_leaf-fault m m' va access overflow f e = cc

hit-fault :
    (m m' : Machine) (va : ℕ) (access : Access) (entry : TlbEntry) (f : PageFault)
    → hit m va access entry ≡ ok (fault f, m')
    → (m' ≡ m) × (f.va ≡ va) × Explains m va access f.code
unfolding hit permission_fault
hit-fault m m' va access entry f e = ground arith

-- A translation that faults leaves the whole machine as it was and reports the address that was
-- asked for, with a code from 1 to 5: 2 only for a store, 3 only for a fetch, 4 only for an
-- address from 2 ^ 48 on, 5 only in user mode.
pub translate_fault :
    (m m' : Machine) (va : ℕ) (access : Access) (f : PageFault)
    → translate m va access ≡ ok (fault f, m')
    → (m' ≡ m) × (f.va ≡ va) × Explains m va access f.code
unfolding translate
translate_fault m m' va access f e = ground (
  arith,
  walk-find_leaf 3 m va access (root m),
  at_leaf-fault m m' va access (find_leaf 3 m.mem (root m) va) f,
  hit-fault m m' va access (m.tlb (tlb_index va)) f,
)
