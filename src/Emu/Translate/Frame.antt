-- ===== src/Emu/Translate/Frame.antt =====
-- What `translate` leaves alone, whatever the TLB holds.
use mik_os.Common.{
  ℕ, ◌+◌, ◌^◌, ◌<◌, ◌≡◌, refl, ◌⊎◌, inl, inr, arith, Memory, IsBytes, ◌==◌, ltb, ◌&&◌, load64,
  Bool-cases, Option-cases, store64-IsBytes,
}
use mik_os.Common.Bits.{test_bit}
use mik_os.Emu.Word.{shr}
use mik_os.Emu.Machine.{Machine, TlbEntry, Outcome, ok, err, panic, csr_pmode, ram_size}
use mik_os.Emu.Translate.{
  Access, permission_fault, pte_u, pte_w, pte_nx, Reply, mapped, PteRead, present, missing,
  overflow, leaf, hit, translate, root, tlb_index, touch, touched,
}
use mik_os.Emu.Translate.Leaf.{walk-find_leaf, at_leaf}

abbrev pub MemoryOnly : Machine → Machine → Type 0
MemoryOnly m m' = (m' ≡ record m { mem = m'.mem; tlb = m'.tlb }) × IsBytes m'.mem

abbrev pub Answers : Machine → Outcome (Reply × Machine) → Type 0
Answers m (ok (r, m')) = MemoryOnly m m'
Answers m (err e) = ⊥
Answers m panic = Unit

pub touch-IsBytes :
    (mem : Memory) (a : ℕ) (access : Access) → IsBytes mem → IsBytes (touch mem a access)
unfolding touch
touch-IsBytes mem a access h b =
    ground (arith, h b, store64-IsBytes mem a (touched access (load64 mem a)) h b)

at_leaf-Answers :
    (m : Machine) (va : ℕ) (access : Access) (r : PteRead)
    → IsBytes m.mem
    → Answers m (at_leaf m va access r)
at_leaf-Answers m va access missing h = (refl, h)
at_leaf-Answers m va access overflow h = tt
at_leaf-Answers m va access (present a pte) h =
    elim (Option-cases (
      permission_fault m.user_mode access (test_bit pte pte_u) (test_bit pte pte_w)
        (test_bit pte pte_nx))) [
          | inl allowed ↦
              unfold leaf in rw (allowed, leaf, Answers) (refl, touch-IsBytes m.mem a access h)
          | inr (code, denied) ↦ unfold leaf in rw (denied, leaf, Answers) (refl, h)
        ]

hit-Answers :
    (m : Machine) (va : ℕ) (access : Access) (e : TlbEntry)
    → IsBytes m.mem
    → Answers m (hit m va access e)
unfolding hit
hit-Answers m va access e h =
    elim (Option-cases (permission_fault m.user_mode access e.user e.writable e.nx)) [
      | inr (code, denied) ↦ rw (denied, hit, Answers) (refl, h)
      | inl allowed ↦
          rw (allowed, hit, Answers)
            (elim (Bool-cases (ltb ram_size (e.pte_addr + 8))) [
              | inl beyond ↦ rw (beyond, Answers) tt
              | inr inside ↦ rw (inside, Answers) (refl, touch-IsBytes m.mem e.pte_addr access h)
            ])
    ]

-- `translate` writes bytes of memory and TLB entries, and nothing else of the machine.
pub translate-Answers :
    (m : Machine) (va : ℕ) (access : Access) → IsBytes m.mem → Answers m (translate m va access)
unfolding translate
translate-Answers m va access h = elim (Bool-cases (m.csrs csr_pmode == 0)) [
  | inl off ↦ rw off (refl, h)
  | inr on ↦ rw on (elim (Bool-cases (shr va 48 == 0)) [
    | inr high ↦ rw high (refl, h)
    | inl low ↦
        rw low
          (elim (Bool-cases
            ((m.tlb (tlb_index va)).valid && (m.tlb (tlb_index va)).vpn == shr va 12)) [
              | inr miss ↦
                  rw (miss, walk-find_leaf 3 m va access (root m)) (at_leaf-Answers m va access _ h)
              | inl found ↦ rw found (hit-Answers m va access (m.tlb (tlb_index va)) h)
            ])
  ])
]

-- A translated address is the address itself, or lies below 2 ^ 48.
pub translate-low :
    (m m' : Machine) (va : ℕ) (access : Access) (pa : ℕ)
    → translate m va access ≡ ok (mapped pa, m')
    → (pa ≡ va) ⊎ (va < 2 ^ 48)
unfolding translate
translate-low m m' va access pa e = ground arith
