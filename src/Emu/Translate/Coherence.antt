-- ===== src/Emu/Translate/Coherence.antt =====
-- The TLB as a cache: while every valid entry agrees with the page table, `translate` answers as
-- it would with an empty TLB, and keeps that agreement.
use mik_os.Common.{
  ℕ, ◌+◌, ◌%◌, ◌≤◌, ◌≡◌, refl, ap, subst, sym, ◌∙◌, inl, inr, arith, true, Memory, update, IsBytes,
  ◌==◌, ltb, ◌&&◌, Bool-cases, Option-cases, ==_iff,
}
use mik_os.Common.Bits.{test_bit}
use mik_os.Emu.Word.{shr}
use mik_os.Emu.Machine.{Machine, TlbEntry, Outcome, ok, err, panic, ram_size, csr_pmode, flush_tlb}
use mik_os.Emu.Translate.{
  Access, Reply, touch, PteRead, present, missing, overflow, leaf, hit, walk, translate, cached,
  root, tlb_index, permission_fault, pte_w, pte_u, pte_nx,
}
use mik_os.Emu.Translate.Frame.{touch-IsBytes}
use mik_os.Emu.Translate.Leaf.{
  find_leaf, walk-find_leaf, at_leaf, Similar, Similar-test_bit, Similar-mask, SimilarWords,
  touch-SimilarWords, LeafAgrees, find_leaf-LeafAgrees, find_leaf-present, find_leaf-page,
}

-- An entry holds what the walk finds for its page.
abbrev pub CachesWalk : Memory → ℕ → TlbEntry → Type 0
CachesWalk mem table e =
    (va : ℕ)
    → e.valid ≡ true
    → e.vpn ≡ shr va 12
    → (pte : ℕ) × (find_leaf 3 mem table va ≡ present e.pte_addr pte)
      × (e ≡ cached va e.pte_addr pte)

abbrev pub IsCoherent : Machine → Type 0
IsCoherent m = (i : ℕ) → CachesWalk m.mem (root m) (m.tlb i)

pub flush_tlb-IsCoherent : (m : Machine) → IsCoherent (flush_tlb m)
unfolding flush_tlb
flush_tlb-IsCoherent m i va h e = cc

-- What a translation answers and what it does to memory.
abbrev pub Seen : Type 0
Seen = Outcome (Reply × Memory)

abbrev pub seen : Outcome (Reply × Machine) → Seen
seen (ok (r, m)) = ok (r, m.mem)
seen (err e) = err e
seen panic = panic

root-aligned : (m : Machine) → root m % 8 ≡ 0
root-aligned m = omega arith

-- A hit on such an entry does what the walk does at the leaf.
hit-leaf :
    (m : Machine) (va : ℕ) (access : Access) (a pte : ℕ)
    → a + 8 ≤ ram_size
    → seen (hit m va access (cached va a pte)) ≡ seen (leaf (flush_tlb m) va access a pte)
unfolding hit leaf flush_tlb
hit-leaf m va access a pte bound = ground arith

at_leaf-flush_tlb :
    (m : Machine) (va : ℕ) (access : Access) (r : PteRead)
    → seen (at_leaf m va access r) ≡ seen (at_leaf (flush_tlb m) va access r)
unfolding leaf flush_tlb
at_leaf-flush_tlb m va access (present a pte) = ground arith
at_leaf-flush_tlb m va access missing = refl
at_leaf-flush_tlb m va access overflow = refl

seen-walk-flush_tlb :
    (m : Machine) (va : ℕ) (access : Access)
    → seen (walk 3 m va access (root m)) ≡ seen (walk 3 (flush_tlb m) va access (root m))
unfolding flush_tlb
seen-walk-flush_tlb m va access =
    ap seen (walk-find_leaf 3 m va access (root m))
    ∙ at_leaf-flush_tlb m va access (find_leaf 3 m.mem (root m) va)
    ∙ ap seen (sym (walk-find_leaf 3 (flush_tlb m) va access (root m)))

seen-hit :
    (m : Machine) (va : ℕ) (access : Access)
    → IsCoherent m
    → (m.tlb (tlb_index va)).valid ≡ true
    → (m.tlb (tlb_index va)).vpn ≡ shr va 12
    → seen (hit m va access (m.tlb (tlb_index va))) ≡ seen (walk 3 (flush_tlb m) va access (root m))
unfolding flush_tlb
seen-hit m va access coherent valid vpn =
    let e = m.tlb (tlb_index va) in
    let (pte, found, same) = coherent (tlb_index va) va valid vpn in
    ap (λ x. seen (hit m va access x)) same
    ∙ hit-leaf m va access e.pte_addr pte
        (find_leaf-present 3 m.mem (root m) va found (root-aligned m)).1
    ∙ sym (ap (λ x. seen (at_leaf (flush_tlb m) va access x)) found)
    ∙ ap seen (sym (walk-find_leaf 3 (flush_tlb m) va access (root m)))

-- A TLB that agrees with the page table cannot be observed: `translate` gives the same answer and
-- the same memory as after a flush.
pub translate-flush_tlb :
    (m : Machine) (va : ℕ) (access : Access)
    → IsCoherent m
    → seen (translate m va access) ≡ seen (translate (flush_tlb m) va access)
unfolding translate flush_tlb hit
translate-flush_tlb m va access coherent = elim (Bool-cases (m.csrs csr_pmode == 0)) [
  | inl off ↦ rw off refl
  | inr on ↦ rw on (elim (Bool-cases (shr va 48 == 0)) [
    | inr high ↦ rw high refl
    | inl low ↦ rw low (elim (Bool-cases (m.tlb (tlb_index va)).valid) [
      | inr invalid ↦ rw invalid (seen-walk-flush_tlb m va access)
      | inl valid ↦ rw valid (elim (Bool-cases ((m.tlb (tlb_index va)).vpn == shr va 12)) [
        | inr other ↦ rw other (seen-walk-flush_tlb m va access)
        | inl same ↦ rw same (seen-hit m va access coherent valid ((==_iff _ _).0 same))
      ])
    ])
  ])
]

cached-Similar : (va a p q : ℕ) → Similar p q → cached va a p ≡ cached va a q
cached-Similar va a p q s = λ i. record {
  valid = true;
  vpn = shr va 12;
  ppn = shr (Similar-mask p q s i) 12;
  pte_addr = a;
  writable = (Similar-test_bit p q s).1 i;
  nx = (Similar-test_bit p q s).3 i;
  user = (Similar-test_bit p q s).2 i;
}

-- Setting accessed and dirty bits leaves a cached entry right.
CachesWalk-SimilarWords :
    (mem mem' : Memory) (table : ℕ) (e : TlbEntry)
    → table % 8 ≡ 0
    → SimilarWords mem mem'
    → CachesWalk mem table e
    → CachesWalk mem' table e
CachesWalk-SimilarWords mem mem' table e aligned s h va valid vpn =
    let (pte, found, same) = h va valid vpn in
    let (q, found', similar) =
      subst (λ r. LeafAgrees r (find_leaf 3 mem' table va)) found
        (find_leaf-LeafAgrees 3 mem mem' table va s aligned) in
    (q, found', same ∙ cached-Similar va e.pte_addr pte q similar)

-- What a translation may change: bytes of page-table entries and the TLB.
pub record Translated (m m' : Machine) : Type 0 where
  pub same : m' ≡ record m { mem = m'.mem; tlb = m'.tlb }
  pub bytes : IsBytes m'.mem
  pub coherent : IsCoherent m'

abbrev pub Translates : Machine → Outcome (Reply × Machine) → Type 0
Translates m (ok (r, m')) = Translated m m'
Translates m (err e) = ⊥
Translates m panic = Unit

cached-CachesWalk :
    (mem : Memory) (table va a pte : ℕ)
    → find_leaf 3 mem table va ≡ present a pte
    → CachesWalk mem table (cached va a pte)
cached-CachesWalk mem table va a pte found va' valid vpn = (
  pte,
  find_leaf-page 3 mem table va' va (omega arith) (sym vpn) ∙ found,
  λ i. record (cached va a pte) { vpn = vpn i },
)

fill-IsCoherent :
    (m : Machine) (va : ℕ) (access : Access) (a pte : ℕ)
    → IsBytes m.mem
    → IsCoherent m
    → find_leaf 3 m.mem (root m) va ≡ present a pte
    → IsCoherent (record m {
      mem = touch m.mem a access;
      tlb = update m.tlb (tlb_index va) (cached va a pte);
    })
fill-IsCoherent m va access a pte bytes coherent found i =
    CachesWalk-SimilarWords m.mem (touch m.mem a access) (root m) _ (root-aligned m)
      (touch-SimilarWords m.mem a access bytes
        (find_leaf-present 3 m.mem (root m) va found (root-aligned m)).0)
      (elim (Bool-cases (i == tlb_index va)) [
        | inl here ↦ rw here (cached-CachesWalk m.mem (root m) va a pte found)
        | inr there ↦ rw there (coherent i)
      ])

leaf-Translates :
    (m : Machine) (va : ℕ) (access : Access) (r : PteRead)
    → IsBytes m.mem
    → IsCoherent m
    → find_leaf 3 m.mem (root m) va ≡ r
    → Translates m (at_leaf m va access r)
unfolding leaf
leaf-Translates m va access missing bytes coherent found = record {
  same = refl;
  bytes = bytes;
  coherent = coherent;
}
leaf-Translates m va access overflow bytes coherent found = tt
leaf-Translates m va access (present a pte) bytes coherent found =
    elim (Option-cases (
      permission_fault m.user_mode access (test_bit pte pte_u) (test_bit pte pte_w)
        (test_bit pte pte_nx))) [
          | inl allowed ↦
              rw (allowed, leaf, Translates)
                (record {
                  same = refl;
                  bytes = touch-IsBytes m.mem a access bytes;
                  coherent = fill-IsCoherent m va access a pte bytes coherent found;
                })
          | inr (code, denied) ↦
              rw (denied, leaf, Translates)
                (record { same = refl; bytes = bytes; coherent = coherent })
        ]

hit-Translates :
    (m : Machine) (va : ℕ) (access : Access)
    → IsBytes m.mem
    → IsCoherent m
    → (m.tlb (tlb_index va)).valid ≡ true
    → (m.tlb (tlb_index va)).vpn ≡ shr va 12
    → Translates m (hit m va access (m.tlb (tlb_index va)))
unfolding hit
hit-Translates m va access bytes coherent valid vpn =
    let e = m.tlb (tlb_index va) in
    let (pte, found, same) = coherent (tlb_index va) va valid vpn in
    elim (Option-cases (permission_fault m.user_mode access e.user e.writable e.nx)) [
      | inr (code, denied) ↦
          rw (denied, hit, Translates) (record { same = refl; bytes = bytes; coherent = coherent })
      | inl allowed ↦
          rw (allowed, hit, Translates)
            (elim (Bool-cases (ltb ram_size (e.pte_addr + 8))) [
              | inl beyond ↦ rw (beyond, Translates) tt
              | inr inside ↦
                  rw (inside, Translates)
                    (record {
                      same = refl;
                      bytes = touch-IsBytes m.mem e.pte_addr access bytes;
                      coherent = λ i.
                          CachesWalk-SimilarWords m.mem (touch m.mem e.pte_addr access) (root m)
                            (m.tlb i) (root-aligned m)
                            (touch-SimilarWords m.mem e.pte_addr access bytes
                              (find_leaf-present 3 m.mem (root m) va found (root-aligned m)).0)
                            (coherent i);
                    })
            ])
    ]

-- On a memory of bytes and a TLB that agrees with the page table, `translate` gives no error
-- value, and unless it panics, it keeps that agreement and the bytes, and changes nothing of the
-- machine but memory and the TLB.
pub translate-Translates :
    (m : Machine) (va : ℕ) (access : Access)
    → IsBytes m.mem
    → IsCoherent m
    → Translates m (translate m va access)
unfolding translate
translate-Translates m va access bytes coherent = elim (Bool-cases (m.csrs csr_pmode == 0)) [
  | inl off ↦ rw off (record { same = refl; bytes = bytes; coherent = coherent })
  | inr on ↦ rw on (elim (Bool-cases (shr va 48 == 0)) [
    | inr high ↦ rw high (record { same = refl; bytes = bytes; coherent = coherent })
    | inl low ↦
        rw low
          (elim (Bool-cases
            ((m.tlb (tlb_index va)).valid && (m.tlb (tlb_index va)).vpn == shr va 12)) [
              | inr miss ↦
                  rw (miss, walk-find_leaf 3 m va access (root m))
                    (leaf-Translates m va access _ bytes coherent refl)
              | inl found ↦
                  rw found (hit-Translates m va access bytes coherent (ground arith) (ground arith))
            ])
  ])
]
