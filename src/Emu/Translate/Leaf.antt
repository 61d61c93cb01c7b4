-- ===== src/Emu/Translate/Leaf.antt =====
-- The page-table walk as a function of memory alone, and what changes to the accessed and dirty
-- bits do to it.
use mik_os.Common.{
  ℕ, zero, suc, ◌+◌, ◌-◌, ◌*◌, ◌/◌, ◌%◌, ◌^◌, ◌≤◌, ◌<◌, bit_and, bit_or, ◌≡◌, refl, ap, sym, ◌∙◌,
  ◌⊎◌, inl, inr, arith, Memory, load64, load64-store64, load64-store64_apart, load64-lt, IsBytes,
  ◌==◌, ltb, leb, Bool-cases,
}
use mik_os.Common.Bits.{low_bits, test_bit, bit_or-two-pow, bit_and-shifted}
use mik_os.Emu.Word.{shr}
use mik_os.Emu.Machine.{Machine, Outcome, panic, ram_size}
use mik_os.Emu.Translate.{
  Access, load, store, fetch, Reply, touched, touch, pte_address, PteRead, present, missing,
  overflow, read_pte, leaf, walk, faults, pte_ppn_mask,
}

-- The leaf entry of an address, found from `table` at `level` down.
unfoldable pub find_leaf : ℕ → Memory → ℕ → ℕ → PteRead
find_leaf zero mem table va = read_pte mem (pte_address 0 table va)
find_leaf (suc level) mem table va = elim (read_pte mem (pte_address (suc level) table va)) [
  | present pte_addr pte ↦ find_leaf level mem (bit_and pte pte_ppn_mask) va
  | missing ↦ missing
  | overflow ↦ overflow
]

abbrev pub at_leaf : Machine → ℕ → Access → PteRead → Outcome (Reply × Machine)
at_leaf m va access (present pte_addr pte) = leaf m va access pte_addr pte
at_leaf m va access missing = faults m 1 va
at_leaf m va access overflow = panic

pub PteRead-cases :
    (r : PteRead) → ((a : ℕ) × (pte : ℕ) × (r ≡ present a pte)) ⊎ ((r ≡ missing) ⊎ (r ≡ overflow))
PteRead-cases (present a pte) = inl (a, pte, refl)
PteRead-cases missing = inr (inl refl)
PteRead-cases overflow = inr (inr refl)

-- The walk finds the leaf entry and then acts on it alone.
pub walk-find_leaf :
    (level : ℕ) (m : Machine) (va : ℕ) (access : Access) (table : ℕ)
    → walk level m va access table ≡ at_leaf m va access (find_leaf level m.mem table va)
unfolding walk find_leaf
walk-find_leaf zero m va access table = ground arith
walk-find_leaf (suc level) m va access table =
    elim (PteRead-cases (read_pte m.mem (pte_address (suc level) table va))) [
      | inl (a, pte, e) ↦
          rw (e, walk, find_leaf) (walk-find_leaf level m va access (bit_and pte pte_ppn_mask))
      | inr (inl e) ↦ rw (e, walk, find_leaf)
      | inr (inr e) ↦ rw (e, walk, find_leaf)
    ]

-- Entries that differ in the accessed and dirty bits at most.
abbrev pub Similar : ℕ → ℕ → Type 0
Similar p q = (p / 32 ≡ q / 32) × (p % 8 ≡ q % 8)

pub touched-Similar : (access : Access) (pte : ℕ) → Similar pte (touched access pte)
unfolding touched
touched-Similar load pte = ground (arith, bit_or-two-pow 3 pte)
touched-Similar fetch pte = ground (arith, bit_or-two-pow 3 pte)
touched-Similar store pte =
    ground (arith, bit_or-two-pow 3 pte, bit_or-two-pow 4 (bit_or pte (2 ^ 3)))

touched-lt : (access : Access) (pte : ℕ) → pte < 2 ^ 64 → touched access pte < 2 ^ 64
touched-lt access pte h = omega (arith, touched-Similar access pte)

pub Similar-test_bit :
    (p q : ℕ)
    → Similar p q
    → (test_bit p 0 ≡ test_bit q 0)
      × (test_bit p 1 ≡ test_bit q 1)
      × (test_bit p 2 ≡ test_bit q 2)
      × (test_bit p 63 ≡ test_bit q 63)
Similar-test_bit p q s = (
  ap (λ t. t == 1) (let e : p / 2 ^ 0 % 2 ≡ q / 2 ^ 0 % 2 = omega arith in e),
  ap (λ t. t == 1) (let e : p / 2 ^ 1 % 2 ≡ q / 2 ^ 1 % 2 = omega arith in e),
  ap (λ t. t == 1) (let e : p / 2 ^ 2 % 2 ≡ q / 2 ^ 2 % 2 = omega arith in e),
  ap (λ t. t == 1) (let e : p / 2 ^ 63 % 2 ≡ q / 2 ^ 63 % 2 = omega arith in e),
)

pub Similar-mask : (p q : ℕ) → Similar p q → bit_and p pte_ppn_mask ≡ bit_and q pte_ppn_mask
Similar-mask p q s =
    bit_and-shifted 12 p (2 ^ 36 - 1)
    ∙ ap (λ t. bit_and t (2 ^ 36 - 1) * 2 ^ 12) (let e : p / 2 ^ 12 ≡ q / 2 ^ 12 = omega arith in e)
    ∙ sym (bit_and-shifted 12 q (2 ^ 36 - 1))

-- Memories whose aligned words differ in those bits at most.
abbrev pub SimilarWords : Memory → Memory → Type 0
SimilarWords mem mem' = (a : ℕ) → a % 8 ≡ 0 → Similar (load64 mem a) (load64 mem' a)

pub touch-SimilarWords :
    (mem : Memory) (a : ℕ) (access : Access)
    → IsBytes mem
    → a % 8 ≡ 0
    → SimilarWords mem (touch mem a access)
unfolding touch
touch-SimilarWords mem a access bytes aligned b h = ground (
  arith,
  touched-Similar access (load64 mem a),
  touched-lt access (load64 mem a) (load64-lt mem a bytes),
  load64-store64 mem a (touched access (load64 mem a)),
  load64-store64_apart mem a b (touched access (load64 mem a)),
)

abbrev pub LeafAgrees : PteRead → PteRead → Type 0
LeafAgrees (present a p) r = (q : ℕ) × (r ≡ present a q) × Similar p q
LeafAgrees missing r = r ≡ missing
LeafAgrees overflow r = r ≡ overflow

read_pte-LeafAgrees :
    (mem mem' : Memory) (a : ℕ)
    → SimilarWords mem mem'
    → a % 8 ≡ 0
    → LeafAgrees (read_pte mem a) (read_pte mem' a)
unfolding read_pte
read_pte-LeafAgrees mem mem' a s aligned = elim (Bool-cases (leb (2 ^ 64) (a + 8))) [
  | inl wraps ↦ rw wraps refl
  | inr _in ↦ rw _in (elim (Bool-cases (ltb ram_size (a + 8))) [
    | inl beyond ↦ rw beyond refl
    | inr inside ↦ rw inside (elim (Bool-cases (test_bit (load64 mem a) 0)) [
      | inl set ↦
          rw (set, sym (Similar-test_bit _ _ (s a aligned)).0 ∙ set)
            (load64 mem' a, refl, s a aligned)
      | inr clear ↦ rw (clear, sym (Similar-test_bit _ _ (s a aligned)).0 ∙ clear) refl
    ])
  ])
]

read_pte-present :
    (mem : Memory) (at : ℕ) {a pte : ℕ}
    → read_pte mem at ≡ present a pte
    → (a ≡ at) × (at + 8 ≤ ram_size) × (load64 mem at ≡ pte)
unfolding read_pte
read_pte-present mem at e = ground arith

mask-aligned : (pte : ℕ) → bit_and pte pte_ppn_mask % 8 ≡ 0
mask-aligned pte = omega (arith, bit_and-shifted 12 pte (2 ^ 36 - 1))

-- Changes of accessed and dirty bits lead the walk to the same leaf.
pub find_leaf-LeafAgrees :
    (level : ℕ) (mem mem' : Memory) (table va : ℕ)
    → SimilarWords mem mem'
    → table % 8 ≡ 0
    → LeafAgrees (find_leaf level mem table va) (find_leaf level mem' table va)
unfolding find_leaf
find_leaf-LeafAgrees zero mem mem' table va s h =
    read_pte-LeafAgrees mem mem' (pte_address 0 table va) s (omega arith)
find_leaf-LeafAgrees (suc level) mem mem' table va s h =
    descend (read_pte mem at) (read_pte mem' at) (read_pte-LeafAgrees mem mem' at s (omega arith))
      (λ pte.
        find_leaf-LeafAgrees level mem mem' (bit_and pte pte_ppn_mask) va s (mask-aligned pte))
  where
    at : ℕ
    at = pte_address (suc level) table va

    next : Memory → PteRead → PteRead
    next w r = elim r [
      | present a pte ↦ find_leaf level w (bit_and pte pte_ppn_mask) va
      | missing ↦ missing
      | overflow ↦ overflow
    ]

    descend :
        (r r' : PteRead)
        → LeafAgrees r r'
        → ((pte : ℕ)
            → LeafAgrees
                (find_leaf level mem (bit_and pte pte_ppn_mask) va)
                (find_leaf level mem' (bit_and pte pte_ppn_mask) va))
        → LeafAgrees (next mem r) (next mem' r')
    descend (present a p) r' (q, e, s) ih = rw (e, ← Similar-mask p q s) (ih p)
    descend missing r' e ih = rw e refl
    descend overflow r' e ih = rw e refl

-- What the walk found lies in memory, aligned, and is the entry there.
pub find_leaf-present :
    (level : ℕ) (mem : Memory) (table va : ℕ) {a pte : ℕ}
    → find_leaf level mem table va ≡ present a pte
    → table % 8 ≡ 0
    → (a % 8 ≡ 0) × (a + 8 ≤ ram_size) × (load64 mem a ≡ pte)
unfolding find_leaf
find_leaf-present zero mem table va e h =
    ground (arith, read_pte-present mem (pte_address 0 table va) e)
find_leaf-present (suc level) mem table va e h =
    elim (PteRead-cases (read_pte mem (pte_address (suc level) table va))) [
      | inl (a', p, c) ↦
          find_leaf-present level mem (bit_and p pte_ppn_mask) va (rw (c, find_leaf) at e)
            (mask-aligned p)
      | inr (inl c) ↦ let bad = rw (c, find_leaf) at e in cc bad
      | inr (inr c) ↦ let bad = rw (c, find_leaf) at e in cc bad
    ]

pte_address-page :
    (level : ℕ) (table va va' : ℕ)
    → level ≤ 3
    → shr va 12 ≡ shr va' 12
    → pte_address level table va ≡ pte_address level table va'
pte_address-page level table va va' h e = ap (λ t. table + low_bits t 9 * 8) (go level h)
  where
    go : (level : ℕ) → level ≤ 3 → shr va (12 + 9 * level) ≡ shr va' (12 + 9 * level)
    go zero h = omega arith
    go (suc zero) h = omega arith
    go (suc (suc zero)) h = omega arith
    go (suc (suc (suc zero))) h = omega arith
    go (suc (suc (suc (suc n)))) h = absurd (omega arith)

-- Addresses of one page have one leaf.
pub find_leaf-page :
    (level : ℕ) (mem : Memory) (table va va' : ℕ)
    → level ≤ 3
    → shr va 12 ≡ shr va' 12
    → find_leaf level mem table va ≡ find_leaf level mem table va'
unfolding find_leaf
find_leaf-page zero mem table va va' h e = rw (pte_address-page 0 table va va' h e)
find_leaf-page (suc level) mem table va va' h e =
    elim (PteRead-cases (read_pte mem (pte_address (suc level) table va'))) [
      | inl (a, p, c) ↦
          rw (pte_address-page (suc level) table va va' h e, c, find_leaf)
            (find_leaf-page level mem (bit_and p pte_ppn_mask) va va' (omega arith) e)
      | inr (inl c) ↦ rw (pte_address-page (suc level) table va va' h e, c, find_leaf)
      | inr (inr c) ↦ rw (pte_address-page (suc level) table va va' h e, c, find_leaf)
    ]
