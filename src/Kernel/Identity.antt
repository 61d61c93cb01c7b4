-- ===== src/Kernel/Identity.antt =====
-- The identity map of mik-os-x86/kernel/src/mem.rs: the large pages that `extend_identity_map` adds to
-- the page directory at `pd`.
use mik_os.Common.{
  ℕ, zero, suc, ◌+◌, ◌*◌, ◌/◌, ◌%◌, ◌^◌, ◌≤◌, ◌<◌, ◌≡◌, refl, ap, ◌∙◌, ◌⊎◌, inl, inr, arith, bit_or,
  ◌&&◌, if◌then◌else◌, true, Option, none, some, Memory, load64, store64, load64-store64,
  load64-store64_apart, store64_outside, Bool-cases, ltb, ◌==◌,
}
use mik_os.Common.Bits.{test_bit, bit_or-shifted, bit_or-two-pow}

-- `(i as u64) * 0x20_0000 | PTE_P | PTE_W | PTE_PS`
unfoldable pub large_entry : ℕ → ℕ
large_entry i = bit_or (bit_or (bit_or (i * 0x200000) 1) 2) 0x80

-- The loop, with `n` entries to go from the entry `i` on.
unfoldable pub map_large : ℕ → Memory → ℕ → ℕ → Memory
map_large zero mem pd i = mem
map_large (suc n) mem pd i = map_large n (store64 mem (pd + i * 8) (large_entry i)) pd (i + 1)

unfoldable pub extend_identity_map : Memory → ℕ → Memory
extend_identity_map mem pd = map_large 509 mem pd 3

-- How the CPU translates an address below 1 GiB by an entry of the directory: it has to be present and a
-- large page.
unfoldable pub large_page : Memory → ℕ → ℕ → Option ℕ
large_page mem pd va =
    let e = load64 mem (pd + va / 2 ^ 21 * 8) in
    if test_bit e 0 && test_bit e 7 then some (e / 2 ^ 21 * 2 ^ 21 + va % 2 ^ 21) else none

large_entry-sum : (i : ℕ) → large_entry i ≡ i * 2 ^ 21 + 0x83
unfolding large_entry
large_entry-sum i =
    let p : bit_or (i * 2 ^ 21) 1 ≡ i * 2 ^ 21 + 1 = bit_or-shifted 21 i 1 (omega arith) in
    let w : bit_or (i * 2 ^ 21 + 1) 2 ≡ i * 2 ^ 21 + 3 =
      ground (arith, bit_or-two-pow 1 (i * 2 ^ 21 + 1)) in
    let ps : bit_or (i * 2 ^ 21 + 3) 0x80 ≡ i * 2 ^ 21 + 0x83 =
      ground (arith, bit_or-two-pow 7 (i * 2 ^ 21 + 3)) in
    rw (p, w) ps

map_large_outside :
    (n : ℕ) (mem : Memory) (pd i a : ℕ)
    → (a < pd + i * 8) ⊎ (pd + (i + n) * 8 ≤ a)
    → map_large n mem pd i a ≡ mem a
unfolding map_large
map_large_outside zero mem pd i a h = refl
map_large_outside (suc n) mem pd i a h =
    map_large_outside n (store64 mem (pd + i * 8) (large_entry i)) pd (i + 1) a (omega (arith, h))
    ∙ store64_outside mem (pd + i * 8) a (large_entry i) (omega (arith, h))

map_large_before :
    (n : ℕ) (mem : Memory) (pd i j : ℕ)
    → j < i
    → load64 (map_large n mem pd i) (pd + j * 8) ≡ load64 mem (pd + j * 8)
unfolding map_large
map_large_before zero mem pd i j h = refl
map_large_before (suc n) mem pd i j h =
    map_large_before n (store64 mem (pd + i * 8) (large_entry i)) pd (i + 1) j (omega (arith, h))
    ∙ load64-store64_apart mem (pd + i * 8) (pd + j * 8) (large_entry i) (omega (arith, h))

map_large-at :
    (n : ℕ) (mem : Memory) (pd i j : ℕ)
    → i ≤ j
    → j < i + n
    → i + n ≤ 512
    → load64 (map_large n mem pd i) (pd + j * 8) ≡ large_entry j
unfolding map_large
map_large-at zero mem pd i j lo hi fits = absurd (omega (arith, lo, hi))
map_large-at (suc n) mem pd i j lo hi fits = elim (Bool-cases (j == i)) [
  | inl here ↦
      (let same : j ≡ i = ground (arith, here) in
        rw same (
          map_large_before n (store64 mem (pd + i * 8) (large_entry i)) pd (i + 1) i (omega arith)
          ∙ load64-store64 mem (pd + i * 8) (large_entry i)
              (omega (arith, large_entry-sum i, fits))))
  | inr later ↦
      map_large-at n (store64 mem (pd + i * 8) (large_entry i)) pd (i + 1) j
        (ground (arith, lo, later)) (omega (arith, hi)) (omega (arith, fits))
]

extended-at :
    (mem : Memory) (pd : ℕ)
    → ((i : ℕ) → i < 3 → load64 mem (pd + i * 8) ≡ large_entry i)
    → (j : ℕ) → j < 512
    → load64 (map_large 509 mem pd 3) (pd + j * 8) ≡ j * 2 ^ 21 + 0x83
extended-at mem pd boot j h = elim (Bool-cases (ltb j 3)) [
  | inl low ↦
      map_large_before 509 mem pd 3 j (ground (arith, low))
      ∙ boot j (ground (arith, low))
      ∙ large_entry-sum j
  | inr high ↦
      map_large-at 509 mem pd 3 j (ground (arith, high)) (omega (arith, h)) (omega arith)
      ∙ large_entry-sum j
]

large_page_bits :
    (j : ℕ)
    → (test_bit (j * 2 ^ 21 + 0x83) 0 ≡ true)
      × (test_bit (j * 2 ^ 21 + 0x83) 7 ≡ true)
      × ((j * 2 ^ 21 + 0x83) / 2 ^ 21 * 2 ^ 21 ≡ j * 2 ^ 21)
large_page_bits j = (ground arith, ground arith, omega arith)

-- With the first three entries, which boot.S makes, as large pages that map their addresses to
-- themselves: behind `extend_identity_map` every address below 1 GiB is mapped to itself, and no byte
-- outside the directory has changed.
pub extend_identity_map-identity :
    (mem : Memory) (pd : ℕ)
    → ((i : ℕ) → i < 3 → load64 mem (pd + i * 8) ≡ large_entry i)
    → (va : ℕ) → va < 2 ^ 30
    → (large_page (extend_identity_map mem pd) pd va ≡ some va)
      × ((a : ℕ) → (a < pd) ⊎ (pd + 4096 ≤ a) → extend_identity_map mem pd a ≡ mem a)
unfolding extend_identity_map large_page
extend_identity_map-identity mem pd boot va h = (
  let bits = large_page_bits (va / 2 ^ 21) in
      rw
        (
          extended-at mem pd boot (va / 2 ^ 21) (omega (arith, h)),
          large_page,
          bits.0,
          bits.1,
          bits.2,
        )
        (ap some (omega arith)),
  λ a out. map_large_outside 509 mem pd 3 a (omega (arith, out)),
)
