-- ===== src/Kernel/Seg.antt =====
-- The segments and the task state segment, mik-os-x86/kernel/src/seg.rs.
use mik_os.Common.{
  ℕ, ◌+◌, ◌-◌, ◌*◌, ◌/◌, ◌%◌, ◌^◌, ◌<◌, ◌≡◌, refl, arith, bit_or, List, [], ◌∷◌, set, get_or,
}
use mik_os.Common.Bits.{low_bits, low_bits-mod, bit_or-shifted_right}

-- The fields of `Tss` that are used: the others stay zero.
pub record Tss : Type 0 where
  pub rsp0 : ℕ
  pub iopb : ℕ

-- `size_of::<Tss>()`: one `u32`, a `u64`, two, one, seven and one more, and two `u16`.
abbrev pub tss_size : ℕ
tss_size = 4 + 8 + 2 * 8 + 8 + 7 * 8 + 8 + 2 + 2

abbrev pub udata : ℕ
udata = bit_or 0x18 3

abbrev pub ucode : ℕ
ucode = bit_or 0x20 3

-- The static `GDT` at the start.
abbrev pub gdt : List ℕ
gdt =
    0 ∷ 0x00af9a000000ffff ∷ 0x00af92000000ffff ∷ 0x00aff2000000ffff ∷ 0x00affa000000ffff ∷ 0 ∷ 0
    ∷ []

-- The two words of the system descriptor, for a TSS at `base`.
unfoldable pub descriptor_low : ℕ → ℕ
descriptor_low base =
    let limit = tss_size - 1 in
    bit_or (bit_or (bit_or (low_bits limit 16) (low_bits base 24 * 2 ^ 16)) (0x89 * 2 ^ 40))
      (low_bits (base / 2 ^ 24) 8 * 2 ^ 56)

unfoldable pub descriptor_high : ℕ → ℕ
descriptor_high base = base / 2 ^ 32

-- `init`, up to `lgdt`: the TSS, the table, and the limit of `Gdtr`.
unfoldable pub init : ℕ → Tss → Tss × List ℕ × ℕ
init base tss = (
  record tss { iopb = tss_size % 2 ^ 16 },
  set (set gdt 5 (descriptor_low base)) 6 (descriptor_high base),
  7 * 8 - 1,
)

unfoldable pub set_rsp0 : Tss → ℕ → Tss
set_rsp0 tss rsp = record tss { rsp0 = rsp }

-- How the CPU reads a descriptor from the table at a selector: the access byte, the limit, and the base,
-- of which a system descriptor has the upper half in the next entry.
abbrev pub entry : List ℕ → ℕ → ℕ
entry table selector = get_or table (selector / 8) 0

abbrev pub access : ℕ → ℕ
access word = word / 2 ^ 40 % 256

abbrev pub limit_of : ℕ → ℕ
limit_of word = word % 2 ^ 16 + 2 ^ 16 * (word / 2 ^ 48 % 16)

abbrev pub base_of : ℕ → ℕ → ℕ
base_of word next = word / 2 ^ 16 % 2 ^ 24 + 2 ^ 24 * (word / 2 ^ 56) + 2 ^ 32 * next

abbrev pub dpl_of : ℕ → ℕ
dpl_of word = word / 2 ^ 45 % 4

descriptor_low-sum :
    (base : ℕ)
    → descriptor_low base
      ≡ 103 + base % 2 ^ 24 * 2 ^ 16 + 0x89 * 2 ^ 40 + base / 2 ^ 24 % 2 ^ 8 * 2 ^ 56
unfolding descriptor_low
descriptor_low-sum base =
    rw
      (
        low_bits-mod 24 base,
        low_bits-mod 8 (base / 2 ^ 24),
        let e : low_bits 103 16 ≡ 103 = refl in e,
        bit_or-shifted_right 16 (base % 2 ^ 24) 103 (omega arith),
        bit_or-shifted_right 40 0x89 (base % 2 ^ 24 * 2 ^ 16 + 103) (omega arith),
        bit_or-shifted_right 56 (base / 2 ^ 24 % 2 ^ 8)
            (0x89 * 2 ^ 40 + (base % 2 ^ 24 * 2 ^ 16 + 103)) (omega arith),
      )
      (omega arith)

-- With the TSS at a 64-bit address: the table that `init` loads has, at the selector 0x28, an available
-- TSS with this base and the limit of its last byte. The user's selectors have privilege 3, and their
-- segments are data and code of privilege 3, the kernel's are code and data of privilege 0. The
-- permission bitmap lies past the limit.
pub init_lem :
    (base : ℕ) (tss : Tss)
    → base < 2 ^ 64
    → let table = (init base tss).1 in
      (base_of (entry table 0x28) (entry table 0x30) ≡ base)
      × (limit_of (entry table 0x28) ≡ tss_size - 1)
      × (access (entry table 0x28) ≡ 0x89)
      × (access (entry table 0x08) ≡ 0x9a)
      × (access (entry table 0x10) ≡ 0x92)
      × ((udata % 4 ≡ 3) × (dpl_of (entry table udata) ≡ 3) × (access (entry table udata) ≡ 0xf2))
      × ((ucode % 4 ≡ 3) × (dpl_of (entry table ucode) ≡ 3) × (access (entry table ucode) ≡ 0xfa))
      × (limit_of (entry table 0x28) < (init base tss).0.iopb)
unfolding init descriptor_high
init_lem base tss h = (
  rw (descriptor_low-sum base, descriptor_high) (omega (arith, h)),
  rw (descriptor_low-sum base) (omega arith),
  rw (descriptor_low-sum base) (omega arith),
  refl,
  refl,
  (refl, refl, refl),
  (refl, refl, refl),
  rw (descriptor_low-sum base) (omega arith),
)
