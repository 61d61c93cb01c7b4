-- ===== src/Kernel/E820.antt =====
-- The memory map of mik-os-x86/kernel/src/e820.rs, and `init` of mik-os-x86/kernel/src/mem.rs, which
-- seeds the allocator from it. `bss_end` is the address of the linker's symbol `__bss_end`.
use mik_os.Common.{
  ℕ, zero, suc, ◌+◌, ◌-◌, ◌*◌, ◌==◌, if◌then◌else◌, min, List, [], ◌∷◌, Memory, load32, load64, ◌≡◌,
  ◌≢◌, ◌≤◌, refl, subst, arith, false,
}
use mik_os.Kernel.Mem.Seed.{Counts, entries_frames, seed_entries-Counts}
use mik_os.Kernel.Mem.{Frames, E820Entry, page_up, seed_entries}

abbrev pub map_addr : ℕ
map_addr = 0x5000

abbrev pub map_magic : ℕ
map_magic = 0x50414d4d

abbrev pub kernel_end : ℕ → ℕ
kernel_end bss_end = page_up bss_end

-- The entries that are valid in `buf`. The kernel ends below 128 MiB.
unfoldable pub fallback_map : ℕ → List E820Entry
fallback_map bss_end =
    record { base = 0x100000; len = 0x400000 - 0x100000; typ = 1; acpi = 0 }
    ∷ record { base = kernel_end bss_end; len = 0x8000000 - kernel_end bss_end; typ = 1; acpi = 0 }
    ∷ []

abbrev pub read_entry : Memory → ℕ → E820Entry
read_entry mem a = record {
  base = load64 mem a;
  len = load64 mem (a + 8);
  typ = load32 mem (a + 16);
  acpi = load32 mem (a + 20);
}

-- The loop over `0..count`, from entry `i` on.
unfoldable pub read_entries : ℕ → Memory → ℕ → List E820Entry
read_entries zero mem i = []
read_entries (suc n) mem i = read_entry mem (map_addr + 8 + i * 24) ∷ read_entries n mem (i + 1)

unfoldable pub read_map : Memory → ℕ → List E820Entry
read_map mem bss_end =
    if load32 mem map_addr == map_magic
    then read_entries (min (load32 mem (map_addr + 4)) 32) mem 0
    else fallback_map bss_end

-- `mem::init`, with the count of the frames.
unfoldable pub init : Frames → ℕ → Frames × ℕ
init s bss_end = seed_entries (kernel_end bss_end) (read_map s.mem bss_end) (s, 0)

-- Without a map from the BIOS, and with the kernel's end between 4 MiB and 128 MiB, `init` on an empty
-- list builds one of distinct, page-aligned frames, all between 1 MiB and 128 MiB and none inside the
-- kernel image, and returns their number.
pub init-Counts :
    (mem : Memory) (bss_end : ℕ)
    → load32 mem map_addr ≢ map_magic
    → 0x400000 ≤ bss_end
    → bss_end + 0x1000 ≤ 0x8000000
    → (fs : List ℕ) × Counts
        (kernel_end bss_end)
        0x8000000
        (init (record { mem = mem; head = 0 }) bss_end)
        fs
unfolding init read_map fallback_map
init-Counts mem bss_end no_magic lo hi = (
  entries_frames (kernel_end bss_end) (fallback_map bss_end) [],
  rw (let e : (load32 mem map_addr == map_magic) ≡ false = ground arith in e) (
      subst
        (λ (t : ℕ).
          Counts (kernel_end bss_end) t
            (seed_entries (kernel_end bss_end) (fallback_map bss_end)
              (record { mem = mem; head = 0 }, 0))
            (entries_frames (kernel_end bss_end) (fallback_map bss_end) []))
        (let e : kernel_end bss_end + (0x8000000 - kernel_end bss_end) ≡ 0x8000000 = omega arith in
          e)
        (seed_entries-Counts (kernel_end bss_end) 0 (fallback_map bss_end)
          (record { mem = mem; head = 0 }) 0 []
          (omega arith, omega arith, (omega arith, omega arith, tt))
          (record {
            holds = record { linked = refl; frames = tt };
            counted = refl;
            allowed = tt;
          }))),
)
