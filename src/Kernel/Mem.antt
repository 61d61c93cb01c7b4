-- ===== src/Kernel/Mem.antt =====
pub mod FreeList
pub mod Seed
-- The physical frame allocator of mik-os-x86/kernel/src/mem.rs. Physical memory is a store of
-- bytes; the link of a free frame is the 64-bit word at its start; `head` is the static
-- `FREE_HEAD`.
use mik_os.Common.{
  ℕ, zero, suc, ◌+◌, ◌-◌, ◌*◌, ◌/◌, ◌%◌, ◌^◌, ◌==◌, ltb, leb, if◌then◌else◌, Bool, true, false,
  ◌&&◌, not, Option, none, some, List, [], ◌∷◌, Memory, load64, store64, take,
}

pub record Frames : Type 0 where
  pub mem : Memory
  pub head : ℕ

unfoldable pub free_frame : Frames → ℕ → Frames
free_frame s pa = record { mem = store64 s.mem pa s.head; head = pa }

unfoldable pub alloc_frame : Frames → Option ℕ × Frames
alloc_frame s =
    if s.head == 0 then (none, s) else (some s.head, record s { head = load64 s.mem s.head })

-- One entry of the E820 map (mik-os-x86/kernel/src/e820.rs).
pub record E820Entry : Type 0 where
  pub base : ℕ
  pub len : ℕ
  pub typ : ℕ
  pub acpi : ℕ

unfoldable pub usable : E820Entry → Bool
usable e = e.typ == 1 && ltb 0 e.len

-- `(x + 0xFFF) & !0xFFF`
abbrev pub page_up : ℕ → ℕ
page_up x = (x + 0xfff) / 0x1000 * 0x1000

-- Whether `init` frees the frame at `f`: not below 1 MiB, and not in the kernel image, which ends
-- at `kend`.
unfoldable pub seeded : ℕ → ℕ → Bool
seeded kend f = not (ltb f 0x100000) && not (leb 0x400000 f && ltb f kend)

-- The `while f + 0x1000 <= e.base + e.len` of `init`, on fuel, with the count of frames.
unfoldable pub seed_frames : ℕ → ℕ → ℕ → ℕ → Frames × ℕ → Frames × ℕ
seed_frames zero kend limit f s = s
seed_frames (suc fuel) kend limit f (s, frames) = elim (leb (f + 0x1000) limit) [
  | true ↦
      seed_frames fuel kend limit (f + 0x1000)
        (if seeded kend f then (free_frame s f, frames + 1) else (s, frames))
  | false ↦ (s, frames)
]

-- The loop over the entries. A round takes a page off the region, so its end is fuel enough.
unfoldable pub seed_entries : ℕ → List E820Entry → Frames × ℕ → Frames × ℕ
seed_entries kend [] s = s
seed_entries kend (e ∷ es) s = seed_entries kend es (
    if usable e
    then seed_frames (suc (e.base + e.len)) kend (e.base + e.len) (page_up e.base) s
    else s)
