-- ===== src/Image/Tests.antt =====
-- The image of a small ELF file.
use mik_os.Common.{
  ℕ, ◌≡◌, refl, arith, Bool, true, List, [], ◌∷◌, ◌++◌, length, take, drop, replicate,
  from_le_bytes, to_le_bytes,
}
use mik_os.Asm.{ok}
use mik_os.Image.{
  image_size, klen_offset, range, read_le, is_elf, section_header, section_bytes, strname,
  find_section, elf_section, resize, overwrite, place_section, place_sections, elf_kernel_flat,
  boot16, stage2_name, build_image,
}
use mik_os.Image.Layout.{build_image-layout}

-- A section header: name, type, flags, address, offset and size.
abbrev header : ℕ → ℕ → ℕ → ℕ → ℕ → List ℕ
header name flags addr off size =
    to_le_bytes 4 name
    ++ to_le_bytes 4 1
    ++ to_le_bytes 8 flags
    ++ to_le_bytes 8 addr
    ++ to_le_bytes 8 off
    ++ to_le_bytes 8 size
    ++ replicate 24 0

abbrev names : List ℕ
names = 0 ∷ (boot16 ++ 0 ∷ stage2_name ++ 0 ∷ [])

abbrev boot : List ℕ
boot = replicate 510 0x90 ++ 0x55 ∷ 0xaa ∷ []

abbrev stage2 : List ℕ
stage2 = 0xf4 ∷ []

abbrev kernel : List ℕ
kernel = 0xeb ∷ 0xfe ∷ []

-- The names, the two loaders and the kernel, behind the file header and four section headers.
abbrev elf : List ℕ
elf =
    (0x7f ∷ b'E' ∷ b'L' ∷ b'F' ∷ 2 ∷ 1 ∷ [])
    ++ replicate 34 0
    ++ to_le_bytes 8 64
    ++ replicate 10 0
    ++ to_le_bytes 2 64
    ++ to_le_bytes 2 4
    ++ to_le_bytes 2 0
    ++ header 0 0 0 320 17
    ++ header 1 0 0x7c00 337 512
    ++ header 9 0 0x7e00 849 1
    ++ header 0 2 0x400000 850 2
    ++ names
    ++ boot
    ++ stage2
    ++ kernel

abbrev any_bytes : List ℕ → Bool
any_bytes bs = true

boot_section : elf_section any_bytes elf boot16 ≡ ok boot
unfolding elf_section is_elf read_le range section_header find_section strname section_bytes
boot_section = refl

stage2_section : elf_section any_bytes elf stage2_name ≡ ok stage2
unfolding elf_section is_elf read_le range section_header find_section strname section_bytes
stage2_section = refl

kernel_sections : elf_kernel_flat elf ≡ ok kernel
unfolding elf_kernel_flat is_elf read_le range section_header place_sections place_section
    section_bytes resize overwrite
kernel_sections = refl

build_image-layout_example :
    (img : List ℕ) × (build_image any_bytes elf ≡ ok img)
    × (length img ≡ image_size)
    × (take klen_offset img ≡ take klen_offset boot)
    × (from_le_bytes (take 4 (drop klen_offset img)) ≡ 2)
    × (take 4 (drop 508 img) ≡ drop 508 boot)
    × (take 1 (drop 512 img) ≡ stage2)
    × (take 2 (drop 513 img) ≡ kernel)
build_image-layout_example =
    build_image-layout any_bytes elf boot stage2 kernel boot_section stage2_section kernel_sections
      refl refl refl (ground arith) (omega arith)
