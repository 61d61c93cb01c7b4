-- ===== src/Image.antt =====
pub mod Layout
mod Tests
-- The boot disk image of the x86-64 kernel, mik-os-x86/src/lib.rs: sections of an ELF file, and
-- `build_image`. A slice out of range is a panic, error messages are dropped, and the test for UTF-8 of the
-- standard library is a parameter.
use mik_os.Common.{
  ℕ, zero, suc, ◌+◌, ◌-◌, ◌*◌, ◌/◌, ◌%◌, ◌==◌, ltb, leb, if◌then◌else◌, Bool, true, false, not,
  ◌&&◌, ◌||◌, List, [], ◌∷◌, ◌++◌, length, get_or, take, drop, replicate, bytes_eq, from_le_bytes,
  to_le_bytes,
}
use mik_os.Common.Bits.{test_bit}
use mik_os.Asm.{Result, ok, err, panic, ◌>>=◌}

abbrev pub kernel_vma : ℕ
kernel_vma = 0x400000

abbrev pub kernel_area : ℕ
kernel_area = 128 * 1024

abbrev pub image_size : ℕ
image_size = 1024 * 1024

abbrev pub klen_offset : ℕ
klen_offset = 0x1f8

-- `&b[from..to]`
unfoldable pub range : List ℕ → ℕ → ℕ → Result (List ℕ)
range b from to =
    if leb from to && leb to (length b) then ok (take (to - from) (drop from b)) else panic

-- `r16`, `r32` and `r64`, by the number of bytes.
unfoldable pub read_le : ℕ → List ℕ → ℕ → Result ℕ
read_le n b off = range b off (off + n) >>= λ bs. ok (from_le_bytes bs)

abbrev pub r16 : List ℕ → ℕ → Result ℕ
r16 = read_le 2

abbrev pub r32 : List ℕ → ℕ → Result ℕ
r32 = read_le 4

abbrev pub r64 : List ℕ → ℕ → Result ℕ
r64 = read_le 8

-- The test at the start of both readers, for an ELF64 file in little endian.
unfoldable pub is_elf : List ℕ → Bool
is_elf elf =
    leb 64 (length elf)
    && (bytes_eq (take 4 elf) (0x7f ∷ b'E' ∷ b'L' ∷ b'F' ∷ [])
        && (get_or elf 4 0 == 2 && get_or elf 5 0 == 1))

-- The header of section `i`.
unfoldable pub section_header : List ℕ → ℕ → ℕ → ℕ → Result (List ℕ)
section_header elf shoff shentsize i =
    range elf (shoff + i * shentsize) (shoff + (i + 1) * shentsize)

-- `iter().position(|&c| c == 0).unwrap_or(0)`
abbrev pub name_end : ℕ → List ℕ → ℕ
name_end n [] = 0
name_end n (c ∷ cs) = if c == 0 then n else name_end (n + 1) cs

-- The bytes that a section header points to.
unfoldable pub section_bytes : List ℕ → List ℕ → Result (List ℕ)
section_bytes elf s = r64 s 0x18 >>= λ off. r64 s 0x20 >>= λ size. range elf off (off + size)

module _ (is_utf8 : List ℕ → Bool) where
  unfoldable pub strname : List ℕ → ℕ → Result (List ℕ)
  strname strs off = range strs off (length strs) >>= λ rest.
      (let name = take (name_end 0 rest) rest in ok (if is_utf8 name then name else []))

  -- The loop over the sections, from section `i` on.
  unfoldable pub find_section : ℕ → List ℕ → List ℕ → ℕ → ℕ → List ℕ → ℕ → Result (List ℕ)
  find_section zero elf strs shoff shentsize name i = err
  find_section (suc n) elf strs shoff shentsize name i =
      section_header elf shoff shentsize i >>= λ s. r32 s 0 >>= λ at. strname strs at >>= λ found.
      (if bytes_eq found name
        then section_bytes elf s
        else find_section n elf strs shoff shentsize name (i + 1))

  unfoldable pub elf_section : List ℕ → List ℕ → Result (List ℕ)
  elf_section elf name =
      if not (is_elf elf)
      then err
      else r64 elf 0x28 >>= λ shoff. r16 elf 0x3a >>= λ shentsize. r16 elf 0x3c >>= λ shnum.
          r16 elf 0x3e >>= λ shstrndx. section_header elf shoff shentsize shstrndx >>= λ strtab.
          r64 strtab 0x18 >>= λ str_off. range elf str_off (length elf) >>= λ strs.
          find_section shnum elf strs shoff shentsize name 0

-- `resize(n, 0)`
unfoldable pub resize : List ℕ → ℕ → List ℕ
resize bs n = take n bs ++ replicate (n - length bs) 0

-- `bs[at..at + new.len()].copy_from_slice(new)`, in range.
unfoldable pub overwrite : List ℕ → ℕ → List ℕ → List ℕ
overwrite bs at new = take at bs ++ (new ++ drop (at + length new) bs)

-- One section of the flat image: skipped, or placed by its address.
unfoldable pub place_section : List ℕ → List ℕ → List ℕ → Result (List ℕ)
place_section elf flat s = r32 s 0x04 >>= λ typ. r64 s 0x08 >>= λ flags. r64 s 0x10 >>= λ addr.
    (if not (test_bit flags 1) || (typ == 8 || ltb addr kernel_vma)
      then ok flat
      else r64 s 0x20 >>= λ size. section_bytes elf s >>= λ bytes.
          (let at = addr - kernel_vma in
            let room = if ltb (length flat) (at + size) then resize flat (at + size) else flat in
            ok (overwrite room at bytes)))

unfoldable pub place_sections : ℕ → List ℕ → ℕ → ℕ → ℕ → List ℕ → Result (List ℕ)
place_sections zero elf shoff shentsize i flat = ok flat
place_sections (suc n) elf shoff shentsize i flat = section_header elf shoff shentsize i >>= λ s.
    place_section elf flat s >>= λ flat'. place_sections n elf shoff shentsize (i + 1) flat'

unfoldable pub elf_kernel_flat : List ℕ → Result (List ℕ)
elf_kernel_flat elf =
    if not (is_elf elf)
    then err
    else r64 elf 0x28 >>= λ shoff. r16 elf 0x3a >>= λ shentsize. r16 elf 0x3c >>= λ shnum.
        place_sections shnum elf shoff shentsize 0 [] >>= λ flat.
        (if length flat == 0 then err else ok flat)

abbrev pub boot16 : List ℕ
boot16 = b'.' ∷ b'b' ∷ b'o' ∷ b'o' ∷ b't' ∷ b'1' ∷ b'6' ∷ []

abbrev pub stage2_name : List ℕ
stage2_name = b'.' ∷ b's' ∷ b't' ∷ b'a' ∷ b'g' ∷ b'e' ∷ b'2' ∷ []

-- `build_image` behind the three parts.
unfoldable pub join_image : List ℕ → List ℕ → List ℕ → Result (List ℕ)
join_image boot stage2 kernel =
    if not (length boot == 512)
    then err
    else if not (get_or boot 510 0 == 0x55 && get_or boot 511 0 == 0xaa)
    then err
    else if length stage2 == 0
    then err
    else if ltb kernel_area (length kernel + 512 + length stage2)
    then err
    else ok (
        resize (overwrite boot klen_offset (to_le_bytes 4 (length kernel)) ++ (stage2 ++ kernel))
          image_size)

unfoldable pub build_image : (List ℕ → Bool) → List ℕ → Result (List ℕ)
build_image is_utf8 elf = elf_section is_utf8 elf boot16 >>= λ boot.
    elf_section is_utf8 elf stage2_name >>= λ stage2.
    elf_kernel_flat elf >>= λ kernel. join_image boot stage2 kernel
