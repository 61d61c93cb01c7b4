-- ===== src/Kernel/Files/Listing.antt =====
-- The lines that `ls` prints.
use mik_os.Common.{
  ℕ, zero, suc, ◌+◌, ◌*◌, ◌^◌, ◌≤◌, ◌<◌, ◌≡◌, inl, inr, arith, ◌==◌, List, [], ◌∷◌, ◌++◌, length,
  length-append, Memory, IsBytes, load32-lt, Bool-cases,
}
use mik_os.Kernel.Disk.{Disk}
use mik_os.Kernel.Serial.{write_digits}
use mik_os.Kernel.Serial.Digits.{read_dec, write_digits_read, length-write_digits}
use mik_os.Kernel.Fs.{ent, name_max, max_files, ent_len, name_of, files_from, Fs, each_file}
use mik_os.Kernel.Files.{ls_line}

-- The line is the name, a space, the length's digits and a newline, and fits in 40 bytes; the digits fit in 10 and read back as
-- the length.
abbrev pub FitsLine : List ℕ × ℕ → Type 0
FitsLine f =
    (length (ls_line f) ≤ 40)
    × (length (write_digits 10 f.1 []) ≤ 10)
    × (read_dec 0 (write_digits 10 f.1 []) ≡ f.1)

abbrev pub FitLines : List (List ℕ × ℕ) → Type 0
FitLines [] = Unit
FitLines (f ∷ fs) = FitsLine f × FitLines fs

length-name_of : (dir : Memory) (k n : ℕ) → length (name_of dir k n) ≤ n
unfolding name_of
length-name_of dir k zero = omega arith
length-name_of dir k (suc n) = elim (Bool-cases (dir k == 0)) [
  | inl ends ↦ rw (ends, name_of) (omega arith)
  | inr more ↦ rw (more, name_of) (omega (arith, length-name_of dir (k + 1) n))
]

fits_line : (name : List ℕ) (len : ℕ) → length name ≤ 24 → len < 2 ^ 32 → FitsLine (name, len)
unfolding ls_line
fits_line name len short word =
    let digits = length-write_digits 10 len [] in
    (
      omega (
        arith,
        length-append name (32 ∷ (write_digits 10 len [] ++ 10 ∷ [])),
        length-append (write_digits 10 len []) (10 ∷ []),
        short,
        digits,
      ),
      digits,
      write_digits_read 10 len [] (omega (arith, word)) (omega arith),
    )

files_from-FitLines : (n : ℕ) (dir : Memory) (i : ℕ) → IsBytes dir → FitLines (files_from n dir i)
unfolding files_from ent_len
files_from-FitLines zero dir i h = tt
files_from-FitLines (suc n) dir i h = elim (Bool-cases (dir (i * ent) == 0)) [
  | inl free ↦ rw (free, files_from) (files_from-FitLines n dir (i + 1) h)
  | inr live ↦
      rw (live, files_from)
        (
          fits_line (name_of dir (i * ent) name_max) (ent_len dir i)
              (length-name_of dir (i * ent) name_max) (load32-lt dir _ h),
          files_from-FitLines n dir (i + 1) h,
        )
]

module _ (disk : Disk) where
  -- Whatever bytes the directory holds, each line that `ls` prints fits in its 40-byte buffer, the digits of
  -- the length fit in theirs of 10, and they read back as the length.
  pub each_file-FitLines : (s : Fs disk) → IsBytes s.dir → FitLines (each_file disk s)
  unfolding each_file
  each_file-FitLines s h = elim (Bool-cases s.present) [
    | inl there ↦ rw (there, each_file) (files_from-FitLines max_files s.dir 0 h)
    | inr absent ↦ rw (absent, each_file) tt
  ]
