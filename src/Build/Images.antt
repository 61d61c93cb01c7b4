-- ===== src/Build/Images.antt =====
-- `kernel_os` of mik-os/src/lib.rs: its program defines its labels, and what its image holds.
use mik_os.Common.{
  ℕ, ◌+◌, ◌*◌, ◌≤◌, ◌<◌, ◌≡◌, ◌≢◌, refl, ap, ◌∙◌, ◌⊎◌, inl, inr, ◌==◌, get_or, Bool-cases, arith,
  true, false, ◌&&◌, leb, none, some, List, [], ◌∷◌, ◌++◌, length,
}
use mik_os.Build.{Asm, new, call, calls, resolve, patch_imm, word_bytes, binary}
use mik_os.Emu.Word.{decode, encode}
use mik_os.Build.Resolve.{
  AllFixed, NotAmong, resolve_all-AllFixed, resolve_all-outside, resolve_all-length,
}
use mik_os.Build.Patches.{
  not_among, not_among-NotAmong, Li, LoadsImm, patched-LoadsImm, Patch, Patches, NotPatched,
  DistinctPatches, patch_all, length-patch_all, patch_all-outside, patch_all-AllPatched,
  patch_all-AllFixed,
}
use mik_os.Build.Programs.{
  is_some, all_defined, all_defined-AllDefined, IsAsm, new-IsAsm, calls-IsAsm, resolve_all-some,
}
use mik_os.Build.Kernels.{
  os_image, load_addr, build_common, os_address, os_length, os_copy, kernel_os,
}

-- The program of `kernel_os`.
abbrev os_program : Asm
os_program = calls (calls (calls (build_common new).0 os_address) os_length) os_copy

os_defined : all_defined os_program.labels os_program.unresolved ≡ true
unfolding build_common calls call all_defined is_some
os_defined = refl

-- The words of the program.
abbrev pub os_words : ℕ
os_words = 340

length-os_program : length os_program.code ≡ os_words
unfolding build_common calls call
length-os_program = refl

os_program-IsAsm : IsAsm os_program
unfolding build_common
os_program-IsAsm = calls-IsAsm _ _ (
    calls-IsAsm _ _ (
      calls-IsAsm _ _ (
        calls-IsAsm _ _
          (calls-IsAsm _ _ (calls-IsAsm _ _ (calls-IsAsm _ _ (calls-IsAsm _ _ new-IsAsm)))))))

-- Where the programs are, behind the kernel's words.
abbrev pub blob_base : ℕ
blob_base = load_addr + os_words * 8

-- The words that get an address or a length: the string of `print_string`, the program `init`, and the one of `exec`.
abbrev pub os_patches : List ℕ → List ℕ → List Patch
os_patches init_bin prog1_bin =
    (88, blob_base)
    ∷ (324, blob_base)
    ∷ (325, length init_bin)
    ∷ (191, blob_base + length init_bin)
    ∷ (192, length prog1_bin)
    ∷ []

os_patches-DistinctPatches :
    (init_bin prog1_bin : List ℕ) → DistinctPatches (os_patches init_bin prog1_bin)
os_patches-DistinctPatches init_bin prog1_bin = (
  (ne 324 88 refl, (ne 325 88 refl, (ne 191 88 refl, (ne 192 88 refl, tt)))),
  (
    (ne 325 324 refl, (ne 191 324 refl, (ne 192 324 refl, tt))),
    ((ne 191 325 refl, (ne 192 325 refl, tt)), ((ne 192 191 refl, tt), (tt, tt))),
  ),
)
  where
    ne : (i j : ℕ) → (i == j) ≡ false → i ≢ j
    ne i j h e = ground (arith, h, e)

patched_free :
    (not_among 88 os_program.unresolved ≡ true)
    × (not_among 324 os_program.unresolved ≡ true)
    × (not_among 325 os_program.unresolved ≡ true)
    × (not_among 191 os_program.unresolved ≡ true)
    × (not_among 192 os_program.unresolved ≡ true)
unfolding build_common calls call not_among
patched_free = (refl, refl, refl, refl, refl)

os_patches-Patches :
    (init_bin prog1_bin : List ℕ)
    → length init_bin ≤ 0x1000
    → length prog1_bin ≤ 0x1000
    → Patches os_words os_program.unresolved (os_patches init_bin prog1_bin)
os_patches-Patches init_bin prog1_bin le le' =
    let (f1, f2, f3, f4, f5) = patched_free in
    (
      (omega arith, omega arith, not_among-NotAmong _ _ f1),
      (
        (omega arith, omega arith, not_among-NotAmong _ _ f2),
        (
          (omega arith, omega (arith, le), not_among-NotAmong _ _ f3),
          (
            (omega arith, omega (arith, le), not_among-NotAmong _ _ f4),
            ((omega arith, omega (arith, le'), not_among-NotAmong _ _ f5), tt),
          ),
        ),
      ),
    )

-- These words are `li` before.
patched_words :
    (get_or os_program.code 88 0 ≡ encode 0x01 1 0 0 0)
    × (get_or os_program.code 324 0 ≡ encode 0x01 3 0 0 0)
    × (get_or os_program.code 325 0 ≡ encode 0x01 1 0 0 0)
    × (get_or os_program.code 191 0 ≡ encode 0x01 3 0 0 0)
    × (get_or os_program.code 192 0 ≡ encode 0x01 1 0 0 0)
unfolding build_common calls call
patched_words = (refl, refl, refl, refl, refl)

patched-Li : Li (encode 0x01 1 0 0 0) 1 × Li (encode 0x01 3 0 0 0) 3
unfolding encode decode
patched-Li = ((refl, refl), (refl, refl))

-- The words of the image: the resolved program, patched.
abbrev pub IsKernel : List ℕ → List ℕ → List ℕ → Type 0
IsKernel words init_bin prog1_bin =
    (length words ≡ os_words)
    × AllFixed load_addr os_program.labels os_program.code words os_program.unresolved
    × LoadsImm words 88 1 blob_base
    × LoadsImm words 324 3 blob_base
    × LoadsImm words 325 1 (length init_bin)
    × LoadsImm words 191 3 (blob_base + length init_bin)
    × LoadsImm words 192 1 (length prog1_bin)
    × ((i : ℕ)
        → NotAmong i os_program.unresolved
        → NotPatched i (os_patches init_bin prog1_bin)
        → get_or words i 0 ≡ get_or os_program.code i 0)

-- What resolving and patching make of the program.
os_words-IsKernel :
    (init_bin prog1_bin : List ℕ)
    → length init_bin ≤ 0x1000
    → length prog1_bin ≤ 0x1000
    → (code : List ℕ) × (resolve os_program load_addr ≡ some (record os_program { code = code }))
      × (length code ≡ os_words)
      × IsKernel (patch_all code (os_patches init_bin prog1_bin)) init_bin prog1_bin
unfolding resolve
os_words-IsKernel init_bin prog1_bin le le' =
    let labels = os_program.labels in
    let fixups = os_program.unresolved in
    let v = os_program-IsAsm in
    let patches = os_patches init_bin prog1_bin in
    let places = os_patches-Patches init_bin prog1_bin le le' in
    let (code, e) =
      resolve_all-some load_addr labels fixups os_program.code
        (all_defined-AllDefined labels fixups os_defined) in
    let len : length code ≡ os_words =
      resolve_all-length load_addr labels fixups os_program.code code e ∙ length-os_program in
    let fixed =
      resolve_all-AllFixed load_addr labels fixups os_program.code code
        (omega (arith, length-os_program)) v.at v.below v.apart e in
    let kept = λ (i : ℕ). λ (h : NotAmong i fixups).
      resolve_all-outside load_addr labels fixups os_program.code code i e h in
    let (p1, (p2, (p3, (p4, (p5, _))))) =
      patch_all-AllPatched fixups patches os_words code len
        (os_patches-DistinctPatches init_bin prog1_bin) places in
    let (w1, w2, w3, w4, w5) = patched_words in
    let (f1, f2, f3, f4, f5) = patched_free in
    let (li1, li3) = patched-Li in
    let words = patch_all code patches in
    (
      code,
      rw (e, resolve) refl,
      len,
      (
        length-patch_all patches code ∙ len,
        patch_all-AllFixed load_addr labels os_program.code fixups patches os_words code places
            fixed,
        patched-LoadsImm words 88 1 _ _ _ li1 p1 (kept 88 (not_among-NotAmong _ _ f1) ∙ w1),
        patched-LoadsImm words 324 3 _ _ _ li3 p2 (kept 324 (not_among-NotAmong _ _ f2) ∙ w2),
        patched-LoadsImm words 325 1 _ _ _ li1 p3 (kept 325 (not_among-NotAmong _ _ f3) ∙ w3),
        patched-LoadsImm words 191 3 _ _ _ li3 p4 (kept 191 (not_among-NotAmong _ _ f4) ∙ w4),
        patched-LoadsImm words 192 1 _ _ _ li1 p5 (kept 192 (not_among-NotAmong _ _ f5) ∙ w5),
        λ i h h'. patch_all-outside patches code i h' ∙ kept i h,
      ),
    )

os_image-patch_all :
    (r : Asm) (init_bin prog1_bin : List ℕ)
    → length r.code ≡ os_words
    → os_image
        (record { string_idx = 88; exec_addr_idx = 191; exec_len_idx = 192 })
        324
        325
        r
        init_bin
        prog1_bin
      ≡ word_bytes (patch_all r.code (os_patches init_bin prog1_bin)) ++ (init_bin ++ prog1_bin)
unfolding os_image binary patch_imm
os_image-patch_all r init_bin prog1_bin len = rw (len) refl

-- `kernel_os` builds an image from any two programs of at most a page each: the words of the kernel,
-- then the bytes of the two programs. In the words each fixup goes to its label; the words that take
-- the address and the length of `init`, and those of the program of `exec`, load them into x3 and x1;
-- the word for the string, which this kernel does not use, loads the address of `init`; and all other
-- words are as emitted. It panics when a program is longer than a page.
pub kernel_os-IsKernel :
    (init_bin prog1_bin : List ℕ)
    → ((length init_bin ≤ 0x1000)
        × (length prog1_bin ≤ 0x1000)
        × (words : List ℕ) × (kernel_os init_bin prog1_bin
            ≡ some (word_bytes words ++ (init_bin ++ prog1_bin)))
        × IsKernel words init_bin prog1_bin)
      ⊎ (((0x1000 < length init_bin) ⊎ (0x1000 < length prog1_bin))
          × (kernel_os init_bin prog1_bin ≡ none))
unfolding kernel_os build_common calls call
kernel_os-IsKernel init_bin prog1_bin =
    elim (Bool-cases (leb (length init_bin) 0x1000 && leb (length prog1_bin) 0x1000)) [
      | inl fits ↦
          let le : length init_bin ≤ 0x1000 = ground (arith, fits) in
          let le' : length prog1_bin ≤ 0x1000 = ground (arith, fits) in
          let (code, r, len, kernel) = os_words-IsKernel init_bin prog1_bin le le' in
          inl (
            le,
            le',
            patch_all code (os_patches init_bin prog1_bin),
            rw (kernel_os, fits, r)
                (ap some
                  (os_image-patch_all (record os_program { code = code }) init_bin prog1_bin len)),
            kernel,
          )
      | inr big ↦ inr (ground (arith, big), rw (kernel_os, big) refl)
    ]
