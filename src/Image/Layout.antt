-- ===== src/Image/Layout.antt =====
-- Where `build_image` puts the parts of the disk image.
use mik_os.Common.{
  ℕ, zero, suc, ◌+◌, ◌-◌, ◌≤◌, ◌≡◌, ◌≢◌, refl, ap, sym, subst, ◌∙◌, arith, ◌==◌, ltb, Bool, true,
  false, ◌&&◌, List, [], ◌∷◌, ◌++◌, append_assoc, length, length-append, length-replicate,
  length-take, take, take-append, drop, drop-append, replicate, get_or, from_le_bytes, to_le_bytes,
  length-to_le_bytes, from_le_bytes-to_le_bytes,
}
use mik_os.Asm.{ok}
use mik_os.Image.{
  kernel_area, image_size, klen_offset, resize, overwrite, elf_section, elf_kernel_flat, boot16,
  stage2_name, join_image, build_image,
}

-- What lies in the middle of a list.
middle :
    (a b c : List ℕ) (n m : ℕ) → length a ≡ n → length b ≡ m → take m (drop n (a ++ (b ++ c))) ≡ b
middle a b c n m la lb =
    subst (λ k. take m (drop k (a ++ (b ++ c))) ≡ b)
      (let e : length a + 0 ≡ n = omega (arith, la) in e)
      (subst (λ k. take k (drop (length a + 0) (a ++ (b ++ c))) ≡ b) lb
        (ap (take (length b)) (drop-append a (b ++ c) 0) ∙ take-append b c))

take_long : (n : ℕ) (xs : List ℕ) → length xs ≤ n → take n xs ≡ xs
take_long zero [] h = refl
take_long zero (x ∷ xs) h = absurd (omega (arith, h))
take_long (suc n) [] h = refl
take_long (suc n) (x ∷ xs) h = ap (◌∷◌ x) (take_long n xs (omega (arith, h)))

length-drop : (n : ℕ) (xs : List ℕ) → length (drop n xs) ≡ length xs - n
length-drop zero xs = omega arith
length-drop (suc n) [] = omega arith
length-drop (suc n) (x ∷ xs) =
    length-drop n xs ∙ (let e : length xs - n ≡ suc (length xs) - suc n = omega arith in e)

resize-append :
    (xs : List ℕ) (n : ℕ)
    → length xs ≤ n
    → (resize xs n ≡ xs ++ replicate (n - length xs) 0) × (length (resize xs n) ≡ n)
unfolding resize
resize-append xs n h =
    let e : take n xs ++ replicate (n - length xs) 0 ≡ xs ++ replicate (n - length xs) 0 =
      ap (λ ys. ys ++ replicate (n - length xs) 0) (take_long n xs h) in
    (
      e,
      ap length e
          ∙ omega (
            arith,
            length-append xs (replicate (n - length xs) 0),
            length-replicate (n - length xs) zero,
            h,
          ),
    )

-- The image as its parts: `a`, `l` and `d` of the boot sector, the second stage, the kernel and zeros.
parts_at :
    (a l d s k z : List ℕ)
    → length a ≡ klen_offset
    → length l ≡ 4
    → length d ≡ 4
    → (take klen_offset (((a ++ (l ++ d)) ++ (s ++ k)) ++ z) ≡ a)
      × (take 4 (drop klen_offset (((a ++ (l ++ d)) ++ (s ++ k)) ++ z)) ≡ l)
      × (take 4 (drop 508 (((a ++ (l ++ d)) ++ (s ++ k)) ++ z)) ≡ d)
      × (take (length s) (drop 512 (((a ++ (l ++ d)) ++ (s ++ k)) ++ z)) ≡ s)
      × (take (length k) (drop (512 + length s) (((a ++ (l ++ d)) ++ (s ++ k)) ++ z)) ≡ k)
parts_at a l d s k z la ll ld =
    let p = a ++ (l ++ d) in
    let x = s ++ (k ++ z) in
    let lp : length p ≡ 512 =
      omega (arith, length-append a (l ++ d), length-append l d, la, ll, ld) in
    let lal : length (a ++ l) ≡ 508 = omega (arith, length-append a l, la, ll) in
    let lps : length (p ++ s) ≡ 512 + length s = omega (arith, length-append p s, lp) in
    let e : (p ++ (s ++ k)) ++ z ≡ p ++ x =
      append_assoc p (s ++ k) z ∙ ap (◌++◌ p) (append_assoc s k z) in
    let e_l : p ++ x ≡ a ++ (l ++ (d ++ x)) =
      append_assoc a (l ++ d) x ∙ ap (◌++◌ a) (append_assoc l d x) in
    let e_d : a ++ (l ++ (d ++ x)) ≡ (a ++ l) ++ (d ++ x) = sym (append_assoc a l (d ++ x)) in
    let e_k : p ++ x ≡ (p ++ s) ++ (k ++ z) = sym (append_assoc p s (k ++ z)) in
    (
      ap (take klen_offset) (e ∙ e_l) ∙ middle [] a (l ++ (d ++ x)) 0 klen_offset refl la,
      ap (λ q. take 4 (drop klen_offset q)) (e ∙ e_l) ∙ middle a l (d ++ x) klen_offset 4 la ll,
      ap (λ q. take 4 (drop 508 q)) (e ∙ e_l ∙ e_d) ∙ middle (a ++ l) d x 508 4 lal ld,
      ap (λ q. take (length s) (drop 512 q)) e ∙ middle p s (k ++ z) 512 (length s) lp refl,
      ap (λ q. take (length k) (drop (512 + length s) q)) (e ∙ e_k)
          ∙ middle (p ++ s) k z (512 + length s) (length k) lps refl,
    )

equal_hit : (n m : ℕ) → n ≡ m → (n == m) ≡ true
equal_hit n m h = ground (arith, h)

equal_miss : (n m : ℕ) → n ≢ m → (n == m) ≡ false
equal_miss n m h = ground (arith, h)

not_below : (n m : ℕ) → m ≤ n → ltb n m ≡ false
not_below n m h = ground (arith, h)

module _ (is_utf8 : List ℕ → Bool) where
  -- When the ELF file has the three parts, the boot sector is 512 bytes and signed, the second stage is not empty and the three
  -- fit in the 128 KiB that it loads, the image is built and is 1 MiB long: the boot sector with the kernel's
  -- length, and its signature, in place, then the second stage, then the kernel.
  pub build_image-layout :
      (elf boot stage2 kernel : List ℕ)
      → elf_section is_utf8 elf boot16 ≡ ok boot
      → elf_section is_utf8 elf stage2_name ≡ ok stage2
      → elf_kernel_flat elf ≡ ok kernel
      → length boot ≡ 512
      → get_or boot 510 0 ≡ 0x55
      → get_or boot 511 0 ≡ 0xaa
      → length stage2 ≢ 0
      → length kernel + 512 + length stage2 ≤ kernel_area
      → (img : List ℕ) × (build_image is_utf8 elf ≡ ok img)
        × (length img ≡ image_size)
        × (take klen_offset img ≡ take klen_offset boot)
        × (from_le_bytes (take 4 (drop klen_offset img)) ≡ length kernel)
        × (take 4 (drop 508 img) ≡ drop 508 boot)
        × (take (length stage2) (drop 512 img) ≡ stage2)
        × (take (length kernel) (drop (512 + length stage2) img) ≡ kernel)
  unfolding build_image join_image overwrite
  build_image-layout elf boot stage2 kernel eb es ek size sig sig' some_stage fits =
      let a = take klen_offset boot in
      let l = to_le_bytes 4 (length kernel) in
      let d = drop 508 boot in
      let body = (a ++ (l ++ d)) ++ (stage2 ++ kernel) in
      let z = replicate (image_size - length body) 0 in
      let la : length a ≡ klen_offset = length-take klen_offset boot (omega (arith, size)) in
      let ld : length d ≡ 4 = length-drop 508 boot ∙ omega (arith, size) in
      let ll : length l ≡ 4 = length-to_le_bytes 4 (length kernel) in
      let len : length body ≤ image_size = omega (
        arith,
        length-append (a ++ (l ++ d)) (stage2 ++ kernel),
        length-append a (l ++ d),
        length-append l d,
        length-append stage2 kernel,
        la,
        ld,
        ll,
        fits,
      ) in
      let (whole, long) = resize-append body image_size len in
      let parts = parts_at a l d stage2 kernel z la ll ld in
      let signed : (get_or boot 510 0 == 0x55 && get_or boot 511 0 == 0xaa) ≡ true =
        rw (equal_hit (get_or boot 510 0) 0x55 sig) (equal_hit (get_or boot 511 0) 0xaa sig') in
      let sized : (length boot == 512) ≡ true = equal_hit (length boot) 512 size in
      let staged : (length stage2 == 0) ≡ false = equal_miss (length stage2) 0 some_stage in
      let room : ltb kernel_area (length kernel + 512 + length stage2) ≡ false =
        not_below kernel_area (length kernel + 512 + length stage2) fits in
      (
        resize body image_size,
        rw (eb, es, ek, build_image, sized, signed, staged, room) refl,
        long,
        ap (take klen_offset) whole ∙ parts.0,
        ap (λ q. from_le_bytes (take 4 (drop klen_offset q))) whole
            ∙ ap from_le_bytes parts.1
            ∙ from_le_bytes-to_le_bytes 4 (length kernel)
            ∙ omega (arith, fits),
        ap (λ q. take 4 (drop 508 q)) whole ∙ parts.2,
        ap (λ q. take (length stage2) (drop 512 q)) whole ∙ parts.3,
        ap (λ q. take (length kernel) (drop (512 + length stage2) q)) whole ∙ parts.4,
      )
