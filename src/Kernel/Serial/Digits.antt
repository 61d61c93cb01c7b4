-- ===== src/Kernel/Serial/Digits.antt =====
-- Reading the printed digits back.
use native.Mathlib.Nat.{pow-suc, one-le-pow}
use native.Mathlib.Numerals.{towards_suc}
use mik_os.Common.{
  ℕ, zero, suc, ◌+◌, ◌-◌, ◌*◌, ◌/◌, ◌%◌, ◌^◌, ◌≤◌, ◌<◌, ◌≡◌, refl, ap, ◌∙◌, arith, ◌==◌, ltb,
  if◌then◌else◌, false, List, [], ◌∷◌, length, Bool-cases, inl, inr,
}
use mik_os.Common.Bits.{mod-mul}
use mik_os.Kernel.Serial.{write_hexn, write_digits, write_dec}

-- The value of decimal digits, behind a number that is already read.
abbrev pub read_dec : ℕ → List ℕ → ℕ
read_dec acc [] = acc
read_dec acc (c ∷ cs) = read_dec (acc * 10 + (c - b'0')) cs

abbrev pub IsDecimal : List ℕ → Type 0
IsDecimal [] = Unit
IsDecimal (c ∷ cs) = (b'0' ≤ c) × (c ≤ b'9') × IsDecimal cs

more_left : (i v : ℕ) → (v / 10 == 0) ≡ false → v < 10 ^ suc i → 0 < i
more_left zero v e h = absurd (ground arith)
more_left (suc i) v e h = omega arith

pub write_digits_read :
    (i v : ℕ) (done : List ℕ)
    → v < 10 ^ i
    → 0 < i
    → (read_dec 0 (write_digits i v done) ≡ read_dec v done)
unfolding write_digits
write_digits_read zero v done h p = absurd (omega arith)
write_digits_read (suc i) v done h p = elim (Bool-cases (v / 10 == 0)) [
  | inl small ↦ rw (small, write_digits) (ap (λ a. read_dec a done) (ground arith))
  | inr more ↦
      rw (more, write_digits)
        (write_digits_read i (v / 10) _ (omega (arith, pow-suc 10 i)) (more_left i v more h)
          ∙ ap (λ a. read_dec a done) (omega arith))
]

write_digits-IsDecimal :
    (i v : ℕ) (done : List ℕ) → IsDecimal done → IsDecimal (write_digits i v done)
unfolding write_digits
write_digits-IsDecimal zero v done h = h
write_digits-IsDecimal (suc i) v done h = elim (Bool-cases (v / 10 == 0)) [
  | inl small ↦ rw (small, write_digits) (omega arith, omega arith, h)
  | inr more ↦
      rw (more, write_digits) (write_digits-IsDecimal i (v / 10) _ (omega arith, omega arith, h))
]

pub length-write_digits :
    (i v : ℕ) (done : List ℕ) → length (write_digits i v done) ≤ i + length done
unfolding write_digits
length-write_digits zero v done = omega arith
length-write_digits (suc i) v done = elim (Bool-cases (v / 10 == 0)) [
  | inl small ↦ rw (small, write_digits) (omega arith)
  | inr more ↦
      rw (more, write_digits)
        (omega (arith, length-write_digits i (v / 10) ((b'0' + v % 10) ∷ done)))
]

-- The digits that `write_dec` prints for a 64-bit number are decimal digits, at most the 20 of its
-- buffer, and read back as that number: the loop has ended by its test.
pub read_dec-write_dec :
    (v : ℕ)
    → v < 2 ^ 64
    → (read_dec 0 (write_dec v) ≡ v) × IsDecimal (write_dec v) × (length (write_dec v) ≤ 20)
unfolding write_dec
read_dec-write_dec v h = (
  write_digits_read 20 v [] (omega arith) (omega arith),
  write_digits-IsDecimal 20 v [] tt,
  omega (arith, length-write_digits 20 v []),
)

-- The value of hexadecimal digits in upper case.
abbrev pub read_hex : ℕ → List ℕ → ℕ
read_hex acc [] = acc
read_hex acc (c ∷ cs) = read_hex (acc * 16 + (if ltb c b'A' then c - b'0' else c + 10 - b'A')) cs

two-pow-four : (n : ℕ) → 2 ^ (n * 4) ≡ 16 ^ n
two-pow-four zero = refl
two-pow-four (suc n) =
    ap (λ k. 2 ^ k) (let e : suc n * 4 ≡ n * 4 + 4 = omega arith in e)
    ∙ step (n * 4)
    ∙ omega (arith, two-pow-four n, pow-suc 16 n)
  where
    step : (k : ℕ) → 2 ^ (k + 4) ≡ 16 * 2 ^ k
    step k = simp towards_suc (omega arith)

hex_digit_value :
    (x : ℕ)
    → x < 16
    → (let c : ℕ = if ltb x 10 then b'0' + x else b'A' + x - 10 in
        if ltb c b'A' then c - b'0' else c + 10 - b'A')
      ≡ x
hex_digit_value x h = ground arith

-- The digits that `write_hexn` prints, read behind a number `acc`, are the low `n` hexadecimal
-- digits of its argument.
pub read_hex-write_hexn : (n v acc : ℕ) → read_hex acc (write_hexn v n) ≡ acc * 16 ^ n + v % 16 ^ n
unfolding write_hexn
read_hex-write_hexn zero v acc = omega arith
read_hex-write_hexn (suc n) v acc =
    ap (λ x. read_hex (acc * 16 + x) (write_hexn v n))
      (hex_digit_value (v / 2 ^ (n * 4) % 16) (omega arith))
    ∙ read_hex-write_hexn n v (acc * 16 + v / 2 ^ (n * 4) % 16)
    ∙ ap (λ p. (acc * 16 + v / p % 16) * 16 ^ n + v % 16 ^ n) (two-pow-four n)
    ∙ omega (
      arith,
      mod-mul (16 ^ n) 16 v (one-le-pow n 16 (omega arith)) (omega arith),
      ap (λ (p : ℕ). v % p) (let e : 16 ^ suc n ≡ 16 * 16 ^ n = omega (arith, pow-suc 16 n) in e),
      ap (λ (p : ℕ). acc * p) (pow-suc 16 n),
    )
