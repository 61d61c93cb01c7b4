-- ===== src/Common/Bits.antt =====
-- The bit operations of the source as arithmetic: a mask of low bits is a remainder, `|` of fields
-- that do not overlap is a sum, and `|` with a single bit adds it where it is clear.
use Prim.Native.Nat.{
  ℕ, zero, suc, ◌+◌, ◌-◌, ◌*◌, ◌/◌, ◌%◌, ◌^◌, ◌≤◌, ◌<◌, min, max, bit_and, bit_or, digits,
  bit_and-bitwise, bit_or-bitwise,
}
use mathlib.Core.Path.{◌≡◌, refl, ap, ◌≡⟨◌⟩◌, ◌∎}
use mathlib.Core.Bool.{Bool}
use native.Mathlib.Nat.{
  pow-suc, one-le-pow, mod-lt, mod-eq_of_lt, div-add-mod', mul-add-mod_self_right,
  div-div-eq-div-mul,
}
use native.Mathlib.Omega.{arith}
use mik_os.Common.Tests.{◌==◌, if◌then◌else◌}

-- `x & (1 << k) != 0`
abbrev pub test_bit : ℕ → ℕ → Bool
test_bit x k = x / 2 ^ k % 2 == 1

-- `x & ((1 << k) - 1)`
abbrev pub low_bits : ℕ → ℕ → ℕ
low_bits x k = bit_and x (2 ^ k - 1)

-- The digit recursion does not depend on its fuel, once that is at least the number.
module _ (rest : ℕ → ℕ) (digit : ℕ → ℕ → ℕ) where
  enough_fuel : (n m a b : ℕ) → a ≤ n → a ≤ m → digits rest digit n a b ≡ digits rest digit m a b
  enough_fuel zero zero zero b p q = refl
  enough_fuel zero (suc m) zero b p q = refl
  enough_fuel (suc n) zero zero b p q = refl
  enough_fuel (suc n) (suc m) zero b p q = refl
  enough_fuel zero m (suc a) b p q = absurd (omega arith)
  enough_fuel (suc n) zero (suc a) b p q = absurd (omega arith)
  enough_fuel (suc n) (suc m) (suc a) b p q =
      rw (enough_fuel n m (suc a / 2) (b / 2) (omega arith) (omega arith))

zero-bit_and : (b : ℕ) → bit_and 0 b ≡ 0
zero-bit_and b = bit_and-bitwise 0 b

pub zero-bit_or : (b : ℕ) → bit_or 0 b ≡ b
zero-bit_or b = bit_or-bitwise 0 b

pub and_low : (a b : ℕ) → bit_and a b ≡ bit_and (a / 2) (b / 2) * 2 + min (a % 2) (b % 2)
and_low zero b = omega (arith, zero-bit_and b, zero-bit_and (b / 2))
and_low (suc a) b = omega (
  arith,
  bit_and-bitwise (suc a) b,
  bit_and-bitwise (suc a / 2) (b / 2),
  enough_fuel (λ y. 0) min a (suc a / 2) (suc a / 2) (b / 2) (omega arith) (omega arith),
)

pub or_low : (a b : ℕ) → bit_or a b ≡ bit_or (a / 2) (b / 2) * 2 + max (a % 2) (b % 2)
or_low zero b = omega (arith, zero-bit_or b, zero-bit_or (b / 2))
or_low (suc a) b = omega (
  arith,
  bit_or-bitwise (suc a) b,
  bit_or-bitwise (suc a / 2) (b / 2),
  enough_fuel (λ y. y) max a (suc a / 2) (suc a / 2) (b / 2) (omega arith) (omega arith),
)

-- Induction on the digits: `fuel` bounds the number.
and_zero_fuel : (fuel a : ℕ) → a ≤ fuel → bit_and a 0 ≡ 0
and_zero_fuel fuel zero h = zero-bit_and 0
and_zero_fuel zero (suc a) h = absurd (omega arith)
and_zero_fuel (suc fuel) (suc a) h =
    omega (arith, and_low (suc a) 0, and_zero_fuel fuel (suc a / 2) (omega arith))

or_zero_fuel : (fuel a : ℕ) → a ≤ fuel → bit_or a 0 ≡ a
or_zero_fuel fuel zero h = zero-bit_or 0
or_zero_fuel zero (suc a) h = absurd (omega arith)
or_zero_fuel (suc fuel) (suc a) h =
    omega (arith, or_low (suc a) 0, or_zero_fuel fuel (suc a / 2) (omega arith))

pub bit_and-zero : (a : ℕ) → bit_and a 0 ≡ 0
bit_and-zero a = and_zero_fuel a a (omega arith)

pub bit_or-zero : (a : ℕ) → bit_or a 0 ≡ a
bit_or-zero a = or_zero_fuel a a (omega arith)

-- The lowest digit of a remainder, in base `c`.
pub mod-mul : (c m a : ℕ) → 0 < c → 0 < m → a % (m * c) ≡ a / c % m * c + a % c
mod-mul c m a hc hm =
    a % (m * c)
    ≡⟨ ap (λ t. t % (m * c)) split ⟩ (a / c / m * (m * c) + (a / c % m * c + a % c)) % (m * c)
    ≡⟨ mul-add-mod_self_right (a / c / m) (m * c) _ ⟩ (a / c % m * c + a % c) % (m * c)
    ≡⟨ mod-eq_of_lt small ⟩ a / c % m * c + a % c ∎
  where
    split : a ≡ a / c / m * (m * c) + (a / c % m * c + a % c)
    split = omega (arith, div-add-mod' a c, ap (λ (t : ℕ). t * c) (div-add-mod' (a / c) m))

    small : a / c % m * c + a % c < m * c
    small = grind (arith, mod-lt a hc, mod-lt (a / c) hm)

mod-two-pow : (k a : ℕ) → a % 2 ^ suc k ≡ a / 2 % 2 ^ k * 2 + a % 2
mod-two-pow k a =
    rw (pow-suc 2 k) (mod-mul 2 (2 ^ k) a (omega arith) (one-le-pow k 2 (omega arith)))

-- A mask of `k` low bits is the remainder by `2 ^ k`.
pub low_bits-mod : (k a : ℕ) → low_bits a k ≡ a % 2 ^ k
low_bits-mod zero a = rw (bit_and-zero a) (omega arith)
low_bits-mod (suc k) a = omega (
  arith,
  and_low a (2 ^ suc k - 1),
  pow-suc 2 k,
  one-le-pow k 2 (omega arith),
  ap (bit_and (a / 2)) (
      let e : (2 ^ suc k - 1) / 2 ≡ 2 ^ k - 1 =
        omega (arith, pow-suc 2 k, one-le-pow k 2 (omega arith)) in
      e),
  low_bits-mod k (a / 2),
  mod-two-pow k a,
)

double : (q k : ℕ) → q * 2 ^ suc k ≡ 2 * (q * 2 ^ k)
double q k = omega (arith, ap (λ (t : ℕ). q * t) (pow-suc 2 k))

-- `(q << k) | r` is a sum if `r` fits `k` bits.
pub bit_or-shifted : (k q r : ℕ) → r < 2 ^ k → bit_or (q * 2 ^ k) r ≡ q * 2 ^ k + r
bit_or-shifted zero q r fits = ground (arith, bit_or-zero q)
bit_or-shifted (suc k) q r fits =
    ground (arith, or_low (q * 2 ^ suc k) r, double q k, pow-suc 2 k, bit_or-shifted k q (r / 2))

-- `x | (1 << k)` adds the bit where it is clear.
pub bit_or-two-pow : (k x : ℕ) → bit_or x (2 ^ k) ≡ (if test_bit x k then x else x + 2 ^ k)
bit_or-two-pow zero x = ground (arith, or_low x 1, bit_or-zero (x / 2))
bit_or-two-pow (suc k) x = ground (
  arith,
  or_low x (2 ^ suc k),
  pow-suc 2 k,
  ap (bit_or (x / 2)) (let e : 2 ^ suc k / 2 ≡ 2 ^ k = omega (arith, pow-suc 2 k) in e),
  ap (λ (t : ℕ). x / t) (let e : 2 ^ suc k ≡ 2 * 2 ^ k = omega (arith, pow-suc 2 k) in e),
  div-div-eq-div-mul x 2 (2 ^ k),
  bit_or-two-pow k (x / 2),
)

pub bit_or-lt : (k a b : ℕ) → a < 2 ^ k → b < 2 ^ k → bit_or a b < 2 ^ k
bit_or-lt zero a b p q = rw (zero_of a p, zero_of b q) (omega arith)
  where
    zero_of : (c : ℕ) → c < 2 ^ 0 → c ≡ 0
    zero_of c h = omega arith
bit_or-lt (suc k) a b p q = omega (
  arith,
  or_low a b,
  pow-suc 2 k,
  bit_or-lt k (a / 2) (b / 2) (omega (arith, pow-suc 2 k)) (omega (arith, pow-suc 2 k)),
)

and_le_fuel : (fuel a b : ℕ) → a ≤ fuel → bit_and a b ≤ a
and_le_fuel fuel zero b h = omega (arith, zero-bit_and b)
and_le_fuel zero (suc a) b h = absurd (omega arith)
and_le_fuel (suc fuel) (suc a) b h =
    omega (arith, and_low (suc a) b, and_le_fuel fuel (suc a / 2) (b / 2) (omega arith))

pub bit_and-le : (a b : ℕ) → bit_and a b ≤ a
bit_and-le a b = and_le_fuel a a b (omega arith)

pub bit_or-shifted_right : (k q r : ℕ) → r < 2 ^ k → bit_or r (q * 2 ^ k) ≡ q * 2 ^ k + r
bit_or-shifted_right zero q zero fits = ground (arith, zero-bit_or q)
bit_or-shifted_right zero q (suc r) fits = absurd (omega arith)
bit_or-shifted_right (suc k) q r fits =
    ground
      (arith, or_low r (q * 2 ^ suc k), double q k, pow-suc 2 k, bit_or-shifted_right k q (r / 2))

-- A mask whose low `k` bits are clear.
pub bit_and-shifted : (k a b : ℕ) → bit_and a (b * 2 ^ k) ≡ bit_and (a / 2 ^ k) b * 2 ^ k
bit_and-shifted zero a b = ground arith
bit_and-shifted (suc k) a b = ground (
  arith,
  and_low a (b * 2 ^ suc k),
  double b k,
  double (bit_and (a / 2 ^ suc k) b) k,
  ap (λ (t : ℕ). a / t) (let e : 2 ^ suc k ≡ 2 * 2 ^ k = omega (arith, pow-suc 2 k) in e),
  div-div-eq-div-mul a 2 (2 ^ k),
  bit_and-shifted k (a / 2) b,
)
