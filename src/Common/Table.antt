-- ===== src/Common/Table.antt =====
-- Statements over a small range, checked at every value, and searches of a range.
use Prim.Native.Nat.{ℕ, zero, suc, ◌+◌, ◌<◌, ◌≤◌}
use mathlib.Core.Path.{◌≡◌}
use mathlib.Core.Bool.{Bool, true, false, ◌&&◌}
use mathlib.Core.Option.{Option, none, some}
use mathlib.Core.Logic.{inl, inr}
use mik_os.Common.Tests.{Bool-cases, ◌==◌}
use native.Mathlib.Omega.{arith}

unfoldable pub all_below : ℕ → (ℕ → Bool) → Bool
all_below zero p = true
all_below (suc n) p = p n && all_below n p

pub at_below : (n : ℕ) (p : ℕ → Bool) (x : ℕ) → all_below n p ≡ true → x < n → p x ≡ true
unfolding all_below
at_below zero p x h lt = absurd (omega arith)
at_below (suc n) p x h lt = ground (arith, at_below n p x)

-- `(i..i + n).find(p)`
unfoldable pub find_from : ℕ → ℕ → (ℕ → Bool) → Option ℕ
find_from zero i p = none
find_from (suc n) i p = elim (p i) [ true ↦ some i | false ↦ find_from n (i + 1) p ]

-- What a search finds passes the test and lies in the range.
pub find_from-some :
    (n i k : ℕ) (p : ℕ → Bool) → find_from n i p ≡ some k → (p k ≡ true) × (i ≤ k) × (k < i + n)
unfolding find_from
find_from-some zero i k p h = absurd (ground (arith, h))
find_from-some (suc n) i k p h = elim (Bool-cases (p i)) [
  | inl hit ↦ ground (arith, h)
  | inr miss ↦
      (let r = find_from-some n (i + 1) k p (rw (find_from, miss) at h) in
        (r.0, omega (arith, r), omega (arith, r)))
]

-- Nothing before it does, and nothing at all if the search fails.
pub find_from-first :
    (n i k j : ℕ) (p : ℕ → Bool) → find_from n i p ≡ some k → i ≤ j → j < k → p j ≡ false
unfolding find_from
find_from-first zero i k j p h a b = absurd (ground (arith, h))
find_from-first (suc n) i k j p h a b = elim (Bool-cases (p i)) [
  | inl hit ↦ absurd (ground (arith, h, hit))
  | inr miss ↦ elim (Bool-cases (i == j)) [
    | inl here ↦ (let e : i ≡ j = ground arith in rw (← e) miss)
    | inr later ↦ find_from-first n (i + 1) k j p (rw (find_from, miss) at h) (ground arith) b
  ]
]

pub find_from-none :
    (n i j : ℕ) (p : ℕ → Bool) → find_from n i p ≡ none → i ≤ j → j < i + n → p j ≡ false
unfolding find_from
find_from-none zero i j p h a b = absurd (omega arith)
find_from-none (suc n) i j p h a b = elim (Bool-cases (p i)) [
  | inl hit ↦ absurd (ground (arith, h, hit))
  | inr miss ↦ elim (Bool-cases (i == j)) [
    | inl here ↦ (let e : i ≡ j = ground arith in rw (← e) miss)
    | inr later ↦
        find_from-none n (i + 1) j p (rw (find_from, miss) at h) (ground arith) (omega arith)
  ]
]
