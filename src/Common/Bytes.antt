-- ===== src/Common/Bytes.antt =====
-- Byte-addressed memory, and the little-endian conversions `to_le_bytes`, `from_le_bytes` and
-- `copy_from_slice` of the Rust standard library.
use Prim.Native.Nat.{ℕ, zero, suc, ◌+◌, ◌*◌, ◌/◌, ◌%◌, ◌^◌, ◌≤◌, ◌<◌}
use mathlib.Core.Path.{◌≡◌, refl, ap, ap₂, ◌∙◌}
use mathlib.Core.Logic.{◌≢◌, ◌⊎◌}
use mathlib.Core.List.{List, [], ◌∷◌}
use native.Mathlib.Omega.{arith}
use native.Mathlib.Nat.{pow-suc, one-le-pow, mod-eq_of_lt}
use mik_os.Common.Bits.{mod-mul}
use mathlib.Core.Bool.{Bool, true, false, ◌&&◌}
use mik_os.Common.Tests.{◌==◌, if◌then◌else◌}
use mik_os.Common.Lists.{length}

-- The byte at each address.
abbrev pub Memory : Type 0
Memory = ℕ → ℕ

abbrev pub update {ℓ} : {A : Type ℓ} → (ℕ → A) → ℕ → A → ℕ → A
update f p v q = if q == p then v else f q

abbrev pub to_le_bytes : ℕ → ℕ → List ℕ
to_le_bytes zero v = []
to_le_bytes (suc n) v = v % 256 ∷ to_le_bytes n (v / 256)

abbrev pub from_le_bytes : List ℕ → ℕ
from_le_bytes [] = 0
from_le_bytes (b ∷ bs) = b + 256 * from_le_bytes bs

-- `mem[a..a + n]`
abbrev pub slice : Memory → ℕ → ℕ → List ℕ
slice m a zero = []
slice m a (suc n) = m a ∷ slice m (a + 1) n

-- `mem[a..a + bs.len()].copy_from_slice(bs)`
abbrev pub copy_into : Memory → ℕ → List ℕ → Memory
copy_into m a [] = m
copy_into m a (b ∷ bs) = copy_into (update m a b) (a + 1) bs

unfoldable pub load64 : Memory → ℕ → ℕ
load64 m a = from_le_bytes (slice m a 8)

unfoldable pub store64 : Memory → ℕ → ℕ → Memory
store64 m a v = copy_into m a (to_le_bytes 8 v)

update_ne {ℓ} : {A : Type ℓ} (f : ℕ → A) (p q : ℕ) (v : A) → p ≢ q → update f p v q ≡ f q
update_ne f p q v h = ground arith

pub length-to_le_bytes : (n v : ℕ) → length (to_le_bytes n v) ≡ n
length-to_le_bytes zero v = refl
length-to_le_bytes (suc n) v = ap suc (length-to_le_bytes n (v / 256))

-- Reading the bytes of a number back gives its low `n` bytes.
pub from_le_bytes-to_le_bytes : (n v : ℕ) → from_le_bytes (to_le_bytes n v) ≡ v % 256 ^ n
from_le_bytes-to_le_bytes zero v = omega arith
from_le_bytes-to_le_bytes (suc n) v = omega (
  arith,
  from_le_bytes-to_le_bytes n (v / 256),
  ap (λ (t : ℕ). v % t) (pow-suc 256 n),
  mod-mul 256 (256 ^ n) v (omega arith) (one-le-pow n 256 (omega arith)),
)

-- `copy_from_slice` changes the addresses of the slice only.
pub copy_into_outside :
    (m : Memory) (a b : ℕ) (bs : List ℕ) → (b < a) ⊎ (a + length bs ≤ b) → copy_into m a bs b ≡ m b
copy_into_outside m a b [] h = refl
copy_into_outside m a b (x ∷ bs) h =
    copy_into_outside (update m a x) (a + 1) b bs (omega arith) ∙ update_ne m a b x (omega arith)

-- And what it wrote is read back.
pub slice-copy_into :
    (m : Memory) (a : ℕ) (bs : List ℕ) → slice (copy_into m a bs) a (length bs) ≡ bs
slice-copy_into m a [] = refl
slice-copy_into m a (x ∷ bs) =
    ap₂ ◌∷◌ (copy_into_outside (update m a x) (a + 1) a bs (omega arith) ∙ ground arith)
      (slice-copy_into (update m a x) (a + 1) bs)

pub slice_ext :
    (m m' : Memory) (a n : ℕ)
    → ((b : ℕ) → a ≤ b → b < a + n → m b ≡ m' b)
    → slice m a n ≡ slice m' a n
slice_ext m m' a zero h = refl
slice_ext m m' a (suc n) h =
    ap₂ ◌∷◌ (h a (omega arith) (omega arith))
      (slice_ext m m' (a + 1) n (λ b p q. h b (omega arith) (omega arith)))

-- A 64-bit store is read back by a load from the same address.
pub load64-store64 : (m : Memory) (a v : ℕ) → v < 2 ^ 64 → load64 (store64 m a v) a ≡ v
unfolding load64 store64
load64-store64 m a v h =
    ap from_le_bytes (slice-copy_into m a (to_le_bytes 8 v))
    ∙ from_le_bytes-to_le_bytes 8 v
    ∙ mod-eq_of_lt h

-- And leaves a load from 8 bytes that do not meet it alone.
pub load64-store64_apart :
    (m : Memory) (a b v : ℕ) → (b + 8 ≤ a) ⊎ (a + 8 ≤ b) → load64 (store64 m a v) b ≡ load64 m b
unfolding load64 store64
load64-store64_apart m a b v h = ap from_le_bytes (
    slice_ext (store64 m a v) m b 8
      λ c p q. copy_into_outside m a c (to_le_bytes 8 v) (omega arith))

abbrev pub IsBytes : Memory → Type 0
IsBytes m = (a : ℕ) → m a < 256

pub update-IsBytes : (m : Memory) (a v : ℕ) → IsBytes m → v < 256 → IsBytes (update m a v)
update-IsBytes m a v h k b = ground (arith, h b)

copy_into-IsBytes :
    (n : ℕ) (m : Memory) (a v : ℕ) → IsBytes m → IsBytes (copy_into m a (to_le_bytes n v))
copy_into-IsBytes zero m a v h = h
copy_into-IsBytes (suc n) m a v h =
    copy_into-IsBytes n (update m a (v % 256)) (a + 1) (v / 256)
      (update-IsBytes m a (v % 256) h (omega arith))

pub store64-IsBytes : (m : Memory) (a v : ℕ) → IsBytes m → IsBytes (store64 m a v)
unfolding store64
store64-IsBytes m a v = copy_into-IsBytes 8 m a v

slice-lt : (n : ℕ) (m : Memory) (a : ℕ) → IsBytes m → from_le_bytes (slice m a n) < 256 ^ n
slice-lt zero m a h = omega arith
slice-lt (suc n) m a h = omega (arith, h a, slice-lt n m (a + 1) h, pow-suc 256 n)

pub load64-lt : (m : Memory) (a : ℕ) → IsBytes m → load64 m a < 2 ^ 64
unfolding load64
load64-lt m a h = slice-lt 8 m a h

unfoldable pub load32 : Memory → ℕ → ℕ
load32 m a = from_le_bytes (slice m a 4)

unfoldable pub store32 : Memory → ℕ → ℕ → Memory
store32 m a v = copy_into m a (to_le_bytes 4 v)

pub load32-store32 : (m : Memory) (a v : ℕ) → v < 2 ^ 32 → load32 (store32 m a v) a ≡ v
unfolding load32 store32
load32-store32 m a v h =
    ap from_le_bytes (slice-copy_into m a (to_le_bytes 4 v))
    ∙ from_le_bytes-to_le_bytes 4 v
    ∙ mod-eq_of_lt h

pub store32_outside : (m : Memory) (a b v : ℕ) → (b < a) ⊎ (a + 4 ≤ b) → store32 m a v b ≡ m b
unfolding store32
store32_outside m a b v h = copy_into_outside m a b (to_le_bytes 4 v) (omega arith)

-- A word of memory is its four bytes.
pub load32_ext :
    (m m' : Memory) (a : ℕ) → ((b : ℕ) → a ≤ b → b < a + 4 → m b ≡ m' b) → load32 m a ≡ load32 m' a
unfolding load32
load32_ext m m' a h = ap from_le_bytes (slice_ext m m' a 4 h)

pub load32_zero : (a : ℕ) → load32 (λ _. 0) a ≡ 0
unfolding load32
load32_zero a = refl

-- `==` on slices of bytes.
abbrev pub bytes_eq : List ℕ → List ℕ → Bool
bytes_eq [] [] = true
bytes_eq (x ∷ xs) (y ∷ ys) = x == y && bytes_eq xs ys
bytes_eq _ _ = false

pub bytes_eq_self : (xs : List ℕ) → bytes_eq xs xs ≡ true
bytes_eq_self [] = refl
bytes_eq_self (x ∷ xs) = ground (arith, bytes_eq_self xs)

pub store64_outside : (m : Memory) (a b v : ℕ) → (b < a) ⊎ (a + 8 ≤ b) → store64 m a v b ≡ m b
unfolding store64
store64_outside m a b v h = copy_into_outside m a b (to_le_bytes 8 v) (omega arith)

-- `copy_nonoverlapping(from, to, n)`
unfoldable pub copy_bytes : Memory → ℕ → ℕ → ℕ → Memory
copy_bytes m from to n = copy_into m to (slice m from n)

-- A copy of `n` bytes, and what is outside it.
copy_into-slice :
    (n : ℕ) (m m' : Memory) (a b d : ℕ) → d < n → copy_into m a (slice m' b n) (a + d) ≡ m' (b + d)
copy_into-slice zero m m' a b d lt = absurd (omega (arith, lt))
copy_into-slice (suc n) m m' a b zero lt =
    copy_into_outside (update m a (m' b)) (a + 1) (a + 0) (slice m' (b + 1) n) (omega arith)
    ∙ ground arith
copy_into-slice (suc n) m m' a b (suc d) lt =
    ap (copy_into (update m a (m' b)) (a + 1) (slice m' (b + 1) n))
      (let e : a + suc d ≡ a + 1 + d = omega arith in e)
    ∙ copy_into-slice n (update m a (m' b)) m' (a + 1) (b + 1) d (omega (arith, lt))
    ∙ ap m' (let e : b + 1 + d ≡ b + suc d = omega arith in e)

copy_into-slice_outside :
    (n : ℕ) (m m' : Memory) (a b x : ℕ)
    → (x < a) ⊎ (a + n ≤ x)
    → copy_into m a (slice m' b n) x ≡ m x
copy_into-slice_outside zero m m' a b x h = refl
copy_into-slice_outside (suc n) m m' a b x h =
    copy_into-slice_outside n (update m a (m' b)) m' (a + 1) (b + 1) x (omega (arith, h))
    ∙ update_ne m a x (m' b) (omega (arith, h))

pub copy_bytes-at :
    (m : Memory) (from to n d : ℕ) → d < n → copy_bytes m from to n (to + d) ≡ m (from + d)
unfolding copy_bytes
copy_bytes-at m from to n d lt = copy_into-slice n m m to from d lt

pub copy_bytes-outside :
    (m : Memory) (from to n x : ℕ) → (x < to) ⊎ (to + n ≤ x) → copy_bytes m from to n x ≡ m x
unfolding copy_bytes
copy_bytes-outside m from to n x h = copy_into-slice_outside n m m to from x h

pub load64-copy_bytes_outside :
    (m : Memory) (from to n a : ℕ)
    → (a + 8 ≤ to) ⊎ (to + n ≤ a)
    → load64 (copy_bytes m from to n) a ≡ load64 m a
unfolding load64
load64-copy_bytes_outside m from to n a h = ap from_le_bytes (
    slice_ext (copy_bytes m from to n) m a 8
      λ x p q. copy_bytes-outside m from to n x (omega (arith, h, p, q)))

pub load32-lt : (m : Memory) (a : ℕ) → IsBytes m → load32 m a < 2 ^ 32
unfolding load32
load32-lt m a h = slice-lt 4 m a h

slice-shift :
    (k : ℕ) (m m' : Memory) (a b : ℕ)
    → ((d : ℕ) → d < k → m (a + d) ≡ m' (b + d))
    → slice m a k ≡ slice m' b k
slice-shift zero m m' a b h = refl
slice-shift (suc k) m m' a b h =
    ap₂ ◌∷◌
      (rw (let e : a + 0 ≡ a = omega arith in e, let e : b + 0 ≡ b = omega arith in e) at
        (h 0 (omega arith)))
      (slice-shift k m m' (a + 1) (b + 1) λ d lt.
        ap m (let e : a + 1 + d ≡ a + suc d = omega arith in e)
        ∙ h (suc d) (omega (arith, lt))
        ∙ ap m' (let e : b + suc d ≡ b + 1 + d = omega arith in e))

-- A word of a copy.
pub load64-copy_bytes :
    (m : Memory) (from to n at : ℕ)
    → at + 8 ≤ n
    → load64 (copy_bytes m from to n) (to + at) ≡ load64 m (from + at)
unfolding load64
load64-copy_bytes m from to n at le = ap from_le_bytes (
    slice-shift 8 (copy_bytes m from to n) m (to + at) (from + at) λ d lt.
      ap (copy_bytes m from to n) (let e : to + at + d ≡ to + (at + d) = omega arith in e)
      ∙ copy_bytes-at m from to n (at + d) (omega (arith, le, lt))
      ∙ ap m (let e : from + (at + d) ≡ from + at + d = omega arith in e))
