-- ===== src/Kernel/Kbd/Keys.antt =====
-- What the decoder makes of key presses.
use mik_os.Common.{
  ℕ, zero, suc, ◌+◌, ◌<◌, ◌≤◌, ◌≡◌, ◌≢◌, refl, arith, ◌==◌, ltb, leb, if◌then◌else◌, Bool, true,
  false, ◌&&◌, Option, none, some,
}
use mik_os.Common.{◌-◌, ◌⊎◌, inl, inr, ap, sym, ◌∙◌, Option-cases}
use mik_os.Common.Table.{all_below, at_below}
use mik_os.Kernel.Kbd.{key, decode}

-- A key release yields no byte, and a byte leaves the shift state as it was; the shift state
-- changes at the make and break codes of the two shift keys only.
pub decode_shift :
    (shift : Bool) (sc : ℕ)
    → sc < 256
    → (128 ≤ sc → (decode shift sc).0 ≡ none)
      × ((b : ℕ) → (decode shift sc).0 ≡ some b → (decode shift sc).1 ≡ shift)
      × ((decode shift sc).1 ≢ shift → (sc ≡ 0x2a) ⊎ ((sc ≡ 0x36) ⊎ ((sc ≡ 0xaa) ⊎ (sc ≡ 0xb6))))
unfolding decode
decode_shift shift sc h = (λ k. ground arith, λ b e. ground arith, λ k. ground arith)

is_lower : ℕ → Bool
is_lower b = leb b'a' b && leb b b'z'

-- The entries of the two tables at one code: both or neither, ASCII and not NUL, and upper case
-- beside lower case.
agree : Option ℕ → Option ℕ → Bool
unfolding is_lower
agree none none = true
agree (some b) (some c) =
    ltb 0 b && ltb b 127 && ltb 0 c && ltb c 127 && (if is_lower b then c + 32 == b else true)
agree _ _ = false

cases_agree : ℕ → Bool
unfolding key agree
cases_agree sc = agree (key false sc) (key true sc)

agree-some :
    (b : ℕ) (o : Option ℕ)
    → agree (some b) o ≡ true
    → (c : ℕ) × (o ≡ some c)
      × (0 < b)
      × (b < 127)
      × (0 < c)
      × (c < 127)
      × (b'a' ≤ b → b ≤ b'z' → c + 32 ≡ b)
unfolding agree
agree-some b none e = cc
agree-some b (some c) e =
    (c, refl, ground arith, ground arith, ground arith, ground arith, λ p q. ground arith)

cases_agree_table : all_below 0x3b cases_agree ≡ true
unfolding all_below cases_agree
cases_agree_table = refl

-- A key that yields a byte without shift yields one with shift; both are ASCII and not NUL; and a
-- key of a lower case letter yields its upper case with shift.
pub key_cases :
    (sc b : ℕ)
    → sc < 0x3b
    → key false sc ≡ some b
    → (c : ℕ) × (key true sc ≡ some c)
      × (0 < b)
      × (b < 127)
      × (0 < c)
      × (c < 127)
      × (b'a' ≤ b → b ≤ b'z' → c + 32 ≡ b)
unfolding cases_agree
key_cases sc b h e =
    agree-some b (key true sc)
      (ap (λ o. agree o (key true sc)) (sym e) ∙ at_below 0x3b cases_agree sc cases_agree_table h)

-- The first make code below `n` that yields `b` in this shift state.
find_key : ℕ → Bool → ℕ → Option ℕ
find_key zero shift b = none
find_key (suc n) shift b = elim (decode shift n).0 [
  | some c ↦ (elim (c == b) [ true ↦ some n | false ↦ find_key n shift b ])
  | none ↦ find_key n shift b
]

find_key_sound :
    (n : ℕ) (shift : Bool) (b sc : ℕ) → find_key n shift b ≡ some sc → (decode shift sc).0 ≡ some b
unfolding find_key
find_key_sound zero shift b sc e = cc
find_key_sound (suc n) shift b sc e = ground (arith, find_key_sound n shift b sc)

has_key : ℕ → Bool
unfolding find_key
has_key b = elim (find_key 0x3b false (b + 32)) [
  | some sc ↦ true
  | none ↦ (elim (find_key 0x3b true (b + 32)) [ some sc ↦ true | none ↦ false ])
]

has_key_table : all_below 95 has_key ≡ true
unfolding all_below has_key decode key
has_key_table = refl

has_key_found :
    (b : ℕ)
    → has_key b ≡ true
    → (shift : Bool) × (sc : ℕ) × (find_key 0x3b shift (b + 32) ≡ some sc)
unfolding has_key
has_key_found b h = elim (Option-cases (find_key 0x3b false (b + 32))) [
  | inr (sc, e) ↦ (false, sc, e)
  | inl e ↦ elim (Option-cases (find_key 0x3b true (b + 32))) [
    | inr (sc, f) ↦ (true, sc, f)
    | inl f ↦ absurd (ground arith)
  ]
]

-- Every printable ASCII character can be typed: some make code yields it, with or without shift.
pub decode-printable :
    (b : ℕ) → 32 ≤ b → b < 127 → (shift : Bool) × (sc : ℕ) × ((decode shift sc).0 ≡ some b)
decode-printable b lo hi =
    let (shift, sc, e) =
      has_key_found (b - 32) (at_below 95 has_key (b - 32) has_key_table (omega arith)) in
    (shift, sc, find_key_sound 0x3b shift b sc (ap (find_key 0x3b shift) (omega arith) ∙ e))
