-- ===== src/Build/Resolve.antt =====
-- `resolve`: every fixup points to its label.
use mik_os.Common.{
  ℕ, ◌+◌, ◌-◌, ◌*◌, ◌/◌, ◌%◌, ◌^◌, ◌≤◌, ◌<◌, ◌≡◌, ◌≢◌, refl, ap, sym, subst, ◌∙◌, inl, inr, arith,
  true, false, ltb, leb, none, some, List, [], ◌∷◌, length, length-set, get_or, get_or-set_self,
  get_or-set_ne, set, Bool-cases, Option-cases,
}
use mik_os.Common.Bits.{low_bits, low_bits-mod, bit_or-shifted}
use mik_os.Emu.Word.{decode}
use mik_os.Emu.Word.RoundTrip.{sext44_sum}
use mik_os.Emu.Step.{branch_target}
use Prim.Native.String.{String}
use mik_os.Build.{Unresolved, Pending, get, with_imm, fixup_imm, resolve_all}

-- A word with another immediate.
with_imm_sum : (old imm : ℕ) → with_imm old imm ≡ old / 2 ^ 44 * 2 ^ 44 + imm % 2 ^ 44
unfolding with_imm
with_imm_sum old imm =
    rw (low_bits-mod 44 imm) (bit_or-shifted 44 (old / 2 ^ 44) (imm % 2 ^ 44) (omega arith))

-- The instruction stays the same, but for its immediate.
abbrev pub SameBut : ℕ → ℕ → Type 0
SameBut old word =
    ((decode word).opcode ≡ (decode old).opcode)
    × ((decode word).rd ≡ (decode old).rd)
    × ((decode word).rs1 ≡ (decode old).rs1)
    × ((decode word).rs2 ≡ (decode old).rs2)

pub with_imm-SameBut : (old imm : ℕ) → SameBut old (with_imm old imm)
unfolding decode
with_imm-SameBut old imm =
    let e = with_imm_sum old imm in
    (
      ap (λ x. low_bits x 8) (omega (arith, e)),
      ap (λ x. low_bits x 4) (omega (arith, e)),
      ap (λ x. low_bits x 4) (omega (arith, e)),
      ap (λ x. low_bits x 4) (omega (arith, e)),
    )

-- What a fixed branch or `li` does.
abbrev pub Lands : Unresolved → ℕ → ℕ → ℕ → ℕ → Type 0
Lands Unresolved.li load idx t word = (decode word).imm ≡ load + t * 8
Lands Unresolved.jmp load idx t word =
    branch_target (load + idx * 8) (decode word).imm ≡ load + t * 8
Lands Unresolved.beq load idx t word =
    branch_target (load + idx * 8) (decode word).imm ≡ load + t * 8
Lands Unresolved.bne load idx t word =
    branch_target (load + idx * 8) (decode word).imm ≡ load + t * 8

-- The immediate is read back, if it is below 2 ^ 43 or a negative number above - 2 ^ 43.
pub with_imm-imm : (old imm : ℕ) → imm < 2 ^ 43 → (decode (with_imm old imm)).imm ≡ imm
unfolding decode
with_imm-imm old imm h =
    let e = with_imm_sum old imm in
    let low : with_imm old imm % 2 ^ 44 ≡ imm = omega (arith, e, h) in
    let small : ltb imm (2 ^ 43) ≡ true = ground (arith, h) in
    sext44_sum (with_imm old imm) ∙ rw (low, small) refl

with_imm-imm_negative :
    (old d : ℕ) → 0 < d → d < 2 ^ 43 → (decode (with_imm old (2 ^ 64 - d))).imm ≡ 2 ^ 64 - d
unfolding decode
with_imm-imm_negative old d pos h =
    let e = with_imm_sum old (2 ^ 64 - d) in
    let low : with_imm old (2 ^ 64 - d) % 2 ^ 44 ≡ 2 ^ 44 - d = omega (arith, e, h, pos) in
    let big : ltb (2 ^ 44 - d) (2 ^ 43) ≡ false = ground (arith, h) in
    sext44_sum (with_imm old (2 ^ 64 - d)) ∙ rw (low, big) (omega (arith, h))

with_imm-branch :
    (old load idx t : ℕ)
    → load + idx * 8 < 2 ^ 43
    → load + t * 8 < 2 ^ 43
    → branch_target (load + idx * 8) (decode (with_imm old ((t + 2 ^ 64 - idx) % 2 ^ 64))).imm
      ≡ load + t * 8
with_imm-branch old load idx t hi ht = elim (Bool-cases (leb idx t)) [
  | inl forward ↦
      let le : idx ≤ t = ground (arith, forward) in
      let e : (t + 2 ^ 64 - idx) % 2 ^ 64 ≡ t - idx = omega (arith, le, ht) in
      rw (e, with_imm-imm old (t - idx) (omega (arith, ht))) (omega (arith, le, ht))
  | inr back ↦
      let lt : t < idx = ground (arith, back) in
      let e : (t + 2 ^ 64 - idx) % 2 ^ 64 ≡ 2 ^ 64 - (idx - t) = omega (arith, lt, hi) in
      rw (e, with_imm-imm_negative old (idx - t) (omega (arith, lt)) (omega (arith, hi)))
        (omega (arith, lt, hi, ht))
]

with_imm-Lands :
    (kind : Unresolved) (old load idx t : ℕ)
    → load + idx * 8 < 2 ^ 43
    → load + t * 8 < 2 ^ 43
    → Lands kind load idx t (with_imm old (fixup_imm kind load idx t))
unfolding fixup_imm
with_imm-Lands Unresolved.li old load idx t hi ht = with_imm-imm old (load + t * 8) ht
with_imm-Lands Unresolved.jmp old load idx t hi ht = with_imm-branch old load idx t hi ht
with_imm-Lands Unresolved.beq old load idx t hi ht = with_imm-branch old load idx t hi ht
with_imm-Lands Unresolved.bne old load idx t hi ht = with_imm-branch old load idx t hi ht

abbrev pub Below : ℕ → List Pending → Type 0
Below n [] = Unit
Below n (p ∷ ps) = (p.idx < n) × Below n ps

abbrev pub NotAmong : ℕ → List Pending → Type 0
NotAmong i [] = Unit
NotAmong i (p ∷ ps) = (p.idx ≢ i) × NotAmong i ps

abbrev pub DistinctIdx : List Pending → Type 0
DistinctIdx [] = Unit
DistinctIdx (p ∷ ps) = NotAmong p.idx ps × DistinctIdx ps

-- What `resolve` does for a fixup: its label is defined, and the word at its index goes there and is the same instruction.
abbrev pub Fixed : ℕ → List (String × ℕ) → List ℕ → List ℕ → Pending → Type 0
Fixed load labels code code' p =
    (t : ℕ) × (get p.target labels ≡ some t)
    × Lands p.kind load p.idx t (get_or code' p.idx 0)
    × SameBut (get_or code p.idx 0) (get_or code' p.idx 0)

abbrev pub AllFixed : ℕ → List (String × ℕ) → List ℕ → List ℕ → List Pending → Type 0
AllFixed load labels code code' [] = Unit
AllFixed load labels code code' (p ∷ ps) =
    Fixed load labels code code' p × AllFixed load labels code code' ps

AllFixed-set :
    (load : ℕ) (labels : List (String × ℕ)) (code code' : List ℕ) (i w : ℕ) (ps : List Pending)
    → NotAmong i ps
    → AllFixed load labels (set code i w) code' ps
    → AllFixed load labels code code' ps
AllFixed-set load labels code code' i w [] n h = tt
AllFixed-set load labels code code' i w (p ∷ ps) (other, n) ((t, found, lands, same), h) = (
  (
    t,
    found,
    lands,
    subst (λ x. SameBut x (get_or code' p.idx 0))
        (get_or-set_ne code i p.idx w 0 (λ e. other (sym e))) same,
  ),
  AllFixed-set load labels code code' i w ps n h,
)

module _ (load : ℕ) (labels : List (String × ℕ)) where
  pub resolve_all-outside :
      (ps : List Pending) (code code' : List ℕ) (i : ℕ)
      → resolve_all load labels ps code ≡ some code'
      → NotAmong i ps
      → get_or code' i 0 ≡ get_or code i 0
  unfolding resolve_all
  resolve_all-outside [] code code' i h n = ground (arith, h)
  resolve_all-outside (p ∷ ps) code code' i h (other, n) =
      elim (Option-cases (get p.target labels)) [
        | inl undefined ↦
            absurd (let e : none ≡ some code' = rw (resolve_all, undefined) at h in ground arith)
        | inr (t, found) ↦
            resolve_all-outside ps _ code' i (rw (resolve_all, found) at h) n
            ∙ get_or-set_ne code p.idx i _ 0 other
      ]

  pub resolve_all-AllFixed :
      (ps : List Pending) (code code' : List ℕ)
      → load + length code * 8 < 2 ^ 43
      → ((name : String) (t : ℕ) → get name labels ≡ some t → t ≤ length code)
      → Below (length code) ps
      → DistinctIdx ps
      → resolve_all load labels ps code ≡ some code'
      → AllFixed load labels code code' ps
  unfolding resolve_all
  resolve_all-AllFixed [] code code' fits at below apart h = tt
  resolve_all-AllFixed (p ∷ ps) code code' fits at (lt, below) (fresh, apart) h =
      elim (Option-cases (get p.target labels)) [
        | inl undefined ↦
            absurd (let e : none ≡ some code' = rw (resolve_all, undefined) at h in ground arith)
        | inr (t, found) ↦
            let old = get_or code p.idx 0 in
            let w = with_imm old (fixup_imm p.kind load p.idx t) in
            let code1 = set code p.idx w in
            let len : length code1 ≡ length code = length-set code p.idx w in
            let r : resolve_all load labels ps code1 ≡ some code' = rw (resolve_all, found) at h in
            let word : get_or code' p.idx 0 ≡ w =
              resolve_all-outside ps code1 code' p.idx r fresh
              ∙ get_or-set_self code p.idx w 0 lt in
            let t_in = at p.target t found in
            (
              (
                t,
                found,
                subst (λ x. Lands p.kind load p.idx t x) (sym word)
                    (with_imm-Lands p.kind old load p.idx t (omega (arith, fits, lt))
                      (omega (arith, fits, t_in))),
                subst (λ x. SameBut old x) (sym word)
                    (with_imm-SameBut old (fixup_imm p.kind load p.idx t)),
              ),
              AllFixed-set load labels code code' p.idx w ps fresh (
                  resolve_all-AllFixed ps code1 code' (rw (len) fits) (rw (len) at) (rw (len) below)
                    apart r),
            )
      ]

  pub resolve_all-length :
      (ps : List Pending) (code code' : List ℕ)
      → resolve_all load labels ps code ≡ some code'
      → length code' ≡ length code
  unfolding resolve_all
  resolve_all-length [] code code' h = ground (arith, h)
  resolve_all-length (p ∷ ps) code code' h = elim (Option-cases (get p.target labels)) [
    | inl undefined ↦
        absurd (let e : none ≡ some code' = rw (resolve_all, undefined) at h in ground arith)
    | inr (t, found) ↦
        resolve_all-length ps _ code' (rw (resolve_all, found) at h) ∙ length-set code p.idx _
  ]
