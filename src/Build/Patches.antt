-- ===== src/Build/Patches.antt =====
-- `patch_imm` of mik-os/src/lib.rs, several times over: the words that a kernel gets addresses and lengths in behind
-- `resolve`.
use mik_os.Common.{
  ℕ, ◌<◌, ◌≡◌, ◌≢◌, refl, Bool, true, not, ◌&&◌, ◌==◌, sym, subst, ap, ◌∙◌, arith, List, [], ◌∷◌,
  length, length-set, get_or, set, get_or-set_self, get_or-set_ne, ◌^◌,
}
use mik_os.Emu.Word.{decode}
use Prim.Native.String.{String}
use mik_os.Build.{Pending, with_imm}
use mik_os.Build.Resolve.{NotAmong, Lands, AllFixed, SameBut, with_imm-SameBut, with_imm-imm}

-- A patch: the index of a word, and its new immediate.
abbrev pub Patch : Type 0
Patch = ℕ × ℕ

abbrev pub patch_all : List ℕ → List Patch → List ℕ
patch_all code [] = code
patch_all code ((i, imm) ∷ ps) = patch_all (set code i (with_imm (get_or code i 0) imm)) ps

-- No patch is of the word at `i`.
abbrev pub NotPatched : ℕ → List Patch → Type 0
NotPatched i [] = Unit
NotPatched i ((j, imm) ∷ ps) = (j ≢ i) × NotPatched i ps

abbrev pub DistinctPatches : List Patch → Type 0
DistinctPatches [] = Unit
DistinctPatches ((i, imm) ∷ ps) = NotPatched i ps × DistinctPatches ps

-- The patched words are inside the code and have no fixup, and the immediates are below 2 ^ 43.
abbrev pub Patches : ℕ → List Pending → List Patch → Type 0
Patches n fixups [] = Unit
Patches n fixups ((i, imm) ∷ ps) =
    ((i < n) × (imm < 2 ^ 43) × NotAmong i fixups) × Patches n fixups ps

-- Each patched word has its immediate, and the opcode and registers that it had.
abbrev pub AllPatched : List ℕ → List ℕ → List Patch → Type 0
AllPatched code code' [] = Unit
AllPatched code code' ((i, imm) ∷ ps) =
    (((decode (get_or code' i 0)).imm ≡ imm) × SameBut (get_or code i 0) (get_or code' i 0))
    × AllPatched code code' ps

-- The word is `li` for the register `rd`.
abbrev pub Li : ℕ → ℕ → Type 0
Li word rd = ((decode word).opcode ≡ 0x01) × ((decode word).rd ≡ rd)

-- The word at `i` is `li`, for the register `rd` and the value `imm`.
abbrev pub LoadsImm : List ℕ → ℕ → ℕ → ℕ → Type 0
LoadsImm words i rd imm = Li (get_or words i 0) rd × ((decode (get_or words i 0)).imm ≡ imm)

pub patched-LoadsImm :
    (words : List ℕ) (i rd imm old li : ℕ)
    → Li li rd
    → ((decode (get_or words i 0)).imm ≡ imm) × SameBut old (get_or words i 0)
    → old ≡ li
    → LoadsImm words i rd imm
patched-LoadsImm words i rd imm old li (is_li, is_rd) (value, (op, d, _, _)) e =
    ((op ∙ (ap (λ x. (decode x).opcode) e ∙ is_li), d ∙ (ap (λ x. (decode x).rd) e ∙ is_rd)), value)

pub length-patch_all : (ps : List Patch) (code : List ℕ) → length (patch_all code ps) ≡ length code
length-patch_all [] code = refl
length-patch_all ((i, imm) ∷ ps) code = length-patch_all ps _ ∙ length-set code i _

pub patch_all-outside :
    (ps : List Patch) (code : List ℕ) (i : ℕ)
    → NotPatched i ps
    → get_or (patch_all code ps) i 0 ≡ get_or code i 0
patch_all-outside [] code i h = refl
patch_all-outside ((j, imm) ∷ ps) code i (other, h) =
    patch_all-outside ps _ i h ∙ get_or-set_ne code j i _ 0 other

AllPatched-set :
    (code code' : List ℕ) (i w : ℕ) (ps : List Patch)
    → NotPatched i ps
    → AllPatched (set code i w) code' ps
    → AllPatched code code' ps
AllPatched-set code code' i w [] n h = tt
AllPatched-set code code' i w ((j, imm) ∷ ps) (other, n) ((value, same), h) = (
  (
    value,
    subst (λ x. SameBut x (get_or code' j 0)) (get_or-set_ne code i j w 0 (λ e. other (sym e)))
        same,
  ),
  AllPatched-set code code' i w ps n h,
)

pub patch_all-AllPatched :
    (fixups : List Pending) (ps : List Patch) (n : ℕ) (code : List ℕ)
    → length code ≡ n
    → DistinctPatches ps
    → Patches n fixups ps
    → AllPatched code (patch_all code ps) ps
patch_all-AllPatched fixups [] n code len apart h = tt
patch_all-AllPatched fixups ((i, imm) ∷ ps) n code len (fresh, apart) ((lt, small, free), h) =
    let old = get_or code i 0 in
    let w = with_imm old imm in
    let word : get_or (patch_all (set code i w) ps) i 0 ≡ w =
      patch_all-outside ps (set code i w) i fresh
      ∙ get_or-set_self code i w 0 (subst (λ m. i < m) (sym len) lt) in
    (
      (
        ap (λ x. (decode x).imm) word ∙ with_imm-imm old imm small,
        subst (λ x. SameBut old x) (sym word) (with_imm-SameBut old imm),
      ),
      AllPatched-set code _ i w ps fresh
          (patch_all-AllPatched fixups ps n (set code i w) (length-set code i w ∙ len) apart h),
    )

module _ (load : ℕ) (labels : List (String × ℕ)) (code : List ℕ) where
  AllFixed-set_other :
      (code' : List ℕ) (i w : ℕ) (fixups : List Pending)
      → NotAmong i fixups
      → AllFixed load labels code code' fixups
      → AllFixed load labels code (set code' i w) fixups
  AllFixed-set_other code' i w [] n h = tt
  AllFixed-set_other code' i w (p ∷ fixups) (other, n) ((t, found, lands, same), h) =
      let e = sym (get_or-set_ne code' i p.idx w 0 (λ e. other (sym e))) in
      (
        (
          t,
          found,
          subst (λ x. Lands p.kind load p.idx t x) e lands,
          subst (λ x. SameBut (get_or code p.idx 0) x) e same,
        ),
        AllFixed-set_other code' i w fixups n h,
      )

  -- Patches of other words leave the fixups as they are.
  pub patch_all-AllFixed :
      (fixups : List Pending) (ps : List Patch) (n : ℕ) (code' : List ℕ)
      → Patches n fixups ps
      → AllFixed load labels code code' fixups
      → AllFixed load labels code (patch_all code' ps) fixups
  patch_all-AllFixed fixups [] n code' h v = v
  patch_all-AllFixed fixups ((i, imm) ∷ ps) n code' ((lt, small, free), h) v =
      patch_all-AllFixed fixups ps n _ h (AllFixed-set_other code' i _ fixups free v)

-- Whether a word has no fixup.
unfoldable pub not_among : ℕ → List Pending → Bool
not_among i [] = true
not_among i (p ∷ ps) = not (p.idx == i) && not_among i ps

pub not_among-NotAmong : (i : ℕ) (ps : List Pending) → not_among i ps ≡ true → NotAmong i ps
unfolding not_among
not_among-NotAmong i [] h = tt
not_among-NotAmong i (p ∷ ps) h =
    (λ e. ground (arith, h, e), not_among-NotAmong i ps (ground (arith, h)))
