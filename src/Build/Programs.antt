-- ===== src/Build/Programs.antt =====
-- Every program made by calls of the builder resolves right.
use mik_os.Common.{
  ℕ, ◌+◌, ◌*◌, ◌^◌, ◌≤◌, ◌<◌, ◌≡◌, ◌≢◌, refl, inl, inr, arith, Option, none, some, Bool, true,
  false, ◌&&◌, List, [], ◌∷◌, ◌++◌, length, length-append, Bool-cases,
}
use Prim.Native.String.{String}
use text.Mathlib.Text.{◌==◌}
use mik_os.Build.{
  Unresolved, Pending, Asm, new, get, Call, label, emit, jmp_to, beq_to, bne_to, li_to, fixup, call,
  calls, resolve_all, resolve,
}
use mik_os.Build.Resolve.{Below, NotAmong, DistinctIdx, AllFixed, resolve_all-AllFixed}

-- Labels are in the program, and each word has at most one fixup.
pub record IsAsm (a : Asm) : Type 0 where
  pub at : (name : String) (t : ℕ) → get name a.labels ≡ some t → t ≤ length a.code
  pub below : Below (length a.code) a.unresolved
  pub apart : DistinctIdx a.unresolved

Below-le : (n m : ℕ) (ps : List Pending) → n ≤ m → Below n ps → Below m ps
Below-le n m [] le h = tt
Below-le n m (p ∷ ps) le (lt, h) = (omega (arith, le, lt), Below-le n m ps le h)

Below-append :
    (n : ℕ) (ps : List Pending) (p : Pending) → Below n ps → p.idx < n → Below n (ps ++ p ∷ [])
Below-append n [] p h lt = (lt, tt)
Below-append n (q ∷ ps) p (below, h) lt = (below, Below-append n ps p h lt)

NotAmong-append :
    (i : ℕ) (ps : List Pending) (p : Pending)
    → NotAmong i ps
    → p.idx ≢ i
    → NotAmong i (ps ++ p ∷ [])
NotAmong-append i [] p h ne = (ne, tt)
NotAmong-append i (q ∷ ps) p (other, h) ne = (other, NotAmong-append i ps p h ne)

DistinctIdx-append :
    (ps : List Pending) (p : Pending) → DistinctIdx ps → Below p.idx ps → DistinctIdx (ps ++ p ∷ [])
DistinctIdx-append [] p h below = (tt, tt)
DistinctIdx-append (q ∷ ps) p (fresh, h) (lt, below) = (
  NotAmong-append q.idx ps p fresh (λ e. absurd (omega (arith, lt, e))),
  DistinctIdx-append ps p h below,
)

fixup-IsAsm :
    (a : Asm) (word : ℕ) (target : String) (kind : Unresolved)
    → IsAsm a
    → IsAsm (fixup a word target kind)
fixup-IsAsm a word target kind v =
    let len : length (a.code ++ word ∷ []) ≡ length a.code + 1 = length-append a.code (word ∷ []) in
    let p : Pending = record { idx = length a.code; target = target; kind = kind } in
    record {
      at = λ name t h. omega (arith, v.at name t h, len);
      below =
          Below-append _ a.unresolved p
            (Below-le (length a.code) _ a.unresolved (omega (arith, len)) v.below)
            (omega (arith, len));
      apart = DistinctIdx-append a.unresolved p v.apart v.below;
    }

call-IsAsm : (a : Asm) (c : Call) → IsAsm a → IsAsm (call a c)
unfolding call
call-IsAsm a (label name) v = record {
  at = λ other t h. elim (Bool-cases (name == other)) [
    | inl same ↦ (let e : some (length a.code) ≡ some t = rw (same) at h in ground (arith, e))
    | inr differs ↦ v.at other t (rw (differs) at h)
  ];
  below = v.below;
  apart = v.apart;
}
call-IsAsm a (emit word) v = record {
  at = λ name t h. omega (arith, v.at name t h, length-append a.code (word ∷ []));
  below =
      Below-le (length a.code) _ a.unresolved (omega (arith, length-append a.code (word ∷ [])))
        v.below;
  apart = v.apart;
}
call-IsAsm a (jmp_to target) v = fixup-IsAsm a _ target Unresolved.jmp v
call-IsAsm a (beq_to rs1 rs2 target) v = fixup-IsAsm a _ target Unresolved.beq v
call-IsAsm a (bne_to rs1 rs2 target) v = fixup-IsAsm a _ target Unresolved.bne v
call-IsAsm a (li_to rd target) v = fixup-IsAsm a _ target Unresolved.li v

pub calls-IsAsm : (cs : List Call) (a : Asm) → IsAsm a → IsAsm (calls a cs)
unfolding calls
calls-IsAsm [] a v = v
calls-IsAsm (c ∷ cs) a v = calls-IsAsm cs (call a c) (call-IsAsm a c v)

pub new-IsAsm : IsAsm new
new-IsAsm = record { at = λ name t h. absurd (ground (arith, h)); below = tt; apart = tt }

-- Every label that the pending fixups name is defined.
abbrev pub AllDefined : List (String × ℕ) → List Pending → Type 0
AllDefined labels [] = Unit
AllDefined labels (p ∷ ps) = ((t : ℕ) × (get p.target labels ≡ some t)) × AllDefined labels ps

unfoldable pub is_some : Option ℕ → Bool
is_some none = false
is_some (some t) = true

unfoldable pub all_defined : List (String × ℕ) → List Pending → Bool
unfolding is_some
all_defined labels [] = true
all_defined labels (p ∷ ps) = is_some (get p.target labels) && all_defined labels ps

some_of : (o : Option ℕ) → is_some o ≡ true → (t : ℕ) × (o ≡ some t)
unfolding is_some
some_of none h = absurd (ground (arith, h))
some_of (some t) h = (t, refl)

pub all_defined-AllDefined :
    (labels : List (String × ℕ)) (ps : List Pending)
    → all_defined labels ps ≡ true
    → AllDefined labels ps
unfolding all_defined
all_defined-AllDefined labels [] h = tt
all_defined-AllDefined labels (p ∷ ps) h = (
  some_of (get p.target labels) (ground (arith, h)),
  all_defined-AllDefined labels ps (ground (arith, h)),
)

pub resolve_all-some :
    (load : ℕ) (labels : List (String × ℕ)) (ps : List Pending) (code : List ℕ)
    → AllDefined labels ps
    → (code' : List ℕ) × (resolve_all load labels ps code ≡ some code')
unfolding resolve_all
resolve_all-some load labels [] code h = (code, refl)
resolve_all-some load labels (p ∷ ps) code ((t, found), h) =
    rw (found, resolve_all) (resolve_all-some load labels ps _ h)

-- For a program made by any calls of the builder that defines every label it names and ends below 2 ^ 43,
-- `resolve` succeeds. Then each branch goes in the emulator from its own address to that of its label, each `li` loads the
-- label's address, and the opcodes and registers of these words are as they were.
pub resolve-AllFixed :
    (cs : List Call) (load : ℕ)
    → load + length (calls new cs).code * 8 < 2 ^ 43
    → AllDefined (calls new cs).labels (calls new cs).unresolved
    → (a : Asm) × (resolve (calls new cs) load ≡ some a)
      × AllFixed load (calls new cs).labels (calls new cs).code a.code (calls new cs).unresolved
unfolding resolve
resolve-AllFixed cs load fits defined =
    let b = calls new cs in
    let v = calls-IsAsm cs new new-IsAsm in
    let (code, e) = resolve_all-some load b.labels b.unresolved b.code defined in
    (
      record b { code = code },
      rw (e, resolve) refl,
      resolve_all-AllFixed load b.labels b.unresolved b.code code fits v.at v.below v.apart e,
    )
