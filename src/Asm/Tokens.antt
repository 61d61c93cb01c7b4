-- ===== src/Asm/Tokens.antt =====
-- How the tokenizer of mik-asm/src/lib.rs reads text that is put together from tokens and gaps.
use mik_os.Common.{
  ℕ, ◌==◌, Bool, true, false, not, ◌&&◌, List, [], ◌∷◌, ◌++◌, ◌≡◌, refl, ap, sym, ◌∙◌, arith,
  Bool-cases, inl, inr,
}
use mik_os.Asm.{Token}
use mik_os.Asm.Source.{
  is_whitespace, is_separator, is_empty, cons_head, lines, before_hash, trim_start, trim_end, trim,
  first_part, other_parts, nonempty, tokens,
}

-- `for all` of a test.
abbrev pub all : (ℕ → Bool) → List ℕ → Bool
all test [] = true
all test (c ∷ cs) = test c && all test cs

-- A byte of a token, and of a gap.
abbrev pub is_plain : ℕ → Bool
is_plain c = not (is_separator c) && not (c == b'#')

abbrev pub is_gap : ℕ → Bool
is_gap c = is_separator c && (not (c == 10) && not (c == 13))

pub all_head : (test : ℕ → Bool) (c : ℕ) (cs : List ℕ) → all test (c ∷ cs) ≡ true → test c ≡ true
all_head test c cs h = elim (Bool-cases (test c)) [
  | inl holds ↦ holds
  | inr fails ↦ absurd (let e : false ≡ true = rw fails at h in ground (arith, e))
]

pub all_tail :
    (test : ℕ → Bool) (c : ℕ) (cs : List ℕ) → all test (c ∷ cs) ≡ true → all test cs ≡ true
all_tail test c cs h = rw (all_head test c cs h) at h

pub all_append :
    (test : ℕ → Bool) (xs ys : List ℕ)
    → all test xs ≡ true
    → all test ys ≡ true
    → all test (xs ++ ys) ≡ true
all_append test [] ys h k = k
all_append test (x ∷ xs) ys h k =
    rw (all_head test x xs h) (all_append test xs ys (all_tail test x xs h) k)

pub all_mono :
    (test test' : ℕ → Bool)
    → ((c : ℕ) → test c ≡ true → test' c ≡ true)
    → (xs : List ℕ) → all test xs ≡ true
    → all test' xs ≡ true
all_mono test test' sub [] h = refl
all_mono test test' sub (x ∷ xs) h =
    rw (sub x (all_head test x xs h)) (all_mono test test' sub xs (all_tail test x xs h))

-- A gap behind the text.
first_part-gap :
    (xs gap : List ℕ) → all is_separator gap ≡ true → first_part (xs ++ gap) ≡ first_part xs
unfolding first_part
first_part-gap [] [] h = refl
first_part-gap [] (g ∷ gs) h = rw (all_head is_separator g gs h) refl
first_part-gap (x ∷ xs) gap h = rw (first_part-gap xs gap h) refl

parts-gap : (gap : List ℕ) → all is_separator gap ≡ true → nonempty (other_parts gap) ≡ []
unfolding other_parts first_part
parts-gap [] h = refl
parts-gap (g ∷ gs) h =
    rw (all_head is_separator g gs h, first_part-gap [] gs (all_tail is_separator g gs h))
      (parts-gap gs (all_tail is_separator g gs h))

other_parts-gap :
    (xs gap : List ℕ)
    → all is_separator gap ≡ true
    → nonempty (other_parts (xs ++ gap)) ≡ nonempty (other_parts xs)
unfolding other_parts
other_parts-gap [] gap h = parts-gap gap h
other_parts-gap (x ∷ xs) gap h = elim (Bool-cases (is_separator x)) [
  | inl holds ↦ rw (holds, first_part-gap xs gap h, other_parts-gap xs gap h) refl
  | inr fails ↦ rw fails (other_parts-gap xs gap h)
]

pub tokens-gap_behind :
    (xs gap : List ℕ) → all is_separator gap ≡ true → tokens (xs ++ gap) ≡ tokens xs
tokens-gap_behind xs gap h = rw (first_part-gap xs gap h, other_parts-gap xs gap h) refl

-- A gap in front of it.
pub tokens-gap_before :
    (gap xs : List ℕ) → all is_separator gap ≡ true → tokens (gap ++ xs) ≡ tokens xs
unfolding first_part other_parts
tokens-gap_before [] xs h = refl
tokens-gap_before (g ∷ gs) xs h =
    rw (all_head is_separator g gs h) (tokens-gap_before gs xs (all_tail is_separator g gs h))

-- A token, and a separator behind it.
plain_separator : (c : ℕ) → is_plain c ≡ true → is_separator c ≡ false
plain_separator c h = elim (Bool-cases (is_separator c)) [
  | inl holds ↦ absurd (let e : false ≡ true = rw holds at h in ground (arith, e))
  | inr fails ↦ fails
]

first_part-token :
    (tok : Token) (sep : ℕ) (rest : List ℕ)
    → all is_plain tok ≡ true
    → is_separator sep ≡ true
    → first_part (tok ++ sep ∷ rest) ≡ tok
unfolding first_part
first_part-token [] sep rest h k = rw k refl
first_part-token (c ∷ cs) sep rest h k =
    rw
      (
        plain_separator c (all_head is_plain c cs h),
        first_part-token cs sep rest (all_tail is_plain c cs h) k,
      )
      refl

other_parts-token :
    (tok : Token) (sep : ℕ) (rest : List ℕ)
    → all is_plain tok ≡ true
    → is_separator sep ≡ true
    → other_parts (tok ++ sep ∷ rest) ≡ first_part rest ∷ other_parts rest
unfolding other_parts
other_parts-token [] sep rest h k = rw k refl
other_parts-token (c ∷ cs) sep rest h k =
    rw (plain_separator c (all_head is_plain c cs h))
      (other_parts-token cs sep rest (all_tail is_plain c cs h) k)

pub tokens-token :
    (tok : Token) (sep : ℕ) (rest : List ℕ)
    → all is_plain tok ≡ true
    → is_empty tok ≡ false
    → is_separator sep ≡ true
    → tokens (tok ++ sep ∷ rest) ≡ tok ∷ tokens rest
tokens-token tok sep rest h full k =
    rw (first_part-token tok sep rest h k, other_parts-token tok sep rest h k, full) refl

-- A token at the end of the text.
pub tokens-last :
    (tok : Token) → all is_plain tok ≡ true → is_empty tok ≡ false → tokens tok ≡ tok ∷ []
unfolding first_part other_parts
tokens-last tok h full =
    sym (tokens-gap_behind tok (32 ∷ []) refl) ∙ tokens-token tok 32 [] h full refl

pub tokens-token_gap :
    (tok : Token) (gap rest : List ℕ)
    → all is_plain tok ≡ true
    → is_empty tok ≡ false
    → all is_separator gap ≡ true
    → is_empty gap ≡ false
    → tokens (tok ++ (gap ++ rest)) ≡ tok ∷ tokens rest
tokens-token_gap tok [] rest h full k apart = absurd (ground (arith, apart))
tokens-token_gap tok (g ∷ gs) rest h full k apart =
    tokens-token tok g (gs ++ rest) h full (all_head is_separator g gs k)
    ∙ ap (λ t. tok ∷ t) (tokens-gap_before gs rest (all_tail is_separator g gs k))

-- Trimming.
trim_start-tokens : (text : List ℕ) → tokens (trim_start text) ≡ tokens text
unfolding trim_start
trim_start-tokens [] = refl
trim_start-tokens (c ∷ cs) = elim (Bool-cases (is_whitespace c)) [
  | inl holds ↦
      rw holds (trim_start-tokens cs ∙ sym (tokens-gap_before (c ∷ []) cs (rw holds refl)))
  | inr fails ↦ rw fails refl
]

pub nil_of_empty : (xs : List ℕ) → is_empty xs ≡ true → xs ≡ []
nil_of_empty [] h = refl
nil_of_empty (x ∷ xs) h = absurd (ground (arith, h))

trim_end-split :
    (text : List ℕ) → (gap : List ℕ) × (all is_separator gap ≡ true) × (text ≡ trim_end text ++ gap)
unfolding trim_end
trim_end-split [] = ([], refl, refl)
trim_end-split (c ∷ cs) =
    let rec = trim_end-split cs in
    elim (Bool-cases (is_whitespace c)) [
      | inr fails ↦ (rec.0, rec.1, rw fails (ap (λ t. c ∷ t) rec.2))
      | inl white ↦ elim (Bool-cases (is_empty (trim_end cs))) [
        | inl holds ↦ (
          c ∷ rec.0,
          rw (white, rec.1) refl,
          rw (white, holds)
              (ap (λ t. c ∷ t) (rec.2 ∙ ap (λ t. t ++ rec.0) (nil_of_empty (trim_end cs) holds))),
        )
        | inr fails ↦ (rec.0, rec.1, rw (white, fails) (ap (λ t. c ∷ t) rec.2))
      ]
    ]

pub tokens-trim : (text : List ℕ) → tokens (trim text) ≡ tokens text
tokens-trim text =
    let split = trim_end-split (trim_start text) in
    sym (tokens-gap_behind (trim text) split.0 split.1)
    ∙ ap tokens (sym split.2)
    ∙ trim_start-tokens text

-- A comment.
pub before_hash-append :
    (xs ys : List ℕ)
    → all (λ c. not (c == b'#')) xs ≡ true
    → before_hash (xs ++ ys) ≡ xs ++ before_hash ys
unfolding before_hash
before_hash-append [] ys h = refl
before_hash-append (c ∷ cs) ys h = elim (Bool-cases (c == b'#')) [
  | inl hash ↦ absurd (let e : false ≡ true = rw hash at h in ground (arith, e))
  | inr other ↦
      rw other (ap (λ t. c ∷ t) (before_hash-append cs ys (let e : _ = rw other at h in e)))
]

lines_step :
    (c : ℕ) (cs : List ℕ)
    → (c == 10) ≡ false
    → (c == 13) ≡ false
    → lines (c ∷ cs) ≡ cons_head c (lines cs)
unfolding lines
lines_step c [] h k = rw h refl
lines_step c (d ∷ ds) h k = rw (h, k) refl

-- A line, and its end behind it: a newline, or a carriage return and a newline.
abbrev pub is_text : ℕ → Bool
is_text c = not (c == 10) && not (c == 13)

abbrev pub line_end : Bool → List ℕ
line_end false = 10 ∷ []
line_end true = 13 ∷ 10 ∷ []

pub lines-line_end :
    (xs : List ℕ) (crlf : Bool) (rest : List ℕ)
    → all is_text xs ≡ true
    → lines (xs ++ (line_end crlf ++ rest)) ≡ xs ∷ lines rest
unfolding lines
lines-line_end [] false [] h = refl
lines-line_end [] false (r ∷ rs) h = refl
lines-line_end [] true [] h = refl
lines-line_end [] true (r ∷ rs) h = refl
lines-line_end (c ∷ cs) crlf rest h =
    let here = all_head is_text c cs h in
    let newline : (c == 10) ≡ false = ground (arith, here) in
    let return : (c == 13) ≡ false = ground (arith, here) in
    lines_step c (cs ++ (line_end crlf ++ rest)) newline return
    ∙ ap (cons_head c) (lines-line_end cs crlf rest (all_tail is_text c cs h))
