-- ===== src/Asm/Rendering.antt =====
-- Assembler text written from statements, and `assemble` (mik-asm/src/lib.rs) on it: labels, mnemonics
-- in any case, operands behind any separators, comments and either line end.
use mik_os.Common.{
  ℕ, suc, ◌==◌, Bool, true, false, not, ◌&&◌, Option, none, some, List, [], ◌∷◌, ◌++◌, ◌≡◌, refl,
  ap, sym, ◌∙◌, arith, Bool-cases, inl, inr, get_or, fun_ext, and_left, and_right, not-true,
}
use mik_os.Asm.{Token, ◌>>=◌, Parsers}
use mik_os.Asm.Item.{assemble_items}
use mik_os.Asm.Source.{
  is_separator, is_empty, lines, before_hash, trim, tokens, ends_with_colon, trim_colons, Pass,
  insert_label, directive, take_item, take_tokens, first_pass_line, first_pass, start, assemble,
  first_part, other_parts,
}
use mik_os.Asm.Tokens.{
  all, is_plain, is_gap, is_text, tokens-gap_behind, tokens-gap_before, tokens-token_gap,
  tokens-last, tokens-trim, nil_of_empty, all_mono, all_append, before_hash-append, lines-line_end,
}
use mik_os.Asm.Statements.{
  Code, nothing, instruction, string, Line, code_tokens, line_tokens, spread, comment_text,
  line_text, render, is_token, all_tokens, is_label, is_code, is_comment, IsLine, AllLines,
  more_lines, add_code, add_label, statements,
}

-- What the tests on a line give.
ends_with_colon-label : (name : Token) → ends_with_colon (name ++ b':' ∷ []) ≡ true
unfolding ends_with_colon
ends_with_colon-label [] = refl
ends_with_colon-label (c ∷ []) = refl
ends_with_colon-label (c ∷ d ∷ ds) = ends_with_colon-label (d ∷ ds)

trim_colons_step :
    (c : ℕ) (cs : List ℕ) (d : ℕ) (ds : List ℕ)
    → trim_colons cs ≡ d ∷ ds
    → trim_colons (c ∷ cs) ≡ c ∷ d ∷ ds
unfolding trim_colons
trim_colons_step c cs d ds h = rw h (ground arith)

trim_colons-label :
    (name : Token) → ends_with_colon name ≡ false → trim_colons (name ++ b':' ∷ []) ≡ name
unfolding ends_with_colon trim_colons
trim_colons-label [] h = refl
trim_colons-label (c ∷ []) h = rw h refl
trim_colons-label (c ∷ d ∷ ds) h =
    trim_colons_step c ((d ∷ ds) ++ b':' ∷ []) d ds (trim_colons-label (d ∷ ds) h)

gap_separator : (c : ℕ) → is_gap c ≡ true → is_separator c ≡ true
gap_separator c = and_left (is_separator c) _

gap_text : (c : ℕ) → is_gap c ≡ true → is_text c ≡ true
gap_text c = and_right (is_separator c) _

gap_not_hash : (c : ℕ) → is_gap c ≡ true → not (c == b'#') ≡ true
gap_not_hash c h = ground (arith, gap_separator c h)

plain_not_hash : (c : ℕ) → is_plain c ≡ true → not (c == b'#') ≡ true
plain_not_hash c = and_right (not (is_separator c)) _

plain_text : (c : ℕ) → is_plain c ≡ true → is_text c ≡ true
plain_text c h = ground (arith, and_left (not (is_separator c)) _ h)

spread-all :
    (test : ℕ → Bool) (gap : ℕ → List ℕ) (toks : List Token)
    → ((c : ℕ) → is_gap c ≡ true → test c ≡ true)
    → ((c : ℕ) → is_plain c ≡ true → test c ≡ true)
    → ((i : ℕ) → all is_gap (gap i) ≡ true)
    → all_tokens toks ≡ true
    → all test (spread gap toks) ≡ true
unfolding spread
spread-all test gap [] of_gap of_plain g h = refl
spread-all test gap (tok ∷ toks) of_gap of_plain g h =
    all_append test (gap 0) _ (all_mono is_gap test of_gap (gap 0) (g 0)) (
      all_append test tok _
        (all_mono is_plain test of_plain tok
          (and_left (all is_plain tok) _ (and_left (is_token tok) _ h)))
        (spread-all test (λ i. gap (suc i)) toks of_gap of_plain (λ i. g (suc i))
          (and_right (is_token tok) _ h)))

token_plain : (tok : Token) → is_token tok ≡ true → all is_plain tok ≡ true
token_plain tok = and_left (all is_plain tok) _

token_full : (tok : Token) → is_token tok ≡ true → is_empty tok ≡ false
token_full tok h = not-true (is_empty tok) (and_right (all is_plain tok) _ h)

spread-tokens :
    (gap : ℕ → List ℕ) (toks : List Token)
    → ((i : ℕ) → all is_gap (gap i) ≡ true)
    → ((i : ℕ) → is_empty (gap (suc i)) ≡ false)
    → all_tokens toks ≡ true
    → tokens (spread gap toks) ≡ toks
unfolding spread first_part other_parts
spread-tokens gap [] g n h = refl
spread-tokens gap (tok ∷ []) g n h =
    let token = and_left (is_token tok) true h in
    tokens-gap_before (gap 0) (tok ++ []) (all_mono is_gap is_separator gap_separator (gap 0) (g 0))
    ∙ tokens-gap_behind tok [] refl
    ∙ tokens-last tok (token_plain tok token) (token_full tok token)
spread-tokens gap (tok ∷ next ∷ toks) g n h =
    let token = and_left (is_token tok) _ h in
    let separators = λ (i : ℕ). all_mono is_gap is_separator gap_separator (gap i) (g i) in
    tokens-gap_before (gap 0) _ (separators 0)
    ∙ tokens-token_gap tok (gap 1) _ (token_plain tok token) (token_full tok token) (separators 1)
        (n 0)
    ∙ ap (λ t. tok ∷ t)
        (sym (tokens-gap_before (gap 1) _ (separators 1))
          ∙ spread-tokens (λ i. gap (suc i)) (next ∷ toks) (λ i. g (suc i)) (λ i. n (suc i))
              (and_right (is_token tok) _ h))

label_plain : (name : Token) → all is_plain name ≡ true → is_token (name ++ b':' ∷ []) ≡ true
label_plain name h = rw (all_append is_plain name (b':' ∷ []) h refl, empty-append name) refl
  where
    empty-append : (xs : Token) → is_empty (xs ++ b':' ∷ []) ≡ false
    empty-append [] = refl
    empty-append (x ∷ xs) = refl

code_tokens-all : (code : Code) → is_code code ≡ true → all_tokens (code_tokens code) ≡ true
code_tokens-all nothing h = refl
code_tokens-all (instruction op args) h =
    and_right (not (ends_with_colon op) && not (get_or op 0 0 == b'.')) _ h
code_tokens-all (string words) h = and_right (not (is_empty words)) _ h

line_tokens-all :
    (label : Option Token) (code : Code)
    → is_label label ≡ true
    → is_code code ≡ true
    → all_tokens (line_tokens label code) ≡ true
line_tokens-all none code h k = code_tokens-all code k
line_tokens-all (some name) code h k =
    rw (label_plain name (and_left (all is_plain name) _ h)) (code_tokens-all code k)

front-all :
    (l : Line) (test : ℕ → Bool)
    → IsLine l
    → ((c : ℕ) → is_gap c ≡ true → test c ≡ true)
    → ((c : ℕ) → is_plain c ≡ true → test c ≡ true)
    → all test (spread l.gap (line_tokens l.label l.code) ++ l.trailing) ≡ true
front-all l test h of_gap of_plain =
    all_append test (spread l.gap (line_tokens l.label l.code)) l.trailing
      (spread-all test l.gap _ of_gap of_plain h.gaps
        (line_tokens-all l.label l.code h.label_ok h.code_ok))
      (all_mono is_gap test of_gap l.trailing h.trailing_ok)

comment-before_hash : (comment : Option (List ℕ)) → before_hash (comment_text comment) ≡ []
unfolding before_hash
comment-before_hash none = refl
comment-before_hash (some text) = refl

comment-text :
    (comment : Option (List ℕ))
    → is_comment comment ≡ true
    → all is_text (comment_text comment) ≡ true
comment-text none h = refl
comment-text (some text) h = h

line_text-tokens :
    (l : Line) → IsLine l → tokens (before_hash (line_text l)) ≡ line_tokens l.label l.code
unfolding line_text
line_text-tokens l h =
    let front = spread l.gap (line_tokens l.label l.code) in
    ap tokens (
      before_hash-append (front ++ l.trailing) (comment_text l.comment)
        (front-all l (λ c. not (c == b'#')) h gap_not_hash plain_not_hash))
    ∙ ap (λ t. tokens ((front ++ l.trailing) ++ t)) (comment-before_hash l.comment)
    ∙ tokens-gap_behind (front ++ l.trailing) [] refl
    ∙ tokens-gap_behind front l.trailing
        (all_mono is_gap is_separator gap_separator l.trailing h.trailing_ok)
    ∙ spread-tokens l.gap _ h.gaps h.apart (line_tokens-all l.label l.code h.label_ok h.code_ok)

line_text-all : (l : Line) → IsLine l → all is_text (line_text l) ≡ true
unfolding line_text
line_text-all l h =
    all_append is_text (spread l.gap (line_tokens l.label l.code) ++ l.trailing)
      (comment_text l.comment) (front-all l is_text h gap_text plain_text)
      (comment-text l.comment h.comment_ok)

-- The tokens of a line are what it says.
take_item-code :
    (p : Pass) (code : Code)
    → is_code code ≡ true
    → take_item p (code_tokens code) ≡ add_code p code
unfolding take_item add_code directive
take_item-code p nothing h = refl
take_item-code p (instruction op args) h =
    rw
      (not-true (get_or op 0 0 == b'.') (
        and_right (not (ends_with_colon op)) _
          (and_left (not (ends_with_colon op) && not (get_or op 0 0 == b'.')) _ h)))
      refl
take_item-code p (string words) h =
    rw (not-true (is_empty words) (and_left (not (is_empty words)) _ h)) refl

take_tokens-line :
    (p : Pass) (label : Option Token) (code : Code)
    → is_label label ≡ true
    → is_code code ≡ true
    → take_tokens p (line_tokens label code) ≡ add_code (add_label p label) code
unfolding take_tokens add_code ends_with_colon
take_tokens-line p (some name) code h k =
    rw
      (
        ends_with_colon-label name,
        trim_colons-label name
            (not-true (ends_with_colon name) (and_right (all is_plain name) _ h)),
      )
      (take_item-code (insert_label p name) code k)
take_tokens-line p none nothing h k = refl
take_tokens-line p none (instruction op args) h k =
    rw
      (not-true (ends_with_colon op) (
        and_left (not (ends_with_colon op)) _
          (and_left (not (ends_with_colon op) && not (get_or op 0 0 == b'.')) _ k)))
      (take_item-code p (instruction op args) k)
take_tokens-line p none (string words) h k = take_item-code p (string words) k

first_pass_line_lem :
    (p : Pass) (line : List ℕ) → first_pass_line p line ≡ take_tokens p (tokens (before_hash line))
unfolding first_pass_line take_tokens first_part other_parts
first_pass_line_lem p line = elim (Bool-cases (is_empty (trim (before_hash line)))) [
  | inl holds ↦ rw holds (
      sym (
        ap (take_tokens p) (
          sym (tokens-trim (before_hash line))
          ∙ ap tokens (nil_of_empty (trim (before_hash line)) holds))))
  | inr fails ↦ rw fails (ap (take_tokens p) (tokens-trim (before_hash line)))
]

first_pass-render :
    (p : Pass) (ls : List Line) → AllLines ls → first_pass p (lines (render ls)) ≡ statements p ls
unfolding first_pass render statements lines
first_pass-render p [] h = refl
first_pass-render p (l ∷ ls) (more_lines h rest) =
    ap (first_pass p) (lines-line_end (line_text l) l.crlf (render ls) (line_text-all l h))
    ∙ ap (λ r. r >>= λ next. first_pass next (lines (render ls)))
        (first_pass_line_lem p (line_text l)
          ∙ ap (take_tokens p) (line_text-tokens l h)
          ∙ take_tokens-line p l.label l.code h.label_ok h.code_ok)
    ∙ ap (λ f. add_code (add_label p l.label) l.code >>= f)
        (fun_ext λ next. first_pass-render next ls rest)

-- Lines of labels, instructions and strings, written with any separators between the tokens and any
-- comments behind them, are assembled as the items and the labels that they say.
pub assemble-render :
    (std : Parsers) (ls : List Line) (base : ℕ)
    → AllLines ls
    → assemble std (render ls) base
      ≡ (statements start ls >>= λ p. assemble_items std base p.items p.labels)
unfolding assemble
assemble-render std ls base h = rw (first_pass-render start ls h) refl
