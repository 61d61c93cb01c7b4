-- ===== src/Asm/Statements.antt =====
-- Assembler text as statements: the lines of a source for `assemble` (mik-asm/src/lib.rs), how they
-- are written, and what they mean.
use mik_os.Common.{
  ℕ, suc, ◌==◌, Bool, true, false, not, ◌&&◌, Option, none, some, List, [], ◌∷◌, ◌++◌, map, ◌≡◌,
  get_or,
}
use mik_os.Asm.{Token, Result, ok, ◌>>=◌, to_ascii_lowercase}
use mik_os.Asm.Item.{ins, data_bytes, parse_string}
use mik_os.Asm.Source.{is_empty, trim, ends_with_colon, join, Pass, insert_label, push, string_word}
use mik_os.Asm.Tokens.{all, is_plain, is_gap, is_text, line_end}

-- What a line says: nothing, an instruction, or `.string` and the words of its literal.
pub data Code : Type 0 where
  nothing : Code
  instruction : Token → List Token → Code
  string : List Token → Code

-- A line: `gap i` is what stands in front of the token number `i`.
pub record Line : Type 0 where
  pub label : Option Token
  pub code : Code
  pub gap : ℕ → List ℕ
  pub trailing : List ℕ
  pub comment : Option (List ℕ)
  pub crlf : Bool

abbrev pub code_tokens : Code → List Token
code_tokens nothing = []
code_tokens (instruction op args) = op ∷ args
code_tokens (string words) = string_word ∷ words

abbrev pub line_tokens : Option Token → Code → List Token
line_tokens none code = code_tokens code
line_tokens (some name) code = (name ++ b':' ∷ []) ∷ code_tokens code

unfoldable pub spread : (ℕ → List ℕ) → List Token → List ℕ
spread gap [] = []
spread gap (tok ∷ toks) = gap 0 ++ (tok ++ spread (λ i. gap (suc i)) toks)

abbrev pub comment_text : Option (List ℕ) → List ℕ
comment_text none = []
comment_text (some text) = b'#' ∷ text

unfoldable pub line_text : Line → List ℕ
line_text l = (spread l.gap (line_tokens l.label l.code) ++ l.trailing) ++ comment_text l.comment

unfoldable pub render : List Line → List ℕ
render [] = []
render (l ∷ ls) = line_text l ++ (line_end l.crlf ++ render ls)

-- The lines that can be written.
abbrev pub is_token : Token → Bool
is_token tok = all is_plain tok && not (is_empty tok)

abbrev pub all_tokens : List Token → Bool
all_tokens [] = true
all_tokens (tok ∷ toks) = is_token tok && all_tokens toks

abbrev pub is_label : Option Token → Bool
is_label none = true
is_label (some name) = all is_plain name && not (ends_with_colon name)

abbrev pub is_code : Code → Bool
is_code nothing = true
is_code (instruction op args) =
    (not (ends_with_colon op) && not (get_or op 0 0 == b'.')) && all_tokens (op ∷ args)
is_code (string words) = not (is_empty words) && all_tokens words

abbrev pub is_comment : Option (List ℕ) → Bool
is_comment none = true
is_comment (some text) = all is_text text

pub record IsLine (l : Line) : Type 0 where
  pub label_ok : is_label l.label ≡ true
  pub code_ok : is_code l.code ≡ true
  pub gaps : (i : ℕ) → all is_gap (l.gap i) ≡ true
  pub apart : (i : ℕ) → is_empty (l.gap (suc i)) ≡ false
  pub trailing_ok : all is_gap l.trailing ≡ true
  pub comment_ok : is_comment l.comment ≡ true

pub data AllLines : List Line → Type 0 where
  no_lines : AllLines []
  more_lines : {l : Line} {ls : List Line} → IsLine l → AllLines ls → AllLines (l ∷ ls)

-- What they mean.
unfoldable pub add_code : Pass → Code → Result Pass
add_code p nothing = ok p
add_code p (instruction op args) = ok (push p (ins (map to_ascii_lowercase op) args))
add_code p (string words) =
    parse_string (trim (join words)) >>= λ bytes. ok (push p (data_bytes bytes))

abbrev pub add_label : Pass → Option Token → Pass
add_label p none = p
add_label p (some name) = insert_label p name

unfoldable pub statements : Pass → List Line → Result Pass
statements p [] = ok p
statements p (l ∷ ls) = add_code (add_label p l.label) l.code >>= λ next. statements next ls
