-- ===== src/Asm/Source.antt =====
-- The first pass of `assemble` (mik-asm/src/lib.rs): the source text to items and labels. The text is
-- ASCII, a list of bytes; white space and lower case are those of ASCII characters.
use mik_os.Common.{
  ℕ, ◌==◌, leb, if◌then◌else◌, Bool, true, false, ◌&&◌, ◌||◌, List, [], ◌∷◌, ◌++◌, map, length,
  bytes_eq, get_or,
}
use mik_os.Asm.{Token, Result, ok, err, ◌>>=◌, Parsers, to_ascii_lowercase}
use mik_os.Asm.Item.{Item, ins, data_bytes, parse_string, assemble_items}

-- `char::is_whitespace`
abbrev pub is_whitespace : ℕ → Bool
is_whitespace c = c == 32 || (leb 9 c && leb c 13)

-- What stands between two tokens.
abbrev pub is_separator : ℕ → Bool
is_separator c = is_whitespace c || c == b','

abbrev pub is_empty {ℓ} : {A : Type ℓ} → List A → Bool
is_empty [] = true
is_empty (x ∷ xs) = false

abbrev pub cons_head : ℕ → List (List ℕ) → List (List ℕ)
cons_head c [] = (c ∷ []) ∷ []
cons_head c (line ∷ rest) = (c ∷ line) ∷ rest

-- `str::lines`: a line ends at a newline, or at a carriage return and a newline, and a newline at the
-- end of the text begins no line.
unfoldable pub lines : List ℕ → List (List ℕ)
lines [] = []
lines (c ∷ []) = if c == 10 then [] ∷ [] else (c ∷ []) ∷ []
lines (c ∷ d ∷ ds) =
    let rest = lines (d ∷ ds) in
    if c == 10 then [] ∷ rest else if c == 13 && d == 10 then rest else cons_head c rest

-- `line.split('#').next()`
unfoldable pub before_hash : List ℕ → List ℕ
before_hash [] = []
before_hash (c ∷ cs) = let rest = before_hash cs in if c == b'#' then [] else c ∷ rest

-- `str::trim`
unfoldable pub trim_start : List ℕ → List ℕ
trim_start [] = []
trim_start (c ∷ cs) = let rest = trim_start cs in if is_whitespace c then rest else c ∷ cs

unfoldable pub trim_end : List ℕ → List ℕ
trim_end [] = []
trim_end (c ∷ cs) =
    let rest = trim_end cs in if is_whitespace c && is_empty rest then [] else c ∷ rest

abbrev pub trim : List ℕ → List ℕ
trim text = trim_end (trim_start text)

-- `str::split` at the separators: the first part, and the others.
unfoldable pub first_part : List ℕ → Token
first_part [] = []
first_part (c ∷ cs) = let rest = first_part cs in if is_separator c then [] else c ∷ rest

unfoldable pub other_parts : List ℕ → List Token
other_parts [] = []
other_parts (c ∷ cs) =
    let rest = other_parts cs in if is_separator c then first_part cs ∷ rest else rest

-- `filter(|s| !s.is_empty())`
abbrev pub nonempty : List Token → List Token
nonempty [] = []
nonempty (tok ∷ toks) = if is_empty tok then nonempty toks else tok ∷ nonempty toks

abbrev pub tokens : List ℕ → List Token
tokens line = nonempty (first_part line ∷ other_parts line)

-- `ends_with(':')` and `trim_end_matches(':')`
unfoldable pub ends_with_colon : Token → Bool
ends_with_colon [] = false
ends_with_colon (c ∷ []) = c == b':'
ends_with_colon (c ∷ d ∷ ds) = ends_with_colon (d ∷ ds)

unfoldable pub trim_colons : Token → Token
trim_colons [] = []
trim_colons (c ∷ cs) =
    let rest = trim_colons cs in if c == b':' && is_empty rest then [] else c ∷ rest

-- `[&str]::join(" ")`
unfoldable pub join : List Token → List ℕ
join [] = []
join (tok ∷ []) = tok
join (tok ∷ next ∷ toks) = tok ++ 32 ∷ join (next ∷ toks)

-- The state of the pass: the items so far, and the labels with the number of the item behind each, the
-- last one inserted in front. A label that is inserted again is looked up as the later one.
pub record Pass : Type 0 where
  pub items : List Item
  pub labels : List (Token × ℕ)

unfoldable pub insert_label : Pass → Token → Pass
insert_label p name = record { items = p.items; labels = (name, length p.items) ∷ p.labels }

unfoldable pub push : Pass → Item → Pass
push p item = record { items = p.items ++ item ∷ []; labels = p.labels }

abbrev pub string_word : Token
string_word = b'.' ∷ b's' ∷ b't' ∷ b'r' ∷ b'i' ∷ b'n' ∷ b'g' ∷ []

-- A directive, of which `.string` is the only one.
unfoldable pub directive : Pass → Token → List Token → Result Pass
directive p name args =
    if bytes_eq name string_word
    then (if is_empty args
        then err
        else parse_string (trim (join args)) >>= λ bytes. ok (push p (data_bytes bytes)))
    else err

-- The tokens of a line behind its label.
unfoldable pub take_item : Pass → List Token → Result Pass
take_item p [] = ok p
take_item p (name ∷ args) =
    if get_or name 0 0 == b'.'
    then directive p name args
    else ok (push p (ins (map to_ascii_lowercase name) args))

-- The tokens of a line.
unfoldable pub take_tokens : Pass → List Token → Result Pass
take_tokens p [] = ok p
take_tokens p (first ∷ rest) =
    if ends_with_colon first
    then take_item (insert_label p (trim_colons first)) rest
    else take_item p (first ∷ rest)

-- The loop's body.
unfoldable pub first_pass_line : Pass → List ℕ → Result Pass
first_pass_line p line =
    let text = trim (before_hash line) in
    if is_empty text then ok p else take_tokens p (tokens text)

-- The loop.
unfoldable pub first_pass : Pass → List (List ℕ) → Result Pass
first_pass p [] = ok p
first_pass p (line ∷ rest) = first_pass_line p line >>= λ next. first_pass next rest

abbrev pub start : Pass
start = record { items = []; labels = [] }

unfoldable pub assemble : Parsers → List ℕ → ℕ → Result (List ℕ)
assemble std source base =
    first_pass start (lines source) >>= λ p. assemble_items std base p.items p.labels
