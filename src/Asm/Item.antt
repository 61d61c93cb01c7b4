-- ===== src/Asm/Item.antt =====
-- The layout and the second pass of `assemble` (mik-asm/src/lib.rs), and `.string` literals.
use mik_os.Common.{
  ℕ, suc, ◌+◌, ◌-◌, ◌≡◌, refl, ap, sym, ◌∙◌, arith, ◌==◌, if◌then◌else◌, true, false, ◌&&◌, none,
  some, List, [], ◌∷◌, ◌++◌, length, get_or, get_elem?, take, drop, to_le_bytes, length-append,
  take-append, drop-append, ap₂, not, bytes_eq, Bool-cases, inl, inr,
}
use mik_os.Asm.{
  Token, Result, ok, err, panic, ◌>>=◌, >>=-ok, Labels, Parsers, escaped, encode_instruction,
}

pub data Item : Type 0 where
  ins : Token → List Token → Item
  data_bytes : List ℕ → Item

unfoldable pub size : Item → ℕ
size (ins op args) = 8
size (data_bytes bs) = length bs

-- What items take up.
abbrev pub total : List Item → ℕ
total [] = 0
total (item ∷ items) = size item + total items

-- The address of every item.
unfoldable pub item_addrs : ℕ → List Item → List ℕ
item_addrs addr [] = []
item_addrs addr (item ∷ items) = addr ∷ item_addrs (addr + size item) items

-- Each label's index as its address. The list of the addresses is read out of range for a label that
-- no item follows.
unfoldable pub resolve : List ℕ → List (Token × ℕ) → Result Labels
resolve addrs [] = ok (λ _. none)
resolve addrs ((name, idx) ∷ labels) = elim (get_elem? addrs idx) [
  | none ↦ panic
  | some addr ↦ resolve addrs labels >>= λ others.
      ok (λ tok. if bytes_eq tok name then some addr else others tok)
]

-- The bytes between the quotes.
unfoldable pub unescape : List ℕ → Result (List ℕ)
unescape [] = ok []
unescape (b ∷ []) = if b == b'\\' then err else ok (b ∷ [])
unescape (b ∷ c ∷ cs) = elim (b == b'\\') [
  | true ↦ unescape cs >>= λ rest. ok ((elim (escaped c) [ none ↦ c | some d ↦ d ]) ∷ rest)
  | false ↦ unescape (c ∷ cs) >>= λ rest. ok (b ∷ rest)
]

-- `parse_string`, behind its `trim`. A single quote mark passes both tests, and is then cut short.
unfoldable pub parse_string : List ℕ → Result (List ℕ)
parse_string trimmed =
    if not (get_or trimmed 0 0 == b'"' && get_or trimmed (length trimmed - 1) 0 == b'"')
    then err
    else if length trimmed == 1
    then panic
    else unescape (take (length trimmed - 2) (drop 1 trimmed)) >>= λ out. ok (out ++ 0 ∷ [])

-- How a string is written: a backslash and a newline are escaped.
abbrev pub escape : List ℕ → List ℕ
escape [] = []
escape (c ∷ cs) =
    if c == b'\\'
    then b'\\' ∷ b'\\' ∷ escape cs
    else if c == 10
    then b'\\' ∷ b'n' ∷ escape cs
    else c ∷ escape cs

unescape-plain :
    (c : ℕ) (cs : List ℕ)
    → (c == b'\\') ≡ false
    → unescape (c ∷ cs) ≡ (unescape cs >>= λ rest. ok (c ∷ rest))
unfolding unescape
unescape-plain c [] h = rw h refl
unescape-plain c (d ∷ ds) h = rw (h, unescape) refl

-- The bytes of a string are those it was written for.
pub unescape-escape : (cs : List ℕ) → unescape (escape cs) ≡ ok cs
unfolding unescape escaped
unescape-escape [] = refl
unescape-escape (c ∷ cs) = elim (Bool-cases (c == b'\\')) [
  | inl slash ↦
      (let e : b'\\' ≡ c = ground arith in rw (slash, unescape-escape cs) (ap (λ t. ok (t ∷ cs)) e))
  | inr other ↦ elim (Bool-cases (c == 10)) [
    | inl newline ↦
        (let e : 10 ≡ c = ground arith in
          rw (other, newline, unescape-escape cs) (ap (λ t. ok (t ∷ cs)) e))
    | inr plain ↦ rw (other, plain, unescape-plain c (escape cs) other, unescape-escape cs) refl
  ]
]

ok_inj : {A : Type 0} {a b : A} → ok a ≡ ok b → a ≡ b
ok_inj h = ground (arith, h)

module _ (std : Parsers) where
  -- One item of the second pass.
  unfoldable pub emit_item : Labels → ℕ → Item → Result (List ℕ)
  emit_item labels addr (ins op args) =
      encode_instruction std op args labels addr >>= λ word. ok (to_le_bytes 8 word)
  emit_item labels addr (data_bytes bs) = ok bs

  unfoldable pub emit : Labels → List Item → List ℕ → Result (List ℕ)
  emit labels (item ∷ items) (addr ∷ addrs) =
      emit_item labels addr item >>= λ bytes. emit labels items addrs >>= λ rest. ok (bytes ++ rest)
  emit labels items addrs = ok []

  -- `assemble` behind its first pass.
  unfoldable pub assemble_items : ℕ → List Item → List (Token × ℕ) → Result (List ℕ)
  assemble_items base items labels =
      let addrs = item_addrs base items in
      resolve addrs labels >>= λ label_addrs. emit label_addrs items addrs

  emit_item-length :
      (labels : Labels) (addr : ℕ) (item : Item) (bytes : List ℕ)
      → emit_item labels addr item ≡ ok bytes
      → length bytes ≡ size item
  unfolding emit_item size
  emit_item-length labels addr (data_bytes bs) bytes h = ground (arith, h)
  emit_item-length labels addr (ins op args) bytes h =
      let step =
        >>=-ok (encode_instruction std op args labels addr) (λ word. ok (to_le_bytes 8 word)) bytes
          h in
      let e : to_le_bytes 8 step.0 ≡ bytes = ground (arith, step.2) in ap length (sym e)

  -- The bytes of each item stand at its address.
  emit-at :
      (labels : Labels) (before : List Item) (item : Item) (after : List Item) (base : ℕ)
      (bytes : List ℕ)
      → emit labels (before ++ item ∷ after) (item_addrs base (before ++ item ∷ after)) ≡ ok bytes
      → (part : List ℕ) × (emit_item labels (base + total before) item ≡ ok part)
        × (take (size item) (drop (total before) bytes) ≡ part)
  unfolding emit item_addrs
  emit-at labels [] item after base bytes h =
      let step = >>=-ok (emit_item labels base item) _ bytes h in
      let step' = >>=-ok (emit labels after (item_addrs (base + size item) after)) _ bytes step.2 in
      let whole : step.0 ++ step'.0 ≡ bytes = ok_inj step'.2 in
      (
        step.0,
        ap (λ (t : ℕ). emit_item labels t item) (omega arith) ∙ step.1,
        rw (sym (emit_item-length labels base item step.0 step.1), sym whole)
            (take-append step.0 step'.0),
      )
  emit-at labels (first ∷ before) item after base bytes h =
      let step = >>=-ok (emit_item labels base first) _ bytes h in
      let step' =
        >>=-ok
          (emit labels (before ++ item ∷ after)
            (item_addrs (base + size first) (before ++ item ∷ after)))
          _ bytes step.2 in
      let rec = emit-at labels before item after (base + size first) step'.0 step'.1 in
      let whole : step.0 ++ step'.0 ≡ bytes = ok_inj step'.2 in
      (
        rec.0,
        ap (λ (t : ℕ). emit_item labels t item) (omega arith) ∙ rec.1,
        ap (take (size item)) (
              ap₂ drop
                (ap (λ (t : ℕ). t + total before)
                  (sym (emit_item-length labels base first step.0 step.1)))
                (sym whole)
              ∙ drop-append step.0 step'.0 (total before))
            ∙ rec.2,
      )

  -- An assembled program is the items' bytes at the items' addresses: with `before` in front of it, an
  -- item's bytes, encoded for the address `base + total before`, begin at offset `total before`, and
  -- the labels are those that were resolved.
  pub assemble_items-at :
      (base : ℕ) (before : List Item) (item : Item) (after : List Item) (labels : List (Token × ℕ))
      (bytes : List ℕ)
      → assemble_items base (before ++ item ∷ after) labels ≡ ok bytes
      → (l : Labels) × (resolve (item_addrs base (before ++ item ∷ after)) labels ≡ ok l)
        × ((part : List ℕ) × (emit_item l (base + total before) item ≡ ok part)
            × (take (size item) (drop (total before) bytes) ≡ part))
  unfolding assemble_items
  assemble_items-at base before item after labels bytes h =
      let step = >>=-ok (resolve (item_addrs base (before ++ item ∷ after)) labels) _ bytes h in
      (step.0, step.1, emit-at step.0 before item after base bytes step.2)

get_or_last : (xs : List ℕ) (y : ℕ) → get_or (xs ++ y ∷ []) (length xs) 0 ≡ y
get_or_last [] y = refl
get_or_last (x ∷ xs) y = get_or_last xs y

parse_string_quoted :
    (body : List ℕ)
    → parse_string (b'"' ∷ (body ++ b'"' ∷ [])) ≡ (unescape body >>= λ out. ok (out ++ 0 ∷ []))
unfolding parse_string
parse_string_quoted body =
    rw
      (
        (let e : length (body ++ b'"' ∷ []) ≡ suc (length body) =
              omega (arith, length-append body (b'"' ∷ [])) in
            e),
        (let e : suc (suc (length body)) - 1 ≡ suc (length body) = omega arith in e),
        (let e : suc (suc (length body)) - 2 ≡ length body = omega arith in e),
        get_or_last body b'"',
        take-append body (b'"' ∷ []),
        (let e : (suc (suc (length body)) == 1) ≡ false = ground arith in e),
      )
      refl

-- A quoted string, escaped, is parsed back to its bytes, and a NUL behind them.
pub parse_string-escape :
    (cs : List ℕ) → parse_string (b'"' ∷ (escape cs ++ b'"' ∷ [])) ≡ ok (cs ++ 0 ∷ [])
parse_string-escape cs = parse_string_quoted (escape cs) ∙ rw (unescape-escape cs) refl
