-- ===== src/Asm/Tests.antt =====
-- The theorems on the assembler at a concrete program. The parsers read a digit.
use mik_os.Common.{
  ℕ, ◌+◌, ◌-◌, ◌^◌, ◌<◌, ◌≡◌, ◌∙◌, refl, arith, ltb, leb, if◌then◌else◌, ◌&&◌, bytes_eq, Option,
  none, some, to_le_bytes, false, true, List, [], ◌∷◌, ◌++◌, take, drop,
}
use mik_os.Emu.Word.{Op, op_of, encode, decode, sext44}
use mik_os.Emu.Step.{branch_target}
use mik_os.Asm.{
  Token, Result, ok, panic, ◌>>=◌, Labels, Parsers, sub_i64, div8_i64, op_named, parse_register,
  parse_jump_target, alu, branch, jump_to, encode_op, encode_instruction,
}
use mik_os.Asm.Item.{
  Item, ins, data_bytes, size, total, item_addrs, resolve, parse_string, unescape, emit_item, emit,
  assemble_items, assemble_items-at,
}
use mik_os.Asm.Source.{
  lines, before_hash, first_pass, first_pass_line, first_part, other_parts, take_tokens, take_item,
  directive, string_word, assemble, ends_with_colon, insert_label, push, join, trim_start, trim_end,
  start,
}
use mik_os.Asm.Statements.{
  Line, instruction, string, AllLines, no_lines, more_lines, render, statements, add_code,
}
use mik_os.Asm.Rendering.{assemble-render}
use mik_os.Asm.Words.{decode-encode_instruction}
use mik_os.Asm.Jump.{branch-branch_target}

abbrev digit : Token → Option ℕ
digit (c ∷ []) = if leb b'0' c && ltb c 58 then some (c - b'0') else none
digit tok = none

abbrev digits : Parsers
digits = record { parse_u8 = digit; parse_i64 = digit; from_str_radix = λ tok radix. none }

abbrev add_token : Token
add_token = b'a' ∷ b'd' ∷ b'd' ∷ []

abbrev x1_token : Token
x1_token = b'x' ∷ b'1' ∷ []

abbrev loop_token : Token
loop_token = b'l' ∷ b'o' ∷ b'o' ∷ b'p' ∷ []

abbrev no_labels : Labels
no_labels tok = none

abbrev labels : Labels
labels tok = if bytes_eq tok loop_token then some 0x400000 else none

abbrev add_word : ℕ
add_word = encode 0x02 1 1 1 0

add_line :
    encode_instruction digits add_token (x1_token ∷ x1_token ∷ x1_token ∷ []) no_labels 0
    ≡ ok add_word
unfolding encode_instruction op_named encode_op alu parse_register
add_line = refl

decode-encode_instruction_example :
    (add_word < 2 ^ 64)
    × (o : Op) × (op_named add_token ≡ some o)
    × (op_of (decode add_word).opcode ≡ some o)
decode-encode_instruction_example =
    decode-encode_instruction digits add_token (x1_token ∷ x1_token ∷ x1_token ∷ []) no_labels 0
      add_word add_line

x1_register : parse_register digits x1_token ≡ ok 1
unfolding parse_register
x1_register = refl

branch-branch_target_example :
    (w : ℕ) × (branch digits 0x0c (x1_token ∷ x1_token ∷ loop_token ∷ []) labels 0x400020 ≡ ok w)
    × (branch_target 0x400020 (decode w).imm ≡ 0x400000)
    × ((v : ℕ) × (jump_to digits (loop_token ∷ []) labels 0x400020 ≡ ok v)
        × (branch_target 0x400020 (decode v).imm ≡ 0x400000))
branch-branch_target_example =
    branch-branch_target digits labels loop_token 0x400000 0x400020 refl (omega arith) (omega arith)
      refl 0x0c 1 1 x1_token x1_token (omega arith) (omega arith) (omega arith) x1_register
      x1_register

abbrev halt_item : Item
halt_item = ins (b'h' ∷ b'a' ∷ b'l' ∷ b't' ∷ []) []

abbrev text : Item
text = data_bytes (b'h' ∷ b'i' ∷ 0 ∷ [])

abbrev bytes_of : Result (List ℕ) → List ℕ
bytes_of (ok bs) = bs
bytes_of _ = []

abbrev program : List ℕ
program = bytes_of (assemble_items digits 0x400000 (text ∷ halt_item ∷ []) ((loop_token, 1) ∷ []))

assembles :
    assemble_items digits 0x400000 (text ∷ halt_item ∷ []) ((loop_token, 1) ∷ []) ≡ ok program
unfolding assemble_items resolve item_addrs emit emit_item encode_instruction op_named encode_op
    size
assembles = refl

assemble_items-at_example :
    (l : Labels) × (resolve (item_addrs 0x400000 (text ∷ halt_item ∷ [])) ((loop_token, 1) ∷ [])
      ≡ ok l)
    × ((part : List ℕ) × (emit_item digits l (0x400000 + total (text ∷ [])) halt_item ≡ ok part)
        × (take (size halt_item) (drop (total (text ∷ [])) program) ≡ part))
assemble_items-at_example =
    assemble_items-at digits 0x400000 (text ∷ []) halt_item [] ((loop_token, 1) ∷ []) program
      assembles

-- A label that no item follows.
trailing_label_panics : assemble_items digits 0 [] ((loop_token, 0) ∷ []) ≡ panic
unfolding assemble_items resolve item_addrs
trailing_label_panics = refl

-- A lone quote mark.
lone_quote_panics : parse_string (b'"' ∷ []) ≡ panic
unfolding parse_string
lone_quote_panics = refl

-- A label behind three bytes of data: the branch back to it goes to another address.
abbrev odd_labels : Labels
odd_labels tok = if bytes_eq tok loop_token then some 3 else none

abbrev word_of : Result ℕ → ℕ
word_of (ok w) = w
word_of _ = 0

misaligned_jump :
    branch_target 16 (decode (word_of (jump_to digits (loop_token ∷ []) odd_labels 16))).imm ≡ 8
unfolding jump_to parse_jump_target sub_i64 div8_i64 encode decode sext44
misaligned_jump = refl

-- `loop:  ADD X1, x1 x1 # again` and `.string "a b"`, with tabs.
abbrev add_text : Line
add_text = record {
  label = some loop_token;
  code = instruction (b'A' ∷ b'd' ∷ b'd' ∷ []) (x1_token ∷ x1_token ∷ x1_token ∷ []);
  gap = λ i. b',' ∷ 32 ∷ [];
  trailing = 32 ∷ [];
  comment = some (b'a' ∷ b'#' ∷ []);
  crlf = true;
}

abbrev string_text : Line
string_text = record {
  label = none;
  code = string ((b'"' ∷ b'a' ∷ []) ∷ (b'b' ∷ b'"' ∷ []) ∷ []);
  gap = λ i. 9 ∷ [];
  trailing = [];
  comment = none;
  crlf = false;
}

two_lines-IsLine : AllLines (add_text ∷ string_text ∷ [])
unfolding ends_with_colon
two_lines-IsLine =
    more_lines
      (record {
        label_ok = refl;
        code_ok = refl;
        gaps = λ i. refl;
        apart = λ i. refl;
        trailing_ok = refl;
        comment_ok = refl;
      })
      (more_lines
        (record {
          label_ok = refl;
          code_ok = refl;
          gaps = λ i. refl;
          apart = λ i. refl;
          trailing_ok = refl;
          comment_ok = refl;
        })
        no_lines)

assemble-render_example : assemble digits (render (add_text ∷ string_text ∷ [])) 0x400000 ≡ (
    statements start (add_text ∷ string_text ∷ []) >>= λ p.
    assemble_items digits 0x400000 p.items p.labels)
assemble-render_example =
    assemble-render digits (add_text ∷ string_text ∷ []) 0x400000 two_lines-IsLine

-- And they assemble: the instruction's word, and the string with one space.
two_lines_binary :
    assemble digits (render (add_text ∷ string_text ∷ [])) 0x400000
    ≡ ok (to_le_bytes 8 add_word ++ b'a' ∷ 32 ∷ b'b' ∷ 0 ∷ [])
unfolding statements push insert_label assemble_items item_addrs size resolve emit emit_item
    encode_instruction op_named encode_op alu parse_register parse_string join trim_start trim_end
    unescape add_code
two_lines_binary = assemble-render_example ∙ refl

-- A comma in a literal is a separator: `.string "a,b"` is assembled as "a b".
comma_lost :
    assemble digits (string_word ++ 32 ∷ b'"' ∷ b'a' ∷ b',' ∷ b'b' ∷ b'"' ∷ 10 ∷ []) 0
    ≡ ok (b'a' ∷ 32 ∷ b'b' ∷ 0 ∷ [])
unfolding assemble lines before_hash first_pass first_pass_line trim_start trim_end first_part
    other_parts take_tokens ends_with_colon take_item directive push join parse_string unescape
    assemble_items item_addrs size resolve emit emit_item
comma_lost = refl
