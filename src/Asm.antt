-- ===== src/Asm.antt =====
pub mod Item
pub mod Words
pub mod Jump
pub mod Source
pub mod Tokens
pub mod Statements
pub mod Rendering
mod Tests
-- The instructions of the assembler, mik-asm/src/lib.rs: operands, and `encode_instruction`. A token
-- is the list of its bytes. An `i64` or `u64` is its bit pattern, a number below 2 ^ 64. Error
-- messages are dropped; a panic is an outcome of its own.
use mik_os.Common.{
  ℕ, ◌+◌, ◌-◌, ◌*◌, ◌/◌, ◌%◌, ◌^◌, ◌==◌, ltb, leb, if◌then◌else◌, Bool, true, false, ◌&&◌, ◌||◌,
  Option, none, some, List, [], ◌∷◌, ◌++◌, map, length, get_or, drop, bytes_eq, ◌≡◌, refl, arith,
}
use mik_os.Emu.Word.{Op, encode}

abbrev pub Token : Type 0
Token = List ℕ

pub data Result (A : Type 0) : Type 0 where
  ok : A → Result A
  err : Result A
  panic : Result A

infixl 5 ◌>>=◌
abbrev pub ◌>>=◌ : {A B : Type 0} → Result A → (A → Result B) → Result B
ok a >>= f = f a
err >>= f = err
panic >>= f = panic

-- A chain that succeeds has succeeded at each link.
pub >>=-ok :
    {A B : Type 0} (r : Result A) (f : A → Result B) (b : B)
    → (r >>= f) ≡ ok b
    → (a : A) × (r ≡ ok a) × (f a ≡ ok b)
>>=-ok (ok a) f b h = (a, refl, h)
>>=-ok err f b h = absurd (ground (arith, h))
>>=-ok panic f b h = absurd (ground (arith, h))

abbrev pub of_option : {A : Type 0} → Option A → Result A
of_option none = err
of_option (some a) = ok a

abbrev pub or_else : {A : Type 0} → Result A → Result A → Result A
or_else err other = other
or_else r other = r

-- `HashMap<String, u64>`
abbrev pub Labels : Type 0
Labels = Token → Option ℕ

-- `i64` subtraction, which panics on overflow. Adding 2 ^ 63 puts the patterns in the order of the
-- integers.
unfoldable pub sub_i64 : ℕ → ℕ → Result ℕ
sub_i64 a b =
    let x : ℕ = (a + 2 ^ 63) % 2 ^ 64 in
    let y : ℕ = (b + 2 ^ 63) % 2 ^ 64 in
    if ltb (x + 2 ^ 63) y || leb (y + 2 ^ 63) x then panic else ok ((a + (2 ^ 64 - b)) % 2 ^ 64)

-- `x / 8` on `i64`, which rounds towards zero.
unfoldable pub div8_i64 : ℕ → ℕ
div8_i64 x = if ltb x (2 ^ 63) then x / 8 else (2 ^ 64 - (2 ^ 64 - x) / 8) % 2 ^ 64

abbrev pub to_ascii_lowercase : ℕ → ℕ
to_ascii_lowercase c = if leb b'A' c && leb c b'Z' then c + 32 else c

-- `0x` and `0b`, in either case.
abbrev has_prefix : Token → ℕ → ℕ → Bool
has_prefix tok lower upper =
    get_or tok 0 0 == b'0' && (get_or tok 1 0 == lower || get_or tok 1 0 == upper)

-- The byte behind a backslash.
unfoldable pub escaped : ℕ → Option ℕ
escaped c =
    if c == b'n'
    then some 10
    else if c == b'r'
    then some 13
    else if c == b't'
    then some 9
    else if c == b'\\'
    then some b'\\'
    else if c == b'0'
    then some 0
    else none

abbrev quoted : Token → Bool
quoted tok = get_or tok 0 0 == 39 && get_or tok (length tok - 1) 0 == 39

-- The parsers of the standard library: `str::parse::<u8>`, `str::parse::<i64>` and
-- `i64::from_str_radix`.
pub record Parsers : Type 0 where
  pub parse_u8 : Token → Option ℕ
  pub parse_i64 : Token → Option ℕ
  pub from_str_radix : Token → ℕ → Option ℕ

-- The mnemonics of `encode_instruction`.
unfoldable pub op_named : Token → Option Op
op_named op =
    if bytes_eq op (b'h' ∷ b'a' ∷ b'l' ∷ b't' ∷ [])
    then some Op.halt
    else if bytes_eq op (b'l' ∷ b'i' ∷ [])
    then some Op.li
    else if bytes_eq op (b'a' ∷ b'd' ∷ b'd' ∷ [])
    then some Op.add
    else if bytes_eq op (b'a' ∷ b'd' ∷ b'd' ∷ b'i' ∷ [])
    then some Op.addi
    else if bytes_eq op (b's' ∷ b'u' ∷ b'b' ∷ [])
    then some Op.sub
    else if bytes_eq op (b'a' ∷ b'n' ∷ b'd' ∷ [])
    then some Op.and_op
    else if bytes_eq op (b'o' ∷ b'r' ∷ [])
    then some Op.or_op
    else if bytes_eq op (b'l' ∷ b'o' ∷ b'a' ∷ b'd' ∷ b'8' ∷ [])
    then some Op.load8
    else if bytes_eq op (b'l' ∷ b'o' ∷ b'a' ∷ b'd' ∷ b'6' ∷ b'4' ∷ [])
    then some Op.load64
    else if bytes_eq op (b's' ∷ b't' ∷ b'o' ∷ b'r' ∷ b'e' ∷ b'8' ∷ [])
    then some Op.store8
    else if bytes_eq op (b's' ∷ b't' ∷ b'o' ∷ b'r' ∷ b'e' ∷ b'6' ∷ b'4' ∷ [])
    then some Op.store64
    else if bytes_eq op (b'b' ∷ b'e' ∷ b'q' ∷ [])
    then some Op.beq
    else if bytes_eq op (b'b' ∷ b'n' ∷ b'e' ∷ [])
    then some Op.bne
    else if bytes_eq op (b'j' ∷ b'm' ∷ b'p' ∷ [])
    then some Op.jmp
    else if bytes_eq op (b't' ∷ b'r' ∷ b'a' ∷ b'p' ∷ [])
    then some Op.trap
    else if bytes_eq op (b'j' ∷ b'm' ∷ b'p' ∷ b'r' ∷ [])
    then some Op.jmpr
    else if bytes_eq op (b'e' ∷ b'r' ∷ b'e' ∷ b't' ∷ [])
    then some Op.eret
    else if bytes_eq op (b'r' ∷ b'd' ∷ b'c' ∷ b's' ∷ b'r' ∷ [])
    then some Op.rdcsr
    else if bytes_eq op (b'w' ∷ b'r' ∷ b'c' ∷ b's' ∷ b'r' ∷ [])
    then some Op.wrcsr
    else if bytes_eq op (b's' ∷ b'f' ∷ b'e' ∷ b'n' ∷ b'c' ∷ b'e' ∷ [])
    then some Op.sfence
    else if bytes_eq op (b's' ∷ b'r' ∷ b'e' ∷ b't' ∷ [])
    then some Op.sret
    else if bytes_eq op (b'i' ∷ b'n' ∷ b't' ∷ [])
    then some Op.int
    else if bytes_eq op (b'i' ∷ b'r' ∷ b'e' ∷ b't' ∷ [])
    then some Op.iret
    else none

module _ (std : Parsers) where
  unfoldable pub parse_register : Token → Result ℕ
  parse_register tok =
      if bytes_eq (map to_ascii_lowercase tok) (b's' ∷ b'p' ∷ [])
      then ok 15
      else if get_or tok 0 0 == b'x' || get_or tok 0 0 == b'X'
      then (elim (std.parse_u8 (drop 1 tok)) [
        | none ↦ err
        | some n ↦ if ltb 15 n then err else ok n
      ])
      else err

  unfoldable pub parse_number : Token → Result ℕ
  parse_number tok =
      if has_prefix tok b'x' b'X'
      then of_option (std.from_str_radix (drop 2 tok) 16)
      else if has_prefix tok b'b' b'B'
      then of_option (std.from_str_radix (drop 2 tok) 2)
      else if quoted tok && length tok == 3
      then ok (get_or tok 1 0)
      else if quoted tok && (length tok == 4 && get_or tok 1 0 == b'\\')
      then of_option (escaped (get_or tok 2 0))
      else of_option (std.parse_i64 tok)

  unfoldable pub parse_jump_target : Token → Labels → ℕ → Result ℕ
  parse_jump_target tok labels pc =
      (elim (labels tok) [ none ↦ parse_number tok | some addr ↦ ok addr ]) >>= λ target.
      sub_i64 target pc >>= λ offset. ok (div8_i64 offset)

  unfoldable pub parse_value : Token → Labels → ℕ → Result ℕ
  parse_value tok labels pc = elim (labels tok) [
    | none ↦ or_else (parse_number tok) (parse_jump_target tok labels pc)
    | some addr ↦ ok addr
  ]

  unfoldable pub alu : ℕ → List Token → Result ℕ
  alu opcode (a ∷ b ∷ c ∷ []) = parse_register a >>= λ rd.
      parse_register b >>= λ rs1. parse_register c >>= λ rs2. ok (encode opcode rd rs1 rs2 0)
  alu opcode args = err

  -- `alu_imm`, and `load`, which is the same.
  unfoldable pub alu_imm : ℕ → List Token → Result ℕ
  alu_imm opcode (a ∷ b ∷ c ∷ []) = parse_register a >>= λ rd. parse_register b >>= λ rs1.
      parse_value c (λ _. none) 0 >>= λ imm. ok (encode opcode rd rs1 0 imm)
  alu_imm opcode args = err

  unfoldable pub store : ℕ → List Token → Result ℕ
  store opcode (a ∷ b ∷ c ∷ []) = parse_register a >>= λ rs1. parse_register b >>= λ rs2.
      parse_value c (λ _. none) 0 >>= λ imm. ok (encode opcode 0 rs1 rs2 imm)
  store opcode args = err

  unfoldable pub branch : ℕ → List Token → Labels → ℕ → Result ℕ
  branch opcode (a ∷ b ∷ c ∷ []) labels pc = parse_register a >>= λ rs1. parse_register b >>= λ rs2.
      parse_jump_target c labels pc >>= λ offset. ok (encode opcode 0 rs1 rs2 offset)
  branch opcode args labels pc = err

  -- The instructions with one number, one register, or a register and an immediate.
  unfoldable pub one_number : ℕ → List Token → Result ℕ
  one_number opcode (a ∷ []) = parse_number a >>= λ n. ok (encode opcode 0 0 0 n)
  one_number opcode args = err

  unfoldable pub one_register : ℕ → List Token → Result ℕ
  one_register opcode (a ∷ []) = parse_register a >>= λ rs1. ok (encode opcode 0 rs1 0 0)
  one_register opcode args = err

  unfoldable pub load_immediate : List Token → Labels → ℕ → Result ℕ
  load_immediate (a ∷ b ∷ []) labels pc =
      parse_register a >>= λ rd. parse_value b labels pc >>= λ imm. ok (encode 0x01 rd 0 0 imm)
  load_immediate args labels pc = err

  unfoldable pub jump_to : List Token → Labels → ℕ → Result ℕ
  jump_to (a ∷ []) labels pc =
      parse_jump_target a labels pc >>= λ offset. ok (encode 0x0d 0 0 0 offset)
  jump_to args labels pc = err

  unfoldable pub read_to : List Token → Result ℕ
  read_to (a ∷ b ∷ []) =
      parse_register a >>= λ rd. parse_number b >>= λ csr. ok (encode 0x11 rd 0 0 csr)
  read_to args = err

  unfoldable pub write_from : List Token → Result ℕ
  write_from (a ∷ b ∷ []) =
      parse_register a >>= λ rs1. parse_number b >>= λ csr. ok (encode 0x12 0 rs1 0 csr)
  write_from args = err

  -- The arms of the `match op`.
  unfoldable pub encode_op : Op → List Token → Labels → ℕ → Result ℕ
  encode_op Op.halt args labels pc = ok (encode 0x00 0 0 0 0)
  encode_op Op.li args labels pc = load_immediate args labels pc
  encode_op Op.add args labels pc = alu 0x02 args
  encode_op Op.addi args labels pc = alu_imm 0x03 args
  encode_op Op.sub args labels pc = alu 0x04 args
  encode_op Op.and_op args labels pc = alu 0x05 args
  encode_op Op.or_op args labels pc = alu 0x06 args
  encode_op Op.load8 args labels pc = alu_imm 0x07 args
  encode_op Op.load64 args labels pc = alu_imm 0x08 args
  encode_op Op.store8 args labels pc = store 0x09 args
  encode_op Op.store64 args labels pc = store 0x0a args
  encode_op Op.beq args labels pc = branch 0x0b args labels pc
  encode_op Op.bne args labels pc = branch 0x0c args labels pc
  encode_op Op.jmp args labels pc = jump_to args labels pc
  encode_op Op.trap args labels pc = one_number 0x0e args
  encode_op Op.jmpr args labels pc = one_register 0x0f args
  encode_op Op.eret args labels pc = ok (encode 0x10 0 0 0 0)
  encode_op Op.rdcsr args labels pc = read_to args
  encode_op Op.wrcsr args labels pc = write_from args
  encode_op Op.sfence args labels pc = ok (encode 0x13 0 0 0 0)
  encode_op Op.sret args labels pc = one_register 0x14 args
  encode_op Op.int args labels pc = one_number 0x15 args
  encode_op Op.iret args labels pc = ok (encode 0x16 0 0 0 0)

  unfoldable pub encode_instruction : Token → List Token → Labels → ℕ → Result ℕ
  encode_instruction op args labels pc = elim (op_named op) [
    | none ↦ err
    | some o ↦ encode_op o args labels pc
  ]
