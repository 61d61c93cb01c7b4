-- ===== src/Asm/Words.antt =====
-- The words that the assembler makes, against the decoder of the emulator.
use mik_os.Common.{
  ℕ, ◌^◌, ◌<◌, ◌≡◌, refl, ap, subst, ◌∙◌, arith, ◌==◌, ltb, ◌||◌, none, some, List, [], ◌∷◌, map,
  get_or, drop, bytes_eq, Bool-cases, Option-cases, inl, inr,
}
use mik_os.Common.Bits.{low_bits-mod}
use mik_os.Emu.Word.{Op, encode, decode, op_of}
use mik_os.Emu.Word.RoundTrip.{encode_sum}
use mik_os.Asm.{
  Token, Result, ok, err, panic, ◌>>=◌, Labels, Parsers, to_ascii_lowercase, op_named,
  parse_register, parse_number, parse_jump_target, parse_value, alu, alu_imm, store, branch,
  one_number, one_register, load_immediate, jump_to, read_to, write_from, encode_op,
  encode_instruction,
}

-- A predicate of the value, if there is one.
abbrev Holds : {A : Type 0} → (A → Type 0) → Result A → Type 0
Holds P (ok a) = P a
Holds P err = Unit
Holds P panic = Unit

>>=-Holds :
    {A B : Type 0} (P : A → Type 0) (Q : B → Type 0) (r : Result A) (f : A → Result B)
    → Holds P r
    → ((a : A) → P a → Holds Q (f a))
    → Holds Q (r >>= f)
>>=-Holds P Q (ok a) f h k = k a h
>>=-Holds P Q err f h k = tt
>>=-Holds P Q panic f h k = tt

any_Holds : {A : Type 0} (r : Result A) → Holds (λ _. Unit) r
any_Holds (ok a) = tt
any_Holds err = tt
any_Holds panic = tt

-- A 64-bit word that decodes to opcode `c`.
abbrev IsWordOf : ℕ → ℕ → Type 0
IsWordOf c w = ((decode w).opcode ≡ c) × (w < 2 ^ 64)

encode-IsWordOf :
    (c rd rs1 rs2 imm : ℕ)
    → c < 256
    → rd < 16
    → rs1 < 16
    → rs2 < 16
    → IsWordOf c (encode c rd rs1 rs2 imm)
unfolding decode
encode-IsWordOf c rd rs1 rs2 imm h0 h1 h2 h3 =
    rw (encode_sum c rd rs1 rs2 imm h0 h1 h2 h3) (low_bits-mod 8 _ ∙ omega arith, omega arith)

module _ (std : Parsers) where
  -- A register is one of the 16.
  parse_register-Holds : (tok : Token) → Holds (λ n. n < 16) (parse_register std tok)
  unfolding parse_register
  parse_register-Holds tok =
      elim (Bool-cases (bytes_eq (map to_ascii_lowercase tok) (b's' ∷ b'p' ∷ []))) [
        | inl sp ↦ rw sp (let h : 15 < 16 = omega arith in h)
        | inr other ↦ elim (Bool-cases (get_or tok 0 0 == b'x' || get_or tok 0 0 == b'X')) [
          | inr no_x ↦ rw (other, no_x) tt
          | inl with_x ↦ elim (Option-cases (std.parse_u8 (drop 1 tok))) [
            | inl bad ↦ rw (other, with_x, bad) tt
            | inr (n, good) ↦ elim (Bool-cases (ltb 15 n)) [
              | inl big ↦ rw (other, with_x, good, big) tt
              | inr fits ↦ rw (other, with_x, good, fits) (let h : n < 16 = ground arith in h)
            ]
          ]
        ]
      ]

  alu-IsWordOf : (c : ℕ) (args : List Token) → c < 256 → Holds (IsWordOf c) (alu std c args)
  unfolding alu
  alu-IsWordOf c (x ∷ y ∷ z ∷ []) h = >>=-Holds _ _ _ _ (parse_register-Holds x) λ rd hd.
      >>=-Holds _ _ _ _ (parse_register-Holds y) λ rs1 h1.
        >>=-Holds _ _ _ _ (parse_register-Holds z)
          λ rs2 h2. encode-IsWordOf c rd rs1 rs2 0 h hd h1 h2
  alu-IsWordOf c [] h = tt
  alu-IsWordOf c (x ∷ []) h = tt
  alu-IsWordOf c (x ∷ y ∷ []) h = tt
  alu-IsWordOf c (x ∷ y ∷ z ∷ w ∷ ws) h = tt

  alu_imm-IsWordOf : (c : ℕ) (args : List Token) → c < 256 → Holds (IsWordOf c) (alu_imm std c args)
  unfolding alu_imm
  alu_imm-IsWordOf c (x ∷ y ∷ z ∷ []) h = >>=-Holds _ _ _ _ (parse_register-Holds x) λ rd h_rd.
      >>=-Holds _ _ _ _ (parse_register-Holds y) λ rs1 h_rs1.
        >>=-Holds (λ _. Unit) (IsWordOf c) (parse_value std z (λ _. none) 0) _
          (any_Holds (parse_value std z (λ _. none) 0))
          λ imm _. encode-IsWordOf c rd rs1 0 imm h h_rd h_rs1 (omega arith)
  alu_imm-IsWordOf c [] h = tt
  alu_imm-IsWordOf c (x ∷ []) h = tt
  alu_imm-IsWordOf c (x ∷ y ∷ []) h = tt
  alu_imm-IsWordOf c (x ∷ y ∷ z ∷ w ∷ ws) h = tt

  store-IsWordOf : (c : ℕ) (args : List Token) → c < 256 → Holds (IsWordOf c) (store std c args)
  unfolding store
  store-IsWordOf c (x ∷ y ∷ z ∷ []) h = >>=-Holds _ _ _ _ (parse_register-Holds x) λ rs1 h_rs1.
      >>=-Holds _ _ _ _ (parse_register-Holds y) λ rs2 h_rs2.
        >>=-Holds (λ _. Unit) (IsWordOf c) (parse_value std z (λ _. none) 0) _
          (any_Holds (parse_value std z (λ _. none) 0))
          λ imm _. encode-IsWordOf c 0 rs1 rs2 imm h (omega arith) h_rs1 h_rs2
  store-IsWordOf c [] h = tt
  store-IsWordOf c (x ∷ []) h = tt
  store-IsWordOf c (x ∷ y ∷ []) h = tt
  store-IsWordOf c (x ∷ y ∷ z ∷ w ∷ ws) h = tt

  branch-IsWordOf :
      (c : ℕ) (args : List Token) (labels : Labels) (pc : ℕ)
      → c < 256
      → Holds (IsWordOf c) (branch std c args labels pc)
  unfolding branch
  branch-IsWordOf c (x ∷ y ∷ z ∷ []) labels pc h =
      >>=-Holds _ _ _ _ (parse_register-Holds x) λ rs1 h_rs1.
        >>=-Holds _ _ _ _ (parse_register-Holds y) λ rs2 h_rs2.
          >>=-Holds (λ _. Unit) (IsWordOf c) (parse_jump_target std z labels pc) _
            (any_Holds (parse_jump_target std z labels pc))
            λ imm _. encode-IsWordOf c 0 rs1 rs2 imm h (omega arith) h_rs1 h_rs2
  branch-IsWordOf c [] labels pc h = tt
  branch-IsWordOf c (x ∷ []) labels pc h = tt
  branch-IsWordOf c (x ∷ y ∷ []) labels pc h = tt
  branch-IsWordOf c (x ∷ y ∷ z ∷ w ∷ ws) labels pc h = tt

  one_number-IsWordOf :
      (c : ℕ) (args : List Token) → c < 256 → Holds (IsWordOf c) (one_number std c args)
  unfolding one_number
  one_number-IsWordOf c (x ∷ []) h =
      >>=-Holds (λ _. Unit) (IsWordOf c) (parse_number std x) _ (any_Holds (parse_number std x))
        λ imm _. encode-IsWordOf c 0 0 0 imm h (omega arith) (omega arith) (omega arith)
  one_number-IsWordOf c [] h = tt
  one_number-IsWordOf c (x ∷ w ∷ ws) h = tt

  one_register-IsWordOf :
      (c : ℕ) (args : List Token) → c < 256 → Holds (IsWordOf c) (one_register std c args)
  unfolding one_register
  one_register-IsWordOf c (x ∷ []) h =
      >>=-Holds _ _ _ _ (parse_register-Holds x)
        λ rs1 h_rs1. encode-IsWordOf c 0 rs1 0 0 h (omega arith) h_rs1 (omega arith)
  one_register-IsWordOf c [] h = tt
  one_register-IsWordOf c (x ∷ w ∷ ws) h = tt

  load_immediate-IsWordOf :
      (args : List Token) (labels : Labels) (pc : ℕ)
      → Holds (IsWordOf 0x01) (load_immediate std args labels pc)
  unfolding load_immediate
  load_immediate-IsWordOf (x ∷ y ∷ []) labels pc =
      >>=-Holds _ _ _ _ (parse_register-Holds x) λ rd h_rd.
        >>=-Holds (λ _. Unit) (IsWordOf 0x01) (parse_value std y labels pc) _
          (any_Holds (parse_value std y labels pc))
          λ imm _. encode-IsWordOf 0x01 rd 0 0 imm (omega arith) h_rd (omega arith) (omega arith)
  load_immediate-IsWordOf [] labels pc = tt
  load_immediate-IsWordOf (x ∷ []) labels pc = tt
  load_immediate-IsWordOf (x ∷ y ∷ w ∷ ws) labels pc = tt

  jump_to-IsWordOf :
      (args : List Token) (labels : Labels) (pc : ℕ)
      → Holds (IsWordOf 0x0d) (jump_to std args labels pc)
  unfolding jump_to
  jump_to-IsWordOf (x ∷ []) labels pc =
      >>=-Holds (λ _. Unit) (IsWordOf 0x0d) (parse_jump_target std x labels pc) _
        (any_Holds (parse_jump_target std x labels pc))
        λ imm _.
          encode-IsWordOf 0x0d 0 0 0 imm (omega arith) (omega arith) (omega arith) (omega arith)
  jump_to-IsWordOf [] labels pc = tt
  jump_to-IsWordOf (x ∷ w ∷ ws) labels pc = tt

  read_to-IsWordOf : (args : List Token) → Holds (IsWordOf 0x11) (read_to std args)
  unfolding read_to
  read_to-IsWordOf (x ∷ y ∷ []) = >>=-Holds _ _ _ _ (parse_register-Holds x) λ rd h_rd.
      >>=-Holds (λ _. Unit) (IsWordOf 0x11) (parse_number std y) _ (any_Holds (parse_number std y))
        λ imm _. encode-IsWordOf 0x11 rd 0 0 imm (omega arith) h_rd (omega arith) (omega arith)
  read_to-IsWordOf [] = tt
  read_to-IsWordOf (x ∷ []) = tt
  read_to-IsWordOf (x ∷ y ∷ w ∷ ws) = tt

  write_from-IsWordOf : (args : List Token) → Holds (IsWordOf 0x12) (write_from std args)
  unfolding write_from
  write_from-IsWordOf (x ∷ y ∷ []) = >>=-Holds _ _ _ _ (parse_register-Holds x) λ rs1 h_rs1.
      >>=-Holds (λ _. Unit) (IsWordOf 0x12) (parse_number std y) _ (any_Holds (parse_number std y))
        λ imm _. encode-IsWordOf 0x12 0 rs1 0 imm (omega arith) (omega arith) h_rs1 (omega arith)
  write_from-IsWordOf [] = tt
  write_from-IsWordOf (x ∷ []) = tt
  write_from-IsWordOf (x ∷ y ∷ w ∷ ws) = tt

  opcode_of : Op → ℕ
  opcode_of Op.halt = 0x00
  opcode_of Op.li = 0x01
  opcode_of Op.add = 0x02
  opcode_of Op.addi = 0x03
  opcode_of Op.sub = 0x04
  opcode_of Op.and_op = 0x05
  opcode_of Op.or_op = 0x06
  opcode_of Op.load8 = 0x07
  opcode_of Op.load64 = 0x08
  opcode_of Op.store8 = 0x09
  opcode_of Op.store64 = 0x0a
  opcode_of Op.beq = 0x0b
  opcode_of Op.bne = 0x0c
  opcode_of Op.jmp = 0x0d
  opcode_of Op.trap = 0x0e
  opcode_of Op.jmpr = 0x0f
  opcode_of Op.eret = 0x10
  opcode_of Op.rdcsr = 0x11
  opcode_of Op.wrcsr = 0x12
  opcode_of Op.sfence = 0x13
  opcode_of Op.sret = 0x14
  opcode_of Op.int = 0x15
  opcode_of Op.iret = 0x16

  op_of-opcode_of : (o : Op) → op_of (opcode_of o) ≡ some o
  unfolding op_of opcode_of
  op_of-opcode_of Op.halt = refl
  op_of-opcode_of Op.li = refl
  op_of-opcode_of Op.add = refl
  op_of-opcode_of Op.addi = refl
  op_of-opcode_of Op.sub = refl
  op_of-opcode_of Op.and_op = refl
  op_of-opcode_of Op.or_op = refl
  op_of-opcode_of Op.load8 = refl
  op_of-opcode_of Op.load64 = refl
  op_of-opcode_of Op.store8 = refl
  op_of-opcode_of Op.store64 = refl
  op_of-opcode_of Op.beq = refl
  op_of-opcode_of Op.bne = refl
  op_of-opcode_of Op.jmp = refl
  op_of-opcode_of Op.trap = refl
  op_of-opcode_of Op.jmpr = refl
  op_of-opcode_of Op.eret = refl
  op_of-opcode_of Op.rdcsr = refl
  op_of-opcode_of Op.wrcsr = refl
  op_of-opcode_of Op.sfence = refl
  op_of-opcode_of Op.sret = refl
  op_of-opcode_of Op.int = refl
  op_of-opcode_of Op.iret = refl

  encode_op-IsWordOf :
      (o : Op) (args : List Token) (labels : Labels) (pc : ℕ)
      → Holds (IsWordOf (opcode_of o)) (encode_op std o args labels pc)
  unfolding encode_op opcode_of
  encode_op-IsWordOf Op.halt args labels pc =
      encode-IsWordOf 0x00 0 0 0 0 (omega arith) (omega arith) (omega arith) (omega arith)
  encode_op-IsWordOf Op.li args labels pc = load_immediate-IsWordOf args labels pc
  encode_op-IsWordOf Op.add args labels pc = alu-IsWordOf 0x02 args (omega arith)
  encode_op-IsWordOf Op.addi args labels pc = alu_imm-IsWordOf 0x03 args (omega arith)
  encode_op-IsWordOf Op.sub args labels pc = alu-IsWordOf 0x04 args (omega arith)
  encode_op-IsWordOf Op.and_op args labels pc = alu-IsWordOf 0x05 args (omega arith)
  encode_op-IsWordOf Op.or_op args labels pc = alu-IsWordOf 0x06 args (omega arith)
  encode_op-IsWordOf Op.load8 args labels pc = alu_imm-IsWordOf 0x07 args (omega arith)
  encode_op-IsWordOf Op.load64 args labels pc = alu_imm-IsWordOf 0x08 args (omega arith)
  encode_op-IsWordOf Op.store8 args labels pc = store-IsWordOf 0x09 args (omega arith)
  encode_op-IsWordOf Op.store64 args labels pc = store-IsWordOf 0x0a args (omega arith)
  encode_op-IsWordOf Op.beq args labels pc = branch-IsWordOf 0x0b args labels pc (omega arith)
  encode_op-IsWordOf Op.bne args labels pc = branch-IsWordOf 0x0c args labels pc (omega arith)
  encode_op-IsWordOf Op.jmp args labels pc = jump_to-IsWordOf args labels pc
  encode_op-IsWordOf Op.trap args labels pc = one_number-IsWordOf 0x0e args (omega arith)
  encode_op-IsWordOf Op.jmpr args labels pc = one_register-IsWordOf 0x0f args (omega arith)
  encode_op-IsWordOf Op.eret args labels pc =
      encode-IsWordOf 0x10 0 0 0 0 (omega arith) (omega arith) (omega arith) (omega arith)
  encode_op-IsWordOf Op.rdcsr args labels pc = read_to-IsWordOf args
  encode_op-IsWordOf Op.wrcsr args labels pc = write_from-IsWordOf args
  encode_op-IsWordOf Op.sfence args labels pc =
      encode-IsWordOf 0x13 0 0 0 0 (omega arith) (omega arith) (omega arith) (omega arith)
  encode_op-IsWordOf Op.sret args labels pc = one_register-IsWordOf 0x14 args (omega arith)
  encode_op-IsWordOf Op.int args labels pc = one_number-IsWordOf 0x15 args (omega arith)
  encode_op-IsWordOf Op.iret args labels pc =
      encode-IsWordOf 0x16 0 0 0 0 (omega arith) (omega arith) (omega arith) (omega arith)

  -- A line that assembles gives a 64-bit word whose opcode the emulator executes as the instruction
  -- that the mnemonic names.
  pub decode-encode_instruction :
      (op : Token) (args : List Token) (labels : Labels) (pc w : ℕ)
      → encode_instruction std op args labels pc ≡ ok w
      → (w < 2 ^ 64) × (o : Op) × (op_named op ≡ some o) × (op_of (decode w).opcode ≡ some o)
  unfolding encode_instruction
  decode-encode_instruction op args labels pc w h = elim (Option-cases (op_named op)) [
    | inl unknown ↦
        absurd (let e : err ≡ ok w = rw (encode_instruction, unknown) at h in ground arith)
    | inr (o, known) ↦
        let e : encode_op std o args labels pc ≡ ok w = rw (encode_instruction, known) at h in
        let word : IsWordOf (opcode_of o) w =
          subst (Holds (IsWordOf (opcode_of o))) e (encode_op-IsWordOf o args labels pc) in
        (word.1, o, known, ap op_of word.0 ∙ op_of-opcode_of o)
  ]
