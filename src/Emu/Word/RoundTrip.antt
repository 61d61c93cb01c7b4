-- ===== src/Emu/Word/RoundTrip.antt =====
-- `encode` against the decoding in `step`.
use mik_os.Common.{ℕ, ◌+◌, ◌-◌, ◌*◌, ◌%◌, ◌^◌, ◌≤◌, ◌<◌, ltb, if◌then◌else◌, ◌≡◌, ◌∙◌, ◌⊎◌, arith}
use mik_os.Common.Bits.{low_bits, low_bits-mod, bit_or-shifted, bit_or-shifted_right}
use mik_os.Emu.Word.{shr, sext44, encode, decode, Fields}

-- The fields side by side.
pub encode_sum :
    (op rd rs1 rs2 imm : ℕ)
    → op < 256
    → rd < 16
    → rs1 < 16
    → rs2 < 16
    → encode op rd rs1 rs2 imm
      ≡ op * 2 ^ 56 + rd * 2 ^ 52 + rs1 * 2 ^ 48 + rs2 * 2 ^ 44 + imm % 2 ^ 44
unfolding encode
encode_sum op rd rs1 rs2 imm h0 h1 h2 h3 = ground (
  arith,
  bit_or-shifted 56 op (rd * 2 ^ 52),
  bit_or-shifted 52 (op * 16 + rd) (rs1 * 2 ^ 48),
  bit_or-shifted 48 (op * 256 + rd * 16 + rs1) (rs2 * 2 ^ 44),
  bit_or-shifted 44 (op * 4096 + rd * 256 + rs1 * 16 + rs2) (imm % 2 ^ 44),
  low_bits-mod 44 imm,
)

pub sext44_sum :
    (v : ℕ)
    → sext44 v ≡ (if ltb (v % 2 ^ 44) (2 ^ 43) then v % 2 ^ 44 else v % 2 ^ 44 + (2 ^ 64 - 2 ^ 44))
unfolding sext44
sext44_sum v = ground (arith, low_bits-mod 44 v, bit_or-shifted_right 44 (2 ^ 20 - 1) (v % 2 ^ 44))

-- The integers of 44 bits, as 64-bit patterns.
abbrev pub IsImmediate : ℕ → Type 0
IsImmediate imm = (imm < 2 ^ 43) ⊎ ((2 ^ 64 - 2 ^ 43 ≤ imm) × (imm < 2 ^ 64))

fields_path :
    {a b : Fields}
    → a.opcode ≡ b.opcode
    → a.rd ≡ b.rd
    → a.rs1 ≡ b.rs1
    → a.rs2 ≡ b.rs2
    → a.imm ≡ b.imm
    → a ≡ b
fields_path o d s t m = λ i. record { opcode = o i; rd = d i; rs1 = s i; rs2 = t i; imm = m i }

-- For an opcode of 8 bits, registers of 4 bits and an immediate that fits 44 signed bits, the
-- decoding in `step` gives back exactly what `encode` was given.
pub decode-encode :
    (op rd rs1 rs2 imm : ℕ)
    → op < 256
    → rd < 16
    → rs1 < 16
    → rs2 < 16
    → IsImmediate imm
    → decode (encode op rd rs1 rs2 imm)
      ≡ record { opcode = op; rd = rd; rs1 = rs1; rs2 = rs2; imm = imm }
unfolding decode
decode-encode op rd rs1 rs2 imm h0 h1 h2 h3 fits = rw (encode_sum op rd rs1 rs2 imm h0 h1 h2 h3) (
    fields_path (low_bits-mod 8 _ ∙ omega arith) (low_bits-mod 4 _ ∙ omega arith)
      (low_bits-mod 4 _ ∙ omega arith) (low_bits-mod 4 _ ∙ omega arith)
      (sext44_sum _ ∙ ground arith))

-- Every 64-bit word is the encoding of its decoded fields, which are in range.
pub encode-decode :
    (word : ℕ)
    → word < 2 ^ 64
    → let i = decode word in
      (encode i.opcode i.rd i.rs1 i.rs2 i.imm ≡ word)
      × (i.opcode < 256)
      × (i.rd < 16)
      × (i.rs1 < 16)
      × (i.rs2 < 16)
      × IsImmediate i.imm
unfolding decode
encode-decode word h = ground (
  arith,
  low_bits-mod 8 (shr word 56),
  low_bits-mod 4 (shr word 52),
  low_bits-mod 4 (shr word 48),
  low_bits-mod 4 (shr word 44),
  sext44_sum word,
  encode_sum (low_bits (shr word 56) 8) (low_bits (shr word 52) 4) (low_bits (shr word 48) 4)
      (low_bits (shr word 44) 4) (sext44 word),
)
