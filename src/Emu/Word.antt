-- ===== src/Emu/Word.antt =====
pub mod RoundTrip
-- Instruction words of mik-emu/src/lib.rs: `encode`, `sext44`, and the decoding in `step`.
-- An `i64` is its bit pattern, a number below 2 ^ 64.
use mik_os.Common.{ℕ, ◌+◌, ◌-◌, ◌*◌, ◌/◌, ◌%◌, ◌^◌, bit_or, ◌==◌, if◌then◌else◌, Option, none, some}
use mik_os.Common.Bits.{low_bits, test_bit}

-- `x << k` on u64: bits shifted out at the top are lost.
abbrev pub shl : ℕ → ℕ → ℕ
shl x k = x * 2 ^ k % 2 ^ 64

abbrev pub shr : ℕ → ℕ → ℕ
shr x k = x / 2 ^ k

-- `!IMM_MASK`
abbrev not_imm_mask : ℕ
not_imm_mask = 2 ^ 64 - 2 ^ 44

unfoldable pub sext44 : ℕ → ℕ
sext44 value = let v = low_bits value 44 in if test_bit v 43 then bit_or v not_imm_mask else v

unfoldable pub encode : ℕ → ℕ → ℕ → ℕ → ℕ → ℕ
encode opcode rd rs1 rs2 imm =
    let imm_44 = low_bits imm 44 in
    bit_or (bit_or (bit_or (bit_or (shl opcode 56) (shl rd 52)) (shl rs1 48)) (shl rs2 44)) imm_44

pub record Fields : Type 0 where
  pub opcode : ℕ
  pub rd : ℕ
  pub rs1 : ℕ
  pub rs2 : ℕ
  pub imm : ℕ

unfoldable pub decode : ℕ → Fields
unfolding sext44
decode word = record {
  opcode = low_bits (shr word 56) 8;
  rd = low_bits (shr word 52) 4;
  rs1 = low_bits (shr word 48) 4;
  rs2 = low_bits (shr word 44) 4;
  imm = sext44 word;
}

-- The operations of the instruction set.
pub data Op : Type 0 where
  halt li add addi sub and_op or_op load8 load64 store8 store64 beq bne jmp trap jmpr eret : Op
  rdcsr wrcsr sfence sret int iret : Op

-- The opcodes that `step` matches on; `none` is its catch-all branch.
unfoldable pub op_of : ℕ → Option Op
op_of c =
    if c == 0x00
    then some halt
    else if c == 0x01
    then some li
    else if c == 0x02
    then some add
    else if c == 0x03
    then some addi
    else if c == 0x04
    then some sub
    else if c == 0x05
    then some and_op
    else if c == 0x06
    then some or_op
    else if c == 0x07
    then some load8
    else if c == 0x08
    then some load64
    else if c == 0x09
    then some store8
    else if c == 0x0a
    then some store64
    else if c == 0x0b
    then some beq
    else if c == 0x0c
    then some bne
    else if c == 0x0d
    then some jmp
    else if c == 0x0e
    then some trap
    else if c == 0x0f
    then some jmpr
    else if c == 0x10
    then some eret
    else if c == 0x15
    then some int
    else if c == 0x16
    then some iret
    else if c == 0x14
    then some sret
    else if c == 0x11
    then some rdcsr
    else if c == 0x12
    then some wrcsr
    else if c == 0x13
    then some sfence
    else none
