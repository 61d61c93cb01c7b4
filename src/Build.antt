-- ===== src/Build.antt =====
pub mod Resolve
pub mod Programs
pub mod Layout
pub mod Boot
pub mod Routines
pub mod Processes
pub mod Kernels
pub mod Patches
pub mod Images
mod Tests
-- The one-pass assembler with label fixups of mik-os/src/lib.rs, `Asm`, which builds the Mik-64 kernel
-- images. A method on a builder is a call; a program is the list of its calls.
use mik_os.Common.{
  ℕ, ◌+◌, ◌-◌, ◌*◌, ◌/◌, ◌%◌, ◌^◌, bit_or, Option, none, some, List, [], ◌∷◌, ◌++◌, length, get_or,
  set, to_le_bytes, if◌then◌else◌, Bool, true, false,
}
use mik_os.Common.Bits.{low_bits}
use mik_os.Emu.Word.{encode}
use Prim.Native.String.{String}
use text.Mathlib.Text.{◌==◌}

pub data Unresolved : Type 0 where
  jmp beq bne li : Unresolved

-- A pending fixup: the index of the word, the label and what the word is.
pub record Pending : Type 0 where
  pub idx : ℕ
  pub target : String
  pub kind : Unresolved

pub record Asm : Type 0 where
  pub code : List ℕ
  pub labels : List (String × ℕ)
  pub unresolved : List Pending

abbrev pub new : Asm
new = record { code = []; labels = []; unresolved = [] }

-- `labels.get(name)`; an insertion puts its entry in front, where it hides an older one.
abbrev pub get : String → List (String × ℕ) → Option ℕ
get name [] = none
get name ((other, at) ∷ labels) = if other == name then some at else get name labels

-- The methods that add to a program.
pub data Call : Type 0 where
  label : String → Call
  emit : ℕ → Call
  jmp_to : String → Call
  beq_to : ℕ → ℕ → String → Call
  bne_to : ℕ → ℕ → String → Call
  li_to : ℕ → String → Call

-- `emit`, then a push on `unresolved`.
abbrev pub fixup : Asm → ℕ → String → Unresolved → Asm
fixup a word target kind = record a {
  code = a.code ++ word ∷ [];
  unresolved = a.unresolved ++ record { idx = length a.code; target = target; kind = kind } ∷ [];
}

unfoldable pub call : Asm → Call → Asm
call a (label name) = record a { labels = (name, length a.code) ∷ a.labels }
call a (emit word) = record a { code = a.code ++ word ∷ [] }
call a (jmp_to target) = fixup a (encode 0x0d 0 0 0 0) target Unresolved.jmp
call a (beq_to rs1 rs2 target) = fixup a (encode 0x0b 0 rs1 rs2 0) target Unresolved.beq
call a (bne_to rs1 rs2 target) = fixup a (encode 0x0c 0 rs1 rs2 0) target Unresolved.bne
call a (li_to rd target) = fixup a (encode 0x01 rd 0 0 0) target Unresolved.li

unfoldable pub calls : Asm → List Call → Asm
calls a [] = a
calls a (c ∷ cs) = calls (call a c) cs

-- `old & !mask | imm & mask`, with the mask of the 44 low bits.
unfoldable pub with_imm : ℕ → ℕ → ℕ
with_imm old imm = bit_or (old / 2 ^ 44 * 2 ^ 44) (low_bits imm 44)

-- The immediate of a fixup: `t - idx` as an `i64`, or the label's address.
unfoldable pub fixup_imm : Unresolved → ℕ → ℕ → ℕ → ℕ
fixup_imm Unresolved.li load idx t = load + t * 8
fixup_imm Unresolved.jmp load idx t = (t + 2 ^ 64 - idx) % 2 ^ 64
fixup_imm Unresolved.beq load idx t = (t + 2 ^ 64 - idx) % 2 ^ 64
fixup_imm Unresolved.bne load idx t = (t + 2 ^ 64 - idx) % 2 ^ 64

-- The loop of `resolve`; `none` is its panic on an undefined label.
unfoldable pub resolve_all : ℕ → List (String × ℕ) → List Pending → List ℕ → Option (List ℕ)
resolve_all load labels [] code = some code
resolve_all load labels (p ∷ ps) code = elim (get p.target labels) [
  | none ↦ none
  | some t ↦
      resolve_all load labels ps
        (set code p.idx (with_imm (get_or code p.idx 0) (fixup_imm p.kind load p.idx t)))
]

unfoldable pub resolve : Asm → ℕ → Option Asm
resolve a load = elim (resolve_all load a.labels a.unresolved a.code) [
  | none ↦ none
  | some code ↦ some (record a { code = code })
]

unfoldable pub patch_imm : Asm → ℕ → ℕ → Asm
patch_imm a idx imm = record a { code = set a.code idx (with_imm (get_or a.code idx 0) imm) }

-- The words of a program as bytes.
abbrev pub word_bytes : List ℕ → List ℕ
word_bytes [] = []
word_bytes (w ∷ ws) = to_le_bytes 8 w ++ word_bytes ws

unfoldable pub binary : Asm → List ℕ → List ℕ
binary a string = word_bytes a.code ++ string

unfoldable pub finalize : Asm → ℕ → ℕ → List ℕ → Option (List ℕ)
finalize a load string_idx string = elim (resolve a load) [
  | none ↦ none
  | some a1 ↦ some (binary (patch_imm a1 string_idx (load + length a1.code * 8)) string)
]
