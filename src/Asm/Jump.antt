-- ===== src/Asm/Jump.antt =====
-- Branches to labels: the assembler's offset against the emulator's branch.
use mik_os.Common.{ℕ, ◌+◌, ◌-◌, ◌%◌, ◌^◌, ◌<◌, ◌≡◌, refl, arith, some, [], ◌∷◌}
use mik_os.Emu.Word.{encode, decode}
use mik_os.Emu.Word.RoundTrip.{decode-encode, IsImmediate}
use mik_os.Emu.Step.{branch_target}
use mik_os.Asm.{
  Token, ok, Labels, Parsers, sub_i64, div8_i64, parse_register, parse_jump_target, branch, jump_to,
}

-- The offset, as `parse_jump_target` computes it from the label's address.
sub_i64_near :
    (t pc : ℕ) → t < 2 ^ 46 → pc < 2 ^ 46 → sub_i64 t pc ≡ ok ((t + (2 ^ 64 - pc)) % 2 ^ 64)
unfolding sub_i64
sub_i64_near t pc ht hpc = ground arith

offset-IsImmediate :
    (t pc : ℕ) → t < 2 ^ 46 → pc < 2 ^ 46 → IsImmediate (div8_i64 ((t + (2 ^ 64 - pc)) % 2 ^ 64))
unfolding div8_i64
offset-IsImmediate t pc ht hpc = ground arith

branch_target-offset :
    (t pc : ℕ)
    → t < 2 ^ 46
    → pc < 2 ^ 46
    → t % 8 ≡ pc % 8
    → branch_target pc (div8_i64 ((t + (2 ^ 64 - pc)) % 2 ^ 64)) ≡ t
unfolding div8_i64
branch_target-offset t pc ht hpc same = ground arith

module _ (std : Parsers) (labels : Labels) (tok : Token) (t pc : ℕ) (known : labels tok ≡ some t)
    (t_fits : t < 2 ^ 46) (pc_fits : pc < 2 ^ 46) (aligned : t % 8 ≡ pc % 8) where
  parse_jump_target_label :
      parse_jump_target std tok labels pc ≡ ok (div8_i64 ((t + (2 ^ 64 - pc)) % 2 ^ 64))
  unfolding parse_jump_target
  parse_jump_target_label = rw (known, sub_i64_near t pc t_fits pc_fits) refl

  -- A `jmp` or a `beq` or `bne` to a label assembles, and the emulator's branch from its address then
  -- goes to the address of the label, if both addresses are below 2 ^ 46 and their distance is a
  -- multiple of 8.
  pub branch-branch_target :
      (opcode rs1 rs2 : ℕ) (a b : Token)
      → opcode < 256
      → rs1 < 16
      → rs2 < 16
      → parse_register std a ≡ ok rs1
      → parse_register std b ≡ ok rs2
      → (w : ℕ) × (branch std opcode (a ∷ b ∷ tok ∷ []) labels pc ≡ ok w)
        × (branch_target pc (decode w).imm ≡ t)
        × ((v : ℕ) × (jump_to std (tok ∷ []) labels pc ≡ ok v)
            × (branch_target pc (decode v).imm ≡ t))
  unfolding branch jump_to
  branch-branch_target opcode rs1 rs2 a b h h1 h2 ea eb =
      let goes : branch_target pc (div8_i64 ((t + (2 ^ 64 - pc)) % 2 ^ 64)) ≡ t =
        branch_target-offset t pc t_fits pc_fits aligned in
      let fits = offset-IsImmediate t pc t_fits pc_fits in
      (
        encode opcode 0 rs1 rs2 (div8_i64 ((t + (2 ^ 64 - pc)) % 2 ^ 64)),
        rw (ea, eb, parse_jump_target_label) refl,
        rw (decode-encode opcode 0 rs1 rs2 _ h (omega arith) h1 h2 fits) goes,
        (
          encode 0x0d 0 0 0 (div8_i64 ((t + (2 ^ 64 - pc)) % 2 ^ 64)),
          rw parse_jump_target_label refl,
          rw
              (decode-encode 0x0d 0 0 0 _ (omega arith) (omega arith) (omega arith) (omega arith)
                fits)
              goes,
        ),
      )
