-- ===== src/Emu/Step.antt =====
pub mod Run
pub mod Traps
pub mod Accesses
pub mod Widths
pub mod Invariant
-- `Machine::step`, the delivery of interrupts and page faults, and `run`, of mik-emu/src/lib.rs.
use mik_os.Common.{
  ℕ, zero, suc, ◌+◌, ◌-◌, ◌*◌, ◌/◌, ◌%◌, ◌^◌, bit_and, bit_or, ◌==◌, ltb, leb, if◌then◌else◌, Bool,
  true, false, not, ◌&&◌, ◌||◌, Option, none, some, List, Memory, update,
}
use mik_os.Common
use mik_os.Common.Bits.{low_bits}
use mik_os.Emu.Word
use mik_os.Emu.Word.{Op, Fields, decode, op_of}
use mik_os.Emu.Machine.{
  Machine, Outcome, ok, err, panic, ◌>>=◌, pc_out_of_bounds, pc_misaligned, illegal_opcode, new,
  load_binary, read8, read64, write8, write64, flush_tlb, set_reg, ram_size, csr_ptbr, csr_pmode,
  csr_timer, csr_epc,
}
use mik_os.Emu.Translate.{Access, load, store, fetch, PageFault, Reply, mapped, fault, translate}

-- What every trap, fault and interrupt does first: mask interrupts and enter supervisor mode.
abbrev pub enter_supervisor : Machine → ℕ → Machine
enter_supervisor m return_pc = record m {
  epc = return_pc;
  int_enabled = false;
  previous_user_mode = m.user_mode;
  user_mode = false;
}

unfoldable pub deliver_interrupt : Machine → ℕ → Machine
deliver_interrupt m faulting_pc = record (enter_supervisor m faulting_pc) {
  pc = Common.load64 m.mem 0x2020;
}

unfoldable pub deliver_page_fault : Machine → ℕ → PageFault → Machine
deliver_page_fault m faulting_pc f = record (enter_supervisor m faulting_pc) {
  regs = update (update m.regs 10 f.code) 11 f.va;
  pc = Common.load64 m.mem 0x2010;
}

-- `regs[0] = 0`
abbrev pub clear_x0 : Machine → Machine
clear_x0 m = set_reg m 0 0

-- An instruction falls through to the end of `step`, or returns from it at a page fault.
pub data Flow (O : Type 0) : Type 0 where
  falls_through : Machine → O → Flow O
  returns : Machine → O → Flow O

abbrev pub jump : Machine → ℕ → Machine
jump m target = record m { pc = target }

-- `base.wrapping_add((imm * 8) as u64)`
abbrev pub branch_target : ℕ → ℕ → ℕ
branch_target base imm = (base + imm * 8 % 2 ^ 64) % 2 ^ 64

-- `match self.translate(va, access) { Ok(p) => p, Err(fault) => { ..; return Ok(()) } }`
module _ {O : Type 0} where
  unfoldable pub after_translate :
      O → ℕ → (Machine → ℕ → Outcome (Flow O)) → Reply × Machine → Outcome (Flow O)
  after_translate out base use_it (mapped pa, m) = use_it m pa
  after_translate out base use_it (fault f, m) =
      ok (returns (clear_x0 (deliver_page_fault m base f)) out)

  unfoldable pub with_address :
      Machine → O → ℕ → ℕ → Access → (Machine → ℕ → Outcome (Flow O)) → Outcome (Flow O)
  unfolding after_translate
  with_address m out base va access use_it =
      translate m va access >>= after_translate out base use_it

-- TRAP and INT: `pc = mem64[vector]`.
unfoldable pub enter_vector : Machine → ℕ → ℕ → Outcome Machine
enter_vector m imm vector =
    let m' = set_reg (enter_supervisor m m.pc) 10 imm in
    read64 m' vector >>= λ handler. ok (jump m' handler)

-- ERET and IRET.
unfoldable pub leave_handler : Machine → Machine
leave_handler m = record m { pc = m.epc; int_enabled = true; user_mode = m.previous_user_mode }

unfoldable pub enter_user : Machine → ℕ → Machine
enter_user m target = record m {
  pc = target;
  int_enabled = true;
  previous_user_mode = m.user_mode;
  user_mode = true;
}

unfoldable pub read_csr : Machine → ℕ → ℕ
read_csr m imm =
    let csr = low_bits imm 8 in
    if csr == csr_timer then m.timer_counter else if csr == csr_epc then m.epc else m.csrs csr

unfoldable pub write_csr : Machine → ℕ → ℕ → Machine
write_csr m imm value =
    let csr = low_bits imm 8 in
    let m1 = record m { csrs = update m.csrs csr value } in
    let m2 =
      if csr == csr_timer
      then record m1 { timer_interval = value; timer_counter = value }
      else m1 in
    if csr == csr_ptbr || csr == csr_pmode then flush_tlb m2 else m2

-- The end of `step`.
unfoldable pub tick : Machine → Machine
tick m =
    if not m.halted && ltb 0 m.timer_interval
    then (if leb m.timer_counter 1
        then record m { pending_interrupt = true; timer_counter = m.timer_interval }
        else record m { timer_counter = m.timer_counter - 1 })
    else m

module _ {O : Type 0} where
  unfoldable pub finish : Flow O → Machine × O
  finish (returns m out) = (m, out)
  finish (falls_through m out) = (tick (clear_x0 m), out)

module _ {O : Type 0} (write_all : O → ℕ → Option O) where
  -- The `match opcode`; `m.pc` is past the instruction at `base`.
  unfoldable pub execute : Op → Machine → O → ℕ → Fields → Outcome (Flow O)
  unfolding with_address enter_vector leave_handler enter_user
  execute Op.halt m out base i = ok (falls_through (record m { halted = true; exit_code = 0 }) out)
  execute Op.li m out base i = ok (falls_through (set_reg m i.rd i.imm) out)
  execute Op.add m out base i =
      ok (falls_through (set_reg m i.rd ((m.regs i.rs1 + m.regs i.rs2) % 2 ^ 64)) out)
  execute Op.addi m out base i =
      ok (falls_through (set_reg m i.rd ((m.regs i.rs1 + i.imm) % 2 ^ 64)) out)
  execute Op.sub m out base i =
      ok (falls_through (set_reg m i.rd ((m.regs i.rs1 + 2 ^ 64 - m.regs i.rs2) % 2 ^ 64)) out)
  execute Op.and_op m out base i =
      ok (falls_through (set_reg m i.rd (bit_and (m.regs i.rs1) (m.regs i.rs2))) out)
  execute Op.or_op m out base i =
      ok (falls_through (set_reg m i.rd (bit_or (m.regs i.rs1) (m.regs i.rs2))) out)
  execute Op.load8 m out base i =
      with_address m out base ((m.regs i.rs1 + i.imm) % 2 ^ 64) load
        λ m' pa. read8 m' pa >>= λ v. ok (falls_through (set_reg m' i.rd v) out)
  execute Op.load64 m out base i =
      with_address m out base ((m.regs i.rs1 + i.imm) % 2 ^ 64) load
        λ m' pa. read64 m' pa >>= λ v. ok (falls_through (set_reg m' i.rd v) out)
  execute Op.store8 m out base i =
      with_address m out base ((m.regs i.rs1 + i.imm) % 2 ^ 64) store λ m' pa.
        write8 write_all m' out pa (m'.regs i.rs2 % 2 ^ 8) >>= λ r. ok (falls_through r.0 r.1)
  execute Op.store64 m out base i =
      with_address m out base ((m.regs i.rs1 + i.imm) % 2 ^ 64) store
        λ m' pa. write64 m' pa (m'.regs i.rs2) >>= λ w. ok (falls_through w out)
  execute Op.beq m out base i = ok (
      falls_through (if m.regs i.rs1 == m.regs i.rs2 then jump m (branch_target base i.imm) else m)
        out)
  execute Op.bne m out base i = ok (
      falls_through (if m.regs i.rs1 == m.regs i.rs2 then m else jump m (branch_target base i.imm))
        out)
  execute Op.jmp m out base i = ok (falls_through (jump m (branch_target base i.imm)) out)
  execute Op.trap m out base i = enter_vector m i.imm 0x2000 >>= λ m'. ok (falls_through m' out)
  execute Op.jmpr m out base i = ok (falls_through (jump m (m.regs i.rs1)) out)
  execute Op.eret m out base i = ok (falls_through (leave_handler m) out)
  execute Op.int m out base i = enter_vector m i.imm 0x2020 >>= λ m'. ok (falls_through m' out)
  execute Op.iret m out base i = ok (falls_through (leave_handler m) out)
  execute Op.sret m out base i = ok (falls_through (enter_user m (m.regs i.rs1)) out)
  execute Op.rdcsr m out base i = ok (falls_through (set_reg m i.rd (read_csr m i.imm)) out)
  execute Op.wrcsr m out base i = ok (falls_through (write_csr m i.imm (m.regs i.rs1)) out)
  execute Op.sfence m out base i = ok (falls_through (flush_tlb m) out)

  -- The fetched word, from its physical address. `base + 8` does not overflow: `base` is the
  -- physical address or lies below 2 ^ 48.
  unfoldable pub dispatch : Machine → O → ℕ → ℕ → Outcome (Machine × O)
  dispatch m out base phys_pc =
      if leb (2 ^ 64) (phys_pc + 8)
      then panic
      else if ltb ram_size (phys_pc + 8)
      then err (pc_out_of_bounds phys_pc)
      else if not (phys_pc % 8 == 0)
      then err (pc_misaligned phys_pc)
      else let i = decode (Common.load64 m.mem phys_pc) in
        (elim (op_of i.opcode) [
          | none ↦ err (illegal_opcode i.opcode)
          | some op ↦ execute op (jump m (base + 8)) out base i >>= λ flow. ok (finish flow)
        ])

  unfoldable pub fetched : O → ℕ → Reply × Machine → Outcome (Machine × O)
  fetched out base (mapped pa, m) = dispatch m out base pa
  fetched out base (fault f, m) = ok (clear_x0 (deliver_page_fault m base f), out)

  unfoldable pub step : Machine → O → Outcome (Machine × O)
  unfolding fetched
  step m out =
      if m.pending_interrupt && m.int_enabled
      then ok (deliver_interrupt (record m { pending_interrupt = false }) m.pc, out)
      else (translate m m.pc fetch >>= fetched out m.pc)

  -- The loop of `run`, on fuel: `none` if the machine has not halted by then.
  unfoldable pub run_loop : ℕ → Machine → O → Option (Outcome (ℕ × O))
  run_loop zero m out = none
  run_loop (suc fuel) m out = elim m.halted [
    | true ↦ some (ok (m.exit_code, out))
    | false ↦ elim (step m out) [
      | ok (m', out') ↦ run_loop fuel m' out'
      | err e ↦ some (err e)
      | panic ↦ some panic
    ]
  ]

  unfoldable pub run : ℕ → List ℕ → O → Option (Outcome (ℕ × O))
  run fuel binary out = run_loop fuel (load_binary new binary) out
