-- ===== src/Emu/Step/Invariant.antt =====
-- Every step keeps the widths and `x0`.
use mik_os.Common.{
  ℕ, ◌+◌, ◌-◌, ◌*◌, ◌/◌, ◌%◌, ◌^◌, ◌≤◌, ◌<◌, ◌≡◌, refl, subst, sym, ◌⊎◌, inl, inr, arith, Memory,
  IsBytes, update, update-IsBytes, store64-IsBytes, load64-lt, ◌==◌, ltb, leb, not, ◌&&◌, ◌||◌,
  Bool, true, false, if◌then◌else◌, Option, some, none, Bool-cases, Option-cases, bit_and, bit_or,
}
use mik_os.Common
use mik_os.Common.Bits.{low_bits, bit_and-le, bit_or-lt}
use mik_os.Emu.Word.{Op, Fields, decode, op_of}
use mik_os.Emu.Word.RoundTrip.{sext44_sum}
use mik_os.Emu.Machine.{
  Machine, illegal_opcode, Outcome, ok, err, panic, ◌>>=◌, read8, read64, write8, write64,
  flush_tlb, set_reg, ram_size,
}
use mik_os.Emu.Translate.{load, store, fetch, Reply, mapped, fault, translate}
use mik_os.Emu.Translate.Frame.{Answers, translate-Answers, translate-low}
use mik_os.Emu.Translate.Protection.{translate_fault}
use mik_os.Emu.Step.{
  enter_supervisor, Flow, falls_through, returns, jump, enter_vector, leave_handler, enter_user,
  read_csr, write_csr, execute, tick, finish, dispatch, fetched, step,
}
use mik_os.Emu.Step.Widths.{
  IsWord, Fits, IsMachine, set_reg-Fits, MemoryOnly-Fits, jump-Fits, enter_supervisor-Fits,
  clear_x0-IsMachine, acknowledge-IsMachine, deliver_interrupt-IsMachine,
  deliver_page_fault-IsMachine, FlowFits, with_address-FlowFits,
}

module _ {O : Type 0} where
  bind-FlowFits {ℓ} :
      {A : Type ℓ} (r : Outcome A) (k : A → Outcome (Flow O))
      → ((a : A) → r ≡ ok a → FlowFits (k a))
      → FlowFits (r >>= k)
  bind-FlowFits (ok a) k h = h a refl
  bind-FlowFits (err e) k h = tt
  bind-FlowFits panic k h = tt

read8-lt : (m : Machine) (a v : ℕ) → Fits m → read8 m a ≡ ok v → IsWord v
unfolding read8
read8-lt m a v h e = ground (arith, h.bytes a)

read64-lt : (m : Machine) (a v : ℕ) → Fits m → read64 m a ≡ ok v → IsWord v
unfolding read64
read64-lt m a v h e = ground (arith, load64-lt m.mem a h.bytes)

write64-Fits : (m w : Machine) (a v : ℕ) → Fits m → write64 m a v ≡ ok w → Fits w
unfolding write64
write64-Fits m w a v h e =
    MemoryOnly-Fits m w h
      (ground arith, λ b. ground (arith, h.bytes b, store64-IsBytes m.mem a v h.bytes b))

write8-Fits :
    {O : Type 0} (write_all : O → ℕ → Option O) (m w : Machine) (out out' : O) (a v : ℕ)
    → Fits m
    → v < 256
    → write8 write_all m out a v ≡ ok (w, out')
    → Fits w
unfolding write8
write8-Fits write_all m w out out' a v h k e =
    MemoryOnly-Fits m w h
      (ground arith, λ b. ground (arith, h.bytes b, update-IsBytes m.mem a v h.bytes k b))

module _ {O : Type 0} where
  enter_vector-FlowFits :
      (m : Machine) (out : O) (imm vector : ℕ)
      → Fits m
      → IsWord imm
      → FlowFits (enter_vector m imm vector >>= λ m'. ok (falls_through m' out))
  unfolding enter_vector
  enter_vector-FlowFits m out imm vector h k = go (read64 entered vector) refl
    where
      entered : Machine
      entered = set_reg (enter_supervisor m m.pc) 10 imm

      entered-Fits : Fits entered
      entered-Fits = set_reg-Fits _ 10 imm (enter_supervisor-Fits m m.pc h h.pc_fits) k

      go :
          (r : Outcome ℕ)
          → read64 entered vector ≡ r
          → FlowFits
              ((r >>= λ handler. ok (jump entered handler)) >>= λ m'. ok (falls_through m' out))
      go (ok v) e = jump-Fits entered v entered-Fits (read64-lt entered vector v entered-Fits e)
      go (err x) e = tt
      go panic e = tt

write_csr-Fits : (m : Machine) (imm v : ℕ) → Fits m → IsWord v → Fits (write_csr m imm v)
unfolding write_csr flush_tlb
write_csr-Fits m imm v h k = record {
  regs_fit = λ q. ground (arith, h.regs_fit q);
  csrs_fit = λ q. ground (arith, h.csrs_fit q);
  pc_fits = ground (arith, h.pc_fits);
  epc_fits = ground (arith, h.epc_fits);
  counter_fits = ground (arith, h.counter_fits);
  interval_fits = ground (arith, h.interval_fits);
  bytes = λ q. ground (arith, h.bytes q);
}

read_csr-lt : (m : Machine) (imm : ℕ) → Fits m → IsWord (read_csr m imm)
unfolding read_csr
read_csr-lt m imm h = ground (arith, h.csrs_fit (low_bits imm 8), h.counter_fits, h.epc_fits)

leave_handler-Fits : (m : Machine) → Fits m → Fits (leave_handler m)
unfolding leave_handler
leave_handler-Fits m h = record {
  regs_fit = h.regs_fit;
  csrs_fit = h.csrs_fit;
  pc_fits = h.epc_fits;
  epc_fits = h.epc_fits;
  counter_fits = h.counter_fits;
  interval_fits = h.interval_fits;
  bytes = h.bytes;
}

tick-IsMachine : (m : Machine) → IsMachine m → IsMachine (tick m)
unfolding tick
tick-IsMachine m h = record {
  fits = record {
    regs_fit = λ q. ground (arith, h.fits.regs_fit q);
    csrs_fit = λ q. ground (arith, h.fits.csrs_fit q);
    pc_fits = ground (arith, h.fits.pc_fits);
    epc_fits = ground (arith, h.fits.epc_fits);
    counter_fits = ground (arith, h.fits.counter_fits, h.fits.interval_fits);
    interval_fits = ground (arith, h.fits.interval_fits);
    bytes = λ q. ground (arith, h.fits.bytes q);
  };
  x0_zero = ground (arith, h.x0_zero);
}

enter_user-Fits : (m : Machine) (target : ℕ) → Fits m → IsWord target → Fits (enter_user m target)
unfolding enter_user
enter_user-Fits m target h k = record {
  regs_fit = h.regs_fit;
  csrs_fit = h.csrs_fit;
  pc_fits = k;
  epc_fits = h.epc_fits;
  counter_fits = h.counter_fits;
  interval_fits = h.interval_fits;
  bytes = h.bytes;
}

module _ {O : Type 0} (write_all : O → ℕ → Option O) where
  -- Each instruction keeps the widths.
  execute-FlowFits :
      (op : Op) (m : Machine) (out : O) (base : ℕ) (i : Fields)
      → Fits m
      → IsWord base
      → IsWord i.imm
      → FlowFits (execute write_all op m out base i)
  unfolding execute flush_tlb
  execute-FlowFits Op.halt m out base i h b k = record {
    regs_fit = h.regs_fit;
    csrs_fit = h.csrs_fit;
    pc_fits = h.pc_fits;
    epc_fits = h.epc_fits;
    counter_fits = h.counter_fits;
    interval_fits = h.interval_fits;
    bytes = h.bytes;
  }
  execute-FlowFits Op.li m out base i h b k = set_reg-Fits m i.rd _ h k
  execute-FlowFits Op.add m out base i h b k = set_reg-Fits m i.rd _ h (omega arith)
  execute-FlowFits Op.addi m out base i h b k = set_reg-Fits m i.rd _ h (omega arith)
  execute-FlowFits Op.sub m out base i h b k = set_reg-Fits m i.rd _ h (omega arith)
  execute-FlowFits Op.and_op m out base i h b k =
      set_reg-Fits m i.rd _ h
        (omega (arith, h.regs_fit i.rs1, bit_and-le (m.regs i.rs1) (m.regs i.rs2)))
  execute-FlowFits Op.or_op m out base i h b k =
      set_reg-Fits m i.rd _ h
        (bit_or-lt 64 (m.regs i.rs1) (m.regs i.rs2) (h.regs_fit i.rs1) (h.regs_fit i.rs2))
  execute-FlowFits Op.load8 m out base i h b k =
      with_address-FlowFits m out base _ load _ h b (omega arith) λ m' pa h'.
        bind-FlowFits (read8 m' pa) _ λ v e. set_reg-Fits m' i.rd v h' (read8-lt m' pa v h' e)
  execute-FlowFits Op.load64 m out base i h b k =
      with_address-FlowFits m out base _ load _ h b (omega arith) λ m' pa h'.
        bind-FlowFits (read64 m' pa) _ λ v e. set_reg-Fits m' i.rd v h' (read64-lt m' pa v h' e)
  execute-FlowFits Op.store8 m out base i h b k =
      with_address-FlowFits m out base _ store _ h b (omega arith) λ m' pa h'.
        bind-FlowFits (write8 write_all m' out pa (m'.regs i.rs2 % 2 ^ 8)) _
          λ r e. write8-Fits write_all m' r.0 out r.1 pa _ h' (omega arith) e
  execute-FlowFits Op.store64 m out base i h b k =
      with_address-FlowFits m out base _ store _ h b (omega arith) λ m' pa h'.
        bind-FlowFits (write64 m' pa (m'.regs i.rs2)) _
          λ w e. write64-Fits m' w pa (m'.regs i.rs2) h' e
  execute-FlowFits Op.beq m out base i h b k = elim (Bool-cases (m.regs i.rs1 == m.regs i.rs2)) [
    | inl e ↦ rw (e, FlowFits) (jump-Fits m _ h (omega arith))
    | inr e ↦ rw (e, FlowFits) h
  ]
  execute-FlowFits Op.bne m out base i h b k = elim (Bool-cases (m.regs i.rs1 == m.regs i.rs2)) [
    | inl e ↦ rw (e, FlowFits) h
    | inr e ↦ rw (e, FlowFits) (jump-Fits m _ h (omega arith))
  ]
  execute-FlowFits Op.jmp m out base i h b k = jump-Fits m _ h (omega arith)
  execute-FlowFits Op.trap m out base i h b k = enter_vector-FlowFits m out i.imm 0x2000 h k
  execute-FlowFits Op.jmpr m out base i h b k = jump-Fits m _ h (h.regs_fit i.rs1)
  execute-FlowFits Op.eret m out base i h b k = leave_handler-Fits m h
  execute-FlowFits Op.int m out base i h b k = enter_vector-FlowFits m out i.imm 0x2020 h k
  execute-FlowFits Op.iret m out base i h b k = leave_handler-Fits m h
  execute-FlowFits Op.sret m out base i h b k =
      enter_user-Fits m (m.regs i.rs1) h (h.regs_fit i.rs1)
  execute-FlowFits Op.rdcsr m out base i h b k = set_reg-Fits m i.rd _ h (read_csr-lt m i.imm h)
  execute-FlowFits Op.wrcsr m out base i h b k =
      write_csr-Fits m i.imm (m.regs i.rs1) h (h.regs_fit i.rs1)
  execute-FlowFits Op.sfence m out base i h b k = MemoryOnly-Fits m _ h (refl, h.bytes)

  finish-IsMachine : (f : Flow O) → FlowFits (ok f) → IsMachine (finish f).0
  unfolding finish
  finish-IsMachine (falls_through m out) h = tick-IsMachine _ (clear_x0-IsMachine m h)
  finish-IsMachine (returns m out) h = h

  abbrev pub StepKeeps : Outcome (Machine × O) → Type 0
  StepKeeps (ok (m, out)) = IsMachine m
  StepKeeps (err e) = Unit
  StepKeeps panic = Unit

  dispatch-StepKeeps :
      (m : Machine) (out : O) (base pa : ℕ)
      → Fits m
      → (pa ≡ base) ⊎ (base < 2 ^ 48)
      → StepKeeps (dispatch write_all m out base pa)
  unfolding dispatch
  dispatch-StepKeeps m out base pa h low = elim (Bool-cases (leb (2 ^ 64) (pa + 8))) [
    | inl e ↦ rw (e, StepKeeps) tt
    | inr e ↦
        rw (e, StepKeeps)
          (elim (Bool-cases (ltb ram_size (pa + 8))) [
            | inl beyond ↦ rw (beyond, StepKeeps) tt
            | inr inside ↦
                rw (inside, StepKeeps)
                  (elim (Bool-cases (pa % 8 == 0)) [
                    | inr odd ↦ rw (odd, StepKeeps) tt
                    | inl even ↦ rw (even, StepKeeps) (decoded (op_of i.opcode) (ground arith))
                  ])
          ])
  ]
    where
      i : Fields
      i = decode (Common.load64 m.mem pa)

      imm-lt : IsWord i.imm
      imm-lt = unfold decode in ground (arith, sext44_sum (Common.load64 m.mem pa))

      decoded :
          (o : Option Op)
          → base + 8 < 2 ^ 64
          → StepKeeps (elim o [
            | none ↦ err (illegal_opcode i.opcode)
            | some op ↦
                execute write_all op (jump m (base + 8)) out base i >>= λ flow. ok (finish flow)
          ])
      decoded none fits = tt
      decoded (some op) fits = finished (execute write_all op (jump m (base + 8)) out base i) (
          execute-FlowFits op (jump m (base + 8)) out base i (jump-Fits m (base + 8) h fits)
            (omega arith) imm-lt)
        where
          finished :
              (r : Outcome (Flow O)) → FlowFits r → StepKeeps (r >>= λ flow. ok (finish flow))
          finished (ok flow) k = finish-IsMachine flow k
          finished (err e) k = tt
          finished panic k = tt

  -- A step from a machine whose registers, pc, counters and bytes have their widths and whose
  -- `x0` is zero leads to such a machine, on every path: interrupt, page fault or instruction.
  pub step-StepKeeps : (m : Machine) (out : O) → IsMachine m → StepKeeps (step write_all m out)
  unfolding step fetched
  step-StepKeeps m out h = elim (Bool-cases (m.pending_interrupt && m.int_enabled)) [
    | inl e ↦
        rw (e, StepKeeps)
          (deliver_interrupt-IsMachine _ m.pc (acknowledge-IsMachine m h) h.fits.pc_fits)
    | inr e ↦
        rw (e, StepKeeps)
          (go (translate m m.pc fetch) refl (translate-Answers m m.pc fetch h.fits.bytes))
  ]
    where
      go :
          (r : Outcome (Reply × Machine))
          → translate m m.pc fetch ≡ r
          → Answers m r
          → StepKeeps (r >>= fetched write_all out m.pc)
      go (ok (mapped pa, m')) e a =
          dispatch-StepKeeps m' out m.pc pa (MemoryOnly-Fits m m' h.fits a)
            (translate-low m m' m.pc fetch pa e)
      go (ok (fault f, m')) e a =
          let (same, asked, why) = translate_fault m m' m.pc fetch f e in
          deliver_page_fault-IsMachine m' m.pc f (MemoryOnly-Fits m m' h.fits a) h.fits.pc_fits
            why.known.1 (subst IsWord (sym asked) h.fits.pc_fits)
      go (err x) e a = tt
      go panic e a = tt
