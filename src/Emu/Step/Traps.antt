-- ===== src/Emu/Step/Traps.antt =====
-- Traps, interrupts and their returns, and the interval timer.
use mik_os.Common.{
  ℕ, zero, suc, ◌-◌, ◌≤◌, ◌<◌, ◌≡◌, refl, sym, arith, true, false, Option, update, load64,
}
use mik_os.Emu.Word.{Op, Fields}
use mik_os.Emu.Machine.{Machine, ok, read64}
use mik_os.Emu.Step.{deliver_interrupt, falls_through, leave_handler, execute, tick, step}

-- An interrupt that is answered by an immediate IRET cannot be observed but in the saved pc and
-- mode: every register, the pc, the mode, memory and the timer are as before.
pub leave_handler-deliver_interrupt :
    (m : Machine)
    → m.int_enabled ≡ true
    → leave_handler (deliver_interrupt m m.pc)
      ≡ record m { epc = m.pc; previous_user_mode = m.user_mode }
unfolding leave_handler deliver_interrupt
leave_handler-deliver_interrupt m on =
    λ i. record m { epc = m.pc; previous_user_mode = m.user_mode; int_enabled = sym on i }

module _ {O : Type 0} (write_all : O → ℕ → Option O) where
  -- A step with an interrupt pending and enabled executes no instruction: it saves the pc and the
  -- mode, masks interrupts, and jumps in supervisor mode to the handler stored at 0x2020, with
  -- registers, memory, TLB, timer and output unchanged.
  pub step_interrupt :
      (m : Machine) (out : O)
      → m.pending_interrupt ≡ true
      → m.int_enabled ≡ true
      → step write_all m out
        ≡ ok (
          record m {
            pc = load64 m.mem 0x2020;
            epc = m.pc;
            user_mode = false;
            previous_user_mode = m.user_mode;
            pending_interrupt = false;
            int_enabled = false;
          },
          out,
        )
  unfolding step deliver_interrupt
  step_interrupt m out p e = rw (p, e) refl

  -- After TRAP, a handler that ends in ERET with the saved pc and mode untouched returns to the
  -- instruction behind the TRAP, in the mode of before, with interrupts enabled, and with the
  -- registers and memory of the handler. The handler starts masked, in supervisor mode, at the
  -- address stored at 0x2000, with the immediate in x10 and the other registers unchanged.
  pub trap-eret :
      (m w : Machine) (out out' : O) (base : ℕ) (i : Fields)
      → execute write_all Op.trap m out base i ≡ ok (falls_through w out')
      → (out ≡ out')
        × (w.user_mode ≡ false)
        × (w.int_enabled ≡ false)
        × (w.pc ≡ load64 m.mem 0x2000)
        × (w.regs ≡ update m.regs 10 i.imm)
        × ((h r : Machine) (o o' : O) (b : ℕ) (j : Fields)
            → h.epc ≡ w.epc
            → h.previous_user_mode ≡ w.previous_user_mode
            → execute write_all Op.eret h o b j ≡ ok (falls_through r o')
            → (r.pc ≡ m.pc)
              × (r.user_mode ≡ m.user_mode)
              × (r.int_enabled ≡ true)
              × (r.regs ≡ h.regs)
              × (r.mem ≡ h.mem))
  unfolding execute read64
  trap-eret m w out out' base i e = (
    ground arith,
    ground arith,
    ground arith,
    ground arith,
    ground arith,
    λ h r o o' b j p q f. ground arith,
  )

-- `n` instructions' worth of timer.
abbrev pub ticks : ℕ → Machine → Machine
ticks zero m = m
ticks (suc n) m = ticks n (tick m)

tick_down :
    (m : Machine)
    → m.halted ≡ false
    → 0 < m.timer_interval
    → 1 < m.timer_counter
    → tick m ≡ record m { timer_counter = m.timer_counter - 1 }
unfolding tick
tick_down m h i c = ground arith

tick_fire :
    (m : Machine)
    → m.halted ≡ false
    → 0 < m.timer_interval
    → m.timer_counter ≤ 1
    → tick m ≡ record m { pending_interrupt = true; timer_counter = m.timer_interval }
unfolding tick
tick_fire m h i c = ground arith

-- Loaded with a counter of `n + 1`, the timer of a running machine counts the first `n`
-- instructions down and changes nothing else, and the next one raises the interrupt and reloads
-- the counter with the interval.
pub ticks_lem :
    (n : ℕ) (m : Machine)
    → m.halted ≡ false
    → 0 < m.timer_interval
    → m.timer_counter ≡ suc n
    → (ticks n m ≡ record m { timer_counter = 1 })
      × (ticks (suc n) m ≡ record m { pending_interrupt = true; timer_counter = m.timer_interval })
ticks_lem zero m h i c = (λ j. record m { timer_counter = c j }, tick_fire m h i (omega arith))
ticks_lem (suc n) m h i c =
    rw (tick_down m h i (omega arith))
      (ticks_lem n (record m { timer_counter = m.timer_counter - 1 }) h i (omega arith))
