-- ===== src/Emu/Step/Widths.antt =====
-- Every register, counter and byte keeps its width, and `x0` stays zero.
use mik_os.Common.{ℕ, ◌^◌, ◌<◌, ◌≡◌, refl, subst, sym, arith, IsBytes, load64-lt, false}
use mik_os.Emu.Machine.{Machine, Outcome, ok, err, panic, ◌>>=◌, set_reg}
use mik_os.Emu.Translate.{Access, PageFault, Reply, mapped, fault, translate}
use mik_os.Emu.Translate.Frame.{MemoryOnly, Answers, translate-Answers}
use mik_os.Emu.Translate.Protection.{translate_fault}
use mik_os.Emu.Step.{
  enter_supervisor, deliver_interrupt, deliver_page_fault, clear_x0, Flow, falls_through, returns,
  jump, after_translate, with_address,
}

abbrev pub IsWord : ℕ → Type 0
IsWord v = v < 2 ^ 64

-- The widths.
pub record Fits (m : Machine) : Type 0 where
  pub regs_fit : (r : ℕ) → IsWord (m.regs r)
  pub csrs_fit : (c : ℕ) → IsWord (m.csrs c)
  pub pc_fits : IsWord m.pc
  pub epc_fits : IsWord m.epc
  pub counter_fits : IsWord m.timer_counter
  pub interval_fits : IsWord m.timer_interval
  pub bytes : IsBytes m.mem

pub record IsMachine (m : Machine) : Type 0 where
  pub fits : Fits m
  pub x0_zero : m.regs 0 ≡ 0

pub set_reg-Fits : (m : Machine) (r v : ℕ) → Fits m → IsWord v → Fits (set_reg m r v)
set_reg-Fits m r v h k = record {
  regs_fit = λ q. ground (arith, h.regs_fit q);
  csrs_fit = h.csrs_fit;
  pc_fits = h.pc_fits;
  epc_fits = h.epc_fits;
  counter_fits = h.counter_fits;
  interval_fits = h.interval_fits;
  bytes = h.bytes;
}

-- A change of the memory and the TLB alone.
pub MemoryOnly-Fits : (m m' : Machine) → Fits m → MemoryOnly m m' → Fits m'
MemoryOnly-Fits m m' h (same, bytes) = subst Fits (sym same) (record {
  regs_fit = h.regs_fit;
  csrs_fit = h.csrs_fit;
  pc_fits = h.pc_fits;
  epc_fits = h.epc_fits;
  counter_fits = h.counter_fits;
  interval_fits = h.interval_fits;
  bytes = bytes;
})

pub jump-Fits : (m : Machine) (target : ℕ) → Fits m → IsWord target → Fits (jump m target)
jump-Fits m target h k = record {
  regs_fit = h.regs_fit;
  csrs_fit = h.csrs_fit;
  pc_fits = k;
  epc_fits = h.epc_fits;
  counter_fits = h.counter_fits;
  interval_fits = h.interval_fits;
  bytes = h.bytes;
}

pub enter_supervisor-Fits :
    (m : Machine) (pc : ℕ) → Fits m → IsWord pc → Fits (enter_supervisor m pc)
enter_supervisor-Fits m pc h k = record {
  regs_fit = h.regs_fit;
  csrs_fit = h.csrs_fit;
  pc_fits = h.pc_fits;
  epc_fits = k;
  counter_fits = h.counter_fits;
  interval_fits = h.interval_fits;
  bytes = h.bytes;
}

pub acknowledge-IsMachine :
    (m : Machine) → IsMachine m → IsMachine (record m { pending_interrupt = false })
acknowledge-IsMachine m h = record {
  fits = record {
    regs_fit = h.fits.regs_fit;
    csrs_fit = h.fits.csrs_fit;
    pc_fits = h.fits.pc_fits;
    epc_fits = h.fits.epc_fits;
    counter_fits = h.fits.counter_fits;
    interval_fits = h.fits.interval_fits;
    bytes = h.fits.bytes;
  };
  x0_zero = h.x0_zero;
}

pub clear_x0-IsMachine : (m : Machine) → Fits m → IsMachine (clear_x0 m)
clear_x0-IsMachine m h = record { fits = set_reg-Fits m 0 0 h (omega arith); x0_zero = refl }

pub deliver_interrupt-IsMachine :
    (m : Machine) (pc : ℕ) → IsMachine m → IsWord pc → IsMachine (deliver_interrupt m pc)
unfolding deliver_interrupt
deliver_interrupt-IsMachine m pc h k = record {
  fits =
      jump-Fits (enter_supervisor m pc) _ (enter_supervisor-Fits m pc h.fits k)
        (load64-lt m.mem 0x2020 h.fits.bytes);
  x0_zero = h.x0_zero;
}

pub deliver_page_fault-IsMachine :
    (m : Machine) (pc : ℕ) (f : PageFault)
    → Fits m
    → IsWord pc
    → f.code < 6
    → IsWord f.va
    → IsMachine (clear_x0 (deliver_page_fault m pc f))
unfolding deliver_page_fault
deliver_page_fault-IsMachine m pc f h k c v = clear_x0-IsMachine _ (
    jump-Fits _ _
      (set_reg-Fits _ 11 f.va
        (set_reg-Fits _ 10 f.code (enter_supervisor-Fits m pc h k) (omega arith)) v)
      (load64-lt m.mem 0x2010 h.bytes))

module _ {O : Type 0} where
  abbrev pub FlowFits : Outcome (Flow O) → Type 0
  FlowFits (ok (falls_through m out)) = Fits m
  FlowFits (ok (returns m out)) = IsMachine m
  FlowFits (err e) = Unit
  FlowFits panic = Unit

  -- An access at a translated address keeps the widths if its use of the address does.
  pub with_address-FlowFits :
      (m : Machine) (out : O) (base va : ℕ) (access : Access)
      (use_it : Machine → ℕ → Outcome (Flow O))
      → Fits m
      → IsWord base
      → IsWord va
      → ((m' : Machine) (pa : ℕ) → Fits m' → FlowFits (use_it m' pa))
      → FlowFits (with_address m out base va access use_it)
  unfolding with_address after_translate
  with_address-FlowFits m out base va access use_it h b v use_fits =
      go (translate m va access) refl (translate-Answers m va access h.bytes)
    where
      go :
          (r : Outcome (Reply × Machine))
          → translate m va access ≡ r
          → Answers m r
          → FlowFits (r >>= after_translate out base use_it)
      go (ok (mapped pa, m')) e a = use_fits m' pa (MemoryOnly-Fits m m' h a)
      go (ok (fault f, m')) e a =
          let (same, asked, why) = translate_fault m m' va access f e in
          deliver_page_fault-IsMachine m' base f (MemoryOnly-Fits m m' h a) b why.known.1
            (subst IsWord (sym asked) v)
      go (err x) e a = tt
      go panic e a = tt
