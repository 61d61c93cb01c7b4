-- ===== src/Kernel/Ports.antt =====
-- Port input and output: the instructions that mik-os-x86/kernel/src wraps in `inb` and `outb`
-- (serial.rs), `inl` and `outl` (pci.rs), and one step of `rep insw` and `rep outsw` (ata.rs). The
-- devices behind the ports are not the kernel's code, and stand here as a parameter.
use mik_os.Common.{ℕ}

pub record Ports : Type 1 where
  pub State : Type 0
  pub inb : State → ℕ → ℕ × State
  pub outb : State → ℕ → ℕ → State
  -- A 16-bit word is its low and its high byte.
  pub inw : State → ℕ → ℕ × ℕ × State
  pub outw : State → ℕ → ℕ → ℕ → State
  pub inl : State → ℕ → ℕ × State
  pub outl : State → ℕ → ℕ → State
