-- ===== src/Kernel/Ata/Protocol.antt =====
-- What mik-os-x86/kernel/src/ata.rs relies on of the drive behind its ports: the LBA28 part of the ATA
-- protocol, for transfers of one sector. The abstract drive, and the laws that tie ports to it.
use mik_os.Common.{
  ℕ, zero, suc, ◌+◌, ◌-◌, ◌*◌, ◌/◌, ◌%◌, ◌^◌, ◌≤◌, bit_and, ◌≡◌, ◌==◌, ltb, if◌then◌else◌, Bool,
  true, false, not, Memory, update,
}
use mik_os.Kernel.Ports.{Ports}
use mik_os.Kernel.Ata.{
  data_port, count_port, lba_lo_port, lba_mid_port, lba_hi_port, drive_port, status_port, alt_port,
  max_spins,
}

-- `reading sec at n`: the drive hands out bytes of `sec` from index `at`, with `n` words to go.
-- `writing lba sec at n`: it takes them. With no word to go it is done.
pub data Phase : Type 0 where
  idle : Phase
  failed : Phase
  reading : Memory → ℕ → ℕ → Phase
  writing : ℕ → Memory → ℕ → ℕ → Phase

-- `busy` bounds the polls that still find BSY set.
pub record Drive : Type 0 where
  pub regs : ℕ → ℕ
  pub phase : Phase
  pub busy : ℕ
  pub sectors : ℕ → Memory

abbrev pub wants_data : Phase → Bool
wants_data (reading sec at (suc n)) = true
wants_data (writing lba sec at (suc n)) = true
wants_data phase = false

abbrev pub has_failed : Phase → Bool
has_failed failed = true
has_failed phase = false

-- The address in the registers.
abbrev pub address : (ℕ → ℕ) → ℕ
address regs =
    regs lba_lo_port
    + 2 ^ 8 * regs lba_mid_port
    + 2 ^ 16 * regs lba_hi_port
    + 2 ^ 24 * (regs drive_port % 16)

abbrev pub latch : ℕ → ℕ → Drive → Drive
latch port v d = record d { regs = update d.regs port v }

-- A command, for an address below the capacity or not.
abbrev pub start : Bool → Phase → ℕ → Drive → Drive
start fits phase delay d = record d { phase = if fits then phase else failed; busy = delay }

-- A word of a transfer. The last word of a write puts the sector in place.
abbrev pub hand_out : Memory → ℕ → ℕ → Drive → Drive
hand_out sec at n d = record d { phase = reading sec (at + 2) n }

abbrev pub take_in : ℕ → Memory → ℕ → ℕ → ℕ → Drive → Drive
take_in lba sec at zero delay d = record d {
  phase = idle;
  busy = delay;
  sectors = update d.sectors lba sec;
}
take_in lba sec at (suc n) delay d = record d { phase = writing lba sec (at + 2) (suc n) }

abbrev pub two_bytes : Memory → ℕ → ℕ → ℕ → Memory
two_bytes sec at lo hi = update (update sec at lo) (at + 1) hi

-- The commands want one sector, in LBA mode, of the master: 0xE in the upper half of the drive register.
pub record IsAsked (regs : ℕ → ℕ) : Type 0 where
  pub one : regs count_port ≡ 1
  pub mode : regs drive_port / 16 ≡ 14

-- BSY is clear, and no transfer is under way.
pub record IsReady (d : Drive) : Type 0 where
  pub clear : d.busy ≡ 0
  pub over : wants_data d.phase ≡ false

-- The registers of the task file.
pub data IsTaskFile : ℕ → Type 0 where
  count : IsTaskFile count_port
  lba_lo : IsTaskFile lba_lo_port
  lba_mid : IsTaskFile lba_mid_port
  lba_hi : IsTaskFile lba_hi_port
  drive : IsTaskFile drive_port

-- The laws. No command keeps the drive busy for longer than the driver waits, and commands fail only for
-- an address past the end. While BSY is set, ERR and DRQ read as clear.
pub record IsAta (p : Ports) (view : p.State → Drive) (capacity : ℕ) : Type 0 where
  pub alt :
      (s : p.State)
      → (b : ℕ) × (b ≤ (view s).busy) × (view (p.inb s alt_port).1 ≡ record (view s) { busy = b })
  pub poll :
      (s : p.State)
      → (b : ℕ) × (b ≤ (view s).busy - 1)
        × (view (p.inb s status_port).1 ≡ record (view s) { busy = b })
  pub busy_bit : (s : p.State) → (bit_and (p.inb s status_port).0 0x80 == 0) ≡ ((view s).busy == 0)
  pub error_bit :
      (s : p.State)
      → (bit_and (p.inb s status_port).0 0x01 == 0)
        ≡ (if (view s).busy == 0 then not (has_failed (view s).phase) else true)
  pub data_bit :
      (s : p.State)
      → (bit_and (p.inb s status_port).0 0x08 == 0)
        ≡ (if (view s).busy == 0 then not (wants_data (view s).phase) else true)
  pub register :
      (s : p.State) (port v : ℕ)
      → IsReady (view s)
      → IsTaskFile port
      → view (p.outb s port v) ≡ latch port v (view s)
  pub read_command :
      (s : p.State)
      → IsReady (view s)
      → IsAsked (view s).regs
      → (delay : ℕ) × (delay ≤ max_spins)
        × (view (p.outb s status_port 0x20)
            ≡ start
                (ltb (address (view s).regs) capacity)
                (reading ((view s).sectors (address (view s).regs)) 0 256)
                delay
                (view s))
  pub write_command :
      (s : p.State)
      → IsReady (view s)
      → IsAsked (view s).regs
      → (delay : ℕ) × (delay ≤ max_spins)
        × (view (p.outb s status_port 0x30)
            ≡ start
                (ltb (address (view s).regs) capacity)
                (writing (address (view s).regs) (λ _. 0) 0 256)
                delay
                (view s))
  pub flush_command :
      (s : p.State)
      → IsReady (view s)
      → (delay : ℕ) × (delay ≤ max_spins)
        × (view (p.outb s status_port 0xE7) ≡ start true idle delay (view s))
  pub word_out :
      (s : p.State) (sec : Memory) (at n : ℕ)
      → (view s).busy ≡ 0
      → (view s).phase ≡ reading sec at (suc n)
      → ((p.inw s data_port).0 ≡ sec at)
        × ((p.inw s data_port).1 ≡ sec (at + 1))
        × (view (p.inw s data_port).2 ≡ hand_out sec at n (view s))
  pub word_in :
      (s : p.State) (lo hi lba : ℕ) (sec : Memory) (at n : ℕ)
      → (view s).busy ≡ 0
      → (view s).phase ≡ writing lba sec at (suc n)
      → (delay : ℕ) × (delay ≤ max_spins)
        × (view (p.outw s data_port lo hi)
            ≡ take_in lba (two_bytes sec at lo hi) at n delay (view s))
