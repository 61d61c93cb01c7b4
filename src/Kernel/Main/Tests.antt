-- ===== src/Kernel/Main/Tests.antt =====
-- The theorems on the parts of the boot at concrete devices and states.
use mik_os.Common.{
  ℕ, zero, suc, ◌+◌, ◌*◌, ◌≤◌, ◌<◌, ◌⊎◌, ◌≡◌, refl, arith, ◌==◌, if◌then◌else◌, some, Memory,
  load64,
}
use mik_os.Kernel.Ports.{Ports}
use mik_os.Kernel.Idt.{Stubs, Are64}
use mik_os.Kernel.Pic.{pic1_cmd, pic1_data, pic2_cmd, init_pic}
use mik_os.Kernel.Pic.Lines.{
  Chip, masking, icw1, data_word, ArePics, Silent, Handled, unmasked-Says,
}
use mik_os.Kernel.Pci.{addr_port, scan}
use mik_os.Kernel.Pci.Listing.{IsPci, listing, scan-listing}
use mik_os.Kernel.Identity.{
  large_entry, extend_identity_map, large_page, extend_identity_map-identity,
}

-- Ports with the two interrupt controllers behind them.
abbrev both_chips : Ports
both_chips = record {
  State = Chip × Chip;
  inb = λ c port. (0, c);
  outb = λ c port v.
      if port == pic1_cmd
      then (icw1 c.0, c.1)
      else if port == pic2_cmd
      then (c.0, icw1 c.1)
      else if port == pic1_data
      then (data_word c.0.stage v c.0, c.1)
      else (c.0, data_word c.1.stage v c.1);
  inw = λ c port. (0, 0, c);
  outw = λ c port lo hi. c;
  inl = λ c port. (0, c);
  outl = λ c port v. c;
}

both_chips-ArePics : ArePics both_chips (λ c. c.0) (λ c. c.1)
both_chips-ArePics = record {
  start1 = λ c. (refl, refl);
  start2 = λ c. (refl, refl);
  word1 = λ c v. (refl, refl);
  word2 = λ c v. (refl, refl);
  mask_read = λ c. (refl, refl);
}

abbrev stubs : Stubs
stubs = record {
  isr_table = λ v. 0x400000;
  isr_timer = 0x400100;
  isr_kbd = 0x400110;
  isr_uart = 0x400120;
  isr_syscall = 0x400130;
}

stubs-Are64 : Are64 stubs
stubs-Are64 = record {
  table = λ v. omega arith;
  timer = omega arith;
  kbd = omega arith;
  uart = omega arith;
  syscall = omega arith;
}

abbrev bios_chip : Chip
bios_chip = record { stage = masking; base = 8; mask = 0 }

unmasked-Says_example :
    Silent (init_pic both_chips (bios_chip, bios_chip)).1 4
    ⊎ Handled stubs (init_pic both_chips (bios_chip, bios_chip)).0 4
unfolding init_pic
unmasked-Says_example =
    unmasked-Says both_chips (λ c. c.0) (λ c. c.1) both_chips-ArePics (bios_chip, bios_chip) stubs 4
      stubs-Are64 (omega arith) refl

-- A configuration space with two functions of one device, and the address chosen.
abbrev config : ℕ → ℕ
config a =
    if a == 0x80000000
    then 0x12378086
    else if a == 0x8000000C
    then 0x00800000
    else if a == 0x80000100
    then 0x70108086
    else if a == 0x80000108
    then 0x01010000
    else 0xFFFFFFFF

abbrev pci_ports : Ports
pci_ports = record {
  State = ℕ;
  inb = λ a port. (0, a);
  outb = λ a port v. a;
  inw = λ a port. (0, 0, a);
  outw = λ a port lo hi. a;
  inl = λ a port. (config a, a);
  outl = λ a port v. if port == addr_port then v else a;
}

pci_ports-IsPci : IsPci pci_ports (λ a. config)
pci_ports-IsPci = record { value = λ s a. refl; kept = λ s a. refl }

scan-listing_example : ((scan pci_ports 0).0 ≡ listing config) × (◌≡◌ {A = ℕ → ℕ} config config)
scan-listing_example = scan-listing pci_ports (λ a. config) pci_ports-IsPci 0

-- A page directory at 0x1000 with the three entries of boot.S: bytes 0, 2 and 5 of each.
abbrev boot_memory : Memory
boot_memory a =
    if a == 0x1000
    then 0x83
    else if a == 0x1008
    then 0x83
    else if a == 0x100A
    then 0x20
    else if a == 0x1010
    then 0x83
    else if a == 0x1012
    then 0x40
    else 0

boot_entries : (i : ℕ) → i < 3 → load64 boot_memory (0x1000 + i * 8) ≡ large_entry i
unfolding load64 large_entry
boot_entries zero h = refl
boot_entries (suc zero) h = refl
boot_entries (suc (suc zero)) h = refl
boot_entries (suc (suc (suc i))) h = absurd (omega (arith, h))

extend_identity_map-identity_example :
    (large_page (extend_identity_map boot_memory 0x1000) 0x1000 0x12345678 ≡ some 0x12345678)
    × ((a : ℕ)
        → (a < 0x1000) ⊎ (0x1000 + 4096 ≤ a)
        → extend_identity_map boot_memory 0x1000 a ≡ boot_memory a)
extend_identity_map-identity_example =
    extend_identity_map-identity boot_memory 0x1000 boot_entries 0x12345678 (omega arith)
