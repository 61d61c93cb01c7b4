-- ===== src/Kernel/Disk.antt =====
-- What Mik-FS relies on of the block device driver (mik-os-x86/kernel/src/ata.rs): single-sector
-- reads and writes that report success. A sector is the function of its 512 bytes.
use mik_os.Common.{ℕ, ◌^◌, ◌<◌, ◌≡◌, ◌≢◌, refl, ap, arith, Bool, true, Option, some, Memory, update}

pub record Disk : Type 1 where
  pub State : Type 0
  pub present : State → Bool
  pub read_sector : State → ℕ → Option Memory
  pub write_sector : State → ℕ → Memory → Bool × State
  -- A successful write is read back.
  pub read-write :
      (d : State) (lba : ℕ) (sec : Memory)
      → (write_sector d lba sec).0 ≡ true
      → (got : Memory) × (read_sector (write_sector d lba sec).1 lba ≡ some got)
        × ((i : ℕ) → i < 512 → got i ≡ sec i)
  -- A write, successful or not, leaves the other sectors alone, among those of 28-bit addresses.
  pub read-write_ne :
      (d : State) (lba other : ℕ) (sec : Memory)
      → lba < 2 ^ 28
      → other < 2 ^ 28
      → other ≢ lba
      → read_sector (write_sector d lba sec).1 other ≡ read_sector d other

-- A disk in memory, which holds what was last written.
abbrev pub ram_disk : Disk
ram_disk = record {
  State = ℕ → Memory;
  present = λ d. true;
  read_sector = λ d lba. some (d lba);
  write_sector = λ d lba sec. (true, update d lba sec);
  read-write = λ d lba sec e.
      (sec, ap some (let h : update d lba sec lba ≡ sec = ground arith in h), λ i h. refl);
  read-write_ne = λ d lba other sec k k' ne.
      ap some (let h : update d lba sec other ≡ d other = ground arith in h);
}
