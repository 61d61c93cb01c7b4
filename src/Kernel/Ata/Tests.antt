-- ===== src/Kernel/Ata/Tests.antt =====
-- The theorems on the disk driver at a drive of three sectors.
use mik_os.Common.{
  ℕ, zero, suc, ◌+◌, ◌-◌, ◌*◌, ◌≤◌, bit_and, ◌≡◌, ◌≢◌, refl, arith, ◌==◌, ltb, if◌then◌else◌, true,
  false, not, ◌&&◌, Memory, Bool-cases, inl, inr,
}
use mik_os.Kernel.Ports.{Ports}
use mik_os.Kernel.Ata.{status_port, max_spins, read_sector, write_sector, init}
use mik_os.Kernel.Ata.Protocol.{
  Phase, idle, failed, reading, writing, Drive, wants_data, has_failed, address, latch, start,
  hand_out, take_in, two_bytes, IsTaskFile, count, lba_lo, lba_mid, lba_hi, drive, IsAta,
}
use mik_os.Kernel.Ata.Sectors.{IsAtRest, sector_over, DidWrite, write_sector_lem, init_lem}
use mik_os.Kernel.Ata.Store.{read_sector-write_sector}
use mik_os.Kernel.Ata.Absent.{absent-init}

abbrev status : Drive → ℕ
status d =
    if d.busy == 0
    then (if has_failed d.phase then 0x01 else if wants_data d.phase then 0x08 else 0)
    else 0x80

abbrev command : Drive → ℕ → Drive
command d v =
    if v == 0x20
    then start (ltb (address d.regs) 3) (reading (d.sectors (address d.regs)) 0 256) 1 d
    else if v == 0x30
    then start (ltb (address d.regs) 3) (writing (address d.regs) (λ _. 0) 0 256) 1 d
    else start true idle 1 d

abbrev word_of : Phase → Drive → ℕ × ℕ × Drive
word_of (reading sec at (suc n)) d = (sec at, sec (at + 1), hand_out sec at n d)
word_of phase d = (0, 0, d)

abbrev put : Phase → ℕ → ℕ → Drive → Drive
put (writing lba sec at (suc n)) lo hi d = take_in lba (two_bytes sec at lo hi) at n 1 d
put phase lo hi d = d

abbrev small_drive : Ports
small_drive = record {
  State = Drive;
  inb =
      λ d port. if port == status_port then (status d, record d { busy = d.busy - 1 }) else (0, d);
  outb = λ d port v. if port == status_port then command d v else latch port v d;
  inw = λ d port. word_of d.phase d;
  outw = λ d port lo hi. put d.phase lo hi d;
  inl = λ d port. (0, d);
  outl = λ d port v. d;
}

one_in_time : 1 ≤ max_spins
unfolding max_spins
one_in_time = omega arith

status_bits :
    (d : Drive)
    → ((bit_and (status d) 0x80 == 0) ≡ (d.busy == 0))
      × ((bit_and (status d) 0x01 == 0) ≡ (if d.busy == 0 then not (has_failed d.phase) else true))
      × ((bit_and (status d) 0x08 == 0) ≡ (if d.busy == 0 then not (wants_data d.phase) else true))
status_bits d = elim (Bool-cases (d.busy == 0)) [
  | inr set ↦ rw set (refl, refl, refl)
  | inl clear ↦ rw clear (idle_bits d.phase)
]
  where
    idle_bits :
        (phase : Phase)
        → let v : ℕ = if has_failed phase then 0x01 else if wants_data phase then 0x08 else 0 in
          ((bit_and v 0x80 == 0) ≡ true)
          × ((bit_and v 0x01 == 0) ≡ not (has_failed phase))
          × ((bit_and v 0x08 == 0) ≡ not (wants_data phase))
    idle_bits idle = (refl, refl, refl)
    idle_bits failed = (refl, refl, refl)
    idle_bits (reading sec at zero) = (refl, refl, refl)
    idle_bits (reading sec at (suc n)) = (refl, refl, refl)
    idle_bits (writing lba sec at zero) = (refl, refl, refl)
    idle_bits (writing lba sec at (suc n)) = (refl, refl, refl)

small_drive-register :
    (d : Drive) (port v : ℕ) → IsTaskFile port → small_drive.outb d port v ≡ latch port v d
small_drive-register d port v count = refl
small_drive-register d port v lba_lo = refl
small_drive-register d port v lba_mid = refl
small_drive-register d port v lba_hi = refl
small_drive-register d port v drive = refl

small_drive-IsAta : IsAta small_drive (λ d. d) 3
small_drive-IsAta = record {
  alt = λ d. (d.busy, omega arith, refl);
  poll = λ d. (d.busy - 1, omega arith, refl);
  busy_bit = λ d. (status_bits d).0;
  error_bit = λ d. (status_bits d).1;
  data_bit = λ d. (status_bits d).2;
  register = λ d port v h k. small_drive-register d port v k;
  read_command = λ d h k. (1, one_in_time, refl);
  write_command = λ d h k. (1, one_in_time, refl);
  flush_command = λ d h. (1, one_in_time, refl);
  word_out = λ d sec at n h k. rw k (refl, refl, refl);
  word_in = λ d lo hi lba sec at n h k. (1, one_in_time, rw k refl);
}

abbrev fresh : Drive
fresh = record { regs = λ _. 0; phase = idle; busy = 2; sectors = λ lba k. 0x55 + 0x55 * (k - 510) }

fresh-IsAtRest : IsAtRest fresh
unfolding max_spins
fresh-IsAtRest = record { soon = omega arith; over = refl }

abbrev sevens : Memory
sevens k = 7

write_sector_lem_example :
    DidWrite small_drive
      (λ d. d)
      3
      small_drive-IsAta
      fresh
      true
      2
      sevens
      (write_sector small_drive fresh 2 sevens)
write_sector_lem_example =
    write_sector_lem small_drive (λ d. d) 3 small_drive-IsAta fresh 2 sevens fresh-IsAtRest

read_sector-write_sector_example :
    let w = write_sector small_drive fresh 2 sevens in
    let r = read_sector small_drive w.1 2 (λ _. 0) in
    (r.0 ≡ ltb 2 3)
    × (w.0 ≡ true → ◌≡◌ {A = ℕ} 2 2 → r.1 ≡ sector_over sevens (λ _. 0))
    × (◌≢◌ {A = ℕ} 2 2 → r.1 ≡ (read_sector small_drive fresh 2 (λ _. 0)).1)
read_sector-write_sector_example =
    read_sector-write_sector small_drive (λ d. d) 3 small_drive-IsAta fresh 2 2 sevens (λ _. 0)
      fresh-IsAtRest (omega arith) (omega arith)

init_lem_example :
    ((init small_drive fresh).0
      ≡ (ltb 0 3 && (fresh.sectors 0 510 == 0x55 && fresh.sectors 0 511 == 0xAA)))
    × IsAtRest (init small_drive fresh).1
init_lem_example = init_lem small_drive (λ d. d) 3 small_drive-IsAta fresh fresh-IsAtRest

-- Ports without a drive.
abbrev floating : Ports
floating = record small_drive { inb = λ d port. (0xFF, d) }

absent-init_example :
    ((read_sector floating fresh 0 sevens).0 ≡ false)
    × ((read_sector floating fresh 0 sevens).1 ≡ sevens)
    × ((write_sector floating fresh 0 sevens).0 ≡ false)
    × ((init floating fresh).0 ≡ false)
absent-init_example = absent-init floating (λ d. refl) fresh 0 sevens
