-- ===== src/Kernel/Ata/Absent.antt =====
-- The driver of mik-os-x86/kernel/src/ata.rs without a drive: the bus floats, and BSY reads as set.
use mik_os.Common.{ℕ, zero, suc, bit_and, ◌≡◌, refl, ap, ◌∙◌, ◌==◌, Bool, false, Memory}
use mik_os.Kernel.Ports.{Ports}
use mik_os.Kernel.Ata.{
  status_port, max_spins, ready_loop, read_alt, wait_ready, read_sector, write_sector, init,
}

module _ (p : Ports)
    (busy : (s : p.State) → (bit_and (p.inb s status_port).0 0x80 == 0) ≡ false) where
  again :
      (left : ℕ) (s : p.State)
      → ready_loop p (suc left) s ≡ ready_loop p left (p.inb s status_port).1
  unfolding ready_loop
  again left s = rw (busy s, ready_loop) refl

  ready_loop_fails : (left : ℕ) (s : p.State) → (ready_loop p left s).0 ≡ false
  unfolding ready_loop
  ready_loop_fails zero s = busy s
  ready_loop_fails (suc left) s =
      ap (λ (r : Bool × p.State). r.0) (again left s)
      ∙ ready_loop_fails left (p.inb s status_port).1

  -- With BSY set whenever the status is read, the driver gives up: reads and writes fail, a read leaves
  -- the buffer, and the disk is not present.
  pub absent-init :
      (s : p.State) (lba : ℕ) (buf : Memory)
      → ((read_sector p s lba buf).0 ≡ false)
        × ((read_sector p s lba buf).1 ≡ buf)
        × ((write_sector p s lba buf).0 ≡ false)
        × ((init p s).0 ≡ false)
  unfolding read_sector write_sector init wait_ready
  absent-init s lba buf =
      let fails = ready_loop_fails max_spins (read_alt p 4 s) in
      (
        rw (fails, read_sector) refl,
        rw (fails, read_sector) refl,
        rw (fails, write_sector) refl,
        rw (fails, init) refl,
      )
