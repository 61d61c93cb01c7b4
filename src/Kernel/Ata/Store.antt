-- ===== src/Kernel/Ata/Store.antt =====
-- The driver of mik-os-x86/kernel/src/ata.rs as the block device that Mik-FS uses. A state of the device
-- is a state of the ports with the drive at rest, and `PRESENT`.
use mik_os.Common.{
  ℕ, ◌%◌, ◌^◌, ◌<◌, ◌≡◌, ◌≢◌, refl, sym, ap, fun_ext, ◌∙◌, arith, ltb, if◌then◌else◌, Bool, true,
  false, Option, none, some, Memory, update,
}
use mik_os.Kernel.Ports.{Ports}
use mik_os.Kernel.Disk.{Disk}
use mik_os.Kernel.Ata.{read_sector, write_sector}
use mik_os.Kernel.Ata.Protocol.{Drive, IsAta}
use mik_os.Kernel.Ata.Sectors.{IsAtRest, sector_over, read_sector_lem, write_sector_lem}

sector_over_twice :
    (sec buf : Memory) (k : ℕ)
    → sector_over (sector_over sec (λ _. 0)) buf k ≡ sector_over sec buf k
sector_over_twice sec buf k = ground arith

stored_elsewhere :
    (sectors : ℕ → Memory) (fits : Bool) (lba other : ℕ) (sec : Memory)
    → other ≢ lba
    → (if fits then update sectors lba sec else sectors) other ≡ sectors other
stored_elsewhere sectors true lba other sec ne = ground arith
stored_elsewhere sectors false lba other sec ne = refl

module _ (p : Ports) (view : p.State → Drive) (capacity : ℕ) (ata : IsAta p view capacity) where
  read_back :
      (s : p.State) (lba : ℕ) (sec buf : Memory)
      → IsAtRest (view s)
      → (write_sector p s lba sec).0 ≡ true
      → let r = read_sector p (write_sector p s lba sec).1 lba buf in
        (r.0 ≡ true) × (r.1 ≡ sector_over sec buf)
  read_back s lba sec buf h good =
      let w = write_sector_lem p view capacity ata s lba sec h in
      let r = read_sector_lem p view capacity ata (write_sector p s lba sec).1 lba buf w.rest in
      let fits : ltb (lba % 2 ^ 28) capacity ≡ true = sym w.done ∙ good in
      let kept : (view (write_sector p s lba sec).1).sectors (lba % 2 ^ 28)
          ≡ sector_over sec (λ _. 0) =
        ap (λ (f : ℕ → Memory). f (lba % 2 ^ 28)) w.stored ∙ rw fits (ground arith) in
      (r.done ∙ fits, r.bytes ∙ rw (fits, kept) (fun_ext λ k. sector_over_twice sec buf k))

  read_elsewhere :
      (s : p.State) (lba other : ℕ) (sec buf : Memory)
      → IsAtRest (view s)
      → lba < 2 ^ 28
      → other < 2 ^ 28
      → other ≢ lba
      → let r = read_sector p (write_sector p s lba sec).1 other buf in
        (r.0 ≡ (read_sector p s other buf).0) × (r.1 ≡ (read_sector p s other buf).1)
  read_elsewhere s lba other sec buf h k k' ne =
      let w = write_sector_lem p view capacity ata s lba sec h in
      let r = read_sector_lem p view capacity ata (write_sector p s lba sec).1 other buf w.rest in
      let before = read_sector_lem p view capacity ata s other buf h in
      let kept : (view (write_sector p s lba sec).1).sectors (other % 2 ^ 28)
          ≡ (view s).sectors (other % 2 ^ 28) =
        ap (λ (f : ℕ → Memory). f (other % 2 ^ 28)) w.stored
        ∙ stored_elsewhere (view s).sectors (ltb (lba % 2 ^ 28) capacity) (lba % 2 ^ 28)
            (other % 2 ^ 28) _ (omega (arith, k, k', ne)) in
      (r.done ∙ sym before.done, r.bytes ∙ rw kept (sym before.bytes))

  -- On a drive at rest, for 28-bit addresses: behind a write, a read succeeds exactly if its address is
  -- below the capacity. It gives the bytes written if the write succeeded and was to that address, and
  -- what it would have given without the write at any other address.
  pub read_sector-write_sector :
      (s : p.State) (lba other : ℕ) (sec buf : Memory)
      → IsAtRest (view s)
      → lba < 2 ^ 28
      → other < 2 ^ 28
      → let w = write_sector p s lba sec in
        let r = read_sector p w.1 other buf in
        (r.0 ≡ ltb other capacity)
        × (w.0 ≡ true → other ≡ lba → r.1 ≡ sector_over sec buf)
        × (other ≢ lba → r.1 ≡ (read_sector p s other buf).1)
  read_sector-write_sector s lba other sec buf h k k' =
      let w = write_sector_lem p view capacity ata s lba sec h in
      let r = read_sector_lem p view capacity ata (write_sector p s lba sec).1 other buf w.rest in
      let low : other % 2 ^ 28 ≡ other = omega (arith, k') in
      (
        r.done ∙ rw low refl,
        λ good same. rw same ((read_back s lba sec buf h good).1),
        λ ne. (read_elsewhere s lba other sec buf h k k' ne).1,
      )

  -- A state of the device.
  pub record State : Type 0 where
    pub ports : p.State
    pub present : Bool
    pub at_rest : IsAtRest (view ports)

  -- The buffer of a read starts out as zeros, and what a read does to the ports is left out.
  unfoldable pub read : State → ℕ → Option Memory
  read d lba =
      if (read_sector p d.ports lba (λ _. 0)).0
      then some (read_sector p d.ports lba (λ _. 0)).1
      else none

  unfoldable pub write : State → ℕ → Memory → Bool × State
  write d lba sec = (
    (write_sector p d.ports lba sec).0,
    record {
      ports = (write_sector p d.ports lba sec).1;
      present = d.present;
      at_rest = (write_sector_lem p view capacity ata d.ports lba sec d.at_rest).rest;
    },
  )

  pub read-write :
      (d : State) (lba : ℕ) (sec : Memory)
      → (write d lba sec).0 ≡ true
      → (got : Memory) × (read (write d lba sec).1 lba ≡ some got)
        × ((i : ℕ) → i < 512 → got i ≡ sec i)
  unfolding read write
  read-write d lba sec good =
      let back = read_back d.ports lba sec (λ _. 0) d.at_rest good in
      (sector_over sec (λ _. 0), rw back.0 (ap some back.1), λ i h. ground (arith, h))

  pub read-write_ne :
      (d : State) (lba other : ℕ) (sec : Memory)
      → lba < 2 ^ 28
      → other < 2 ^ 28
      → other ≢ lba
      → read (write d lba sec).1 other ≡ read d other
  unfolding read write
  read-write_ne d lba other sec k k' ne =
      let same = read_elsewhere d.ports lba other sec (λ _. 0) d.at_rest k k' ne in
      rw (same.0, same.1) refl

  abbrev pub ata_disk : Disk
  ata_disk = record {
    State = State;
    present = λ d. d.present;
    read_sector = read;
    write_sector = write;
    read-write = read-write;
    read-write_ne = read-write_ne;
  }
