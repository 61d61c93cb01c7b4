-- ===== src/Kernel/Ata.antt =====
-- The disk driver, mik-os-x86/kernel/src/ata.rs. A buffer is the function of its bytes.
pub mod Protocol
pub mod Polling
pub mod Transfer
pub mod Sectors
pub mod Store
pub mod Absent
mod Tests
use mik_os.Common.{
  ℕ, zero, suc, ◌+◌, ◌*◌, ◌/◌, ◌%◌, ◌^◌, bit_and, bit_or, ◌==◌, if◌then◌else◌, Bool, true, false,
  not, ◌&&◌, Memory, update,
}
use mik_os.Common.Bits.{low_bits}
use mik_os.Kernel.Ports.{Ports}

abbrev pub data_port : ℕ
data_port = 0x1F0

abbrev pub count_port : ℕ
count_port = 0x1F2

abbrev pub lba_lo_port : ℕ
lba_lo_port = 0x1F3

abbrev pub lba_mid_port : ℕ
lba_mid_port = 0x1F4

abbrev pub lba_hi_port : ℕ
lba_hi_port = 0x1F5

abbrev pub drive_port : ℕ
drive_port = 0x1F6

-- `STATUS` when it is read, `CMD` when it is written.
abbrev pub status_port : ℕ
status_port = 0x1F7

abbrev pub alt_port : ℕ
alt_port = 0x3F6

-- Both waits give up on the poll behind this many.
unfoldable pub max_spins : ℕ
max_spins = 10000000

module _ (p : Ports) where
  open p use {State, inb, outb, inw, outw}

  -- The `while` of `wait_ready`, with `left` spins to go.
  unfoldable pub ready_loop : ℕ → State → Bool × State
  ready_loop zero s = (bit_and (inb s status_port).0 0x80 == 0, (inb s status_port).1)
  ready_loop (suc left) s = elim (bit_and (inb s status_port).0 0x80 == 0) [
    | true ↦ (true, (inb s status_port).1)
    | false ↦ ready_loop left (inb s status_port).1
  ]

  unfoldable pub read_alt : ℕ → State → State
  read_alt zero s = s
  read_alt (suc n) s = read_alt n (inb s alt_port).1

  unfoldable pub wait_ready : State → Bool × State
  wait_ready s = ready_loop max_spins (read_alt 4 s)

  -- The `loop` of `wait_drq`.
  unfoldable pub drq_loop : ℕ → State → Bool × State
  drq_loop zero s =
      let status = (inb s status_port).0 in
      if not (bit_and status 0x01 == 0)
      then (false, (inb s status_port).1)
      else if not (bit_and status 0x08 == 0)
      then (true, (inb s status_port).1)
      else (false, (inb s status_port).1)
  drq_loop (suc left) s =
      let status = (inb s status_port).0 in
      elim (bit_and status 0x01 == 0) [
        | false ↦ (false, (inb s status_port).1)
        | true ↦ elim (bit_and status 0x08 == 0) [
          | false ↦ (true, (inb s status_port).1)
          | true ↦ drq_loop left (inb s status_port).1
        ]
      ]

  unfoldable pub wait_drq : State → Bool × State
  wait_drq s = drq_loop max_spins s

  unfoldable pub select : State → ℕ → State
  select s lba =
      let s1 = outb s drive_port (bit_or 0xE0 (low_bits (lba / 2 ^ 24) 4)) in
      let s2 = outb s1 count_port 1 in
      let s3 = outb s2 lba_lo_port (lba % 2 ^ 8) in
      let s4 = outb s3 lba_mid_port (lba / 2 ^ 8 % 2 ^ 8) in
      outb s4 lba_hi_port (lba / 2 ^ 16 % 2 ^ 8)

  -- `rep insw` and `rep outsw`: `n` words to and from the buffer at index `at`.
  unfoldable pub read_words : ℕ → Memory → ℕ → State → Memory × State
  read_words zero buf at s = (buf, s)
  read_words (suc n) buf at s =
      let word = inw s data_port in
      read_words n (update (update buf at word.0) (at + 1) word.1) (at + 2) word.2

  unfoldable pub write_words : ℕ → Memory → ℕ → State → State
  write_words zero buf at s = s
  write_words (suc n) buf at s =
      write_words n buf (at + 2) (outw s data_port (buf at) (buf (at + 1)))

  -- `read_sector` behind the command: whether it went well, the buffer and the ports.
  unfoldable pub read_data : State → Memory → Bool × Memory × State
  read_data s buf =
      let waited = wait_drq s in
      if not waited.0
      then (false, buf, waited.1)
      else let got = read_words 256 buf 0 waited.1 in (true, got.0, got.1)

  unfoldable pub read_sector : State → ℕ → Memory → Bool × Memory × State
  read_sector s lba buf =
      let waited = wait_ready s in
      if not waited.0
      then (false, buf, waited.1)
      else read_data (outb (select waited.1 lba) status_port 0x20) buf

  -- `write_sector` behind the transfer, and behind its command.
  unfoldable pub flush : State → Bool × State
  flush s =
      let waited = wait_ready s in
      if not waited.0 then (false, waited.1) else wait_ready (outb waited.1 status_port 0xE7)

  unfoldable pub write_data : State → Memory → Bool × State
  write_data s buf =
      let waited = wait_drq s in
      if not waited.0 then (false, waited.1) else flush (write_words 256 buf 0 waited.1)

  unfoldable pub write_sector : State → ℕ → Memory → Bool × State
  write_sector s lba buf =
      let waited = wait_ready s in
      if not waited.0
      then (false, waited.1)
      else write_data (outb (select waited.1 lba) status_port 0x30) buf

  -- The value of `PRESENT` that it sets and returns.
  unfoldable pub init : State → Bool × State
  init s = let r = read_sector s 0 (λ _. 0) in (r.0 && (r.1 510 == 0x55 && r.1 511 == 0xAA), r.2)
