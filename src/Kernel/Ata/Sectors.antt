-- ===== src/Kernel/Ata/Sectors.antt =====
-- `read_sector`, `write_sector` and `init` of mik-os-x86/kernel/src/ata.rs on a drive of the protocol.
use mik_os.Common.{
  ℕ, ◌%◌, ◌^◌, ◌≤◌, ◌≡◌, refl, sym, ap, subst, fun_ext, ◌∙◌, arith, ◌==◌, ltb, if◌then◌else◌, Bool,
  true, false, ◌&&◌, Memory, update, Bool-cases, inl, inr,
}
use mik_os.Kernel.Ports.{Ports}
use mik_os.Kernel.Ata.{
  status_port, max_spins, select, wait_ready, wait_drq, read_words, write_words, read_data, flush,
  write_data, read_sector, write_sector, init,
}
use mik_os.Kernel.Ata.Protocol.{
  failed, reading, writing, Drive, wants_data, has_failed, address, IsReady, IsAsked, IsAta,
}
use mik_os.Kernel.Ata.Polling.{settled, wait_ready_settles, wait_drq_settles}
use mik_os.Kernel.Ata.Transfer.{between, select_view, read_words_view, write_words_view}

-- No transfer is under way, and BSY clears in time.
pub record IsAtRest (d : Drive) : Type 0 where
  pub soon : d.busy ≤ max_spins
  pub over : wants_data d.phase ≡ false

-- The first 512 bytes of one buffer over another.
abbrev pub sector_over : Memory → Memory → Memory
sector_over sec buf k = if ltb k 512 then sec k else buf k

between_sector :
    (sec buf : Memory) (k : ℕ) → (if between 0 256 k then sec k else buf k) ≡ sector_over sec buf k
between_sector sec buf k = ground arith

module _ (p : Ports) (view : p.State → Drive) (capacity : ℕ) (ata : IsAta p view capacity) where
  settled-IsReady : (d : Drive) → wants_data d.phase ≡ false → IsReady (settled d)
  settled-IsReady d h = record { clear = refl; over = h }

  -- What a read and a write have to do.
  pub record DidRead (s : p.State) (fits : Bool) (sec buf : Memory) (r : Bool × Memory × p.State)
      : Type 0 where
    pub done : r.0 ≡ fits
    pub bytes : r.1 ≡ (if fits then sector_over sec buf else buf)
    pub rest : IsAtRest (view r.2)
    pub kept : (view r.2).sectors ≡ (view s).sectors

  read_data_view :
      (s : p.State) (fits : Bool) (sec buf : Memory)
      → (view s).busy ≤ max_spins
      → (view s).phase ≡ (if fits then reading sec 0 256 else failed)
      → DidRead s fits sec buf (read_data p s buf)
  unfolding read_data
  read_data_view s true sec buf h k =
      let due = wait_drq_settles p view capacity ata s true h (ap wants_data k) (ap has_failed k) in
      let s1 = (wait_drq p s).1 in
      let got =
        read_words_view p view capacity ata 256 buf 0 s1 sec (ap (λ (d : Drive). d.busy) due.1)
          (ap (λ (d : Drive). d.phase) due.1 ∙ k) in
      let reads : read_data p s buf
          ≡ (true, (read_words p 256 buf 0 s1).0, (read_words p 256 buf 0 s1).1) =
        rw (due.0, read_data) refl in
      subst (DidRead s true sec buf) (sym reads) (record {
        done = refl;
        bytes = fun_ext λ i. got.0 i ∙ between_sector sec buf i;
        rest = record { soon = omega (arith, got.2); over = got.1 };
        kept = got.3 ∙ ap (λ (d : Drive). d.sectors) due.1;
      })
  read_data_view s false sec buf h k =
      let due =
        wait_drq_settles p view capacity ata s false h (ap wants_data k) (ap has_failed k) in
      let reads : read_data p s buf ≡ (false, buf, (wait_drq p s).1) = rw (due.0, read_data) refl in
      subst (DidRead s false sec buf) (sym reads) (record {
        done = refl;
        bytes = refl;
        rest = record {
          soon = rw due.1 (omega arith);
          over = ap (λ (d : Drive). wants_data d.phase) due.1 ∙ ap wants_data k;
        };
        kept = ap (λ (d : Drive). d.sectors) due.1;
      })

  -- Behind `wait_ready` and `select`.
  asked :
      (s : p.State) (lba : ℕ)
      → IsAtRest (view s)
      → let s1 = (wait_ready p s).1 in
        ((wait_ready p s).0 ≡ true)
        × IsReady (view (select p s1 lba))
        × IsAsked (view (select p s1 lba)).regs
        × (address (view (select p s1 lba)).regs ≡ lba % 2 ^ 28)
        × ((view (select p s1 lba)).sectors ≡ (view s).sectors)
  asked s lba h =
      let waited = wait_ready_settles p view capacity ata s h.soon in
      let s1 = (wait_ready p s).1 in
      let picked =
        select_view p view capacity ata s1 lba
          (subst IsReady (sym waited.1) (settled-IsReady (view s) h.over)) in
      (waited.0, picked.0, picked.1, picked.2, picked.3 ∙ ap (λ (d : Drive). d.sectors) waited.1)

  -- On a drive at rest: a read of one sector succeeds if the address, of which the driver sends 28
  -- bits, is below the capacity, and puts the sector's 512 bytes into the buffer. Otherwise it
  -- fails and leaves the buffer. The sectors stay, and the drive is at rest again.
  pub read_sector_lem :
      (s : p.State) (lba : ℕ) (buf : Memory)
      → IsAtRest (view s)
      → DidRead s
          (ltb (lba % 2 ^ 28) capacity)
          ((view s).sectors (lba % 2 ^ 28))
          buf
          (read_sector p s lba buf)
  unfolding read_sector
  read_sector_lem s lba buf h =
      let ready = asked s lba h in
      let s2 = select p (wait_ready p s).1 lba in
      let sent = ata.read_command s2 ready.1 ready.2 in
      let fits = ltb (lba % 2 ^ 28) capacity in
      let sec = (view s).sectors (lba % 2 ^ 28) in
      let got =
        read_data_view (p.outb s2 status_port 0x20) fits sec buf
          (rw (ap (λ (d : Drive). d.busy) sent.2) (sent.1))
          (ap (λ (d : Drive). d.phase) sent.2 ∙ rw (ready.3, ready.4) refl) in
      let reads : read_sector p s lba buf ≡ read_data p (p.outb s2 status_port 0x20) buf =
        rw (ready.0, read_sector) refl in
      subst (DidRead s fits sec buf) (sym reads) (record {
        done = got.done;
        bytes = got.bytes;
        rest = got.rest;
        kept = got.kept ∙ ap (λ (d : Drive). d.sectors) sent.2 ∙ ready.4;
      })

  pub record DidWrite (s : p.State) (fits : Bool) (lba : ℕ) (buf : Memory) (r : Bool × p.State)
      : Type 0 where
    pub done : r.0 ≡ fits
    pub stored : (view r.1).sectors ≡ (
        if fits then update (view s).sectors lba (sector_over buf (λ _. 0)) else (view s).sectors)
    pub rest : IsAtRest (view r.1)

  flush_view :
      (s : p.State)
      → IsAtRest (view s)
      → ((flush p s).0 ≡ true)
        × IsAtRest (view (flush p s).1)
        × ((view (flush p s).1).sectors ≡ (view s).sectors)
  unfolding flush
  flush_view s h =
      let waited = wait_ready_settles p view capacity ata s h.soon in
      let s1 = (wait_ready p s).1 in
      let sent =
        ata.flush_command s1 (subst IsReady (sym waited.1) (settled-IsReady (view s) h.over)) in
      let again =
        wait_ready_settles p view capacity ata (p.outb s1 status_port 0xE7)
          (rw (ap (λ (d : Drive). d.busy) sent.2) (sent.1)) in
      let flushed : flush p s ≡ wait_ready p (p.outb s1 status_port 0xE7) =
        rw (waited.0, flush) refl in
      let end = again.1 ∙ ap settled sent.2 in
      subst
        (λ (r : Bool × p.State).
          (r.0 ≡ true) × IsAtRest (view r.1) × ((view r.1).sectors ≡ (view s).sectors))
        (sym flushed)
        (
          again.0,
          subst IsAtRest (sym end) (record { soon = omega arith; over = refl }),
          ap (λ (d : Drive). d.sectors) end ∙ ap (λ (d : Drive). d.sectors) waited.1,
        )

  write_data_view :
      (s : p.State) (fits : Bool) (lba : ℕ) (buf : Memory)
      → (view s).busy ≤ max_spins
      → (view s).phase ≡ (if fits then writing lba (λ _. 0) 0 256 else failed)
      → DidWrite s fits lba buf (write_data p s buf)
  unfolding write_data
  write_data_view s true lba buf h k =
      let due = wait_drq_settles p view capacity ata s true h (ap wants_data k) (ap has_failed k) in
      let s1 = (wait_drq p s).1 in
      let put =
        write_words_view p view capacity ata 255 buf 0 s1 lba (λ _. 0)
          (ap (λ (d : Drive). d.busy) due.1) (ap (λ (d : Drive). d.phase) due.1 ∙ k) in
      let s2 = write_words p 256 buf 0 s1 in
      let end = flush_view s2 (record { soon = put.3; over = ap wants_data put.2 }) in
      let writes : write_data p s buf ≡ flush p s2 = rw (due.0, write_data) refl in
      subst (DidWrite s true lba buf) (sym writes) (record {
        done = end.0;
        stored =
            end.2
            ∙ put.4
            ∙ ap (λ (d : Drive). update d.sectors lba put.0) due.1
            ∙ ap (update (view s).sectors lba)
                (fun_ext λ i. put.1 i ∙ between_sector buf (λ _. 0) i);
        rest = end.1;
      })
  write_data_view s false lba buf h k =
      let due =
        wait_drq_settles p view capacity ata s false h (ap wants_data k) (ap has_failed k) in
      let writes : write_data p s buf ≡ (false, (wait_drq p s).1) = rw (due.0, write_data) refl in
      subst (DidWrite s false lba buf) (sym writes) (record {
        done = refl;
        stored = ap (λ (d : Drive). d.sectors) due.1;
        rest = record {
          soon = rw due.1 (omega arith);
          over = ap (λ (d : Drive). wants_data d.phase) due.1 ∙ ap wants_data k;
        };
      })

  -- On a drive at rest: a write of one sector succeeds if the address, of which the driver sends 28
  -- bits, is below the capacity, and then the sector holds the buffer's 512 bytes. Otherwise it
  -- fails. The other sectors stay, and the drive is at rest again.
  pub write_sector_lem :
      (s : p.State) (lba : ℕ) (buf : Memory)
      → IsAtRest (view s)
      → DidWrite s (ltb (lba % 2 ^ 28) capacity) (lba % 2 ^ 28) buf (write_sector p s lba buf)
  unfolding write_sector
  write_sector_lem s lba buf h =
      let ready = asked s lba h in
      let s2 = select p (wait_ready p s).1 lba in
      let sent = ata.write_command s2 ready.1 ready.2 in
      let fits = ltb (lba % 2 ^ 28) capacity in
      let put =
        write_data_view (p.outb s2 status_port 0x30) fits (lba % 2 ^ 28) buf
          (rw (ap (λ (d : Drive). d.busy) sent.2) (sent.1))
          (ap (λ (d : Drive). d.phase) sent.2 ∙ rw ready.3 refl) in
      let writes : write_sector p s lba buf ≡ write_data p (p.outb s2 status_port 0x30) buf =
        rw (ready.0, write_sector) refl in
      let same = ap (λ (d : Drive). d.sectors) sent.2 ∙ ready.4 in
      subst (DidWrite s fits (lba % 2 ^ 28) buf) (sym writes) (record {
        done = put.done;
        stored =
            put.stored
            ∙ ap
                (λ (d : ℕ → Memory).
                  if fits then update d (lba % 2 ^ 28) (sector_over buf (λ _. 0)) else d)
                same;
        rest = put.rest;
      })

  -- On a drive at rest, `init` finds the disk present exactly if it has a first sector, and this one
  -- ends in the boot signature.
  pub init_lem :
      (s : p.State)
      → IsAtRest (view s)
      → ((init p s).0
          ≡ (ltb 0 capacity && ((view s).sectors 0 510 == 0x55 && (view s).sectors 0 511 == 0xAA)))
        × IsAtRest (view (init p s).1)
  unfolding init
  init_lem s h =
      let got = read_sector_lem s 0 (λ _. 0) h in
      (
        elim (Bool-cases (ltb 0 capacity)) [
          | inl fits ↦ rw (got.done, got.bytes, fits) refl
          | inr none_there ↦ rw (got.done, none_there) refl
        ],
        got.rest,
      )
