-- ===== src/Kernel/Ata/Transfer.antt =====
-- The address and the words that mik-os-x86/kernel/src/ata.rs passes to a drive of the protocol.
use mik_os.Common.{
  ℕ, zero, suc, ◌+◌, ◌*◌, ◌/◌, ◌%◌, ◌^◌, ◌≤◌, bit_or, ◌≡◌, refl, sym, ap, subst, ◌∙◌, arith, ltb,
  leb, if◌then◌else◌, Bool, false, ◌&&◌, Memory, update,
}
use mik_os.Common.Bits.{low_bits, low_bits-mod, bit_or-shifted}
use mik_os.Kernel.Ports.{Ports}
use mik_os.Kernel.Ata.{
  data_port, count_port, lba_lo_port, lba_mid_port, lba_hi_port, drive_port, max_spins, select,
  read_words, write_words,
}
use mik_os.Kernel.Ata.Protocol.{
  idle, reading, writing, Drive, wants_data, address, latch, two_bytes, IsAsked, IsReady,
  IsTaskFile, count, lba_lo, lba_mid, lba_hi, drive, IsAta,
}

-- The upper half of the drive register is 0xE, and the lower half bits 24 to 27 of the address.
drive_register : (lba : ℕ) → bit_or 0xE0 (low_bits (lba / 2 ^ 24) 4) ≡ 0xE0 + lba / 2 ^ 24 % 16
drive_register lba =
    ap (bit_or 0xE0) (low_bits-mod 4 (lba / 2 ^ 24)) ∙ bit_or-shifted 4 14 _ (omega arith)

abbrev selected : ℕ → Drive → Drive
selected lba d = latch lba_hi_port (lba / 2 ^ 16 % 2 ^ 8) (
    latch lba_mid_port (lba / 2 ^ 8 % 2 ^ 8) (
      latch lba_lo_port (lba % 2 ^ 8)
        (latch count_port 1 (latch drive_port (bit_or 0xE0 (low_bits (lba / 2 ^ 24) 4)) d))))

selected-address : (lba : ℕ) (d : Drive) → address (selected lba d).regs ≡ lba % 2 ^ 28
selected-address lba d = rw (drive_register lba) (omega arith)

selected-IsAsked : (lba : ℕ) (d : Drive) → IsAsked (selected lba d).regs
selected-IsAsked lba d = record { one = refl; mode = rw (drive_register lba) (omega arith) }

-- Where a transfer has put its bytes.
abbrev pub between : ℕ → ℕ → ℕ → Bool
between at n k = leb at k && ltb k (at + 2 * n)

between_step :
    (sec buf : Memory) (at n lo hi k : ℕ)
    → lo ≡ sec at
    → hi ≡ sec (at + 1)
    → (if between (at + 2) n k then sec k else two_bytes buf at lo hi k)
      ≡ (if between at (suc n) k then sec k else buf k)
between_step sec buf at n lo hi k e f = ground (arith, e, f)

between_none : (sec buf : Memory) (at k : ℕ) → buf k ≡ (if between at 0 k then sec k else buf k)
between_none sec buf at k = ground arith

module _ (p : Ports) (view : p.State → Drive) (capacity : ℕ) (ata : IsAta p view capacity) where
  register-IsReady :
      (s : p.State) (port v : ℕ)
      → IsReady (view s)
      → IsTaskFile port
      → IsReady (view (p.outb s port v))
  register-IsReady s port v h k =
      subst IsReady (sym (ata.register s port v h k)) (record { clear = h.clear; over = h.over })

  -- The drive that is selected for an address.
  pub select_view :
      (s : p.State) (lba : ℕ)
      → IsReady (view s)
      → let d = view (select p s lba) in
        IsReady d
        × IsAsked d.regs
        × (address d.regs ≡ lba % 2 ^ 28)
        × (d.sectors ≡ (view s).sectors)
  unfolding select
  select_view s lba h =
      let s1 = p.outb s drive_port (bit_or 0xE0 (low_bits (lba / 2 ^ 24) 4)) in
      let s2 = p.outb s1 count_port 1 in
      let s3 = p.outb s2 lba_lo_port (lba % 2 ^ 8) in
      let s4 = p.outb s3 lba_mid_port (lba / 2 ^ 8 % 2 ^ 8) in
      let r1 = register-IsReady s drive_port _ h drive in
      let r2 = register-IsReady s1 count_port 1 r1 count in
      let r3 = register-IsReady s2 lba_lo_port _ r2 lba_lo in
      let r4 = register-IsReady s3 lba_mid_port _ r3 lba_mid in
      let v2 =
        ata.register s1 count_port 1 r1 count
        ∙ ap (latch count_port 1) (ata.register s drive_port _ h drive) in
      let v3 = ata.register s2 lba_lo_port _ r2 lba_lo ∙ ap (latch lba_lo_port _) v2 in
      let v4 = ata.register s3 lba_mid_port _ r3 lba_mid ∙ ap (latch lba_mid_port _) v3 in
      let v5 : view (select p s lba) ≡ selected lba (view s) =
        ata.register s4 lba_hi_port _ r4 lba_hi ∙ ap (latch lba_hi_port _) v4 in
      subst
        (λ (d : Drive).
          IsReady d
          × IsAsked d.regs
          × (address d.regs ≡ lba % 2 ^ 28)
          × (d.sectors ≡ (view s).sectors))
        (sym v5)
        (
          record { clear = h.clear; over = h.over },
          selected-IsAsked lba (view s),
          selected-address lba (view s),
          refl,
        )

  pub read_words_view :
      (n : ℕ) (buf : Memory) (at : ℕ) (s : p.State) (sec : Memory)
      → (view s).busy ≡ 0
      → (view s).phase ≡ reading sec at n
      → ((k : ℕ) → (read_words p n buf at s).0 k ≡ (if between at n k then sec k else buf k))
        × (wants_data (view (read_words p n buf at s).1).phase ≡ false)
        × ((view (read_words p n buf at s).1).busy ≡ 0)
        × ((view (read_words p n buf at s).1).sectors ≡ (view s).sectors)
  unfolding read_words
  read_words_view zero buf at s sec h k = (between_none sec buf at, ap wants_data k, h, refl)
  read_words_view (suc n) buf at s sec h k =
      let word = ata.word_out s sec at n h k in
      let s1 = (p.inw s data_port).2 in
      let buf' = two_bytes buf at (p.inw s data_port).0 (p.inw s data_port).1 in
      let rec =
        read_words_view n buf' (at + 2) s1 sec (ap (λ (d : Drive). d.busy) word.2 ∙ h)
          (ap (λ (d : Drive). d.phase) word.2) in
      (
        λ i. rec.0 i ∙ between_step sec buf at n _ _ i word.0 word.1,
        rec.1,
        rec.2,
        rec.3 ∙ ap (λ (d : Drive). d.sectors) word.2,
      )

  pub write_words_view :
      (n : ℕ) (buf : Memory) (at : ℕ) (s : p.State) (lba : ℕ) (sec : Memory)
      → (view s).busy ≡ 0
      → (view s).phase ≡ writing lba sec at (suc n)
      → (new : Memory) × ((k : ℕ) → new k ≡ (if between at (suc n) k then buf k else sec k))
        × ((view (write_words p (suc n) buf at s)).phase ≡ idle)
        × ((view (write_words p (suc n) buf at s)).busy ≤ max_spins)
        × ((view (write_words p (suc n) buf at s)).sectors ≡ update (view s).sectors lba new)
  unfolding write_words
  write_words_view zero buf at s lba sec h k =
      let word = ata.word_in s (buf at) (buf (at + 1)) lba sec at 0 h k in
      (
        two_bytes sec at (buf at) (buf (at + 1)),
        λ i.
            between_none buf (two_bytes sec at (buf at) (buf (at + 1))) (at + 2) i
            ∙ between_step buf sec at 0 _ _ i refl refl,
        ap (λ (d : Drive). d.phase) word.2,
        rw (ap (λ (d : Drive). d.busy) word.2) (word.1),
        ap (λ (d : Drive). d.sectors) word.2,
      )
  write_words_view (suc n) buf at s lba sec h k =
      let word = ata.word_in s (buf at) (buf (at + 1)) lba sec at (suc n) h k in
      let rec =
        write_words_view n buf (at + 2) (p.outw s data_port (buf at) (buf (at + 1))) lba
          (two_bytes sec at (buf at) (buf (at + 1))) (ap (λ (d : Drive). d.busy) word.2 ∙ h)
          (ap (λ (d : Drive). d.phase) word.2) in
      (
        rec.0,
        λ i. rec.1 i ∙ between_step buf sec at (suc n) _ _ i refl refl,
        rec.2,
        rec.3,
        rec.4 ∙ ap (λ (d : Drive). update d.sectors lba rec.0) word.2,
      )
