-- ===== src/Kernel/Fs/Content.antt =====
-- What a byte that `write_at` writes does to the contents of the files.
use mik_os.Common.{
  ℕ, ◌+◌, ◌*◌, ◌/◌, ◌%◌, ◌^◌, ◌≤◌, ◌<◌, ◌≡◌, ◌≢◌, refl, ap, subst, ◌∙◌, ◌⊎◌, inl, inr, arith, ◌==◌,
  ltb, leb, true, false, some, Memory, store32, update, Bool-cases, Option-cases, ltb→lt,
}
use mik_os.Kernel.Disk.{Disk}
use mik_os.Kernel.Fs.{
  ent, max_files, file_cap, data_lba, dir_lba, ent_len, ent_sector, Fs, flush_ent, read_at,
  write_at, write_back,
}
use mik_os.Kernel.Fs.Entries.{set_len_fields, set_len_kept}
use mik_os.Kernel.Fs.Layout.{IsLaidOut, IsLive}

module _ (disk : Disk) where
  abbrev lba_of : Fs disk → ℕ → ℕ → ℕ
  lba_of s i pos = ent_sector s.dir i + pos / 512

  -- What a write that reports success has done: the sector is replaced, and the length of the file
  -- raised where needed; the other data sectors and entries are as before.
  record Wrote (s s' : Fs disk) (i pos b : ℕ) : Type 0 where
    near : pos < file_cap
    old : Memory
    was : disk.read_sector s.store (lba_of s i pos) ≡ some old
    new : Memory
    is : disk.read_sector s'.store (lba_of s i pos) ≡ some new
    same : (k : ℕ) → k < 512 → new k ≡ update old (pos % 512) b k
    others :
        (lba : ℕ)
        → data_lba ≤ lba
        → lba < 2 ^ 28
        → lba ≢ lba_of s i pos
        → disk.read_sector s'.store lba ≡ disk.read_sector s.store lba
    sectors : (j : ℕ) → ent_sector s'.dir j ≡ ent_sector s.dir j
    lengths : (j : ℕ) → j ≢ i → ent_len s'.dir j ≡ ent_len s.dir j
    longer :
        (pos < ent_len s'.dir i)
        × (ent_len s.dir i ≤ ent_len s'.dir i)
        × (ent_len s.dir i ≤ pos → ent_len s'.dir i ≡ pos + 1)
        × (pos < ent_len s.dir i → ent_len s'.dir i ≡ ent_len s.dir i)

  after_write :
      (s : Fs disk) (i pos b : ℕ) (sec : Memory)
      → i < max_files
      → pos < file_cap
      → data_lba ≤ ent_sector s.dir i
      → lba_of s i pos < 2 ^ 28
      → disk.read_sector s.store (lba_of s i pos) ≡ some sec
      → (write_back disk s i pos b sec).0 ≡ true
      → Wrote s (write_back disk s i pos b sec).1 i pos b
  unfolding write_back flush_ent
  after_write s i pos b sec lt near in_data low was done =
      elim (Bool-cases (disk.write_sector s.store (lba_of s i pos) (update sec (pos % 512) b)).0) [
        | inr refused ↦ absurd (ground (arith, done, refused))
        | inl ok ↦
            let back = disk.read-write s.store (lba_of s i pos) (update sec (pos % 512) b) ok in
            elim (Bool-cases (ltb (ent_len s.dir i) (pos + 1))) [
              | inr short ↦
                  rw (ok, short)
                    (record {
                      near = near;
                      old = sec;
                      was = was;
                      new = back.0;
                      is = back.1;
                      same = back.2;
                      others = λ lba h small ne.
                          disk.read-write_ne s.store (lba_of s i pos) lba _ low small ne;
                      sectors = λ j. refl;
                      lengths = λ j ne. refl;
                      longer = (ground arith, omega arith, λ h. ground arith, λ h. refl);
                    })
              | inl grow ↦
                  rw (ok, grow)
                    (record {
                      near = near;
                      old = sec;
                      was = was;
                      new = back.0;
                      is =
                          disk.read-write_ne _ (dir_lba + i * ent / 512) (lba_of s i pos) _
                            (omega arith) low (omega arith)
                          ∙ back.1;
                      same = back.2;
                      others = λ lba h small ne.
                          disk.read-write_ne _ (dir_lba + i * ent / 512) lba _ (omega arith) small
                            (omega arith)
                          ∙ disk.read-write_ne s.store (lba_of s i pos) lba _ low small ne;
                      sectors = λ j. (kept j).1;
                      lengths = λ j ne. (kept j).2 ne;
                      longer = (
                        omega (arith, grown),
                        omega (arith, grown, ltb→lt _ _ grow),
                        λ _. grown,
                        λ h. absurd (omega (arith, h, ltb→lt _ _ grow)),
                      );
                    })
            ]
      ]
    where
      kept :
          (j : ℕ)
          → let dir' = store32 s.dir (i * ent + 28) (pos + 1) in
            (dir' (j * ent) ≡ s.dir (j * ent))
            × (ent_sector dir' j ≡ ent_sector s.dir j)
            × (j ≢ i → ent_len dir' j ≡ ent_len s.dir j)
      kept j = set_len_kept s.dir i (pos + 1) j (omega arith)

      grown : ent_len (store32 s.dir (i * ent + 28) (pos + 1)) i ≡ pos + 1
      grown = (set_len_fields s.dir i (pos + 1) (omega arith)).2

  write_at_done :
      (s : Fs disk) (i pos b : ℕ)
      → i < max_files
      → data_lba ≤ ent_sector s.dir i
      → ent_sector s.dir i + 8 ≤ 2 ^ 28
      → (write_at disk s i pos b).0 ≡ true
      → Wrote s (write_at disk s i pos b).1 i pos b
  unfolding write_at
  write_at_done s i pos b lt in_data low done = elim (Bool-cases (leb file_cap pos)) [
    | inl far ↦ absurd (ground (arith, done, far))
    | inr near ↦ elim (Option-cases (disk.read_sector s.store (ent_sector s.dir i + pos / 512))) [
      | inl bad ↦ absurd (let e : false ≡ true = rw (near, bad) at done in ground arith)
      | inr (sec, good) ↦
          rw (near, good)
            (after_write s i pos b sec lt (ground arith) in_data (ground (arith, near, low)) good
              (rw (near, good) at done))
    ]
  ]

  module _ (s : Fs disk) (laid_out : IsLaidOut s.dir s.next_free) (i pos b : ℕ) (lt : i < max_files)
      (live : IsLive s.dir i) (room : s.next_free ≤ 2 ^ 28)
      (done : (write_at disk s i pos b).0 ≡ true) where
    written : Wrote s (write_at disk s i pos b).1 i pos b
    written =
        let own = laid_out.owned i lt live in
        write_at_done s i pos b lt own.0 (omega (arith, own.1, room)) done

    -- In a directory that is laid out, with file `i` live and all sectors in use below 2 ^ 28: a byte
    -- that `write_at` reports written is read back.
    pub read_at-write_at : read_at disk (write_at disk s i pos b).1 i pos ≡ some b
    unfolding read_at
    read_at-write_at =
        rw
          (
            let e : leb (ent_len (write_at disk s i pos b).1.dir i) pos ≡ false =
                  ground (arith, written.longer.0) in
                e,
            written.sectors i,
            written.is,
          )
          (ap some (written.same (pos % 512) (omega arith) ∙ ground arith))

    -- In a directory that is laid out, with file `i` live, all sectors in use below 2 ^ 28 and the
    -- write of byte `pos` of it reported done: byte `q` of a live file `j` reads as before, if `j` is another file, or if
    -- `q` is another byte below the old length of file `i`.
    pub read_at-write_at_other :
        (j q : ℕ)
        → j < max_files
        → IsLive s.dir j
        → (j ≢ i) ⊎ ((q ≢ pos) × (q < ent_len s.dir i))
        → read_at disk (write_at disk s i pos b).1 j q ≡ read_at disk s j q
    unfolding read_at
    read_at-write_at_other j q ltj livej apart = elim (Bool-cases (leb (ent_len s.dir j) q)) [
      | inl beyond ↦ rw (reach ∙ beyond, beyond) refl
      | inr inside ↦ elim (Bool-cases (lba_of s j q == lba_of s i pos)) [
        | inr ne ↦
            rw
              (
                reach ∙ inside,
                inside,
                written.sectors j,
                written.others (lba_of s j q) (omega (arith, laid_out.owned j ltj livej))
                    (ground (arith, laid_out.owned j ltj livej, room, inside)) (ground arith),
              )
              refl
        | inl meet ↦
            (let eq' : lba_of s j q ≡ lba_of s i pos = ground arith in
              rw (reach ∙ inside, inside, written.sectors j, eq', written.is, written.was)
                (ap some (
                  written.same (q % 512) (omega arith)
                  ∙ (let ne : q % 512 ≢ pos % 512 = (λ z. off (ground arith) eq' z) in
                      ground arith))))
      ]
    ]
      where
        off : q < ent_len s.dir j → lba_of s j q ≡ lba_of s i pos → q % 512 ≢ pos % 512
        off short meet bytes = elim (Bool-cases (j == i)) [
          | inl eq ↦
              (let eq' : j ≡ i = ground arith in grind (arith, apart, ap (ent_sector s.dir) eq'))
          | inr ne ↦ omega (
            arith,
            laid_out.apart j i ltj lt (ground arith) livej live,
            laid_out.owned j ltj livej,
            written.near,
          )
        ]

        reach : leb (ent_len (write_at disk s i pos b).1.dir j) q ≡ leb (ent_len s.dir j) q
        reach = elim (Bool-cases (j == i)) [
          | inr ne ↦ rw (written.lengths j (ground arith)) refl
          | inl eq ↦
              (let eq' : i ≡ j = ground arith in
                subst
                  (λ t. leb (ent_len (write_at disk s i pos b).1.dir t) q ≡ leb (ent_len s.dir t) q)
                  eq' (ground (arith, written.longer.1, eq')))
        ]
