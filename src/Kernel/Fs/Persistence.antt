-- ===== src/Kernel/Fs/Persistence.antt =====
-- What Mik-FS (mik-os-x86/kernel/src/fs.rs) keeps on the disk: the directory and the superblock, from
-- which `init` mounts it again.
use mik_os.Common.{
  ℕ, ◌+◌, ◌-◌, ◌*◌, ◌/◌, ◌^◌, ◌≤◌, ◌<◌, ◌≡◌, ◌≢◌, refl, sym, ap, subst, ◌∙◌, ◌⊎◌, inl, inr, arith,
  ◌==◌, ltb, not, ◌||◌, true, some, List, length, Memory, slice, slice_ext, slice-copy_into,
  copy_into, copy_into_outside, store32, load32-store32, load32_ext, store32_outside, bytes_eq,
  Bool-cases, Option-cases,
}
use mik_os.Common.Table.{find_from, find_from-some}
use mik_os.Kernel.Disk.{Disk}
use mik_os.Kernel.Fs.{
  sb_lba, dir_lba, ent, max_files, name_max, magic, Fs, bad_name, new_entry, flush_ent, flush_sb,
  create_at, create, read_dir_sector, mount, init,
}

abbrev pub superblock : ℕ → Memory
superblock next_free = store32 (copy_into (λ _. 0) 0 magic) 8 next_free

superblock-magic : (n : ℕ) → slice (superblock n) 0 8 ≡ magic
superblock-magic n =
    slice_ext (superblock n) (copy_into (λ _. 0) 0 magic) 0 8
      (λ b p q. store32_outside (copy_into (λ _. 0) 0 magic) 8 b n (omega (arith, q)))
    ∙ slice-copy_into (λ _. 0) 0 magic

new_entry_kept :
    (dir : Memory) (i : ℕ) (name : List ℕ) (first k : ℕ)
    → length name ≤ name_max
    → (k < i * ent) ⊎ (i * ent + ent ≤ k)
    → new_entry dir i name first k ≡ dir k
unfolding new_entry
new_entry_kept dir i name first k short out =
    store32_outside _ (i * ent + 24) k first (omega (arith, out))
    ∙ copy_into_outside _ (i * ent) k name (omega (arith, out, short))
    ∙ ground (arith, out)

module _ (disk : Disk) where
  -- The first 512 bytes of `want` stand in a sector.
  abbrev OnDisk : disk.State → ℕ → Memory → Type 0
  OnDisk d lba want =
      (got : Memory) × (disk.read_sector d lba ≡ some got) × ((k : ℕ) → k < 512 → got k ≡ want k)

  -- The disk has what the statics have.
  pub record IsSaved (s : Fs disk) : Type 0 where
    pub here : s.present ≡ true
    pub directory : (q : ℕ) → q < 2 → OnDisk s.store (dir_lba + q) (λ k. s.dir (q * 512 + k))
    pub super : OnDisk s.store sb_lba (superblock s.next_free)
    pub small : s.next_free < 2 ^ 32

  -- What `init` makes of a disk, compared with the statics it was left by.
  pub record IsRestored (s s' : Fs disk) : Type 0 where
    pub mounted : s'.present ≡ true
    pub entries : (k : ℕ) → k < 1024 → s'.dir k ≡ s.dir k
    pub free : s'.next_free ≡ s.next_free
    pub kept : s'.store ≡ s.store

  init_saved :
      (s : Fs disk) (seed_prog : List ℕ)
      → disk.present s.store ≡ true
      → IsSaved s
      → IsRestored s (init disk s.store seed_prog).1
  unfolding init mount read_dir_sector
  init_saved s seed_prog there h =
      let sb = h.super.0 in
      let word : bytes_eq (slice sb 0 8) magic ≡ true =
        ap (λ (t : List ℕ). bytes_eq t magic)
          (slice_ext sb (superblock s.next_free) 0 8 (λ b p q. h.super.2 b (omega (arith, q)))
            ∙ superblock-magic s.next_free) in
      let low = h.directory 0 (omega arith) in
      let high = h.directory 1 (omega arith) in
      rw (there, h.super.1, word)
        (record {
          mounted = refl;
          entries = λ k lt. elim (Bool-cases (ltb k 512)) [
            | inl near ↦
                rw (near, low.1, read_dir_sector)
                  (low.2 k (ground (arith, near))
                    ∙ ap s.dir (let e : 0 * 512 + k ≡ k = omega arith in e))
            | inr far ↦
                rw (far, high.1, read_dir_sector)
                  (high.2 (k - 512) (ground (arith, far, lt))
                    ∙ ap s.dir (let e : 1 * 512 + (k - 512) ≡ k = ground (arith, far) in e))
          ];
          free =
              load32_ext sb (superblock s.next_free) 8 (λ b p q. h.super.2 b (omega (arith, q)))
              ∙ load32-store32 (copy_into (λ _. 0) 0 magic) 8 s.next_free h.small;
          kept = refl;
        })

  module _
      (reliable : (d : disk.State) (lba : ℕ) (sec : Memory)
        → lba < 2 ^ 28
        → (disk.write_sector d lba sec).0 ≡ true)
      (stays : (d : disk.State) (lba : ℕ) (sec : Memory)
        → disk.present (disk.write_sector d lba sec).1 ≡ disk.present d) where
    written :
        (d : disk.State) (lba : ℕ) (sec : Memory)
        → lba < 2 ^ 28
        → OnDisk (disk.write_sector d lba sec).1 lba sec
    written d lba sec lt = disk.read-write d lba sec (reliable d lba sec lt)

    untouched :
        (d : disk.State) (lba other : ℕ) (sec want : Memory)
        → lba < 2 ^ 28
        → other < 2 ^ 28
        → other ≢ lba
        → OnDisk d other want
        → OnDisk (disk.write_sector d lba sec).1 other want
    untouched d lba other sec want lt lt' ne h =
        (h.0, disk.read-write_ne d lba other sec lt lt' ne ∙ h.1, h.2)

    create_at-IsSaved :
        (s : Fs disk) (name : List ℕ) (i : ℕ)
        → i < max_files
        → length name ≤ name_max
        → s.next_free + 8 < 2 ^ 32
        → IsSaved s
        → IsSaved (create_at disk s name i).1
    unfolding create_at flush_ent flush_sb
    create_at-IsSaved s name i lt short room h = record {
      here = h.here;
      directory = λ q ltq.
          untouched (disk.write_sector s.store (dir_lba + at) _).1 sb_lba (dir_lba + q)
            (superblock (s.next_free + 8)) (λ k. dir' (q * 512 + k)) (omega arith)
            (omega (arith, ltq)) (omega arith) (saved q ltq);
      super = written _ sb_lba (superblock (s.next_free + 8)) (omega arith);
      small = room;
    }
      where
        at : ℕ
        at = i * ent / 512

        dir' : Memory
        dir' = new_entry s.dir i name s.next_free

        saved :
            (q : ℕ)
            → q < 2
            → OnDisk
                (disk.write_sector s.store (dir_lba + at) (λ k. dir' (at * 512 + k))).1
                (dir_lba + q)
                (λ k. dir' (q * 512 + k))
        saved q ltq = elim (Bool-cases (q == at)) [
          | inl same ↦
              (let e : at ≡ q = ground (arith, same) in
                subst
                  (λ (t : ℕ).
                    OnDisk (disk.write_sector s.store (dir_lba + at) (λ k. dir' (at * 512 + k))).1
                      (dir_lba + t) (λ k. dir' (t * 512 + k)))
                  e (written s.store (dir_lba + at) (λ k. dir' (at * 512 + k)) (omega (arith, lt))))
          | inr other ↦
              (let old =
                  untouched s.store (dir_lba + at) (dir_lba + q) (λ k. dir' (at * 512 + k))
                    (λ k. s.dir (q * 512 + k)) (omega (arith, lt)) (omega (arith, ltq))
                    (ground (arith, other)) (h.directory q ltq) in
                (
                  old.0,
                  old.1,
                  λ k ltk.
                      old.2 k ltk
                      ∙ sym (
                          new_entry_kept s.dir i name s.next_free (q * 512 + k) short
                            (ground (arith, other, ltk))),
                ))
        ]

    create-IsSaved :
        (s : Fs disk) (name : List ℕ)
        → s.next_free + 8 < 2 ^ 32
        → IsSaved s
        → IsSaved (create disk s name).1
    unfolding create
    create-IsSaved s name room h = elim (Bool-cases (not s.present || bad_name name)) [
      | inl refused ↦ rw (refused, create) h
      | inr fine ↦ elim (Option-cases (find_from max_files 0 (λ i. s.dir (i * ent) == 0))) [
        | inl full ↦ rw (fine, full, create) h
        | inr (i, found) ↦
            rw (fine, found, create)
              (create_at-IsSaved s name i
                (let r = find_from-some max_files 0 i (λ i. s.dir (i * ent) == 0) found in
                  omega (arith, r))
                (ground (arith, fine)) room h)
      ]
    ]

    create-present :
        (s : Fs disk) (name : List ℕ)
        → disk.present (create disk s name).1.store ≡ disk.present s.store
    unfolding create create_at flush_ent flush_sb
    create-present s name = elim (Bool-cases (not s.present || bad_name name)) [
      | inl refused ↦ rw (refused, create) refl
      | inr fine ↦ elim (Option-cases (find_from max_files 0 (λ i. s.dir (i * ent) == 0))) [
        | inl full ↦ rw (fine, full, create) refl
        | inr (i, found) ↦ rw (fine, found, create) (stays _ sb_lba _ ∙ stays s.store _ _)
      ]
    ]

    -- On a disk whose writes below sector 2 ^ 28 succeed, with a directory and a superblock on it that
    -- agree with the statics, and sector numbers that do not overflow: behind `create`, whether it
    -- makes the file or refuses, `init` mounts the directory that `create` has left, with the same
    -- next free sector, and writes nothing.
    pub init-create :
        (s : Fs disk) (name seed_prog : List ℕ)
        → s.next_free + 8 < 2 ^ 32
        → disk.present s.store ≡ true
        → IsSaved s
        → let s' = (create disk s name).1 in IsRestored s' (init disk s'.store seed_prog).1
    init-create s name seed_prog room there h =
        init_saved (create disk s name).1 seed_prog (create-present s name ∙ there)
          (create-IsSaved s name room h)
