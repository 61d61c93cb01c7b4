-- ===== src/Kernel/Fs/Layout.antt =====
-- The layout of the files on the disk: each live entry of the directory owns 8 sectors of the data
-- area, below `NEXT_FREE` and apart from those of the others, and is at most 4096 bytes long.
use mik_os.Common.{
  ℕ, ◌+◌, ◌*◌, ◌/◌, ◌%◌, ◌^◌, ◌≤◌, ◌<◌, ◌≡◌, ◌≢◌, ap, sym, subst, ◌∙◌, ◌⊎◌, inl, inr, arith, ◌==◌,
  ltb, leb, not, ◌||◌, List, length, Memory, store32, update, Bool-cases, Option-cases,
}
use mik_os.Common.Table.{find_from}
use mik_os.Kernel.Disk.{Disk}
use mik_os.Kernel.Fs.{
  ent, name_max, max_files, file_cap, data_lba, ent_len, ent_sector, new_entry, bad_name, Fs,
  flush_ent, flush_sb, create_at, create, truncate, write_at, write_back,
}
use mik_os.Kernel.Fs.Entries.{
  SameEntry-fields, set_len_fields, set_len_kept, new_entry_outside, new_entry_fields,
}

abbrev pub IsLive : Memory → ℕ → Type 0
IsLive dir i = dir (i * ent) ≢ 0

pub record IsLaidOut (dir : Memory) (next_free : ℕ) : Type 0 where
  pub first : data_lba ≤ next_free
  pub owned :
      (i : ℕ)
      → i < max_files
      → IsLive dir i
      → (data_lba ≤ ent_sector dir i)
        × (ent_sector dir i + 8 ≤ next_free)
        × (ent_len dir i ≤ file_cap)
  pub apart :
      (i j : ℕ)
      → i < max_files
      → j < max_files
      → i ≢ j
      → IsLive dir i
      → IsLive dir j
      → (ent_sector dir i + 8 ≤ ent_sector dir j) ⊎ (ent_sector dir j + 8 ≤ ent_sector dir i)

-- Entries keep their state but for the length of one of them.
pub set_len-IsLaidOut :
    (dir : Memory) (next_free i n : ℕ)
    → n ≤ file_cap
    → IsLaidOut dir next_free
    → IsLaidOut (store32 dir (i * ent + 28) n) next_free
set_len-IsLaidOut dir next_free i n h l = record {
  first = l.first;
  owned = λ j lt live. elim (Bool-cases (j == i)) [
    | inl e ↦ self j lt (grind (arith, e)) live
    | inr e ↦ other j (grind (arith, e)) lt live
  ];
  apart = λ j k ltj ltk ne livej livek. omega (
    arith,
    sector j,
    sector k,
    l.apart j k ltj ltk ne (λ z. livej (live_of j ∙ z)) (λ z. livek (live_of k ∙ z)),
  );
}
  where
    dir' : Memory
    dir' = store32 dir (i * ent + 28) n

    fits : n < 2 ^ 32
    fits = omega arith

    live_of : (j : ℕ) → dir' (j * ent) ≡ dir (j * ent)
    live_of j = (set_len_kept dir i n j fits).0

    sector : (j : ℕ) → ent_sector dir' j ≡ ent_sector dir j
    sector j = (set_len_kept dir i n j fits).1

    self :
        (j : ℕ)
        → j < max_files
        → j ≡ i
        → IsLive dir' j
        → (data_lba ≤ ent_sector dir' j)
          × (ent_sector dir' j + 8 ≤ next_free)
          × (ent_len dir' j ≤ file_cap)
    self j lt e live =
        let o = l.owned j lt (λ z. live (live_of j ∙ z)) in
        (
          omega (arith, o, sector j),
          omega (arith, o, sector j),
          subst (λ t. ent_len dir' t ≤ file_cap) (sym e)
              (omega (arith, (set_len_fields dir i n fits).2)),
        )

    other :
        (j : ℕ)
        → j ≢ i
        → j < max_files
        → IsLive dir' j
        → (data_lba ≤ ent_sector dir' j)
          × (ent_sector dir' j + 8 ≤ next_free)
          × (ent_len dir' j ≤ file_cap)
    other j ne lt live =
        let o = l.owned j lt (λ z. live (live_of j ∙ z)) in
        (
          omega (arith, o, sector j),
          omega (arith, o, sector j),
          omega (arith, o, (set_len_kept dir i n j fits).2 ne),
        )

module _ (disk : Disk) where
  -- Emptying a file keeps the layout.
  pub truncate-IsLaidOut :
      (s : Fs disk) (i : ℕ)
      → IsLaidOut s.dir s.next_free
      → IsLaidOut (truncate disk s i).dir (truncate disk s i).next_free
  unfolding truncate flush_ent
  truncate-IsLaidOut s i l = set_len-IsLaidOut s.dir s.next_free i 0 (omega arith) l

  -- Writing a byte, whether the disk takes it or not, keeps the layout: live files on disjoint
  -- runs of 8 sectors, none longer than 4096 bytes.
  pub write_at-IsLaidOut :
      (s : Fs disk) (i pos b : ℕ)
      → IsLaidOut s.dir s.next_free
      → let s' = (write_at disk s i pos b).1 in IsLaidOut s'.dir s'.next_free
  unfolding write_at write_back flush_ent
  write_at-IsLaidOut s i pos b l = elim (Bool-cases (leb file_cap pos)) [
    | inl far ↦ rw far l
    | inr near ↦ elim (Option-cases (disk.read_sector s.store (ent_sector s.dir i + pos / 512))) [
      | inl bad ↦ rw (near, bad) l
      | inr (sec, good) ↦
          elim (Bool-cases
            (disk.write_sector s.store (ent_sector s.dir i + pos / 512)
              (update sec (pos % 512) b)).0) [
                | inr refused ↦ rw (near, good, refused) l
                | inl done ↦ elim (Bool-cases (ltb (ent_len s.dir i) (pos + 1))) [
                  | inl longer ↦
                      rw (near, good, done, longer)
                        (set_len-IsLaidOut s.dir s.next_free i (pos + 1) (ground arith) l)
                  | inr not_longer ↦ rw (near, good, done, not_longer) l
                ]
              ]
    ]
  ]

  -- A new file gets the 8 sectors from `NEXT_FREE` on, which no other file has.
  new_entry-IsLaidOut :
      (dir : Memory) (next_free i : ℕ) (name : List ℕ)
      → length name ≤ name_max
      → next_free + 8 < 2 ^ 32
      → IsLaidOut dir next_free
      → IsLaidOut (new_entry dir i name next_free) (next_free + 8)
  new_entry-IsLaidOut dir next_free i name short fits l = record {
    first = omega (arith, l.first);
    owned = λ j lt live. elim (Bool-cases (j == i)) [
      | inl e ↦
          subst Owned (sym (let e' : j ≡ i = ground arith in e'))
            (omega (arith, l.first, new), omega (arith, new), omega (arith, new))
      | inr e ↦
          (let o = old j (ground arith) in
            let w = l.owned j lt (λ z. live (sym o.0 ∙ z)) in
            (omega (arith, o.1, w), omega (arith, o.1, w), omega (arith, o.2, w)))
    ];
    apart = λ j k ltj ltk ne livej livek. elim (Bool-cases (j == i)) [
      | inl e ↦
          (let e' : j ≡ i = ground arith in
            let ne' : k ≢ i = (λ z. ne (e' ∙ sym z)) in
            let o = old k ne' in
            let w = l.owned k ltk (λ z. livek (sym o.0 ∙ z)) in
            inr (omega (arith, w, o.1, new.2, ap (ent_sector dir') e')))
      | inr e ↦ elim (Bool-cases (k == i)) [
        | inl f ↦
            (let f' : k ≡ i = ground arith in
              let ne' : j ≢ i = ground arith in
              let o = old j ne' in
              let w = l.owned j ltj (λ z. livej (sym o.0 ∙ z)) in
              inl (omega (arith, w, o.1, new.2, ap (ent_sector dir') f')))
        | inr f ↦
            (let o = old j (ground arith) in
              let o' = old k (ground arith) in
              omega (
                arith,
                o.1,
                o'.1,
                l.apart j k ltj ltk ne (λ z. livej (sym o.0 ∙ z)) (λ z. livek (sym o'.0 ∙ z)),
              ))
      ]
    ];
  }
    where
      dir' : Memory
      dir' = new_entry dir i name next_free

      Owned : ℕ → Type 0
      Owned j =
          (data_lba ≤ ent_sector dir' j)
          × (ent_sector dir' j + 8 ≤ next_free + 8)
          × (ent_len dir' j ≤ file_cap)

      new : (ent_sector dir' i ≡ next_free) × (ent_len dir' i ≡ 0) × (ent_sector dir' i ≡ next_free)
      new = let f = new_entry_fields dir i name next_free short (omega arith) in (f.2, f.3, f.2)

      old :
          (j : ℕ)
          → j ≢ i
          → (dir (j * ent) ≡ dir' (j * ent))
            × (ent_sector dir j ≡ ent_sector dir' j)
            × (ent_len dir j ≡ ent_len dir' j)
      old j ne = SameEntry-fields dir dir' j (new_entry_outside dir i name next_free j short ne)

  -- Creating a file keeps the layout (live files on disjoint runs of 8 sectors between the data
  -- area's start and `NEXT_FREE`, none longer than 4096 bytes), as long as `NEXT_FREE` does not
  -- overflow.
  pub create-IsLaidOut :
      (s : Fs disk) (name : List ℕ)
      → s.next_free + 8 < 2 ^ 32
      → IsLaidOut s.dir s.next_free
      → let s' = (create disk s name).1 in IsLaidOut s'.dir s'.next_free
  unfolding create create_at flush_ent flush_sb
  create-IsLaidOut s name fits l = elim (Bool-cases (not s.present || bad_name name)) [
    | inl bad ↦ rw bad l
    | inr good ↦ elim (Option-cases (find_from max_files 0 (λ i. s.dir (i * ent) == 0))) [
      | inl full ↦ rw (good, full) l
      | inr (i, slot) ↦
          rw (good, slot) (new_entry-IsLaidOut s.dir s.next_free i name (ground arith) fits l)
    ]
  ]
