-- ===== src/Kernel/Fs/Naming.antt =====
-- Files by name: `create` makes the name findable, and no other name is lost.
use mik_os.Common.{
  ℕ, zero, suc, ◌+◌, ◌*◌, ◌^◌, ◌≤◌, ◌<◌, ◌≡◌, ◌≢◌, refl, ap, sym, ◌∙◌, inl, inr, arith, ◌==◌, Bool,
  true, not, ◌||◌, none, some, List, [], ◌∷◌, length, Memory, slice, slice_ext, get_or,
  bytes_eq_self, Bool-cases, Option-cases,
}
use mik_os.Common.Table.{find_from, find_from-some}
use mik_os.Kernel.Disk.{Disk}
use mik_os.Kernel.Fs.{
  ent, name_max, max_files, names, new_entry, bad_name, Fs, find, flush_ent, flush_sb, create_at,
  create,
}
use mik_os.Kernel.Fs.Entries.{SameEntry, new_entry_outside, new_entry_fields}

-- The first index of a range whose test changes from false to true at `k` alone.
find_from_new :
    (n i k : ℕ) (p p' : ℕ → Bool)
    → i ≤ k
    → k < i + n
    → p' k ≡ true
    → ((j : ℕ) → j ≢ k → p' j ≡ p j)
    → find_from n i p ≡ none
    → find_from n i p' ≡ some k
unfolding find_from
find_from_new zero i k p p' le lt hit same h = absurd (omega arith)
find_from_new (suc n) i k p p' le lt hit same h = elim (Bool-cases (i == k)) [
  | inl here ↦
      (let here' : k ≡ i = ground arith in
        rw (find_from, (ap p' (sym here') ∙ hit)) (ap some (sym here')))
  | inr later ↦ elim (Bool-cases (p i)) [
    | inl old ↦ absurd (ground (arith, h, old))
    | inr fresh ↦
        rw (find_from, same i (ground arith), fresh)
          (find_from_new n (i + 1) k p p' (ground arith) (omega arith) hit same
            (rw (find_from, fresh) at h))
  ]
]

names_same :
    (dir dir' : Memory) (name : List ℕ) (j : ℕ)
    → length name ≤ name_max
    → SameEntry dir dir' j
    → names dir' name j ≡ names dir name j
unfolding names
names_same dir dir' name j short same =
    rw
      (
        sym (same (j * ent) (omega arith) (omega arith)),
        slice_ext dir' dir (j * ent) (length name) (λ b p q. sym (same b p (omega arith))),
        sym (same (j * ent + length name) (omega arith) (omega arith)),
      )
      refl

names-true :
    (dir : Memory) (name : List ℕ) (i : ℕ)
    → length name ≤ name_max
    → dir (i * ent) ≢ 0
    → slice dir (i * ent) (length name) ≡ name
    → (length name < name_max → dir (i * ent + length name) ≡ 0)
    → names dir name i ≡ true
unfolding names
names-true dir name i short live same ends = rw (same, bytes_eq_self name) (ground (arith, ends))

names_new :
    (dir : Memory) (name : List ℕ) (i first : ℕ)
    → length name ≤ name_max
    → get_or name 0 0 ≢ 0
    → first < 2 ^ 32
    → names (new_entry dir i name first) name i ≡ true
names_new dir [] i first short visible fits = absurd (visible refl)
names_new dir (c ∷ cs) i first short visible fits =
    let f = new_entry_fields dir i (c ∷ cs) first short fits in
    let head : new_entry dir i (c ∷ cs) first (i * ent) ≡ c =
      ap (λ (t : List ℕ). get_or t 0 0) f.0 in
    names-true (new_entry dir i (c ∷ cs) first) (c ∷ cs) i short (λ z. visible (sym head ∙ z)) f.0
      f.1

module _ (disk : Disk) where
  -- A file that is created under a name that no file has, and that does not begin with a NUL byte, is
  -- found under that name, at the index that `create` returned, if `NEXT_FREE` fits 32 bits.
  pub find-create :
      (s : Fs disk) (name : List ℕ) (i : ℕ)
      → s.next_free < 2 ^ 32
      → get_or name 0 0 ≢ 0
      → find disk s name ≡ none
      → (create disk s name).0 ≡ some i
      → find disk (create disk s name).1 name ≡ some i
  unfolding find create create_at flush_ent flush_sb
  find-create s name i fits visible absent made =
      elim (Bool-cases (not s.present || bad_name name)) [
        | inl bad ↦ absurd (let e : none ≡ some i = rw bad at made in ground arith)
        | inr good ↦ elim (Option-cases (find_from max_files 0 (λ k. s.dir (k * ent) == 0))) [
          | inl full ↦ absurd (let e : none ≡ some i = rw (good, full) at made in ground arith)
          | inr (k, slot) ↦
              let e : some k ≡ some i = rw (good, slot) at made in
              let k_i : k ≡ i = ground arith in
              let none_yet : find_from max_files 0 (names s.dir name) ≡ none = rw good at absent in
              rw (good, slot, good)
                (find_from_new max_files 0 k _ _ (omega arith)
                    (omega (
                      arith,
                      (let r = find_from-some max_files 0 k (λ t. s.dir (t * ent) == 0) slot in r),
                    ))
                    (names_new s.dir name k s.next_free (ground arith) visible fits)
                    (λ j ne.
                      names_same s.dir (new_entry s.dir k name s.next_free) name j (ground arith)
                        (new_entry_outside s.dir k name s.next_free j (ground arith) ne))
                    none_yet
                  ∙ ap some k_i)
        ]
      ]
