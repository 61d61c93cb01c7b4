-- ===== src/Kernel/Fs/Entries.antt =====
-- The bytes of a directory entry that the operations of Mik-FS touch.
use mik_os.Common.{
  ℕ, ◌+◌, ◌*◌, ◌^◌, ◌≤◌, ◌<◌, ◌≡◌, ◌≢◌, refl, sym, subst, ◌∙◌, ◌⊎◌, inl, inr, arith, ◌==◌, ltb, leb,
  if◌then◌else◌, ◌&&◌, List, length, Memory, slice, copy_into, store32, copy_into_outside,
  slice-copy_into, slice_ext, load32-store32, store32_outside, load32_ext, load32_zero, Bool-cases,
  ltb→lt,
}
use mik_os.Kernel.Fs.{ent, name_max, ent_len, ent_sector, new_entry}

-- Directories that agree on the 32 bytes of entry `j`.
abbrev pub SameEntry : Memory → Memory → ℕ → Type 0
SameEntry dir dir' j = (k : ℕ) → j * ent ≤ k → k < j * ent + ent → dir k ≡ dir' k

pub SameEntry-fields :
    (dir dir' : Memory) (j : ℕ)
    → SameEntry dir dir' j
    → (dir (j * ent) ≡ dir' (j * ent))
      × (ent_sector dir j ≡ ent_sector dir' j)
      × (ent_len dir j ≡ ent_len dir' j)
unfolding ent_sector ent_len
SameEntry-fields dir dir' j h = (
  h (j * ent) (omega arith) (omega arith),
  load32_ext dir dir' (j * ent + 24) (λ b p q. h b (omega arith) (omega arith)),
  load32_ext dir dir' (j * ent + 28) (λ b p q. h b (omega arith) (omega arith)),
)

pub outside_entry :
    (i j k : ℕ) → j ≢ i → j * ent ≤ k → k < j * ent + ent → (k < i * ent) ⊎ (i * ent + ent ≤ k)
outside_entry i j k ne p q = elim (Bool-cases (ltb j i)) [
  | inl lt ↦ inl (omega (arith, ltb→lt j i lt))
  | inr ge ↦ inr (ground arith)
]

-- Setting the length of entry `i`.
pub set_len_fields :
    (dir : Memory) (i n : ℕ)
    → n < 2 ^ 32
    → let dir' = store32 dir (i * ent + 28) n in
      (dir' (i * ent) ≡ dir (i * ent))
      × (ent_sector dir' i ≡ ent_sector dir i)
      × (ent_len dir' i ≡ n)
      × ((j : ℕ) → j ≢ i → SameEntry dir dir' j)
unfolding ent_sector ent_len
set_len_fields dir i n h = (
  store32_outside dir (i * ent + 28) (i * ent) n (omega arith),
  load32_ext _ dir (i * ent + 24) (λ b p q. store32_outside dir (i * ent + 28) b n (omega arith)),
  load32-store32 dir (i * ent + 28) n h,
  λ j ne k p q.
      sym (store32_outside dir (i * ent + 28) k n (grind (arith, outside_entry i j k ne p q))),
)

-- Filling in a new entry `i`: the other entries are untouched, and it carries the name, behind
-- which stands a NUL if there is room, the sector and length 0.
pub new_entry_outside :
    (dir : Memory) (i : ℕ) (name : List ℕ) (first j : ℕ)
    → length name ≤ name_max
    → j ≢ i
    → SameEntry dir (new_entry dir i name first) j
unfolding new_entry
new_entry_outside dir i name first j short ne k p q = sym (
    store32_outside _ (i * ent + 24) k first (omega (arith, outside_entry i j k ne p q))
    ∙ copy_into_outside _ (i * ent) k name (omega (arith, outside_entry i j k ne p q))
    ∙ ground (arith, outside_entry i j k ne p q))

pub new_entry_fields :
    (dir : Memory) (i : ℕ) (name : List ℕ) (first : ℕ)
    → length name ≤ name_max
    → first < 2 ^ 32
    → let dir' = new_entry dir i name first in
      (slice dir' (i * ent) (length name) ≡ name)
      × (length name < name_max → dir' (i * ent + length name) ≡ 0)
      × (ent_sector dir' i ≡ first)
      × (ent_len dir' i ≡ 0)
unfolding new_entry ent_sector ent_len
new_entry_fields dir i name first short fits = (
  slice_ext _ named (i * ent) (length name)
        (λ b p q. store32_outside named (i * ent + 24) b first (omega arith))
      ∙ slice-copy_into cleared (i * ent) name,
  λ room.
      store32_outside named (i * ent + 24) (i * ent + length name) first (omega arith)
      ∙ copy_into_outside cleared (i * ent) (i * ent + length name) name (omega arith)
      ∙ ground arith,
  load32-store32 named (i * ent + 24) first fits,
  load32_ext _ (λ _. 0) (i * ent + 28)
        (λ b p q.
          store32_outside named (i * ent + 24) b first (omega arith)
          ∙ copy_into_outside cleared (i * ent) b name (omega arith)
          ∙ ground arith)
      ∙ load32_zero (i * ent + 28),
)
  where
    cleared : Memory
    cleared k = if leb (i * ent) k && ltb k (i * ent + ent) then 0 else dir k

    named : Memory
    named = copy_into cleared (i * ent) name

-- So no entry changes its sector, or whether it is in use, and the others keep their length.
pub set_len_kept :
    (dir : Memory) (i n j : ℕ)
    → n < 2 ^ 32
    → let dir' = store32 dir (i * ent + 28) n in
      (dir' (j * ent) ≡ dir (j * ent))
      × (ent_sector dir' j ≡ ent_sector dir j)
      × (j ≢ i → ent_len dir' j ≡ ent_len dir j)
set_len_kept dir i n j h = elim (Bool-cases (j == i)) [
  | inl e ↦
      (let e' : i ≡ j = ground arith in
        subst
          (λ t.
            (dir' (t * ent) ≡ dir (t * ent))
            × (ent_sector dir' t ≡ ent_sector dir t)
            × (t ≢ i → ent_len dir' t ≡ ent_len dir t))
          e' ((set_len_fields dir i n h).0, (set_len_fields dir i n h).1, λ ne. absurd (ne refl)))
  | inr e ↦
      (let o = SameEntry-fields dir dir' j ((set_len_fields dir i n h).3 j (ground arith)) in
        (sym o.0, sym o.1, λ _. sym o.2))
]
  where
    dir' : Memory
    dir' = store32 dir (i * ent + 28) n
