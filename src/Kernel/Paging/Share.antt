-- ===== src/Kernel/Paging/Share.antt =====
-- The sharing loop of `clone_user_table`: parent and child are left with the same frames, read-only.
use mik_os.Common.{
  ℕ, zero, suc, ◌+◌, ◌*◌, ◌^◌, ◌≤◌, ◌<◌, ◌≡◌, ◌≢◌, refl, subst, ◌∙◌, ◌⊎◌, inl, inr, arith, ◌==◌,
  if◌then◌else◌, false, some, Memory, IsBytes, load64, store64, load64-store64,
  load64-store64_apart, Bool-cases,
}
use mik_os.Common.Bits.{test_bit}
use mik_os.Kernel.Mem.{Frames, alloc_frame}
use mik_os.Kernel.Paging.{zero_frame}
use mik_os.Kernel.Paging.Clone.{read_only, share_entries}

-- What a parent's entry becomes.
abbrev pub shared : ℕ → ℕ
shared pte = if test_bit pte 0 then read_only pte else pte

-- Two tables of 512 entries that do not meet.
abbrev pub Apart : ℕ → ℕ → Type 0
Apart a b = (a + 4096 ≤ b) ⊎ (b + 4096 ≤ a)

-- One round of the loop.
abbrev share_entry : Memory → ℕ → ℕ → ℕ → Memory
share_entry mem p c j =
    let pte = load64 mem (p + j * 8) in
    if test_bit pte 0
    then store64 (store64 mem (p + j * 8) (read_only pte)) (c + j * 8) (read_only pte)
    else mem

share_entry-outside :
    (mem : Memory) (p c j a : ℕ)
    → (a + 8 ≤ p + j * 8) ⊎ (p + j * 8 + 8 ≤ a)
    → (a + 8 ≤ c + j * 8) ⊎ (c + j * 8 + 8 ≤ a)
    → load64 (share_entry mem p c j) a ≡ load64 mem a
share_entry-outside mem p c j a hp hc = elim (Bool-cases (test_bit (load64 mem (p + j * 8)) 0)) [
  | inr absent ↦ rw (absent) refl
  | inl present ↦
      rw (present)
        (load64-store64_apart _ (c + j * 8) a _ hc ∙ load64-store64_apart mem (p + j * 8) a _ hp)
]

-- The loop leaves every word outside the entries that it visits alone.
share_entries-outside :
    (n : ℕ) (mem : Memory) (p c j a : ℕ)
    → (a + 8 ≤ p + j * 8) ⊎ (p + (j + n) * 8 ≤ a)
    → (a + 8 ≤ c + j * 8) ⊎ (c + (j + n) * 8 ≤ a)
    → load64 (share_entries n mem p c j) a ≡ load64 mem a
unfolding share_entries
share_entries-outside zero mem p c j a hp hc = refl
share_entries-outside (suc n) mem p c j a hp hc =
    share_entries-outside n (share_entry mem p c j) p c (j + 1) a (omega (arith, hp))
      (omega (arith, hc))
    ∙ share_entry-outside mem p c j a (omega (arith, hp)) (omega (arith, hc))

-- What the loop makes of entry `t` of both tables: a present entry is shared read-only, and the others
-- stay.
abbrev pub Shared : Memory → Memory → ℕ → ℕ → ℕ → Type 0
Shared mem mem' p c t =
    (load64 mem' (p + t * 8) ≡ shared (load64 mem (p + t * 8)))
    × (load64 mem' (c + t * 8) ≡ (
        if test_bit (load64 mem (p + t * 8)) 0
        then read_only (load64 mem (p + t * 8))
        else load64 mem (c + t * 8)))

share_entry-Shared :
    (mem : Memory) (p c j : ℕ)
    → Apart p c
    → j < 512
    → load64 mem (p + j * 8) < 2 ^ 64
    → Shared mem (share_entry mem p c j) p c j
share_entry-Shared mem p c j h lt word = elim (Bool-cases (test_bit (load64 mem (p + j * 8)) 0)) [
  | inr absent ↦ rw (absent) (refl, refl)
  | inl present ↦
      let small : read_only (load64 mem (p + j * 8)) < 2 ^ 64 = ground (arith, word) in
      rw (present) (
        load64-store64_apart _ (c + j * 8) (p + j * 8) _ (omega (arith, h, lt))
            ∙ load64-store64 mem (p + j * 8) _ small,
        load64-store64 _ (c + j * 8) _ small,
      )
]

-- The entries that the loop visits.
pub share_entries-Shared :
    (n : ℕ) (mem : Memory) (p c j t : ℕ)
    → Apart p c
    → j + n ≤ 512
    → j ≤ t
    → t < j + n
    → load64 mem (p + t * 8) < 2 ^ 64
    → Shared mem (share_entries n mem p c j) p c t
unfolding share_entries
share_entries-Shared zero mem p c j t h le lo hi word = absurd (omega (arith, lo, hi))
share_entries-Shared (suc n) mem p c j t h le lo hi word =
    let m = share_entry mem p c j in
    elim (Bool-cases (j == t)) [
      | inl now ↦
          let e : j ≡ t = ground (arith, now) in
          let r = share_entry-Shared mem p c j h (omega (arith, le)) (rw (e) word) in
          subst (λ t. Shared mem (share_entries n m p c (j + 1)) p c t) e
            (
              share_entries-outside n m p c (j + 1) (p + j * 8) (inl (omega arith))
                    (omega (arith, h, le))
                  ∙ r.0,
              share_entries-outside n m p c (j + 1) (c + j * 8) (omega (arith, h, le))
                    (inl (omega arith))
                  ∙ r.1,
            )
      | inr later ↦
          let past : j + 1 ≤ t = ground (arith, later, lo) in
          let same_p =
            share_entry-outside mem p c j (p + t * 8) (inr (omega (arith, past)))
              (omega (arith, h, hi, le)) in
          let same_c =
            share_entry-outside mem p c j (c + t * 8) (omega (arith, h, hi, le))
              (inr (omega (arith, past))) in
          let r =
            share_entries-Shared n m p c (j + 1) t h (omega (arith, le)) past (omega (arith, hi))
              (rw (same_p) word) in
          (r.0 ∙ rw (same_p) refl, r.1 ∙ rw (same_p, same_c) refl)
    ]

zero_frame-IsBytes : (mem : Memory) (f : ℕ) → IsBytes mem → IsBytes (zero_frame mem f)
unfolding zero_frame
zero_frame-IsBytes mem f h a = ground (arith, h a)

pub alloc_frame-some :
    (s : Frames)
    → s.head ≢ 0
    → ((alloc_frame s).0 ≡ some s.head)
      × ((alloc_frame s).1 ≡ record s { head = load64 s.mem s.head })
unfolding alloc_frame
alloc_frame-some s h =
    (let e : s.head == 0 ≡ false = ground (arith, h) in rw (alloc_frame, e) (refl, refl))
