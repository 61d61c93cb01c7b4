-- ===== src/Kernel/Mem/Seed.antt =====
-- What `init` puts on the free list.
use mik_os.Common.{
  ℕ, zero, suc, ◌+◌, ◌*◌, ◌%◌, ◌^◌, ◌≤◌, ◌<◌, ◌≡◌, sym, subst, ◌↔◌, ◌⊎◌, inl, inr, arith, ◌==◌, leb,
  if◌then◌else◌, true, false, List, [], ◌∷◌, length, Bool-cases, ==_iff,
}
use mik_os.Kernel.Mem.{
  Frames, free_frame, E820Entry, usable, page_up, seeded, seed_frames, seed_entries,
}
use mik_os.Kernel.Mem.FreeList.{Holds, IsFrame, Fresh, free_frame-Holds}

-- Every free frame ends at or below `limit`, starts at 1 MiB or above, and does not meet the kernel
-- image from 4 MiB to `kend`.
abbrev pub Allowed : ℕ → ℕ → List ℕ → Type 0
Allowed kend limit [] = Unit
Allowed kend limit (f ∷ fs) =
    (f + 0x1000 ≤ limit)
    × (0x100000 ≤ f)
    × ((f + 0x1000 ≤ 0x400000) ⊎ (kend ≤ f))
    × Allowed kend limit fs

Allowed-mono : (kend lo hi : ℕ) (fs : List ℕ) → lo ≤ hi → Allowed kend lo fs → Allowed kend hi fs
Allowed-mono kend lo hi [] p a = tt
Allowed-mono kend lo hi (f ∷ fs) p (e, b, k, a) =
    (omega arith, b, k, Allowed-mono kend lo hi fs p a)

Allowed-Fresh : (kend f : ℕ) (fs : List ℕ) → Allowed kend f fs → Fresh f fs
Allowed-Fresh kend f [] a = tt
Allowed-Fresh kend f (g ∷ fs) (e, _, _, a) = (omega arith, Allowed-Fresh kend f fs a)

-- The free list of a state, with its count.
pub record Counts (kend limit : ℕ) (s : Frames × ℕ) (fs : List ℕ) : Type 0 where
  pub holds : Holds s.0 fs
  pub counted : s.1 ≡ length fs
  pub allowed : Allowed kend limit fs

-- The frames that the loop over a region frees, onto the list `fs`.
abbrev pub region_frames : ℕ → ℕ → ℕ → ℕ → List ℕ → List ℕ
region_frames zero kend limit f fs = fs
region_frames (suc fuel) kend limit f fs = elim (leb (f + 0x1000) limit) [
  | true ↦ region_frames fuel kend limit (f + 0x1000) (if seeded kend f then f ∷ fs else fs)
  | false ↦ fs
]

seed_one :
    (kend f : ℕ) (s : Frames × ℕ) (fs : List ℕ)
    → IsFrame f
    → Counts kend f s fs
    → Counts kend
        (f + 0x1000)
        (if seeded kend f then (free_frame s.0 f, s.1 + 1) else s)
        (if seeded kend f then f ∷ fs else fs)
unfolding seeded
seed_one kend f s fs k c = elim (Bool-cases (seeded kend f)) [
  | inr skip ↦ rw (skip) (record {
    holds = c.holds;
    counted = c.counted;
    allowed = Allowed-mono kend f (f + 0x1000) fs (omega arith) c.allowed;
  })
  | inl take ↦ rw take (record {
    holds = free_frame-Holds s.0 fs f c.holds k (ground arith) (Allowed-Fresh kend f fs c.allowed);
    counted = omega (arith, c.counted);
    allowed = (
      omega arith,
      ground arith,
      ground arith,
      Allowed-mono kend f (f + 0x1000) fs (omega arith) c.allowed,
    );
  })
]

-- The loop keeps the free list, its count and its bounds.
seed_frames-Counts :
    (fuel kend limit f b : ℕ) (s : Frames) (n : ℕ) (fs : List ℕ)
    → f % 0x1000 ≡ 0
    → b ≤ f
    → b ≤ limit
    → limit < 2 ^ 64
    → Counts kend b (s, n) fs
    → Counts kend limit (seed_frames fuel kend limit f (s, n)) (region_frames fuel kend limit f fs)
unfolding seed_frames
seed_frames-Counts zero kend limit f b s n fs k p q h c = record {
  holds = c.holds;
  counted = c.counted;
  allowed = Allowed-mono kend b limit fs q c.allowed;
}
seed_frames-Counts (suc fuel) kend limit f b s n fs k p q h c =
    elim (Bool-cases (leb (f + 0x1000) limit)) [
      | inr done ↦
          rw (done, seed_frames, region_frames)
            (record {
              holds = c.holds;
              counted = c.counted;
              allowed = Allowed-mono kend b limit fs q c.allowed;
            })
      | inl more ↦
          let raised : Counts kend f (s, n) fs = record {
            holds = c.holds;
            counted = c.counted;
            allowed = Allowed-mono kend b f fs p c.allowed;
          } in
          rw (more, seed_frames, region_frames)
            (seed_frames-Counts fuel kend limit (f + 0x1000) (f + 0x1000) _ _ _ (omega arith)
              (omega arith) (ground arith) h (seed_one kend f (s, n) fs (k, ground arith) raised))
    ]

abbrev pub Member : ℕ → List ℕ → Type 0
Member g [] = ⊥
Member g (f ∷ fs) = (g ≡ f) ⊎ Member g fs

-- A frame that the region holds and `init` may free.
pub record Offered (kend limit f g : ℕ) : Type 0 where
  pub from : f ≤ g
  pub aligned : g % 0x1000 ≡ 0
  pub fits : g + 0x1000 ≤ limit
  pub free : seeded kend g ≡ true

Offered-split :
    (kend limit f g : ℕ)
    → f % 0x1000 ≡ 0
    → Offered kend limit f g
    → ((g ≡ f) × (seeded kend f ≡ true)) ⊎ Offered kend limit (f + 0x1000) g
Offered-split kend limit f g k o = elim (Bool-cases (g == f)) [
  | inl e ↦ inl ((==_iff g f).0 e, subst (λ x. seeded kend x ≡ true) ((==_iff g f).0 e) o.free)
  | inr ne ↦ inr (record {
    from = ground (arith, o.from, o.aligned);
    aligned = o.aligned;
    fits = o.fits;
    free = o.free;
  })
]

Offered-weaken : (kend limit f g : ℕ) → Offered kend limit (f + 0x1000) g → Offered kend limit f g
Offered-weaken kend limit f g o = record {
  from = omega (arith, o.from);
  aligned = o.aligned;
  fits = o.fits;
  free = o.free;
}

Offered-first :
    (kend limit f g : ℕ)
    → f % 0x1000 ≡ 0
    → f + 0x1000 ≤ limit
    → seeded kend f ≡ true
    → g ≡ f
    → Offered kend limit f g
Offered-first kend limit f g k h t e =
    subst (Offered kend limit f) (sym e)
      (record { from = omega arith; aligned = k; fits = h; free = t })

region_frames-Member :
    (fuel kend limit f g : ℕ) (fs : List ℕ)
    → f % 0x1000 ≡ 0
    → limit < f + fuel * 0x1000
    → Member g (region_frames fuel kend limit f fs) ↔ (Offered kend limit f g ⊎ Member g fs)
region_frames-Member zero kend limit f g fs k h =
    (λ m. inr m, λ o. elim o [ inl o ↦ absurd (omega (arith, o.from, o.fits)) | inr m ↦ m ])
region_frames-Member (suc fuel) kend limit f g fs k h = elim (Bool-cases (leb (f + 0x1000) limit)) [
  | inr done ↦
      rw (done, region_frames)
        (λ m. inr m, λ o. elim o [ inl o ↦ absurd (ground (arith, o.from, o.fits)) | inr m ↦ m ])
  | inl more ↦
      rw (more, region_frames)
        (elim (Bool-cases (seeded kend f)) [
          | inl take ↦
              let ih =
                region_frames-Member fuel kend limit (f + 0x1000) g (f ∷ fs) (omega arith)
                  (omega arith) in
              rw take (
                λ m. elim (ih.0 m) [
                  | inl o ↦ inl (Offered-weaken kend limit f g o)
                  | inr (inl e) ↦ inl (Offered-first kend limit f g k (ground arith) take e)
                  | inr (inr n) ↦ inr n
                ],
                λ o. elim o [
                  | inr n ↦ ih.1 (inr (inr n))
                  | inl p ↦ elim (Offered-split kend limit f g k p) [
                    | inl e ↦ ih.1 (inr (inl e.0))
                    | inr q ↦ ih.1 (inl q)
                  ]
                ],
              )
          | inr skip ↦
              let ih =
                region_frames-Member fuel kend limit (f + 0x1000) g fs (omega arith)
                  (omega arith) in
              rw skip (
                λ m. elim (ih.0 m) [
                  | inl o ↦ inl (Offered-weaken kend limit f g o)
                  | inr n ↦ inr n
                ],
                λ o. elim o [
                  | inr n ↦ ih.1 (inr n)
                  | inl p ↦ elim (Offered-split kend limit f g k p) [
                    | inl e ↦ absurd (cc (e.1, skip))
                    | inr q ↦ ih.1 (inl q)
                  ]
                ],
              )
        ])
]

-- The frames that all the entries free, onto the list `fs`.
abbrev pub entries_frames : ℕ → List E820Entry → List ℕ → List ℕ
entries_frames kend [] fs = fs
entries_frames kend (e ∷ es) fs = entries_frames kend es (
    if usable e
    then region_frames (suc (e.base + e.len)) kend (e.base + e.len) (page_up e.base) fs
    else fs)

-- The regions of the map ascend and do not overlap, and end two pages below 2 ^ 64 at the latest.
abbrev pub Ascending : ℕ → List E820Entry → Type 0
Ascending lo [] = Unit
Ascending lo (e ∷ es) =
    (lo ≤ e.base) × (e.base + e.len + 0x2000 ≤ 2 ^ 64) × Ascending (e.base + e.len) es

-- The end of the last region.
abbrev pub map_end : ℕ → List E820Entry → ℕ
map_end lo [] = lo
map_end lo (e ∷ es) = map_end (e.base + e.len) es

-- Over a memory map whose regions ascend without overlap from `lo` on and end two pages below 2 ^
-- 64, the loop of `init` extends a counted list of frames below `lo` to one of distinct
-- and page-aligned frames, none below 1 MiB and none inside the kernel image, linked through the frames
-- themselves, with their number.
pub seed_entries-Counts :
    (kend lo : ℕ) (es : List E820Entry) (s : Frames) (n : ℕ) (fs : List ℕ)
    → Ascending lo es
    → Counts kend lo (s, n) fs
    → Counts kend (map_end lo es) (seed_entries kend es (s, n)) (entries_frames kend es fs)
unfolding seed_entries
seed_entries-Counts kend lo [] s n fs a c = c
seed_entries-Counts kend lo (e ∷ es) s n fs (p, q, a) c = elim (Bool-cases (usable e)) [
  | inr skip ↦
      rw (skip, seed_entries)
        (seed_entries-Counts kend (e.base + e.len) es s n fs a (record {
          holds = c.holds;
          counted = c.counted;
          allowed = Allowed-mono kend lo (e.base + e.len) fs (omega arith) c.allowed;
        }))
  | inl use_it ↦
      rw (use_it, seed_entries)
        (seed_entries-Counts kend (e.base + e.len) es _ _ _ a (
          seed_frames-Counts (suc (e.base + e.len)) kend (e.base + e.len) (page_up e.base) lo s n fs
            (omega arith) (omega arith) (omega arith) (omega arith) c))
]

-- Over one region that starts above the frames already listed and ends two pages below 2 ^ 64, the
-- loop ends by its test, and the frames it adds to the free list are exactly the page-aligned
-- frames that lie wholly inside the region, not below 1 MiB and not in the kernel image.
pub seed_frames-Member :
    (kend g : ℕ) (e : E820Entry) (s : Frames) (n lo : ℕ) (fs : List ℕ)
    → lo ≤ e.base
    → e.base + e.len + 0x2000 ≤ 2 ^ 64
    → Counts kend lo (s, n) fs
    → (fs' : List ℕ) × Counts kend
        (e.base + e.len)
        (seed_frames (suc (e.base + e.len)) kend (e.base + e.len) (page_up e.base) (s, n))
        fs'
      × (Member g fs' ↔ (Offered kend (e.base + e.len) (page_up e.base) g ⊎ Member g fs))
seed_frames-Member kend g e s n lo fs p q c = (
  region_frames (suc (e.base + e.len)) kend (e.base + e.len) (page_up e.base) fs,
  seed_frames-Counts (suc (e.base + e.len)) kend (e.base + e.len) (page_up e.base) lo s n fs
      (omega arith) (omega arith) (omega arith) (omega arith) c,
  region_frames-Member (suc (e.base + e.len)) kend (e.base + e.len) (page_up e.base) g fs
      (omega arith) (omega arith),
)
