-- ===== src/Kernel/Mem/FreeList.antt =====
-- The list of free frames that the allocator's memory holds.
use mik_os.Common.{
  ℕ, ◌+◌, ◌%◌, ◌^◌, ◌≤◌, ◌<◌, ◌≡◌, ◌≢◌, refl, ap, sym, ◌∙◌, subst, ◌⊎◌, inl, inr, arith, ltb, none,
  some, List, [], ◌∷◌, Memory, load64, store64, load64-store64, load64-store64_apart, Bool-cases,
  ltb→lt,
}
use mik_os.Kernel.Mem.{Frames, free_frame, alloc_frame}

-- `frames` are linked in memory from `head` on, to the null link.
abbrev pub Linked : Memory → ℕ → List ℕ → Type 0
Linked mem head [] = head ≡ 0
Linked mem head (f ∷ fs) = (head ≡ f) × (0 < f) × Linked mem (load64 mem f) fs

-- A frame address: page-aligned, in 64 bits.
abbrev pub IsFrame : ℕ → Type 0
IsFrame f = (f % 0x1000 ≡ 0) × (f < 2 ^ 64)

-- No frame is free twice.
abbrev pub Fresh : ℕ → List ℕ → Type 0
Fresh f [] = Unit
Fresh f (g ∷ fs) = (f ≢ g) × Fresh f fs

abbrev pub AllFrames : List ℕ → Type 0
AllFrames [] = Unit
AllFrames (f ∷ fs) = IsFrame f × Fresh f fs × AllFrames fs

pub record Holds (s : Frames) (fs : List ℕ) : Type 0 where
  pub linked : Linked s.mem s.head fs
  pub frames : AllFrames fs

apart :
    (f g a : ℕ)
    → IsFrame f
    → IsFrame g
    → f ≢ g
    → f ≤ a
    → a + 8 ≤ f + 0x1000
    → (g + 8 ≤ a) ⊎ (a + 8 ≤ g)
apart f g a p q ne lo hi = elim (Bool-cases (ltb f g)) [
  | inl lt ↦ inr (omega (arith, ltb→lt f g lt))
  | inr ge ↦ inl (ground arith)
]

-- A store into a frame that is not free leaves the list as it was.
pub Linked-store64 :
    (mem : Memory) (head f a v : ℕ) (fs : List ℕ)
    → Linked mem head fs
    → AllFrames fs
    → IsFrame f
    → Fresh f fs
    → f ≤ a
    → a + 8 ≤ f + 0x1000
    → Linked (store64 mem a v) head fs
Linked-store64 mem head f a v [] l h k n lo hi = l
Linked-store64 mem head f a v (g ∷ fs) (e, p, l) (hg, fg, hs) k (ne, n) lo hi = (
  e,
  p,
  subst (λ x. Linked (store64 mem a v) x fs)
      (sym (load64-store64_apart mem a g v (apart f g a k hg ne lo hi)))
      (Linked-store64 mem (load64 mem g) f a v fs l hs k n lo hi),
)

-- Freeing a page-aligned frame that is not free, and not null, puts it at the front.
pub free_frame-Holds :
    (s : Frames) (fs : List ℕ) (pa : ℕ)
    → Holds s fs
    → IsFrame pa
    → 0 < pa
    → Fresh pa fs
    → Holds (free_frame s pa) (pa ∷ fs)
unfolding free_frame
free_frame-Holds s fs pa h k pos fresh = record {
  linked = (
    refl,
    pos,
    subst (λ x. Linked (store64 s.mem pa s.head) x fs)
        (sym (load64-store64 s.mem pa s.head (head-lt s.mem s.head fs h.linked h.frames)))
        (Linked-store64 s.mem s.head pa pa s.head fs h.linked h.frames k fresh (omega arith)
          (omega arith)),
  );
  frames = (k, fresh, h.frames);
}
  where
    head-lt :
        (mem : Memory) (head : ℕ) (fs : List ℕ) → Linked mem head fs → AllFrames fs → head < 2 ^ 64
    head-lt mem head [] l a = omega arith
    head-lt mem head (f ∷ fs) l a = omega arith

-- The allocator is a stack of frames: an allocation hands out the most recently freed frame, which
-- is not among those left free, or none exactly if nothing is free; the memory is unchanged.
pub alloc_frame-Holds :
    (s : Frames) (fs : List ℕ)
    → Holds s fs
    → ((fs ≡ []) × (alloc_frame s ≡ (none, s)))
      ⊎ ((f : ℕ) × (rest : List ℕ) × (s' : Frames) × (fs ≡ f ∷ rest)
          × (alloc_frame s ≡ (some f, s'))
          × Holds s' rest
          × IsFrame f
          × Fresh f rest
          × (s'.mem ≡ s.mem))
unfolding alloc_frame
alloc_frame-Holds s [] h = inl (refl, ground (arith, h.linked))
alloc_frame-Holds s (f ∷ fs) h = inr (
  f,
  fs,
  record s { head = load64 s.mem s.head },
  refl,
  ground (arith, h.linked.0),
  record {
    linked = subst (λ x. Linked s.mem (load64 s.mem x) fs) (sym h.linked.0) h.linked.2;
    frames = h.frames.2;
  },
  h.frames.0,
  h.frames.1,
  refl,
)

-- Freeing a page-aligned frame that is not free, and not null, and allocating gives that frame
-- back and leaves the free frames as they were.
pub alloc_frame-free_frame :
    (s : Frames) (fs : List ℕ) (pa : ℕ)
    → Holds s fs
    → IsFrame pa
    → 0 < pa
    → Fresh pa fs
    → (s' : Frames) × (alloc_frame (free_frame s pa) ≡ (some pa, s')) × Holds s' fs
alloc_frame-free_frame s fs pa h k pos fresh =
    elim (alloc_frame-Holds (free_frame s pa) (pa ∷ fs) (free_frame-Holds s fs pa h k pos fresh)) [
      | inl (e, _) ↦ cc
      | inr (f, rest, s', e, a, h', _, _, _) ↦
          let p : pa ≡ f = cc in
          let q : fs ≡ rest = cc in
          (s', a ∙ ap (λ x. (some x, s')) (sym p), subst (Holds s') (sym q) h')
    ]
