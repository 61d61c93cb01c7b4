-- ===== src/Kernel/Fault/CopyOnWrite.antt =====
-- Copy-on-write in the page-fault handler.
use mik_os.Common.{
  ℕ, ◌+◌, ◌*◌, ◌/◌, ◌%◌, ◌^◌, ◌≤◌, zero, suc, ◌<◌, ◌≡◌, ◌≢◌, refl, ap, sym, ◌∙◌, ◌⊎◌, inl, inr,
  arith, ◌==◌, bit_or, if◌then◌else◌, true, some, IsBytes, copy_bytes, copy_bytes-at,
  copy_bytes-outside, load64-copy_bytes_outside, load64, store64, load64-store64, store64_outside,
  Bool-cases,
}
use mik_os.Common.Bits.{test_bit, bit_or-lt, bit_or-shifted, bit_or-two-pow}
use mik_os.Kernel.Mem.{Frames}
use mik_os.Kernel.Paging.{table_of}
use mik_os.Kernel.Paging.Share.{Apart, alloc_frame-some}
use mik_os.Kernel.Fault.{copy_page}

-- The new entry: the frame `q * 4096` with the old flags and the write bit.
entry_of :
    (q old : ℕ)
    → bit_or (bit_or (q * 4096) (old % 4096)) 2
      ≡ (if test_bit (old % 4096) 1 then q * 4096 + old % 4096 else q * 4096 + old % 4096 + 2)
entry_of q old = rw (bit_or-shifted 12 q (old % 4096) (omega arith)) (
    bit_or-two-pow 1 (q * 4096 + old % 4096)
    ∙ (let e : (q * 4096 + old % 4096) / 2 % 2 ≡ old % 4096 / 2 % 2 = omega arith in rw (e) refl))

-- Two words with the same bit 0 and the same bits 2 to 11.
flag-kept :
    (w pte k : ℕ)
    → w % 2 ≡ pte % 2
    → w / 4 % 1024 ≡ pte / 4 % 1024
    → k < 12
    → k ≢ 1
    → w / 2 ^ k % 2 ≡ pte / 2 ^ k % 2
flag-kept w pte zero h h' lt ne = omega (arith, h)
flag-kept w pte (suc zero) h h' lt ne = absurd (ne refl)
flag-kept w pte (suc (suc zero)) h h' lt ne = omega (arith, h')
flag-kept w pte (suc (suc (suc zero))) h h' lt ne = omega (arith, h')
flag-kept w pte (suc (suc (suc (suc zero)))) h h' lt ne = omega (arith, h')
flag-kept w pte (suc (suc (suc (suc (suc zero))))) h h' lt ne = omega (arith, h')
flag-kept w pte (suc (suc (suc (suc (suc (suc zero)))))) h h' lt ne = omega (arith, h')
flag-kept w pte (suc (suc (suc (suc (suc (suc (suc zero))))))) h h' lt ne = omega (arith, h')
flag-kept w pte (suc (suc (suc (suc (suc (suc (suc (suc zero)))))))) h h' lt ne = omega (arith, h')
flag-kept w pte (suc (suc (suc (suc (suc (suc (suc (suc (suc zero))))))))) h h' lt ne =
    omega (arith, h')
flag-kept w pte (suc (suc (suc (suc (suc (suc (suc (suc (suc (suc zero)))))))))) h h' lt ne =
    omega (arith, h')
flag-kept w pte (suc (suc (suc (suc (suc (suc (suc (suc (suc (suc (suc zero))))))))))) h h' lt ne =
    omega (arith, h')
flag-kept w pte (suc (suc (suc (suc (suc (suc (suc (suc (suc (suc (suc (suc k)))))))))))) h h' lt
      ne =
    absurd (omega (arith, lt))

-- All flags of an entry but the write bit, which are its low 12 bits, are those of another.
abbrev pub SameFlags : ℕ → ℕ → Type 0
SameFlags w pte = (k : ℕ) → k < 12 → k ≢ 1 → test_bit w k ≡ test_bit pte k

entry_bits :
    (q pte w : ℕ)
    → w ≡ (if test_bit (pte % 4096) 1 then q * 4096 + pte % 4096 else q * 4096 + pte % 4096 + 2)
    → (table_of w ≡ q * 4096) × (test_bit w 1 ≡ true) × SameFlags w pte
entry_bits q pte w h = elim (Bool-cases (test_bit (pte % 4096) 1)) [
  | inl set ↦
      let e : w ≡ q * 4096 + pte % 4096 = rw (set) at h in
      (omega (arith, e), ground (arith, e, set), same (omega (arith, e)) (omega (arith, e)))
  | inr clear ↦
      let e : w ≡ q * 4096 + pte % 4096 + 2 = rw (clear) at h in
      let low : pte % 4096 / 2 % 2 ≢ 1 = ground (arith, clear) in
      (
        omega (arith, e, low),
        ground (arith, e, low),
        same (omega (arith, e, low)) (omega (arith, e, low)),
      )
]
  where
    same : w % 2 ≡ pte % 2 → w / 4 % 1024 ≡ pte / 4 % 1024 → SameFlags w pte
    same h h' k lt ne = ap (λ b. b == 1) (flag-kept w pte k h h' lt ne)

-- When a frame is free, a write to a shared page gets its own copy: the entry at `e` points to the frame
-- that was free, with the write bit set and the other flags, of its low 12 bits, kept; that frame holds the bytes of the
-- shared one; and the shared one keeps them. The entry must lie outside the two frames.
pub copy_page-private :
    (s : Frames) (e q : ℕ)
    → IsBytes s.mem
    → s.head ≡ q * 4096
    → s.head ≢ 0
    → s.head < 2 ^ 64
    → Apart (table_of (load64 s.mem e)) s.head
    → (e + 8 ≤ s.head) ⊎ (s.head + 4096 ≤ e)
    → (e + 8 ≤ table_of (load64 s.mem e)) ⊎ (table_of (load64 s.mem e) + 4096 ≤ e)
    → (s' : Frames) × (copy_page s e ≡ some s')
      × (table_of (load64 s'.mem e) ≡ s.head)
      × (test_bit (load64 s'.mem e) 1 ≡ true)
      × SameFlags (load64 s'.mem e) (load64 s.mem e)
      × ((d : ℕ)
          → d < 4096
          → (s'.mem (s.head + d) ≡ s.mem (table_of (load64 s.mem e) + d))
            × (s'.mem (table_of (load64 s.mem e) + d) ≡ s.mem (table_of (load64 s.mem e) + d)))
unfolding copy_page
copy_page-private s e q bytes aligned free small apart e_new e_old =
    let taken = alloc_frame-some s free in
    let pte = load64 s.mem e in
    let p = table_of pte in
    let m = copy_bytes s.mem p s.head 4096 in
    let same : load64 m e ≡ pte = load64-copy_bytes_outside s.mem p s.head 4096 e e_new in
    let v = bit_or (bit_or s.head (load64 m e % 0x1000)) 2 in
    let word : v < 2 ^ 64 =
      bit_or-lt 64 _ 2 (bit_or-lt 64 s.head (load64 m e % 0x1000) small (omega arith))
        (omega arith) in
    let stored : load64 (store64 m e v) e ≡ v = load64-store64 m e v word in
    let value : v
        ≡ (if test_bit (pte % 4096) 1 then q * 4096 + pte % 4096 else q * 4096 + pte % 4096 + 2) =
      rw (same, aligned) (entry_of q pte) in
    let bits = entry_bits q pte (load64 (store64 m e v) e) (stored ∙ value) in
    (
      record { mem = store64 m e v; head = load64 s.mem s.head },
      rw (taken.0, taken.1, copy_page) refl,
      bits.0 ∙ sym aligned,
      bits.1,
      bits.2,
      λ d lt. (
        store64_outside m e (s.head + d) v (omega (arith, e_new, lt))
            ∙ copy_bytes-at s.mem p s.head 4096 d lt,
        store64_outside m e (p + d) v (omega (arith, e_old, lt))
            ∙ copy_bytes-outside s.mem p s.head 4096 (p + d) (omega (arith, apart, lt)),
      ),
    )
