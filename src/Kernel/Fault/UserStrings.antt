-- ===== src/Kernel/Fault/UserStrings.antt =====
-- `ustr_ok`, the kernel's test of a user pointer.
use mik_os.Common.{
  ℕ, zero, suc, ◌+◌, ◌*◌, ◌%◌, ◌≤◌, ◌<◌, ◌≡◌, ◌≢◌, ◌↔◌, refl, subst, inl, inr, arith, ◌==◌, ltb,
  true, false, ◌||◌, Memory, Bool-cases,
}
use mik_os.Kernel.Paging.{table_of}
use mik_os.Kernel.Proc.{user_code_va, user_region_end}
use mik_os.Kernel.Fault.{page_ok, pages_ok, ustr_ok}

-- Every page that meets the range passes the test.
abbrev pub PagesOk : Memory → ℕ → ℕ → ℕ → Type 0
PagesOk mem pml4 start end = (x : ℕ) → start ≤ x → x < end → page_ok mem pml4 (table_of x) ≡ true

pages_ok-PagesOk :
    (fuel : ℕ) (mem : Memory) (pml4 end page : ℕ)
    → page % 4096 ≡ 0
    → end ≤ page + fuel * 4096
    → pages_ok fuel mem pml4 end page ≡ true
    → PagesOk mem pml4 page end
unfolding pages_ok
pages_ok-PagesOk zero mem pml4 end page al le h x lo hi = absurd (omega arith)
pages_ok-PagesOk (suc fuel) mem pml4 end page al le h x lo hi =
    elim (Bool-cases (page_ok mem pml4 page)) [
      | inr bad ↦
          let more : ltb page end ≡ true = ground arith in
          absurd (let e : false ≡ true = rw (more, pages_ok, bad) at h in ground (arith, e))
      | inl good ↦
          let more : ltb page end ≡ true = ground arith in
          let rest : pages_ok fuel mem pml4 end (page + 0x1000) ≡ true =
            rw (more, pages_ok, good) at h in
          elim (Bool-cases (ltb x (page + 4096))) [
            | inl here ↦ (let e : table_of x ≡ page = ground arith in rw (e) good)
            | inr later ↦
                pages_ok-PagesOk fuel mem pml4 end (page + 0x1000) (omega arith) (omega arith) rest
                  x (ground arith) hi
          ]
    ]

PagesOk-pages_ok :
    (fuel : ℕ) (mem : Memory) (pml4 end page : ℕ)
    → page % 4096 ≡ 0
    → PagesOk mem pml4 page end
    → pages_ok fuel mem pml4 end page ≡ true
unfolding pages_ok
PagesOk-pages_ok zero mem pml4 end page al h = refl
PagesOk-pages_ok (suc fuel) mem pml4 end page al h = elim (Bool-cases (ltb page end)) [
  | inr ends ↦ rw (ends, pages_ok) refl
  | inl more ↦
      let good : page_ok mem pml4 page ≡ true =
        subst (λ p. page_ok mem pml4 p ≡ true) (let e : table_of page ≡ page = omega arith in e)
          (h page (omega arith) (ground arith)) in
      rw (more, pages_ok, good)
        (PagesOk-pages_ok fuel mem pml4 end (page + 0x1000) (omega arith)
          (λ x lo hi. h x (omega arith) hi))
]

-- The test passes exactly when the range is not empty, lies in the user region, and the page of each of its
-- bytes is present and open to user mode.
pub ustr_ok-PagesOk :
    (mem : Memory) (pml4 ptr len : ℕ)
    → (ustr_ok mem pml4 ptr len ≡ true) ↔ (
        (len ≢ 0)
        × (user_code_va ≤ ptr)
        × (ptr + len ≤ user_region_end)
        × PagesOk mem pml4 ptr (ptr + len))
unfolding ustr_ok
ustr_ok-PagesOk mem pml4 ptr len = (passes, suffices)
  where
    passes :
        ustr_ok mem pml4 ptr len ≡ true
        → (len ≢ 0)
          × (user_code_va ≤ ptr)
          × (ptr + len ≤ user_region_end)
          × PagesOk mem pml4 ptr (ptr + len)
    passes h =
        elim (Bool-cases (len == 0 || (ltb ptr user_code_va || ltb user_region_end (ptr + len)))) [
          | inl out ↦ absurd (let e : false ≡ true = rw (ustr_ok, out) at h in ground (arith, e))
          | inr within ↦
              let r : pages_ok (suc len) mem pml4 (ptr + len) (table_of ptr) ≡ true =
                rw (ustr_ok, within) at h in
              (
                ground (arith, within),
                ground (arith, within),
                ground (arith, within),
                λ x lo hi.
                    pages_ok-PagesOk (suc len) mem pml4 (ptr + len) (table_of ptr) (omega arith)
                      (omega arith) r x (omega arith) hi,
              )
        ]

    suffices :
        (len ≢ 0)
          × (user_code_va ≤ ptr)
          × (ptr + len ≤ user_region_end)
          × PagesOk mem pml4 ptr (ptr + len)
        → ustr_ok mem pml4 ptr len ≡ true
    suffices (some_byte, lo, hi, pages) =
        let within : (len == 0 || (ltb ptr user_code_va || ltb user_region_end (ptr + len)))
            ≡ false =
          ground (arith, some_byte, lo, hi) in
        rw (ustr_ok, within)
          (PagesOk-pages_ok (suc len) mem pml4 (ptr + len) (table_of ptr) (omega arith) (λ x a b.
            elim (Bool-cases (ltb x ptr)) [
              | inr inside ↦ pages x (ground arith) b
              | inl before ↦
                  subst (λ p. page_ok mem pml4 p ≡ true)
                    (let e : table_of ptr ≡ table_of x = ground (arith, a, before) in e)
                    (pages ptr (omega arith) (omega (arith, some_byte)))
            ]))
