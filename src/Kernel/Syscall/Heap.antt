-- ===== src/Kernel/Syscall/Heap.antt =====
-- `sbrk`: the break of the current process.
use mik_os.Common.{
  ℕ, ◌+◌, ◌*◌, ◌/◌, ◌^◌, ◌≤◌, ◌<◌, ◌≡◌, refl, ap, sym, subst, ◌⊎◌, inl, inr, arith, leb, false,
  ◌||◌, length, get_or-set_self, load64-store64, Bool-cases,
}
use mik_os.Kernel.Proc.{
  empty_proc, Proc, user_data_va, brk_max, rdi_at, rax_at, Board, Os, current, set_proc, field,
  set_field, resume,
}
use mik_os.Kernel.Sched.Invariant.{IsRunning}
use mik_os.Kernel.Syscall.{sys_sbrk}

-- The new break of `sbrk`: the old one and the least number of pages that hold the argument, if that is within
-- the limit, and else the old one.
abbrev pub Moved : ℕ → ℕ → ℕ → Type 0
Moved arg old new =
    (n : ℕ) × (arg ≤ n * 0x1000)
    × (n * 0x1000 < arg + 0x1000)
    × ((old + n * 0x1000 ≤ brk_max) × (new ≡ old + n * 0x1000)
        ⊎ (brk_max < old + n * 0x1000) × (new ≡ old))

module _ (board : Board) where
  -- `sbrk` of a running process with an argument below 2 ^ 63 returns the old break in `rax`. With the
  -- argument rounded up to whole pages, the break grows by just that if this keeps it within the heap's limit, and
  -- stays if it does not; it is then inside the heap's limits.
  pub sys_sbrk-bounds :
      (k : Os board) (frame : ℕ)
      → IsRunning board k
      → field board k frame rdi_at < 2 ^ 63
      → (k' : Os board) × (sys_sbrk board k frame ≡ resume frame k')
        × (field board k' frame rax_at ≡ (current board k).brk)
        × Moved (field board k frame rdi_at) (current board k).brk (current board k').brk
        × (user_data_va ≤ (current board k').brk)
        × ((current board k').brk ≤ brk_max)
  unfolding sys_sbrk
  sys_sbrk-bounds k frame v small =
      let p = current board k in
      let arg = field board k frame rdi_at in
      let n = (arg + 0xfff) / 0x1000 in
      let k1 = set_field board k frame rax_at p.brk in
      let c = v.valid.procs k.cur in
      let r = v.runs in
      let (lo, hi) = c.heap (λ e. absurd (ground (arith, e, r))) in
      let lt : k.cur < length k.procs = subst (λ n. k.cur < n) (sym v.valid.table) v.valid.cur_in in
      let within : (leb (2 ^ 64) (arg + 0xfff) || leb (2 ^ 64) (p.brk + n * 0x1000)) ≡ false =
        ground (arith, small, hi) in
      let rax = load64-store64 k.phys.mem (frame + rax_at) p.brk (omega (arith, hi)) in
      elim (Bool-cases (leb (p.brk + n * 0x1000) brk_max)) [
        | inr refused ↦ (
          k1,
          rw (within, refused, sys_sbrk) refl,
          rax,
          (n, omega arith, omega arith, inr (ground (arith, refused), refl)),
          lo,
          hi,
        )
        | inl grown ↦
            let p' : Proc = record p { brk = p.brk + n * 0x1000 } in
            let brk' : (current board (set_proc board k1 k.cur p')).brk ≡ p.brk + n * 0x1000 =
              ap (λ q. q.brk) (get_or-set_self k.procs k.cur p' empty_proc lt) in
            (
              set_proc board k1 k.cur p',
              rw (within, grown, sys_sbrk) refl,
              rax,
              (n, omega arith, omega arith, inl (ground (arith, grown), brk')),
              omega (arith, brk', lo),
              ground (arith, brk', grown),
            )
      ]
