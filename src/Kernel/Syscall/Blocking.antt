-- ===== src/Kernel/Syscall/Blocking.antt =====
-- A `read` on an empty ring of input, from its blocking to the byte that it returns.
use mik_os.Common.{
  ℕ, ◌+◌, ◌-◌, ◌^◌, ◌≤◌, ◌<◌, ◌≡◌, refl, ap, sym, subst, ◌∙◌, inl, arith, ltb, true, false, none,
  some, [], length, get_or-set_self, set, load64, load64-store64, load64-store64_apart,
}
use mik_os.Kernel.Input.{Ring, pop, push}
use mik_os.Kernel.Input.Queue.{IsValid, contents, enqueue, dequeue, push_refines, pop_refines}
use mik_os.Kernel.Proc.{
  waiting, empty_proc, rax_at, rip_at, Board, Os, current, field, set_field, resume,
}
use mik_os.Kernel.Sched.{schedule, is_ready, wake_on_input, receive}
use mik_os.Kernel.Sched.Invariant.{IsOs}
use mik_os.Kernel.Sched.Input.{get_or-wake}
use mik_os.Kernel.Syscall.{block, sys_read}

-- A byte that comes into an empty ring is the one that `pop` takes.
first_in : (r : Ring) (b : ℕ) → IsValid r → contents r ≡ [] → (pop (push r b)).0 ≡ some b
first_in r b v e =
    let (w, pushed) = push_refines r b v in
    let (w', popped) = pop_refines (push r b) w in
    ap (λ q. q.0) popped ∙ ap (λ q. (dequeue q).0) (pushed ∙ ap (λ q. enqueue q b) e)

module _ (board : Board) where
  -- The kernel in which a `read` of an empty ring has blocked the current process.
  abbrev pub blocked : Os board → ℕ → Os board
  blocked k frame = block board (record k { input = (pop k.input).1 }) frame

  -- The process is ready again once a byte arrives.
  woken :
      (k : Os board) (frame b : ℕ)
      → IsOs board k
      → is_ready board (receive board (block board k frame) b) k.cur ≡ true
  unfolding receive wake_on_input block
  woken k frame b v =
      let lt : k.cur < length k.procs = subst (λ n. k.cur < n) (sym v.table) v.cur_in in
      rw
        (
          get_or-wake (set k.procs k.cur (record (current board k) { state = waiting })) k.cur,
          get_or-set_self k.procs k.cur (record (current board k) { state = waiting }) empty_proc
              lt,
        )
        refl

  -- A `read` on an empty ring calls `schedule` with the process blocked. The next byte of input makes the process
  -- ready, with its `rax` as it was and its `rip` two bytes back, at the `int 0x80`; and when the call is
  -- made again, it returns that byte.
  pub sys_read-receive :
      (k : Os board) (frame b : ℕ)
      → IsOs board k
      → IsValid k.input
      → contents k.input ≡ []
      → b < 2 ^ 64
      → 2 ≤ field board k frame rip_at
      → field board k frame rip_at < 2 ^ 64
      → (sys_read board k frame ≡ schedule board (blocked k frame) frame)
        × (is_ready board (receive board (blocked k frame) b) k.cur ≡ true)
        × (field board (receive board (blocked k frame) b) frame rax_at
            ≡ field board k frame rax_at)
        × (field board (receive board (blocked k frame) b) frame rip_at + 2
            ≡ field board k frame rip_at)
        × (k' : Os board) × (sys_read board (receive board (blocked k frame) b) frame
            ≡ resume frame k')
        × (field board k' frame rax_at ≡ b)
  unfolding sys_read block receive wake_on_input
  sys_read-receive k frame b v ring dry lt lo hi =
      let (ring', popped) = pop_refines k.input ring in
      let none_got : (pop k.input).0 ≡ none = ap (λ q. q.0) popped ∙ ap (λ q. (dequeue q).0) dry in
      let dry' : contents (pop k.input).1 ≡ [] =
        ap (λ q. q.1) popped ∙ ap (λ q. (dequeue q).1) dry in
      let got = first_in (pop k.input).1 b ring' dry' in
      let rip_ok : ltb (field board k frame rip_at) 2 ≡ false = ground (arith, lo) in
      let m = k.phys.mem in
      let k2 = receive board (blocked k frame) b in
      let rewound =
        load64-store64 m (frame + rip_at) (load64 m (frame + rip_at) - 2) (omega (arith, hi)) in
      (
        rw (none_got, sys_read, rip_ok) refl,
        woken (record k { input = (pop k.input).1 }) frame b
            (record { table = v.table; cur_in = v.cur_in; procs = v.procs }),
        load64-store64_apart m (frame + rip_at) (frame + rax_at) _ (inl (omega arith)),
        rw (rewound) (omega (arith, lo)),
        set_field board (record k2 { input = (pop k2.input).1 }) frame rax_at b,
        rw (got, sys_read) refl,
        load64-store64 _ (frame + rax_at) b lt,
      )
