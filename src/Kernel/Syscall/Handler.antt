-- ===== src/Kernel/Syscall/Handler.antt =====
-- `syscall_handler` and the interrupt handlers keep the process table valid and resume only ready
-- processes.
use mik_os.Common.{
  ℕ, ◌+◌, ◌^◌, ◌≡◌, refl, ◌⊎◌, inl, inr, arith, ◌==◌, ltb, leb, if◌then◌else◌, Bool, true, false,
  ◌||◌, Option, none, some, Bool-cases, Option-cases,
}
use mik_os.Kernel.Mem.{alloc_frame, page_up}
use mik_os.Kernel.Input.{pop}
use mik_os.Kernel.Paging.Clone.{clone_user_table}
use mik_os.Kernel.Fs.{each_file}
use mik_os.Kernel.Proc.{
  empty_state, ready, waiting, brk_max, rdi_at, rax_at, rip_at, Board, Os, current, set_proc, field,
  set_field, Outcome,
}
use mik_os.Kernel.Sched.Invariant.{IsOs, IsRunning, Ensures, set_proc-IsOs, schedule-Ensures}
use mik_os.Kernel.Process.{free_slot, fork_into, fork}
use mik_os.Kernel.Files.{ls_files, sys_ls}
use mik_os.Kernel.Syscall.{
  sys_write, set_state, sys_exit, block, sys_read, sys_sbrk, resume_or_panic, syscall_handler,
}
use mik_os.Kernel.Syscall.Keeps.{
  ready-IsProc, running, same-IsRunning, set_proc-IsRunning, KeepsRunning, ls_files-IsRunning,
  sys_open-IsRunning, sys_close-IsRunning, sys_fread-IsRunning, sys_fwrite-IsRunning,
  exec_image-IsRunning, sys_exec_file-IsRunning,
}

module _ (board : Board) where
  fork_into-IsRunning :
      (k : Os board) (frame i : ℕ)
      → IsRunning board k
      → KeepsRunning board (fork_into board k frame i)
  unfolding fork_into
  fork_into-IsRunning k frame i v =
      let (c, r) = running board k v in
      let (lo, hi) = c.heap (λ e. absurd (ground (arith, e, r))) in
      elim (Option-cases (clone_user_table k.phys board.pd (current board k).pml4)) [
        | inl out ↦ rw (out, fork_into, KeepsRunning) tt
        | inr (t, cloned) ↦ elim (Option-cases (alloc_frame t.1).0) [
          | inl out ↦ rw (cloned, out, fork_into, KeepsRunning) tt
          | inr (stack, taken) ↦
              rw (cloned, taken, fork_into, KeepsRunning)
                (same-IsRunning board (set_proc board k i _) _ refl refl refl
                  (set_proc-IsRunning board k i _ v (ready-IsProc _ refl c.four_fds lo hi) refl))
        ]
      ]

  fork-IsRunning :
      (k : Os board) (frame : ℕ) → IsRunning board k → KeepsRunning board (fork board k frame)
  unfolding fork
  fork-IsRunning k frame v = elim (Option-cases (free_slot board k)) [
    | inl full ↦ rw (full, fork, KeepsRunning) (same-IsRunning board k _ refl refl refl v)
    | inr (i, free) ↦ rw (free, fork) (fork_into-IsRunning k frame i v)
  ]

  resume_or_panic-Ensures :
      (frame : ℕ) (r : Option (Os board))
      → KeepsRunning board r
      → Ensures board (resume_or_panic board frame r)
  resume_or_panic-Ensures frame none h = tt
  resume_or_panic-Ensures frame (some k) h = h

  set_state-IsOs :
      (k : Os board) (s : ℕ)
      → (s ≡ empty_state) ⊎ ((s ≡ ready) ⊎ (s ≡ waiting))
      → IsRunning board k
      → IsOs board (set_state board k s)
  set_state-IsOs k s h v =
      let (c, r) = running board k v in
      set_proc-IsOs board k k.cur _ v.valid (record {
        known_state = h;
        four_fds = c.four_fds;
        heap = λ e. c.heap (λ e'. absurd (ground (arith, e', r)));
      })

  sys_read-Ensures :
      (k : Os board) (frame : ℕ) → IsRunning board k → Ensures board (sys_read board k frame)
  unfolding sys_read
  sys_read-Ensures k frame v =
      let k1 = record k { input = (pop k.input).1 } in
      let v1 : IsRunning board k1 = same-IsRunning board k k1 refl refl refl v in
      elim (Option-cases (pop k.input).0) [
        | inr (b, got) ↦ rw (got, sys_read, Ensures) (same-IsRunning board k1 _ refl refl refl v1)
        | inl dry ↦ elim (Bool-cases (ltb (field board k1 frame rip_at) 2)) [
          | inl over ↦ rw (dry, over, sys_read, Ensures) tt
          | inr within ↦
              let w = set_state-IsOs k1 waiting (inr (inr refl)) v1 in
              rw (dry, within, sys_read)
                (schedule-Ensures board (block board k1 frame) frame
                  (record { table = w.table; cur_in = w.cur_in; procs = w.procs }) v.awake)
        ]
      ]

  sys_sbrk-Ensures :
      (k : Os board) (frame : ℕ) → IsRunning board k → Ensures board (sys_sbrk board k frame)
  unfolding sys_sbrk
  sys_sbrk-Ensures k frame v =
      let (c, r) = running board k v in
      let (lo, hi) = c.heap (λ e. absurd (ground (arith, e, r))) in
      let p = current board k in
      let arg = field board k frame rdi_at in
      let inc = page_up arg in
      let k1 = set_field board k frame rax_at p.brk in
      let v1 : IsRunning board k1 = same-IsRunning board k k1 refl refl refl v in
      elim (Bool-cases (leb (2 ^ 64) (arg + 0xfff) || leb (2 ^ 64) (p.brk + inc))) [
        | inl over ↦ rw (over, sys_sbrk, Ensures) tt
        | inr within ↦ elim (Bool-cases (leb (p.brk + inc) brk_max)) [
          | inr refused ↦ rw (within, refused, sys_sbrk, Ensures) v1
          | inl grown ↦
              rw (within, grown, sys_sbrk, Ensures)
                (set_proc-IsRunning board k1 k.cur _ v1
                  (ready-IsProc _ r c.four_fds (omega (arith, lo)) (ground (arith, grown))) r)
        ]
      ]

  if-Ensures :
      (b : Bool) (x y : Outcome board)
      → Ensures board x
      → Ensures board y
      → Ensures board (if b then x else y)
  if-Ensures true x y h h' = h
  if-Ensures false x y h h' = h'

  -- A system call of a ready process resumes a ready process, possibly another, or idles with a
  -- process left, or finds that every slot is empty.
  pub syscall_handler-Ensures :
      (k : Os board) (frame : ℕ) → IsRunning board k → Ensures board (syscall_handler board k frame)
  unfolding syscall_handler sys_write sys_exit sys_ls
  syscall_handler-Ensures k frame v =
      let n = field board k frame rax_at in
      if-Ensures (n == 1) _ _ (same-IsRunning board k _ refl refl refl v) (
        if-Ensures (n == 2) _ _
          (schedule-Ensures board (set_state board k empty_state) frame
            (set_state-IsOs k empty_state (inl refl) v) v.awake)
          (if-Ensures (n == 3) _ _ (schedule-Ensures board k frame v.valid v.awake) (
            if-Ensures (n == 4) _ _ (resume_or_panic-Ensures frame _ (fork-IsRunning k frame v)) (
              if-Ensures (n == 5) _ _
                (resume_or_panic-Ensures frame _
                  (exec_image-IsRunning board k board.prog_c frame v))
                (if-Ensures (n == 8) _ _ (sys_open-IsRunning board k frame v) (
                  if-Ensures (n == 9) _ _ (sys_close-IsRunning board k frame v) (
                    if-Ensures (n == 10) _ _ (sys_fread-IsRunning board k frame v) (
                      if-Ensures (n == 11) _ _ (sys_fwrite-IsRunning board k frame v) (
                        if-Ensures (n == 12) _ _
                          (resume_or_panic-Ensures frame _
                            (sys_exec_file-IsRunning board k frame v))
                          (if-Ensures (n == 13) _ _
                            (same-IsRunning board (ls_files board k (each_file board.disk k.fs)) _
                              refl refl refl
                              (ls_files-IsRunning board k (each_file board.disk k.fs) v))
                            (if-Ensures (n == 7) _ _ (sys_read-Ensures k frame v)
                              (if-Ensures (n == 6) _ _ (sys_sbrk-Ensures k frame v) v))))))))))))
