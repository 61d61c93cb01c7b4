-- ===== src/Kernel/Syscall/Keeps.antt =====
-- Every system call of mik-os-x86/kernel/src/sched.rs keeps the process table valid.
use mik_os.Common.{
  ℕ, ◌-◌, ◌%◌, ◌≤◌, ◌<◌, ◌≡◌, refl, ap, sym, subst, ◌∙◌, inl, inr, arith, ◌==◌, not, ◌&&◌, Option,
  none, some, List, [], ◌∷◌, length, length-set, get_or-set_self, get_or-set_ne, Bool-cases,
  Option-cases,
}
use mik_os.Common.Table.{find_from}
use mik_os.Kernel.Fs.{find, read_at, write_at, read_file}
use mik_os.Kernel.Proc.{
  ready, Fd, Proc, empty_proc, user_data_va, brk_max, rdi_at, rsi_at, rdx_at, Board, Os, current,
  set_proc, field, print_byte,
}
use mik_os.Kernel.Sched.Invariant.{IsProc, IsRunning, set_proc-IsOs}
use mik_os.Kernel.Process.{load_image, exec_image}
use mik_os.Kernel.Files.{
  minus_one, set_rax, set_fs, fd_at, set_fd, is_fd, user_bytes, name_ok, open_entry, open_slot,
  sys_open, sys_close, read_slot, sys_fread, write_slot, sys_fwrite, sys_exec_file, print_bytes,
  ls_line, ls_files,
}

pub ready-IsProc :
    (p : Proc)
    → p.state ≡ ready
    → length p.fds ≡ 4
    → user_data_va ≤ p.brk
    → p.brk ≤ brk_max
    → IsProc p
ready-IsProc p r f lo hi = record { known_state = inr (inl r); four_fds = f; heap = λ h. (lo, hi) }

module _ (board : Board) where
  -- The current process of a running kernel.
  pub running :
      (k : Os board)
      → IsRunning board k
      → IsProc (current board k) × ((current board k).state ≡ ready)
  running k v = (v.valid.procs k.cur, (let r = v.runs in ground (arith, r)))

  -- A running kernel stays so when neither its processes nor its mode change.
  pub same-IsRunning :
      (k k' : Os board)
      → k'.procs ≡ k.procs
      → k'.cur ≡ k.cur
      → k'.in_idle ≡ k.in_idle
      → IsRunning board k
      → IsRunning board k'
  same-IsRunning k k' a b c v = record {
    valid = record {
      table = ap length a ∙ v.valid.table;
      cur_in = rw (b) v.valid.cur_in;
      procs = rw (a) v.valid.procs;
    };
    runs = rw (a, b) v.runs;
    awake = c ∙ v.awake;
  }

  -- It stays so when a process is put in a slot that is ready and valid.
  pub set_proc-IsRunning :
      (k : Os board) (i : ℕ) (p : Proc)
      → IsRunning board k
      → IsProc p
      → p.state ≡ ready
      → IsRunning board (set_proc board k i p)
  set_proc-IsRunning k i p v w r =
      let here : k.cur < length k.procs =
        subst (λ n. k.cur < n) (sym v.valid.table) v.valid.cur_in in
      record {
        valid = set_proc-IsOs board k i p v.valid w;
        runs = elim (Bool-cases (i == k.cur)) [
          | inl same ↦
              let e : i ≡ k.cur = ground arith in
              rw (e, get_or-set_self k.procs k.cur p empty_proc here, r) refl
          | inr other ↦ rw (get_or-set_ne k.procs i k.cur p empty_proc (ground arith)) v.runs
        ];
        awake = v.awake;
      }

  -- In particular when the current process changes its descriptors or its break.
  set_fd-IsRunning :
      (k : Os board) (s : ℕ) (fd : Fd) → IsRunning board k → IsRunning board (set_fd board k s fd)
  set_fd-IsRunning k s fd v =
      let (c, r) = running k v in
      let (lo, hi) = c.heap (λ e. absurd (ground (arith, e, r))) in
      set_proc-IsRunning k k.cur _ v
        (ready-IsProc _ r (length-set (current board k).fds s fd ∙ c.four_fds) lo hi) r

  print_bytes-IsRunning :
      (k : Os board) (bs : List ℕ) → IsRunning board k → IsRunning board (print_bytes board k bs)
  unfolding print_bytes
  print_bytes-IsRunning k [] v = v
  print_bytes-IsRunning k (b ∷ bs) v =
      print_bytes-IsRunning (print_byte board k b) bs (same-IsRunning k _ refl refl refl v)

  pub ls_files-IsRunning :
      (k : Os board) (fs : List (List ℕ × ℕ))
      → IsRunning board k
      → IsRunning board (ls_files board k fs)
  unfolding ls_files
  ls_files-IsRunning k [] v = v
  ls_files-IsRunning k (f ∷ fs) v =
      ls_files-IsRunning (print_bytes board k (ls_line f)) fs
        (print_bytes-IsRunning k (ls_line f) v)

  open_slot-IsRunning :
      (k : Os board) (frame di mode : ℕ)
      → IsRunning board k
      → IsRunning board (open_slot board k frame di mode)
  unfolding open_slot
  open_slot-IsRunning k frame di mode v =
      elim (Option-cases (find_from 4 0 (λ s. not (fd_at board k s).used))) [
        | inl full ↦ rw (full, open_slot) v
        | inr (s, free) ↦
            rw (free, open_slot)
              (same-IsRunning (set_fd board k s _) _ refl refl refl (set_fd-IsRunning k s _ v))
      ]

  pub sys_open-IsRunning :
      (k : Os board) (frame : ℕ) → IsRunning board k → IsRunning board (sys_open board k frame)
  unfolding sys_open
  sys_open-IsRunning k frame v =
      let k1 = set_rax board k frame minus_one in
      let v1 : IsRunning board k1 = same-IsRunning k k1 refl refl refl v in
      let ptr = field board k1 frame rdi_at in
      let len = field board k1 frame rsi_at in
      let mode = field board k1 frame rdx_at in
      elim (Bool-cases (name_ok board k1 ptr len)) [
        | inr bad ↦ rw (bad, sys_open) v1
        | inl good ↦
            let o = open_entry board k1.fs (user_bytes board k1 ptr len) mode in
            let v2 : IsRunning board (set_fs board k1 o.1) =
              same-IsRunning k1 _ refl refl refl v1 in
            elim (Option-cases o.0) [
              | inl none_found ↦ rw (good, none_found, sys_open) v2
              | inr (di, found) ↦
                  rw (good, found, sys_open) (open_slot-IsRunning _ frame di mode v2)
            ]
      ]

  pub sys_close-IsRunning :
      (k : Os board) (frame : ℕ) → IsRunning board k → IsRunning board (sys_close board k frame)
  unfolding sys_close
  sys_close-IsRunning k frame v =
      let k1 = set_rax board k frame minus_one in
      let v1 : IsRunning board k1 = same-IsRunning k k1 refl refl refl v in
      let i = field board k1 frame rdi_at in
      elim (Bool-cases (is_fd board i && (fd_at board k1 (i - 2)).used)) [
        | inr bad ↦ rw (bad, sys_close) v1
        | inl good ↦
            rw (good, sys_close)
              (same-IsRunning (set_fd board k1 (i - 2) _) _ refl refl refl
                (set_fd-IsRunning k1 (i - 2) _ v1))
      ]

  read_slot-IsRunning :
      (k : Os board) (frame s : ℕ) → IsRunning board k → IsRunning board (read_slot board k frame s)
  unfolding read_slot
  read_slot-IsRunning k frame s v =
      let fd = fd_at board k s in
      elim (Option-cases (read_at board.disk k.fs fd.dir fd.pos)) [
        | inl at_end ↦ rw (at_end, read_slot) v
        | inr (b, read) ↦
            rw (read, read_slot)
              (same-IsRunning (set_fd board k s _) _ refl refl refl (set_fd-IsRunning k s _ v))
      ]

  pub sys_fread-IsRunning :
      (k : Os board) (frame : ℕ) → IsRunning board k → IsRunning board (sys_fread board k frame)
  unfolding sys_fread
  sys_fread-IsRunning k frame v =
      let k1 = set_rax board k frame minus_one in
      let v1 : IsRunning board k1 = same-IsRunning k k1 refl refl refl v in
      let i = field board k1 frame rdi_at in
      let fd = fd_at board k1 (i - 2) in
      elim (Bool-cases (is_fd board i && (fd.used && not fd.write))) [
        | inr bad ↦ rw (bad, sys_fread) v1
        | inl good ↦ rw (good, sys_fread) (read_slot-IsRunning k1 frame (i - 2) v1)
      ]

  write_slot-IsRunning :
      (k : Os board) (frame s : ℕ)
      → IsRunning board k
      → IsRunning board (write_slot board k frame s)
  unfolding write_slot
  write_slot-IsRunning k frame s v =
      let fd = fd_at board k s in
      let w = write_at board.disk k.fs fd.dir fd.pos (field board k frame rsi_at % 256) in
      let v1 : IsRunning board (set_fs board k w.1) = same-IsRunning k _ refl refl refl v in
      elim (Bool-cases w.0) [
        | inr full ↦ rw (full, write_slot) v1
        | inl done ↦
            rw (done, write_slot)
              (same-IsRunning (set_fd board (set_fs board k w.1) s _) _ refl refl refl
                (set_fd-IsRunning (set_fs board k w.1) s _ v1))
      ]

  pub sys_fwrite-IsRunning :
      (k : Os board) (frame : ℕ) → IsRunning board k → IsRunning board (sys_fwrite board k frame)
  unfolding sys_fwrite
  sys_fwrite-IsRunning k frame v =
      let k1 = set_rax board k frame minus_one in
      let v1 : IsRunning board k1 = same-IsRunning k k1 refl refl refl v in
      let i = field board k1 frame rdi_at in
      let fd = fd_at board k1 (i - 2) in
      elim (Bool-cases (is_fd board i && (fd.used && fd.write))) [
        | inr bad ↦ rw (bad, sys_fwrite) v1
        | inl good ↦ rw (good, sys_fwrite) (write_slot-IsRunning k1 frame (i - 2) v1)
      ]

  -- A call that may panic keeps a running kernel running when it returns.
  abbrev pub KeepsRunning : Option (Os board) → Type 0
  KeepsRunning none = Unit
  KeepsRunning (some k) = IsRunning board k

  pub exec_image-IsRunning :
      (k : Os board) (code : List ℕ) (frame : ℕ)
      → IsRunning board k
      → KeepsRunning (exec_image board k code frame)
  unfolding exec_image
  exec_image-IsRunning k code frame v = elim (Option-cases (load_image k.phys board.pd code)) [
    | inl out ↦ rw (out, exec_image, KeepsRunning) tt
    | inr (r, loaded) ↦
        let (pml4, s) = r in
        let (c, ready_now) = running k v in
        rw (loaded, exec_image, KeepsRunning)
          (same-IsRunning (set_proc board k k.cur _) _ refl refl refl (
            set_proc-IsRunning k k.cur _ v
              (ready-IsProc _ ready_now c.four_fds (omega arith) (omega arith)) ready_now))
  ]

  pub sys_exec_file-IsRunning :
      (k : Os board) (frame : ℕ) → IsRunning board k → KeepsRunning (sys_exec_file board k frame)
  unfolding sys_exec_file
  sys_exec_file-IsRunning k frame v =
      let k1 = set_rax board k frame minus_one in
      let v1 : IsRunning board k1 = same-IsRunning k k1 refl refl refl v in
      let ptr = field board k1 frame rdi_at in
      let len = field board k1 frame rsi_at in
      elim (Bool-cases (name_ok board k1 ptr len)) [
        | inr bad ↦ rw (bad, sys_exec_file, KeepsRunning) v1
        | inl good ↦ elim (Option-cases (find board.disk k1.fs (user_bytes board k1 ptr len))) [
          | inl absent ↦ rw (good, absent, sys_exec_file, KeepsRunning) v1
          | inr (di, found) ↦
              rw (good, found, sys_exec_file)
                (exec_image-IsRunning k1 (read_file board.disk k1.fs di 4096) frame v1)
        ]
      ]
