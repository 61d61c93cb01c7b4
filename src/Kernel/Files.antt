-- ===== src/Kernel/Files.antt =====
pub mod Listing
-- The system calls on files in mik-os-x86/kernel/src/sched.rs: `open`, `close`, `fread`, `fwrite`,
-- `exec_file` and `ls`.
use mik_os.Common.{
  ℕ, zero, suc, ◌+◌, ◌-◌, ◌*◌, ◌%◌, ◌^◌, ◌==◌, leb, ltb, if◌then◌else◌, Bool, true, false, not,
  ◌&&◌, Option, none, some, List, [], ◌∷◌, ◌++◌, get_or, set, length, Memory,
}
use mik_os.Common.Table.{find_from}
use mik_os.Kernel.Serial.{write_digits}
use mik_os.Kernel.Fs.{Fs, name_max, find, truncate, create, read_at, write_at, read_file, each_file}
use mik_os.Kernel.Fault.{ustr_ok}
use mik_os.Kernel.Process.{exec_image}
use mik_os.Kernel.Proc.{
  Fd, empty_fd, Proc, rdi_at, rsi_at, rdx_at, rax_at, Board, Os, current, set_proc, field,
  set_field, print_byte,
}

abbrev pub minus_one : ℕ
minus_one = 2 ^ 64 - 1

module _ (board : Board) where
  -- `procs[CUR].fds[s]`, for the slot `s` of a descriptor.
  abbrev pub fd_at : Os board → ℕ → Fd
  fd_at k s = get_or (current board k).fds s empty_fd

  abbrev pub set_fd : Os board → ℕ → Fd → Os board
  set_fd k s fd =
      set_proc board k k.cur (record (current board k) { fds = set (current board k).fds s fd })

  abbrev pub set_rax : Os board → ℕ → ℕ → Os board
  set_rax k frame v = set_field board k frame rax_at v

  abbrev pub set_fs : Os board → Fs board.disk → Os board
  set_fs k fs = record k { fs = fs }

  -- `(2..6).contains(&i)`
  abbrev pub is_fd : ℕ → Bool
  is_fd i = leb 2 i && ltb i 6

  -- The bytes at a user address, as the kernel reads them under the current CR3.
  unfoldable pub user_bytes : Os board → ℕ → ℕ → List ℕ
  user_bytes k ptr zero = []
  user_bytes k ptr (suc n) =
      k.phys.mem (board.physical k.phys.mem k.cr3 ptr) ∷ user_bytes k (ptr + 1) n

  -- The tests of `open` and `exec_file` on the name's pointer and length.
  unfoldable pub name_ok : Os board → ℕ → ℕ → Bool
  name_ok k ptr len =
      ltb 0 len && (leb len name_max && ustr_ok k.phys.mem (current board k).pml4 ptr len)

  -- The directory index that `open` finds or makes, by its mode.
  unfoldable pub open_entry : Fs board.disk → List ℕ → ℕ → Option ℕ × Fs board.disk
  open_entry fs name mode = elim (mode == 0) [
    | true ↦ (find board.disk fs name, fs)
    | false ↦ elim (find board.disk fs name) [
      | some i ↦ (some i, truncate board.disk fs i)
      | none ↦ create board.disk fs name
    ]
  ]

  -- The descriptor for entry `di`, if a slot is free.
  unfoldable pub open_slot : Os board → ℕ → ℕ → ℕ → Os board
  open_slot k frame di mode = elim (find_from 4 0 (λ s. not (fd_at k s).used)) [
    | none ↦ k
    | some s ↦
        set_rax (set_fd k s (record { used = true; dir = di; pos = 0; write = not (mode == 0) }))
          frame (s + 2)
  ]

  unfoldable pub sys_open : Os board → ℕ → Os board
  sys_open k frame =
      let k1 = set_rax k frame minus_one in
      let ptr = field board k1 frame rdi_at in
      let len = field board k1 frame rsi_at in
      let mode = field board k1 frame rdx_at in
      elim (name_ok k1 ptr len) [
        | false ↦ k1
        | true ↦
            let (entry, fs) = open_entry k1.fs (user_bytes k1 ptr len) mode in
            elim entry [ none ↦ set_fs k1 fs | some di ↦ open_slot (set_fs k1 fs) frame di mode ]
      ]

  unfoldable pub sys_close : Os board → ℕ → Os board
  sys_close k frame =
      let k1 = set_rax k frame minus_one in
      let i = field board k1 frame rdi_at in
      if is_fd i && (fd_at k1 (i - 2)).used
      then set_rax (set_fd k1 (i - 2) empty_fd) frame 0
      else k1

  -- `fread` behind its test of the descriptor in slot `s`.
  unfoldable pub read_slot : Os board → ℕ → ℕ → Os board
  read_slot k frame s =
      let fd = fd_at k s in
      elim (read_at board.disk k.fs fd.dir fd.pos) [
        | none ↦ k
        | some b ↦ set_rax (set_fd k s (record fd { pos = fd.pos + 1 })) frame b
      ]

  unfoldable pub sys_fread : Os board → ℕ → Os board
  unfolding read_slot
  sys_fread k frame =
      let k1 = set_rax k frame minus_one in
      let i = field board k1 frame rdi_at in
      let fd = fd_at k1 (i - 2) in
      if is_fd i && (fd.used && not fd.write) then read_slot k1 frame (i - 2) else k1

  -- `fwrite` behind its test of the descriptor in slot `s`.
  unfoldable pub write_slot : Os board → ℕ → ℕ → Os board
  write_slot k frame s =
      let fd = fd_at k s in
      let (done, fs) = write_at board.disk k.fs fd.dir fd.pos (field board k frame rsi_at % 256) in
      let k1 = set_fs k fs in
      if done then set_rax (set_fd k1 s (record fd { pos = fd.pos + 1 })) frame 0 else k1

  unfoldable pub sys_fwrite : Os board → ℕ → Os board
  unfolding write_slot
  sys_fwrite k frame =
      let k1 = set_rax k frame minus_one in
      let i = field board k1 frame rdi_at in
      let fd = fd_at k1 (i - 2) in
      if is_fd i && (fd.used && fd.write) then write_slot k1 frame (i - 2) else k1

  -- `none` is a panic of `exec_image`.
  unfoldable pub sys_exec_file : Os board → ℕ → Option (Os board)
  sys_exec_file k frame =
      let k1 = set_rax k frame minus_one in
      let ptr = field board k1 frame rdi_at in
      let len = field board k1 frame rsi_at in
      elim (name_ok k1 ptr len) [
        | false ↦ some k1
        | true ↦ elim (find board.disk k1.fs (user_bytes k1 ptr len)) [
          | none ↦ some k1
          | some di ↦ exec_image board k1 (read_file board.disk k1.fs di 4096) frame
        ]
      ]

  unfoldable pub print_bytes : Os board → List ℕ → Os board
  print_bytes k [] = k
  print_bytes k (b ∷ bs) = print_bytes (print_byte board k b) bs

-- One line of `ls`: the name, the length in decimal, written backwards into 10 bytes, and a newline.
-- The source builds it in 40 bytes.
unfoldable pub ls_line : List ℕ × ℕ → List ℕ
ls_line (name, len) = name ++ (b' ' ∷ (write_digits 10 len [] ++ 10 ∷ []))

module _ (board : Board) where
  unfoldable pub ls_files : Os board → List (List ℕ × ℕ) → Os board
  ls_files k [] = k
  ls_files k (f ∷ fs) = ls_files (print_bytes board k (ls_line f)) fs

  unfoldable pub sys_ls : Os board → ℕ → Os board
  sys_ls k frame = set_rax board (ls_files k (each_file board.disk k.fs)) frame 0
