-- ===== src/Kernel/Syscall.antt =====
pub mod Heap
pub mod Blocking
pub mod Handler
pub mod Keeps
-- `syscall_handler` of mik-os-x86/kernel/src/sched.rs.
use mik_os.Common.{
  ℕ, ◌+◌, ◌-◌, ◌%◌, ◌^◌, ◌==◌, leb, ltb, if◌then◌else◌, Bool, ◌||◌, Option, none, some,
}
use mik_os.Kernel.Mem.{page_up}
use mik_os.Kernel.Input.{pop}
use mik_os.Kernel.Proc.{
  empty_state, waiting, Proc, brk_max, rdi_at, rax_at, rip_at, Board, Os, current, set_proc, field,
  set_field, print_byte, Outcome, resume, panic,
}
use mik_os.Kernel.Sched.{schedule}
use mik_os.Kernel.Process.{exec_image, fork}
use mik_os.Kernel.Files.{sys_open, sys_close, sys_fread, sys_fwrite, sys_exec_file, sys_ls}

module _ (board : Board) where
  unfoldable pub sys_write : Os board → ℕ → Os board
  sys_write k frame = print_byte board k (field board k frame rdi_at % 256)

  abbrev pub set_state : Os board → ℕ → Os board
  set_state k s = set_proc board k k.cur (record (current board k) { state = s })

  unfoldable pub sys_exit : Os board → ℕ → Outcome board
  sys_exit k frame = schedule board (set_state k empty_state) frame

  -- Waiting, with `rip` back at the `int 0x80`; `rip -= 2` overflows below 2.
  unfoldable pub block : Os board → ℕ → Os board
  block k frame =
      let k1 = set_state k waiting in
      set_field board k1 frame rip_at (field board k1 frame rip_at - 2)

  unfoldable pub sys_read : Os board → ℕ → Outcome board
  unfolding block
  sys_read k frame =
      let (byte, ring) = pop k.input in
      let k1 = record k { input = ring } in
      elim byte [
        | some b ↦ resume frame (set_field board k1 frame rax_at b)
        | none ↦
            if ltb (field board k1 frame rip_at) 2
            then panic
            else schedule board (block k1 frame) frame
      ]

  -- Both additions overflow on arguments near 2 ^ 64.
  unfoldable pub sys_sbrk : Os board → ℕ → Outcome board
  sys_sbrk k frame =
      let p = current board k in
      let arg = field board k frame rdi_at in
      let inc = page_up arg in
      let k1 = set_field board k frame rax_at p.brk in
      if leb (2 ^ 64) (arg + 0xfff) || leb (2 ^ 64) (p.brk + inc)
      then panic
      else if leb (p.brk + inc) brk_max
      then resume frame (set_proc board k1 k1.cur (record p { brk = p.brk + inc }))
      else resume frame k1

  abbrev resume_or_panic : ℕ → Option (Os board) → Outcome board
  resume_or_panic frame none = panic
  resume_or_panic frame (some k) = resume frame k

  unfoldable pub syscall_handler : Os board → ℕ → Outcome board
  syscall_handler k frame =
      let number = field board k frame rax_at in
      if number == 1
      then resume frame (sys_write k frame)
      else if number == 2
      then sys_exit k frame
      else if number == 3
      then schedule board k frame
      else if number == 4
      then resume_or_panic frame (fork board k frame)
      else if number == 5
      then resume_or_panic frame (exec_image board k board.prog_c frame)
      else if number == 8
      then resume frame (sys_open board k frame)
      else if number == 9
      then resume frame (sys_close board k frame)
      else if number == 10
      then resume frame (sys_fread board k frame)
      else if number == 11
      then resume frame (sys_fwrite board k frame)
      else if number == 12
      then resume_or_panic frame (sys_exec_file board k frame)
      else if number == 13
      then resume frame (sys_ls board k frame)
      else if number == 7
      then sys_read k frame
      else if number == 6
      then sys_sbrk k frame
      else resume frame k
