-- ===== src/Kernel/System/Tests.antt =====
-- The theorems on processes, system calls and page faults at concrete states.
use mik_os.Common.{
  ℕ, zero, suc, ◌+◌, ◌-◌, ◌/◌, ◌%◌, ◌^◌, ◌≤◌, ◌<◌, ◌≡◌, ◌≢◌, ◌↔◌, refl, ◌⊎◌, inl, inr, arith, ◌==◌,
  leb, ltb, if◌then◌else◌, true, false, ◌&&◌, none, some, [], ◌∷◌, replicate, get_or, Memory,
  IsBytes, load64, store64,
}
use mik_os.Common.Bits.{test_bit}
use mik_os.Common.Table.{find_from}
use mik_os.Kernel.Disk.{ram_disk}
use mik_os.Kernel.Mem.{Frames, alloc_frame}
use mik_os.Kernel.Input.Queue.{IsValid}
use mik_os.Kernel.Fs.{Fs}
use mik_os.Kernel.Paging.{map_4k, map_levels, next_table, build_user_table, zero_frame, table_of}
use mik_os.Kernel.Paging.Clone.{clone_user_table, clone_into, clone_tables, clone_table}
use mik_os.Kernel.Proc.{
  ready, Proc, empty_proc, empty_fd, user_data_va, user_code_va, Board, Os, proc_at, current, field,
  set_field, set_proc, frame_size, rdi_at, rax_at, rip_at, brk_max, user_region_end,
  write_entry_frame, resume, panic,
}
use mik_os.Kernel.Sched.{is_ready, switch_to, save_frame, schedule, receive, start}
use mik_os.Kernel.Sched.Invariant.{IsProc, empty_proc-IsProc, IsRunning, Ensures}
use mik_os.Kernel.Sched.Turns.{Starved, begin, passed, Starved-bound}
use mik_os.Kernel.Syscall.{sys_read, sys_sbrk}
use mik_os.Kernel.Syscall.Blocking.{blocked, sys_read-receive}
use mik_os.Kernel.Syscall.Heap.{Moved, sys_sbrk-bounds}
use mik_os.Kernel.Fault.{ustr_ok, copy_page}
use mik_os.Kernel.Fault.UserStrings.{PagesOk, ustr_ok-PagesOk}
use mik_os.Kernel.Fault.CopyOnWrite.{SameFlags, copy_page-private}
use mik_os.Kernel.System.{no_procs, spawned, started}
use mik_os.Kernel.System.Reachable.{Reaches-Ensures}
use mik_os.Kernel.Process.{load_image, spawn, spawn_at, free_slot, fork}
use mik_os.Kernel.Process.Fork.{child_frame, fork-child}

-- Eight free frames, 0x10000 apart, each linked to the next, in memory that is zero elsewhere.
abbrev links : Memory
links a = if (a % 0x10000 == 2) && (leb 0x10000 a && ltb a 0x80000) then a / 0x10000 + 1 else 0

abbrev frames : Frames
frames = record { mem = links; head = 0x10000 }

abbrev board : Board
board = record { disk = ram_disk; pd = 0; prog_c = []; physical = λ mem cr3 va. va }

abbrev running : Proc
running = record {
  pml4 = 0;
  kstack_top = 0x301000;
  frame = 0x300f60;
  state = ready;
  brk = user_data_va;
  fds = replicate 4 empty_fd;
}

-- One process runs.
abbrev os : Os board
os = record {
  phys = frames;
  procs = running ∷ empty_proc ∷ empty_proc ∷ empty_proc ∷ [];
  cur = 0;
  sched_active = true;
  in_idle = false;
  rsp0 = 0x301000;
  cr3 = 0;
  input = record { buf = replicate 64 0; head = 0; len = 0 };
  fs = record { present = true; dir = λ _. 0; next_free = 260; store = λ _ _. 0 };
  screen = record { cells = λ _. 0; cursor = 0 };
  com1 = [];
}

-- The frames left after the clone.
abbrev left : Frames
left = elim (clone_user_table frames 0 0) [ none ↦ frames | some (child, s) ↦ s ]

cloned : clone_user_table frames 0 0 ≡ some (0x10000, left)
unfolding clone_user_table clone_into clone_tables clone_table build_user_table zero_frame load64
    store64 alloc_frame
cloned = refl

stack_taken : (alloc_frame left).0 ≡ some 0x40000
unfolding clone_user_table clone_into clone_tables clone_table build_user_table zero_frame load64
    store64 alloc_frame
stack_taken = refl

slot_found : free_slot board os ≡ some 1
unfolding find_from
slot_found = refl

fork-child_example :
    (k' : Os board) × (fork board os 0x300f60 ≡ some k')
    × (proc_at board k' 1 ≡ record {
      pml4 = 0x10000;
      kstack_top = 0x41000;
      frame = child_frame board 0x40000;
      state = ready;
      brk = user_data_va;
      fds = replicate 4 empty_fd;
    })
    × (current board k' ≡ current board os)
    × (field board k' (child_frame board 0x40000) rax_at ≡ 0)
    × (field board k' 0x300f60 rax_at ≡ 1)
    × ((at : ℕ)
        → at + 8 ≤ frame_size
        → (at + 8 ≤ rax_at) ⊎ (rax_at + 8 ≤ at)
        → (field board k' (child_frame board 0x40000) at
            ≡ load64 (alloc_frame left).1.mem (0x300f60 + at))
          × (field board k' 0x300f60 at ≡ load64 (alloc_frame left).1.mem (0x300f60 + at)))
fork-child_example =
    fork-child board os 0x300f60 1 0x10000 0x40000 left slot_found cloned stack_taken (omega arith)
      (ground arith) (omega arith)

running-IsProc : IsProc running
running-IsProc = record {
  known_state = inr (inl refl);
  four_fds = refl;
  heap = λ h. (omega arith, omega arith);
}

-- Every slot of a table of four is a process that runs, or none.
four_procs :
    (a b c d : Proc)
    → IsProc a
    → IsProc b
    → IsProc c
    → IsProc d
    → (i : ℕ) → IsProc (get_or (a ∷ b ∷ c ∷ d ∷ []) i empty_proc)
four_procs a b c d ha hb hc hd zero = ha
four_procs a b c d ha hb hc hd (suc zero) = hb
four_procs a b c d ha hb hc hd (suc (suc zero)) = hc
four_procs a b c d ha hb hc hd (suc (suc (suc zero))) = hd
four_procs a b c d ha hb hc hd (suc (suc (suc (suc i)))) = empty_proc-IsProc

os-IsRunning : IsRunning board os
os-IsRunning = record {
  valid = record {
    table = refl;
    cur_in = omega arith;
    procs =
        four_procs running empty_proc empty_proc empty_proc running-IsProc empty_proc-IsProc
          empty_proc-IsProc empty_proc-IsProc;
  };
  runs = refl;
  awake = refl;
}

-- No process yet.
abbrev booting : Os board
booting = record os { procs = replicate 4 empty_proc }

abbrev spawned_os : Os board
spawned_os = elim (spawn board booting (0xcd ∷ 0x80 ∷ [])) [ none ↦ booting | some k ↦ k ]

spawns : spawn board booting (0xcd ∷ 0x80 ∷ []) ≡ some spawned_os
unfolding spawn spawn_at load_image write_entry_frame find_from map_4k map_levels next_table
    build_user_table zero_frame load64 store64 alloc_frame
spawns = refl

Reaches-Ensures_example : Ensures board (start board spawned_os)
Reaches-Ensures_example = Reaches-Ensures board (start board spawned_os) (
    started spawned_os
      (spawned booting spawned_os (0xcd ∷ 0x80 ∷ []) (no_procs booting refl refl refl) spawns))

-- Three processes are ready, and the second is resumed.
abbrev three : Os board
three = record os { procs = running ∷ running ∷ running ∷ empty_proc ∷ [] }

abbrev second : Os board
second = switch_to board (save_frame board three 0x300f60) 1

turn_taken : schedule board three 0x300f60 ≡ resume 0x300f60 second
unfolding schedule find_from switch_to save_frame
turn_taken = refl

third_ready : is_ready board second 2 ≡ true
unfolding switch_to save_frame
third_ready = refl

third_waits : Starved board 2 1 second
unfolding switch_to save_frame
third_waits =
    passed 0 three second 0x300f60 0x300f60 (begin three (omega arith)) refl turn_taken
      (ground arith)

Starved-bound_example :
    (1 ≤ 3) × (frame' : ℕ) × (k' : Os board) × (schedule board second 0x300f60 ≡ resume frame' k')
Starved-bound_example =
    Starved-bound board 2 1 second 0x300f60 (omega arith) third_waits third_ready

empty_ring-IsValid : IsValid os.input
empty_ring-IsValid = record { storage = refl; head_in = omega arith; len_in = omega arith }

-- A frame whose `rip` is 0x20000, in `links`.
abbrev low_frame : ℕ
low_frame = 0x10000 - rip_at

rip_value : field board os low_frame rip_at ≡ 0x20000
unfolding load64
rip_value = refl

sys_read-receive_example :
    (sys_read board os low_frame ≡ schedule board (blocked board os low_frame) low_frame)
    × (is_ready board (receive board (blocked board os low_frame) b'x') 0 ≡ true)
    × (field board (receive board (blocked board os low_frame) b'x') low_frame rax_at
        ≡ field board os low_frame rax_at)
    × (field board (receive board (blocked board os low_frame) b'x') low_frame rip_at + 2
        ≡ field board os low_frame rip_at)
    × (k' : Os board) × (sys_read board (receive board (blocked board os low_frame) b'x') low_frame
        ≡ resume low_frame k')
    × (field board k' low_frame rax_at ≡ b'x')
sys_read-receive_example =
    sys_read-receive board os low_frame b'x' os-IsRunning.valid empty_ring-IsValid refl
      (omega arith) (omega (arith, rip_value)) (omega (arith, rip_value))

-- The word at 0x10000 - rip_at + rdi_at.
small_argument : field board os low_frame rdi_at < 2 ^ 63
unfolding load64
small_argument = omega arith

sys_sbrk-bounds_example :
    (k' : Os board) × (sys_sbrk board os low_frame ≡ resume low_frame k')
    × (field board k' low_frame rax_at ≡ user_data_va)
    × Moved (field board os low_frame rdi_at) user_data_va (current board k').brk
    × (user_data_va ≤ (current board k').brk)
    × ((current board k').brk ≤ brk_max)
sys_sbrk-bounds_example = sys_sbrk-bounds board os low_frame os-IsRunning small_argument

-- One byte takes a page, and an argument near 2 ^ 64 makes the kernel panic.
abbrev asks : ℕ → Os board
asks arg = set_field board os low_frame rdi_at arg

sbrk_of_one_byte :
    sys_sbrk board (asks 1) low_frame
    ≡ resume low_frame (
        set_proc board
          (set_field board (asks 1) low_frame rax_at user_data_va)
          0
          (record running { brk = user_data_va + 0x1000 }))
unfolding sys_sbrk load64 store64
sbrk_of_one_byte = refl

sbrk_panics : sys_sbrk board (asks (2 ^ 64 - 1)) low_frame ≡ panic
unfolding sys_sbrk load64 store64
sbrk_panics = refl

ustr_ok-PagesOk_example : (ustr_ok links 0 user_code_va 2 ≡ true) ↔ (
    (◌≢◌ {A = ℕ} 2 0)
    × (user_code_va ≤ user_code_va)
    × (user_code_va + 2 ≤ user_region_end)
    × PagesOk links 0 user_code_va (user_code_va + 2))
ustr_ok-PagesOk_example = ustr_ok-PagesOk links 0 user_code_va 2

-- A directory of names without an end.
abbrev full_dir : Fs ram_disk
full_dir = record os.fs { dir = λ _. b'A' }

links-IsBytes : IsBytes links
links-IsBytes a = ground arith

-- The entry at 0x7000 is zero.
zero_page : table_of (load64 links 0x7000) + 4096 ≤ 0x10000
unfolding load64
zero_page = omega arith

zero_page' : table_of (load64 links 0x7000) + 4096 ≤ 0x7000
unfolding load64
zero_page' = omega arith

copy_page-private_example :
    (s' : Frames) × (copy_page frames 0x7000 ≡ some s')
    × (table_of (load64 s'.mem 0x7000) ≡ 0x10000)
    × (test_bit (load64 s'.mem 0x7000) 1 ≡ true)
    × SameFlags (load64 s'.mem 0x7000) (load64 links 0x7000)
    × ((d : ℕ)
        → d < 4096
        → (s'.mem (0x10000 + d) ≡ links (table_of (load64 links 0x7000) + d))
          × (s'.mem (table_of (load64 links 0x7000) + d)
              ≡ links (table_of (load64 links 0x7000) + d)))
copy_page-private_example =
    copy_page-private frames 0x7000 16 links-IsBytes refl (ground arith) (omega arith)
      (inl zero_page) (inl (omega arith)) (inr zero_page')
