-- ===== src/Kernel/Process.antt =====
pub mod Fork
-- How mik-os-x86/kernel/src/sched.rs makes processes: `spawn`, `exec_image` and the fork of
-- `syscall_handler`. `none` is a panic: no free slot or no free frame.
use mik_os.Common.{
  ℕ, ◌+◌, ◌-◌, ◌==◌, ◌^◌, if◌then◌else◌, true, Option, none, some, List, Memory, copy_bytes,
  copy_into, load64, store64, replicate,
}
use mik_os.Common.Table.{find_from}
use mik_os.Kernel.Mem.{Frames, alloc_frame}
use mik_os.Kernel.Paging.{build_user_table, map_4k}
use mik_os.Kernel.Paging.Clone.{present_writable_user, clone_user_table}
use mik_os.Kernel.Proc.{
  empty_state, ready, nproc, empty_fd, Proc, user_code_va, user_stack_va, user_data_va, frame_size,
  rax_at, write_entry_frame, Board, Os, proc_at, current, set_proc, set_field,
}

-- A fresh address space with the code and a stack: its PML4.
unfoldable pub load_image : Frames → ℕ → List ℕ → Option (ℕ × Frames)
load_image s pd code = elim (build_user_table s pd) [
  | none ↦ none
  | some (pml4, s1) ↦ code_page pml4 (alloc_frame s1).0 (alloc_frame s1).1
]
  where
    stack_page : ℕ → Option ℕ → Frames → Option (ℕ × Frames)
    stack_page pml4 none s = none
    stack_page pml4 (some stack) s =
        elim (map_4k s pml4 user_stack_va stack present_writable_user) [
          | none ↦ none
          | some s' ↦ some (pml4, s')
        ]

    code_page : ℕ → Option ℕ → Frames → Option (ℕ × Frames)
    code_page pml4 none s = none
    code_page pml4 (some frame) s =
        elim (map_4k (record s { mem = copy_into s.mem frame code }) pml4 user_code_va frame
          present_writable_user) [
            | none ↦ none
            | some s' ↦ stack_page pml4 (alloc_frame s').0 (alloc_frame s').1
          ]

module _ (board : Board) where
  unfoldable pub exec_image : Os board → List ℕ → ℕ → Option (Os board)
  exec_image k code frame = elim (load_image k.phys board.pd code) [
    | none ↦ none
    | some (pml4, s) ↦
        let k1 =
          set_proc board k k.cur (record (current board k) { pml4 = pml4; brk = user_data_va }) in
        some (record k1 { phys = record s { mem = write_entry_frame s.mem frame }; cr3 = pml4 })
  ]

  abbrev pub free_slot : Os board → Option ℕ
  free_slot k = find_from nproc 0 (λ i. (proc_at board k i).state == empty_state)

  unfoldable pub spawn_at : Os board → ℕ → List ℕ → Option (Os board)
  spawn_at k i code = elim (load_image k.phys board.pd code) [
    | none ↦ none
    | some (pml4, s) ↦
        let (kstack, s1) = alloc_frame s in
        elim kstack [
          | none ↦ none
          | some stack ↦
              let fp = stack + 0x1000 - frame_size in
              let p : Proc = record {
                pml4 = pml4;
                kstack_top = stack + 0x1000;
                frame = fp;
                state = ready;
                brk = user_data_va;
                fds = replicate 4 empty_fd;
              } in
              some (
                set_proc board (record k { phys = record s1 { mem = write_entry_frame s1.mem fp } })
                  i p)
        ]
  ]

  unfoldable pub spawn : Os board → List ℕ → Option (Os board)
  spawn k code = elim (free_slot k) [ none ↦ none | some i ↦ spawn_at k i code ]

  -- The child in slot `i`: the parent's tables cloned, its frame copied with `rax` 0.
  unfoldable pub fork_into : Os board → ℕ → ℕ → Option (Os board)
  fork_into k frame i = elim (clone_user_table k.phys board.pd (current board k).pml4) [
    | none ↦ none
    | some (cp4, s) ↦
        let (kstack, s1) = alloc_frame s in
        elim kstack [
          | none ↦ none
          | some stack ↦
              let cfp = stack + 0x1000 - frame_size in
              let m = copy_bytes s1.mem frame cfp frame_size in
              let p : Proc = record {
                pml4 = cp4;
                kstack_top = stack + 0x1000;
                frame = cfp;
                state = ready;
                brk = (current board k).brk;
                fds = (current board k).fds;
              } in
              let k1 = record k { phys = record s1 { mem = store64 m (cfp + rax_at) 0 } } in
              let k2 = set_field board (set_proc board k1 i p) frame rax_at 1 in
              some (record k2 { cr3 = (current board k2).pml4 })
        ]
  ]

  unfoldable pub fork : Os board → ℕ → Option (Os board)
  fork k frame = elim (free_slot k) [
    | none ↦ some (set_field board k frame rax_at (2 ^ 64 - 1))
    | some i ↦ fork_into k frame i
  ]
