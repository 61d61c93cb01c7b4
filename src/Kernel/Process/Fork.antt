-- ===== src/Kernel/Process/Fork.antt =====
-- What `fork` makes of the parent and the child.
use mik_os.Common.{
  ℕ, ◌+◌, ◌-◌, ◌≤◌, ◌<◌, ◌≡◌, ◌≢◌, refl, ◌∙◌, ◌⊎◌, arith, some, length, get_or-set_self,
  get_or-set_ne, copy_bytes, load64, store64, load64-store64, load64-store64_apart,
  load64-copy_bytes, load64-copy_bytes_outside,
}
use mik_os.Kernel.Mem.{Frames, alloc_frame}
use mik_os.Kernel.Paging.Clone.{clone_user_table}
use mik_os.Kernel.Proc.{
  ready, empty_proc, Proc, frame_size, rax_at, Board, Os, proc_at, current, set_proc, field,
  set_field,
}
use mik_os.Kernel.Process.{free_slot, fork_into, fork}

module _ (board : Board) where
  -- The address of the child's frame, at the top of its kernel stack.
  abbrev pub child_frame : ℕ → ℕ
  child_frame stack = stack + 0x1000 - frame_size

  -- When a slot and the frames are there, and the parent's saved frame lies outside the child's stack: the child is ready in the free slot,
  -- with the cloned tables and the parent's break and descriptors; the parent stays as it was;
  -- `fork` returns 0 in the child and 1 in the parent; and every other word of the child's frame is the parent's.
  pub fork-child :
      (k : Os board) (frame i child stack : ℕ) (s : Frames)
      → free_slot board k ≡ some i
      → clone_user_table k.phys board.pd (current board k).pml4 ≡ some (child, s)
      → (alloc_frame s).0 ≡ some stack
      → i < length k.procs
      → i ≢ k.cur
      → (frame + frame_size ≤ stack) ⊎ (stack + 0x1000 ≤ frame)
      → (k' : Os board) × (fork board k frame ≡ some k')
        × (proc_at board k' i ≡ record {
          pml4 = child;
          kstack_top = stack + 0x1000;
          frame = child_frame stack;
          state = ready;
          brk = (current board k).brk;
          fds = (current board k).fds;
        })
        × (current board k' ≡ current board k)
        × (field board k' (child_frame stack) rax_at ≡ 0)
        × (field board k' frame rax_at ≡ 1)
        × ((at : ℕ)
            → at + 8 ≤ frame_size
            → (at + 8 ≤ rax_at) ⊎ (rax_at + 8 ≤ at)
            → (field board k' (child_frame stack) at ≡ load64 (alloc_frame s).1.mem (frame + at))
              × (field board k' frame at ≡ load64 (alloc_frame s).1.mem (frame + at)))
  unfolding fork fork_into
  fork-child k frame i child stack s slot cloned taken lt other apart =
      let cfp = child_frame stack in
      let m = (alloc_frame s).1.mem in
      let m1 = copy_bytes m frame cfp frame_size in
      let m2 = store64 m1 (cfp + rax_at) 0 in
      let p : Proc = record {
        pml4 = child;
        kstack_top = stack + 0x1000;
        frame = cfp;
        state = ready;
        brk = (current board k).brk;
        fds = (current board k).fds;
      } in
      let k1 = set_proc board (record k { phys = record (alloc_frame s).1 { mem = m2 } }) i p in
      let k2 = set_field board k1 frame rax_at 1 in
      (
        record k2 { cr3 = (current board k2).pml4 },
        rw (slot, cloned, taken, fork, fork_into) refl,
        get_or-set_self k.procs i _ empty_proc lt,
        get_or-set_ne k.procs i k.cur _ empty_proc other,
        load64-store64_apart m2 (frame + rax_at) (cfp + rax_at) 1 (omega (arith, apart))
            ∙ load64-store64 m1 (cfp + rax_at) 0 (omega arith),
        load64-store64 m2 (frame + rax_at) 1 (omega arith),
        λ at in_frame off_rax. (
          load64-store64_apart m2 (frame + rax_at) (cfp + at) 1 (omega (arith, apart, in_frame))
              ∙ load64-store64_apart m1 (cfp + rax_at) (cfp + at) 0 (omega (arith, off_rax))
              ∙ load64-copy_bytes m frame cfp frame_size at in_frame,
          load64-store64_apart m2 (frame + rax_at) (frame + at) 1 (omega (arith, off_rax))
              ∙ load64-store64_apart m1 (cfp + rax_at) (frame + at) 0
                  (omega (arith, apart, in_frame))
              ∙ load64-copy_bytes_outside m frame cfp frame_size (frame + at)
                  (omega (arith, apart, in_frame)),
        ),
      )
