-- ===== src/Kernel/System/Reachable.antt =====
-- What holds of every state that the kernel reaches.
use mik_os.Common.{
  ℕ, zero, suc, ◌≡◌, refl, ap, subst, ◌∙◌, inl, inr, arith, if◌then◌else◌, Bool, true, false, not,
  ◌||◌, Option, none, some, List, length, get_or, replicate, Bool-cases, Option-cases,
}
use mik_os.Common.Table.{find_from, find_from-some}
use mik_os.Kernel.Mem.{alloc_frame}
use mik_os.Kernel.Kbd
use mik_os.Kernel.Proc.{nproc, empty_proc, Board, Os, current, Outcome, resume, idle, dead, panic}
use mik_os.Kernel.Sched.{
  is_ready, timer_handler, uart_handler, kbd_handler, drain_rx, receive, start,
}
use mik_os.Kernel.Sched.Invariant.{
  IsProc, empty_proc-IsProc, IsOs, IsRunning, IsIdle, Ensures, set_proc-IsOs, switch_to-IsRunning,
  schedule-Ensures, idle_loop-Ensures,
}
use mik_os.Kernel.Sched.Input.{
  receive-IsRunning, receive-IsIdle, drain_rx-IsRunning, drain_rx-IsIdle,
}
use mik_os.Kernel.Process.{load_image, free_slot, spawn_at, spawn}
use mik_os.Kernel.Fault.{Handled, mended, out_of_frames, fatal, handle_fault, pf_handler}
use mik_os.Kernel.Syscall.Keeps.{ready-IsProc, same-IsRunning}
use mik_os.Kernel.Syscall.Handler.{syscall_handler-Ensures}
use mik_os.Kernel.System.{
  Device, tick, uart, key, Event, interrupt, syscall, fault, on_interrupt, on_event, with_memory,
  Step, user_runs, wakes, Booted, no_procs, spawned, printed, Reaches, started, steps,
}

all_empty : (i : ℕ) → IsProc (get_or (replicate nproc empty_proc) i empty_proc)
all_empty zero = empty_proc-IsProc
all_empty (suc zero) = empty_proc-IsProc
all_empty (suc (suc zero)) = empty_proc-IsProc
all_empty (suc (suc (suc zero))) = empty_proc-IsProc
all_empty (suc (suc (suc (suc i)))) = empty_proc-IsProc

module _ (board : Board) where
  typed :
      (o : Option ℕ) (k : Os board)
      → IsRunning board k
      → IsRunning board (elim o [ none ↦ k | some b ↦ receive board k b ])
  typed none k v = v
  typed (some b) k v = receive-IsRunning board k b v

  interrupt-Ensures :
      (k : Os board) (frame : ℕ) (d : Device)
      → IsRunning board k
      → Ensures board (on_interrupt board k frame d)
  unfolding on_interrupt timer_handler uart_handler kbd_handler
  interrupt-Ensures k frame (tick received) v =
      let k1 = drain_rx board k received in
      let v1 = drain_rx-IsRunning board received k v in
      elim (Bool-cases (not k1.sched_active || k1.in_idle)) [
        | inl idles ↦ rw (idles, on_interrupt, timer_handler, Ensures) v1
        | inr takes_turns ↦
            rw (takes_turns, on_interrupt, timer_handler)
              (schedule-Ensures board k1 frame v1.valid v1.awake)
      ]
  interrupt-Ensures k frame (uart received) v = drain_rx-IsRunning board received k v
  interrupt-Ensures k frame (key shift sc) v = typed (Kbd.decode shift sc).0 k v

  pf_handler-Ensures :
      (k : Os board) (frame cr2 err : ℕ)
      → IsRunning board k
      → Ensures board (pf_handler board k frame cr2 err)
  unfolding pf_handler
  pf_handler-Ensures k frame cr2 err v =
      handled (handle_fault k.phys (current board k) cr2 err) refl
    where
      handled :
          (h : Handled)
          → handle_fault k.phys (current board k) cr2 err ≡ h
          → Ensures board (pf_handler board k frame cr2 err)
      handled (mended s) e =
          rw (e, pf_handler, Ensures)
            (same-IsRunning board k (record k { phys = s }) refl refl refl v)
      handled out_of_frames e = rw (e, pf_handler, Ensures) tt
      handled fatal e = rw (e, pf_handler, Ensures) tt

  typed-IsIdle :
      (o : Option ℕ) (k : Os board)
      → IsIdle board k
      → IsIdle board (elim o [ none ↦ k | some b ↦ receive board k b ])
  typed-IsIdle none k v = v
  typed-IsIdle (some b) k v = receive-IsIdle board k b v

  -- An outcome that resumes, if any, resumes an idling kernel.
  abbrev IdleAgain : Outcome board → Type 0
  IdleAgain (resume frame k) = IsIdle board k
  IdleAgain (idle k) = Unit
  IdleAgain (dead k) = Unit
  IdleAgain panic = Unit

  idles_on :
      (b idling : Bool) (x y : Outcome board)
      → idling ≡ true
      → IdleAgain x
      → IdleAgain (if b || idling then x else y)
  idles_on true idling x y e h = h
  idles_on false true x y e h = h
  idles_on false false x y e h = absurd (ground (arith, e))

  interrupt-IsIdle :
      (k : Os board) (frame : ℕ) (d : Device)
      → IsIdle board k
      → IdleAgain (on_interrupt board k frame d)
  unfolding on_interrupt timer_handler uart_handler kbd_handler
  interrupt-IsIdle k frame (tick received) v =
      let k1 = drain_rx board k received in
      let v1 = drain_rx-IsIdle board received k v in
      idles_on (not k1.sched_active) k1.in_idle _ _ v1.idling v1
  interrupt-IsIdle k frame (uart received) v = drain_rx-IsIdle board received k v
  interrupt-IsIdle k frame (key shift sc) v = typed-IsIdle (Kbd.decode shift sc).0 k v

  start-Ensures : (k : Os board) → IsOs board k → k.in_idle ≡ false → Ensures board (start board k)
  unfolding start
  start-Ensures k v a = elim (Option-cases (find_from nproc 0 (is_ready board k))) [
    | inl no_ready ↦ rw (no_ready, start, Ensures) tt
    | inr (i, found) ↦
        let r = find_from-some nproc 0 i (is_ready board k) found in
        rw (found, start, Ensures)
          (same-IsRunning board _ _ refl refl refl
            (switch_to-IsRunning board k i v (omega (arith, r)) r.0 a))
  ]

  -- What holds of the kernel when spawning has not panicked.
  abbrev KeepsOs : Os board → Option (Os board) → Type 0
  KeepsOs k none = Unit
  KeepsOs k (some k') = IsOs board k' × (k'.in_idle ≡ k.in_idle)

  spawn_at-IsOs :
      (k : Os board) (i : ℕ) (code : List ℕ) → IsOs board k → KeepsOs k (spawn_at board k i code)
  unfolding spawn_at
  spawn_at-IsOs k i code v = elim (Option-cases (load_image k.phys board.pd code)) [
    | inl out ↦ rw (out, spawn_at, KeepsOs) tt
    | inr (r, loaded) ↦ elim (Option-cases (alloc_frame r.1).0) [
      | inl out ↦ rw (loaded, out, spawn_at, KeepsOs) tt
      | inr (stack, taken) ↦
          let w =
            set_proc-IsOs board k i _ v (ready-IsProc _ refl refl (omega arith) (omega arith)) in
          rw (loaded, taken, spawn_at, KeepsOs)
            (record { table = w.table; cur_in = w.cur_in; procs = w.procs }, refl)
    ]
  ]

  spawn-IsOs : (k : Os board) (code : List ℕ) → IsOs board k → KeepsOs k (spawn board k code)
  unfolding spawn
  spawn-IsOs k code v = elim (Option-cases (free_slot board k)) [
    | inl full ↦ rw (full, spawn, KeepsOs) tt
    | inr (i, free) ↦ rw (free, spawn) (spawn_at-IsOs k i code v)
  ]

  Booted-IsOs : (k : Os board) → Booted board k → IsOs board k × (k.in_idle ≡ false)
  Booted-IsOs _ (no_procs k e c a) = (
    record {
      table = ap length e;
      cur_in = rw (c) (omega arith);
      procs = λ i. rw (e) (all_empty i);
    },
    a,
  )
  Booted-IsOs _ (spawned k k' code h e) =
      let (v, a) = Booted-IsOs k h in
      let (v', same) : KeepsOs k (some k') = rw (e) at (spawn-IsOs k code v) in (v', same ∙ a)
  Booted-IsOs _ (printed k text h) =
      let (v, a) = Booted-IsOs k h in
      (record { table = v.table; cur_in = v.cur_in; procs = v.procs }, a)

  on_event-Ensures :
      (k : Os board) (frame : ℕ) (e : Event)
      → IsRunning board k
      → Ensures board (on_event board k frame e)
  unfolding on_event
  on_event-Ensures k frame (interrupt d) v = interrupt-Ensures k frame d v
  on_event-Ensures k frame syscall v = syscall_handler-Ensures board k frame v
  on_event-Ensures k frame (fault cr2 err) v = pf_handler-Ensures k frame cr2 err v

  Step-Ensures : (o o' : Outcome board) → Ensures board o → Step board o o' → Ensures board o'
  Step-Ensures _ _ v (user_runs k frame frame' mem e) =
      on_event-Ensures (with_memory board k mem) frame' e
        (same-IsRunning board k _ refl refl refl v)
  Step-Ensures _ _ v (wakes k k' frame frame' d e) =
      let again : IsIdle board k' = subst IdleAgain e (interrupt-IsIdle k frame d v) in
      idle_loop-Ensures board k' again

  -- Whatever user code does and whichever interrupts come, the kernel resumes a process that is
  -- ready, or idles with a process left, or halts with every slot empty, or panics; and the process table
  -- stays valid: four slots with known states, four descriptors each, and breaks inside the heap.
  pub Reaches-Ensures : (o : Outcome board) → Reaches board o → Ensures board o
  Reaches-Ensures _ (started k h) = (let (v, a) = Booted-IsOs k h in start-Ensures k v a)
  Reaches-Ensures _ (steps o o' h s) = Step-Ensures o o' (Reaches-Ensures o h) s
