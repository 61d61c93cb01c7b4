-- ===== src/Kernel/Sched.antt =====
pub mod Invariant
pub mod Input
pub mod Turns
-- `schedule`, its idle loop, and the interrupt handlers that drive it: mik-os-x86/kernel/src/sched.rs,
-- and the handlers of serial.rs and kbd.rs.
use mik_os.Common.{
  ℕ, ◌+◌, ◌%◌, ◌==◌, if◌then◌else◌, Bool, true, false, not, ◌&&◌, ◌||◌, Option, none, some, List,
  [], ◌∷◌, ◌++◌, map,
}
use mik_os.Common.Table.{find_from}
use mik_os.Kernel.Kbd
use mik_os.Kernel.Input.{push}
use mik_os.Kernel.Proc.{
  empty_state, ready, waiting, nproc, Proc, Board, Os, proc_at, current, set_proc, Outcome, resume,
  idle, dead, panic,
}

-- `iter().any(|p| p.state == state)`
abbrev pub any_in_state : ℕ → List Proc → Bool
any_in_state state [] = false
any_in_state state (p ∷ ps) = p.state == state || any_in_state state ps

-- `WAITING` becomes `READY`.
abbrev pub wake : Proc → Proc
wake p = if p.state == waiting then record p { state = ready } else p

-- What `schedule` prints before it halts: "all processes dead".
abbrev pub dead_text : List ℕ
dead_text =
    b'a' ∷ b'l' ∷ b'l' ∷ 32 ∷ b'p' ∷ b'r' ∷ b'o' ∷ b'c' ∷ b'e' ∷ b's' ∷ b's' ∷ b'e' ∷ b's' ∷ 32
    ∷ b'd' ∷ b'e' ∷ b'a' ∷ b'd' ∷ 10 ∷ []

module _ (board : Board) where
  -- Make process `i` current, with its kernel stack and its address space.
  unfoldable pub switch_to : Os board → ℕ → Os board
  switch_to k i =
      let p = proc_at board k i in record k { cur = i; rsp0 = p.kstack_top; cr3 = p.pml4 }

  -- The process `off` places behind the current one.
  abbrev pub behind : Os board → ℕ → ℕ
  behind k off = (k.cur + off) % nproc

  abbrev pub is_ready : Os board → ℕ → Bool
  is_ready k i = (proc_at board k i).state == ready

  unfoldable pub save_frame : Os board → ℕ → Os board
  save_frame k frame = set_proc board k k.cur (record (current board k) { frame = frame })

  unfoldable pub schedule : Os board → ℕ → Outcome board
  unfolding save_frame switch_to
  schedule k frame =
      let k1 = save_frame k frame in
      elim (find_from nproc 1 (λ off. is_ready k1 (behind k1 off))) [
        | some off ↦
            let next = behind k1 off in resume (proc_at board k1 next).frame (switch_to k1 next)
        | none ↦
            if not (is_ready k1 k1.cur)
            then (if any_in_state waiting k1.procs
                then idle (record k1 { in_idle = true })
                else dead (record k1 { com1 = k1.com1 ++ dead_text }))
            else resume frame k1
      ]

  -- The body of the idle loop, behind the `hlt`.
  unfoldable pub idle_loop : Os board → Outcome board
  unfolding switch_to
  idle_loop k = elim (find_from nproc 0 (is_ready k)) [
    | none ↦ idle k
    | some i ↦ resume (proc_at board k i).frame (switch_to (record k { in_idle = false }) i)
  ]

  unfoldable pub wake_on_input : Os board → Os board
  wake_on_input k = record k { procs = map wake k.procs }

  -- A byte of input arrives: the body of `drain_rx`.
  unfoldable pub receive : Os board → ℕ → Os board
  unfolding wake_on_input
  receive k b = wake_on_input (record k { input = push k.input b })

  -- `drain_rx`, on the bytes that the receiver holds.
  unfoldable pub drain_rx : Os board → List ℕ → Os board
  drain_rx k [] = k
  drain_rx k (b ∷ bs) = drain_rx (receive k b) bs

  unfoldable pub timer_handler : Os board → List ℕ → ℕ → Outcome board
  timer_handler k received frame =
      let k1 = drain_rx k received in
      if not k1.sched_active || k1.in_idle then resume frame k1 else schedule k1 frame

  unfoldable pub uart_handler : Os board → List ℕ → ℕ → Outcome board
  uart_handler k received frame = resume frame (drain_rx k received)

  -- `kbd_handler`, on the scan code read from the port; the shift state is passed in and out.
  unfoldable pub kbd_handler : Os board → Bool → ℕ → ℕ → Outcome board × Bool
  kbd_handler k shift sc frame =
      let (byte, shift') = Kbd.decode shift sc in
      (resume frame (elim byte [ none ↦ k | some b ↦ receive k b ]), shift')

  -- `start`, up to `enter_user`; the tick that it lets through is dropped.
  unfoldable pub start : Os board → Outcome board
  unfolding switch_to
  start k = elim (find_from nproc 0 (is_ready k)) [
    | none ↦ panic
    | some i ↦ resume (proc_at board k i).frame (record (switch_to k i) { sched_active = true })
  ]
