-- ===== src/Kernel/System.antt =====
mod Tests
pub mod Reachable
-- The x86-64 kernel as it runs: the spawning of mik-os-x86/kernel/src/main.rs, the events that enter it
-- through the handlers of sched.rs, serial.rs and kbd.rs, and the steps they make.
use mik_os.Common.{ℕ, ◌≡◌, Bool, Option, none, some, List, [], ◌∷◌, ◌++◌, Memory, replicate, false}
use mik_os.Kernel.Proc.{nproc, empty_proc, Board, Os, current, Outcome, resume, idle, dead, panic}
use mik_os.Kernel.Sched.{timer_handler, uart_handler, kbd_handler, idle_loop, start}
use mik_os.Kernel.Process.{spawn}
use mik_os.Kernel.Fault.{pf_handler}
use mik_os.Kernel.Syscall.{syscall_handler}

-- The interrupts of the devices: a tick with the bytes at the receiver, the receiver's own, and a key
-- with the shift state and its scan code.
pub data Device : Type 0 where
  tick : List ℕ → Device
  uart : List ℕ → Device
  key : Bool → ℕ → Device

-- What ends a stretch of user code; a fault comes with CR2 and the error code.
pub data Event : Type 0 where
  interrupt : Device → Event
  syscall : Event
  fault : ℕ → ℕ → Event

module _ (board : Board) where
  unfoldable pub on_interrupt : Os board → ℕ → Device → Outcome board
  on_interrupt k frame (tick received) = timer_handler board k received frame
  on_interrupt k frame (uart received) = uart_handler board k received frame
  on_interrupt k frame (key shift sc) = (kbd_handler board k shift sc frame).0

  unfoldable pub on_event : Os board → ℕ → Event → Outcome board
  on_event k frame (interrupt d) = on_interrupt k frame d
  on_event k frame syscall = syscall_handler board k frame
  on_event k frame (fault cr2 err) = pf_handler board k frame cr2 err

  -- `serial::write_str`
  abbrev pub write_str : Os board → List ℕ → Os board
  write_str k text = record k { com1 = k.com1 ++ text }

  -- The memory that user code leaves behind.
  abbrev pub with_memory : Os board → Memory → Os board
  with_memory k mem = record k { phys = record k.phys { mem = mem } }

  -- The kernel's steps: a process runs, leaves any memory behind and enters the kernel; or an interrupt
  -- ends a `hlt` of the idle loop.
  pub data Step : Outcome board → Outcome board → Type 0 where
    user_runs :
        (k : Os board) (frame frame' : ℕ) (mem : Memory) (e : Event)
        → Step (resume frame k) (on_event (with_memory k mem) frame' e)
    wakes :
        (k k' : Os board) (frame frame' : ℕ) (d : Device)
        → on_interrupt k frame d ≡ resume frame' k'
        → Step (idle k) (idle_loop board k')

  -- The states before `start`: no process, then some spawned, and texts printed.
  pub data Booted : Os board → Type 0 where
    no_procs :
        (k : Os board)
        → k.procs ≡ replicate nproc empty_proc
        → k.cur ≡ 0
        → k.in_idle ≡ false
        → Booted k
    spawned :
        (k k' : Os board) (code : List ℕ) → Booted k → spawn board k code ≡ some k' → Booted k'
    printed : (k : Os board) (text : List ℕ) → Booted k → Booted (write_str k text)

  pub data Reaches : Outcome board → Type 0 where
    started : (k : Os board) → Booted k → Reaches (start board k)
    steps : (o o' : Outcome board) → Reaches o → Step o o' → Reaches o'
