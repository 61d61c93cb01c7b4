-- ===== src/Kernel/Sched/Input.antt =====
-- A byte of input wakes the processes that wait for one, and changes no other.
use mik_os.Common.{ℕ, zero, suc, ◌≡◌, ◌≢◌, refl, ap, ◌∙◌, arith, List, [], ◌∷◌, map, length, get_or}
use mik_os.Kernel.Proc.{empty_state, ready, Proc, empty_proc, Board, Os, proc_at}
use mik_os.Kernel.Sched.{wake, wake_on_input, receive, drain_rx}
use mik_os.Kernel.Sched.Invariant.{IsProc, IsOs, IsRunning, IsIdle}

wake-IsProc : (p : Proc) → IsProc p → IsProc (wake p)
wake-IsProc p v = ground (arith, v.known_state, v.heap)

pub get_or-wake :
    (ps : List Proc) (i : ℕ) → get_or (map wake ps) i empty_proc ≡ wake (get_or ps i empty_proc)
get_or-wake [] i = refl
get_or-wake (p ∷ ps) zero = refl
get_or-wake (p ∷ ps) (suc i) = get_or-wake ps i

length-map-wake : (ps : List Proc) → length (map wake ps) ≡ length ps
length-map-wake [] = refl
length-map-wake (p ∷ ps) = ap suc (length-map-wake ps)

wake-ready : (p : Proc) → p.state ≡ ready → (wake p).state ≡ ready
wake-ready p h = ground (arith, h)

wake-left : (p : Proc) → p.state ≢ empty_state → (wake p).state ≢ empty_state
wake-left p h = ground (arith, h)

module _ (board : Board) where
  wake_on_input-IsOs : (k : Os board) → IsOs board k → IsOs board (wake_on_input board k)
  unfolding wake_on_input
  wake_on_input-IsOs k v = record {
    table = length-map-wake k.procs ∙ v.table;
    cur_in = v.cur_in;
    procs = λ i. rw (get_or-wake k.procs i) (wake-IsProc _ (v.procs i));
  }

  receive-IsOs : (k : Os board) (b : ℕ) → IsOs board k → IsOs board (receive board k b)
  unfolding receive
  receive-IsOs k b v =
      wake_on_input-IsOs _ (record { table = v.table; cur_in = v.cur_in; procs = v.procs })

  pub receive-IsRunning :
      (k : Os board) (b : ℕ) → IsRunning board k → IsRunning board (receive board k b)
  unfolding receive
  receive-IsRunning k b v = record {
    valid = receive-IsOs k b v.valid;
    runs =
        let e = wake-ready (proc_at board k k.cur) (let r = v.runs in ground (arith, r)) in
        rw (get_or-wake k.procs k.cur, e) refl;
    awake = v.awake;
  }

  pub receive-IsIdle : (k : Os board) (b : ℕ) → IsIdle board k → IsIdle board (receive board k b)
  unfolding receive
  receive-IsIdle k b v =
      let (i, lt, h) = v.left in
      record {
        valid = receive-IsOs k b v.valid;
        idling = v.idling;
        left = (i, lt, rw (get_or-wake k.procs i) (wake-left (proc_at board k i) h));
      }

  pub drain_rx-IsRunning :
      (bs : List ℕ) (k : Os board) → IsRunning board k → IsRunning board (drain_rx board k bs)
  unfolding drain_rx
  drain_rx-IsRunning [] k v = v
  drain_rx-IsRunning (b ∷ bs) k v =
      drain_rx-IsRunning bs (receive board k b) (receive-IsRunning k b v)

  pub drain_rx-IsIdle :
      (bs : List ℕ) (k : Os board) → IsIdle board k → IsIdle board (drain_rx board k bs)
  unfolding drain_rx
  drain_rx-IsIdle [] k v = v
  drain_rx-IsIdle (b ∷ bs) k v = drain_rx-IsIdle bs (receive board k b) (receive-IsIdle k b v)
