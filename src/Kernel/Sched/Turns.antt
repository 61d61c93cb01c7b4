-- ===== src/Kernel/Sched/Turns.antt =====
-- The round robin of `schedule`: a ready process gets its turn.
use mik_os.Common.{
  ℕ, zero, suc, ◌+◌, ◌-◌, ◌%◌, ◌≤◌, ◌<◌, ◌≡◌, ◌≢◌, refl, ap, sym, ◌∙◌, inl, inr, arith, ◌==◌, leb,
  Bool, true, List, [], ◌∷◌, get_or, set, Bool-cases, Option-cases,
}
use mik_os.Common.Table.{find_from, find_from-some, find_from-first, find_from-none}
use mik_os.Kernel.Proc.{
  ready, nproc, empty_proc, Proc, Board, Os, proc_at, Outcome, resume, idle, dead, panic,
}
use mik_os.Kernel.Sched.{switch_to, behind, is_ready, save_frame, schedule}
use mik_os.Kernel.Sched.Invariant.{distance}

state-set_frame :
    (ps : List Proc) (c i frame : ℕ)
    → (get_or (set ps c (record (get_or ps c empty_proc) { frame = frame })) i empty_proc).state
      ≡ (get_or ps i empty_proc).state
state-set_frame [] c i frame = refl
state-set_frame (p ∷ ps) zero zero frame = refl
state-set_frame (p ∷ ps) zero (suc i) frame = refl
state-set_frame (p ∷ ps) (suc c) zero frame = refl
state-set_frame (p ∷ ps) (suc c) (suc i) frame = state-set_frame ps c i frame

module _ (board : Board) where
  -- A stretch of a run in which `schedule` has passed over process `i` so many times, though it was
  -- ready each time. Between two schedulings, the current process and the interrupts do anything that
  -- does not switch processes.
  pub data Starved (i : ℕ) : ℕ → Os board → Type 0 where
    begin : (k : Os board) → k.cur < nproc → Starved i 0 k
    busy : (n : ℕ) (k k' : Os board) → Starved i n k → k'.cur ≡ k.cur → Starved i n k'
    passed :
        (n : ℕ) (k k' : Os board) (frame frame' : ℕ)
        → Starved i n k
        → is_ready board k i ≡ true
        → schedule board k frame ≡ resume frame' k'
        → k'.cur ≢ i
        → Starved i (suc n) k'

  is_ready-save_frame :
      (k : Os board) (frame i : ℕ)
      → is_ready board (save_frame board k frame) i ≡ is_ready board k i
  unfolding save_frame
  is_ready-save_frame k frame i = ap (λ s. s == ready) (state-set_frame k.procs k.cur i frame)

  -- What `schedule` resumes is ahead of process `i`, or is process `i`.
  schedule-advances :
      (k : Os board) (frame i d : ℕ)
      → k.cur < nproc
      → 1 ≤ d
      → d < 5
      → (k.cur + d) % 4 ≡ i
      → is_ready board k i ≡ true
      → (off : ℕ) × (1 ≤ off)
        × (off ≤ d)
        × (schedule board k frame
            ≡ resume
                (proc_at board (save_frame board k frame) (behind board k off)).frame
                (switch_to board (save_frame board k frame) (behind board k off)))
  unfolding schedule
  schedule-advances k frame i d lt lo hi there r =
      let k1 = save_frame board k frame in
      let p : ℕ → Bool = λ off. is_ready board k1 (behind board k1 off) in
      let p_d : p d ≡ true = (rw (there) (is_ready-save_frame k frame i ∙ r)) in
      elim (Option-cases (find_from nproc 1 p)) [
        | inl none_behind ↦
            absurd (let e = find_from-none nproc 1 d p none_behind lo hi in ground (arith, e, p_d))
        | inr (off, found) ↦ elim (Bool-cases (leb off d)) [
          | inl before ↦ (
            off,
            (find_from-some nproc 1 off p found).1,
            ground (arith, before),
            rw (found, schedule) refl,
          )
          | inr after ↦ absurd (
              let e = find_from-first nproc 1 off d p found lo (ground (arith, after)) in
              ground (arith, e, p_d))
        ]
      ]

  abbrev resumed_cur : Outcome board → ℕ
  resumed_cur (resume frame k) = k.cur
  resumed_cur (idle k) = 0
  resumed_cur (dead k) = 0
  resumed_cur panic = 0

  -- How far process `i` is behind the current one, and how often it was passed over.
  Starved-distance :
      (i n : ℕ) (k : Os board)
      → i < nproc
      → Starved i n k
      → (d : ℕ) × (1 ≤ d) × (n + d < 5) × (k.cur < 4) × ((k.cur + d) % 4 ≡ i)
  unfolding switch_to save_frame
  Starved-distance i _ _ lt (begin k cur_in) =
      let (d, lo, hi, there) = distance board k.cur i cur_in lt in
      (d, lo, omega (arith, hi), cur_in, there)
  Starved-distance i _ _ lt (busy n k k' h same) =
      let (d, lo, hi, cur_in, there) = Starved-distance i n k lt h in
      (d, lo, hi, rw (same) cur_in, rw (same) there)
  Starved-distance i _ _ lt (passed n k k' frame frame' h r chosen others) =
      let (d, lo, hi, cur_in, there) = Starved-distance i n k lt h in
      let (off, lo', before, e) = schedule-advances k frame i d cur_in lo (omega arith) there r in
      let now : k'.cur ≡ (k.cur + off) % 4 = sym (ap resumed_cur (sym e ∙ chosen)) in
      elim (Bool-cases (off == d)) [
        | inl same ↦ absurd (others (now ∙ rw (let e : off ≡ d = ground (arith, same) in e) there))
        | inr other ↦ (
          d - off,
          ground (arith, before, other),
          ground (arith, hi, lo'),
          omega (arith, now),
          omega (arith, now, there, before),
        )
      ]

  -- No process starves: `schedule` passes over a ready process at most three times in a row, and
  -- while a process is ready, `schedule` resumes some process.
  pub Starved-bound :
      (i n : ℕ) (k : Os board) (frame : ℕ)
      → i < nproc
      → Starved i n k
      → is_ready board k i ≡ true
      → (n ≤ 3) × (frame' : ℕ) × (k' : Os board) × (schedule board k frame ≡ resume frame' k')
  Starved-bound i n k frame lt h r =
      let (d, lo, hi, cur_in, there) = Starved-distance i n k lt h in
      let (off, lo', before, e) = schedule-advances k frame i d cur_in lo (omega arith) there r in
      (omega (arith, lo, hi), _, _, e)
