-- ===== src/Kernel/Sched/Invariant.antt =====
-- What holds of the process table, and that switching processes keeps it.
use mik_os.Common.{
  ℕ, zero, suc, ◌+◌, ◌-◌, ◌%◌, ◌≤◌, ◌<◌, ◌≡◌, ◌≢◌, refl, sym, subst, ◌∙◌, ◌⊎◌, inl, inr, arith,
  ◌==◌, Bool, true, false, ltb, none, List, [], ◌∷◌, length, length-set, get_or, set, Bool-cases,
  Option-cases,
}
use mik_os.Common.Table.{find_from, find_from-some, find_from-none}
use mik_os.Kernel.Proc.{
  empty_state, ready, waiting, nproc, Proc, empty_proc, user_data_va, brk_max, Board, Os, proc_at,
  set_proc, Outcome, resume, idle, dead, panic,
}
use mik_os.Kernel.Sched.{any_in_state, switch_to, behind, is_ready, save_frame, schedule, idle_loop}

-- A state that the source names; four descriptors; a break inside the heap's limits.
pub record IsProc (p : Proc) : Type 0 where
  pub known_state : (p.state ≡ empty_state) ⊎ ((p.state ≡ ready) ⊎ (p.state ≡ waiting))
  pub four_fds : length p.fds ≡ 4
  pub heap : p.state ≢ empty_state → (user_data_va ≤ p.brk) × (p.brk ≤ brk_max)

pub empty_proc-IsProc : IsProc empty_proc
empty_proc-IsProc = record { known_state = inl refl; four_fds = refl; heap = λ h. absurd (h refl) }

abbrev pub Procs : List Proc → Type 0
Procs ps = (i : ℕ) → IsProc (get_or ps i empty_proc)

pub set-Procs : (ps : List Proc) (i : ℕ) (p : Proc) → Procs ps → IsProc p → Procs (set ps i p)
set-Procs [] i p h v j = h j
set-Procs (q ∷ ps) zero p h v zero = v
set-Procs (q ∷ ps) zero p h v (suc j) = h (suc j)
set-Procs (q ∷ ps) (suc i) p h v zero = h zero
set-Procs (q ∷ ps) (suc i) p h v (suc j) = set-Procs ps i p (λ n. h (suc n)) v j

module _ (board : Board) where
  pub record IsOs (k : Os board) : Type 0 where
    pub table : length k.procs ≡ nproc
    pub cur_in : k.cur < nproc
    pub procs : Procs k.procs

  -- A process runs.
  pub record IsRunning (k : Os board) : Type 0 where
    pub valid : IsOs k
    pub runs : is_ready board k k.cur ≡ true
    pub awake : k.in_idle ≡ false

  -- The kernel idles, for a process that is not gone.
  pub record IsIdle (k : Os board) : Type 0 where
    pub valid : IsOs k
    pub idling : k.in_idle ≡ true
    pub left : (i : ℕ) × (i < nproc) × ((proc_at board k i).state ≢ empty_state)

  -- What holds of each outcome of a handler: a resumed process is ready; an idling kernel has a
  -- process left; and when it gives up, no process is left.
  abbrev pub Ensures : Outcome board → Type 0
  Ensures (resume frame k) = IsRunning k
  Ensures (idle k) = IsIdle k
  Ensures (dead k) = (i : ℕ) → i < nproc → (proc_at board k i).state ≡ empty_state
  Ensures panic = Unit

  pub set_proc-IsOs :
      (k : Os board) (i : ℕ) (p : Proc) → IsOs k → IsProc p → IsOs (set_proc board k i p)
  set_proc-IsOs k i p v w = record {
    table = length-set k.procs i p ∙ v.table;
    cur_in = v.cur_in;
    procs = set-Procs k.procs i p v.procs w;
  }

  save_frame-IsOs : (k : Os board) (frame : ℕ) → IsOs k → IsOs (save_frame board k frame)
  unfolding save_frame
  save_frame-IsOs k frame v =
      let c = v.procs k.cur in
      set_proc-IsOs k k.cur _ v
        (record { known_state = c.known_state; four_fds = c.four_fds; heap = c.heap })

  pub switch_to-IsRunning :
      (k : Os board) (i : ℕ)
      → IsOs k
      → i < nproc
      → is_ready board k i ≡ true
      → k.in_idle ≡ false
      → IsRunning (switch_to board k i)
  unfolding switch_to
  switch_to-IsRunning k i v lt r a = record {
    valid = record { table = v.table; cur_in = lt; procs = v.procs };
    runs = r;
    awake = a;
  }

  none_in_state :
      (ps : List Proc) (state i : ℕ)
      → any_in_state state ps ≡ false
      → i < length ps
      → (get_or ps i empty_proc).state ≢ state
  none_in_state [] state i h lt = absurd (omega arith)
  none_in_state (p ∷ ps) state zero h lt = ground arith
  none_in_state (p ∷ ps) state (suc i) h lt = none_in_state ps state i (ground arith) (omega arith)

  some_in_state :
      (ps : List Proc) (state : ℕ)
      → any_in_state state ps ≡ true
      → (i : ℕ) × (i < length ps) × ((get_or ps i empty_proc).state ≡ state)
  some_in_state [] state h = absurd (ground (arith, h))
  some_in_state (p ∷ ps) state h = elim (Bool-cases (p.state == state)) [
    | inl hit ↦ (zero, omega arith, ground (arith, hit))
    | inr miss ↦
        (let (i, lt, e) = some_in_state ps state (rw (miss) at h) in (suc i, omega (arith, lt), e))
  ]

  waiting-IsIdle :
      (k : Os board)
      → IsOs k
      → any_in_state waiting k.procs ≡ true
      → IsIdle (record k { in_idle = true })
  waiting-IsIdle k v h =
      let (i, lt, e) = some_in_state k.procs waiting h in
      record {
        valid = record { table = v.table; cur_in = v.cur_in; procs = v.procs };
        idling = refl;
        left = (i, subst (λ n. i < n) v.table lt, λ gone. absurd (omega (arith, e, gone)));
      }

  -- Every process is at some distance behind the current one.
  pub distance : (cur i : ℕ) → cur < 4 → i < 4 → (d : ℕ) × (1 ≤ d) × (d < 5) × ((cur + d) % 4 ≡ i)
  distance cur i a b = elim (Bool-cases (ltb cur i)) [
    | inl later ↦ (i - cur, ground arith, ground arith, ground arith)
    | inr earlier ↦ (i + 4 - cur, ground arith, ground arith, ground arith)
  ]

  -- With no process ready or waiting, every slot is empty.
  gone_all :
      (k : Os board)
      → IsOs k
      → find_from nproc 1 (λ off. is_ready board k (behind board k off)) ≡ none
      → any_in_state waiting k.procs ≡ false
      → (i : ℕ) → i < nproc
      → (proc_at board k i).state ≡ empty_state
  gone_all k v none_behind gone i lt =
      let (d, at_least, below, there) = distance k.cur i v.cur_in lt in
      let r =
        find_from-none nproc 1 d (λ off. is_ready board k (behind board k off)) none_behind at_least
          below in
      let not_ready : is_ready board k i ≡ false = rw (there) at r in
      let not_waiting =
        none_in_state k.procs waiting i gone (subst (λ n. i < n) (sym v.table) lt) in
      elim ((v.procs i).known_state) [
        | inl e ↦ e
        | inr (inl e) ↦ absurd (ground (arith, not_ready, e))
        | inr (inr e) ↦ absurd (not_waiting e)
      ]

  -- `schedule` resumes a ready process, idles for a waiting one, or finds that none is left.
  pub schedule-Ensures :
      (k : Os board) (frame : ℕ) → IsOs k → k.in_idle ≡ false → Ensures (schedule board k frame)
  unfolding schedule
  schedule-Ensures k frame v a =
      let k1 = save_frame board k frame in
      let v1 : IsOs k1 = save_frame-IsOs k frame v in
      let p : ℕ → Bool = λ off. is_ready board k1 (behind board k1 off) in
      elim (Option-cases (find_from nproc 1 p)) [
        | inr (off, found) ↦
            rw (found, schedule, Ensures)
              (switch_to-IsRunning k1 (behind board k1 off) v1 (omega arith)
                (find_from-some nproc 1 off p found).0 a)
        | inl none_behind ↦ elim (Bool-cases (is_ready board k1 k1.cur)) [
          | inl keeps ↦
              rw (none_behind, schedule, keeps, Ensures)
                (record { valid = v1; runs = keeps; awake = a })
          | inr stops ↦ elim (Bool-cases (any_in_state waiting k1.procs)) [
            | inl waits ↦
                rw (none_behind, schedule, stops, waits, Ensures) (waiting-IsIdle k1 v1 waits)
            | inr gone ↦
                rw (none_behind, schedule, stops, gone, Ensures)
                  (λ i lt. gone_all k1 v1 none_behind gone i lt)
          ]
        ]
      ]

  -- The idle loop resumes a process that has become ready, or idles on.
  pub idle_loop-Ensures : (k : Os board) → IsIdle k → Ensures (idle_loop board k)
  unfolding idle_loop
  idle_loop-Ensures k v = elim (Option-cases (find_from nproc 0 (is_ready board k))) [
    | inl still ↦ rw (still, idle_loop, Ensures) v
    | inr (i, found) ↦
        let r = find_from-some nproc 0 i (is_ready board k) found in
        rw (found, idle_loop, Ensures)
          (switch_to-IsRunning (record k { in_idle = false }) i
            (record { table = v.valid.table; cur_in = v.valid.cur_in; procs = v.valid.procs })
            (omega (arith, r)) r.0 refl)
  ]
