-- ===== src/Kernel/Main/Boots.antt =====
-- What `kmain` (mik-os-x86/kernel/src/main.rs) reaches.
use mik_os.Common.{
  ℕ, ◌==◌, ◌≡◌, refl, sym, ap, subst, ◌∙◌, ◌⊎◌, inl, inr, arith, Bool, true, false, Option, none,
  some, List, [], ◌∷◌, replicate, Bool-cases, Option-cases, load64,
}
use mik_os.Kernel.Ports.{Ports}
use mik_os.Kernel.Mem.{Frames, alloc_frame, free_frame}
use mik_os.Kernel.Proc.{nproc, empty_proc, Board, Os, panic}
use mik_os.Kernel.Process.{spawn}
use mik_os.Kernel.Sched.{start}
use mik_os.Kernel.System.{Booted, no_procs, spawned, printed, Reaches, started, write_str}
use mik_os.Kernel.Main.{
  Linked, alloc_check, checked, set_up_memory, set_up_devices, set_up_files, spawn_all, boot, kmain,
  sched_text,
}

some_inj : {A : Type 0} {a b : A} → some a ≡ some b → a ≡ b
some_inj {A} {a} e = ap (λ (o : Option A). elim o [ none ↦ a | some x ↦ x ]) e

alloc_none : (s : Frames) → (s.head == 0) ≡ true → (alloc_frame s).0 ≡ none
unfolding alloc_frame
alloc_none s h = rw h refl

alloc_some :
    (s : Frames)
    → (s.head == 0) ≡ false
    → ((alloc_frame s).0 ≡ some s.head)
      × ((alloc_frame s).1 ≡ record s { head = load64 s.mem s.head })
unfolding alloc_frame
alloc_some s h = (rw h refl, rw h refl)

-- The check of the free list never prints BAD: the frame that is freed is the one that comes back.
pub alloc_check-same : (s s' : Frames) (same : Bool) → alloc_check s ≡ some (same, s') → same ≡ true
unfolding alloc_check free_frame
alloc_check-same s s' same h =
    let s1 : Frames = record s { head = load64 s.mem s.head } in
    elim (Bool-cases (s.head == 0)) [
      | inl empty ↦ absurd (
          let z : none ≡ some (same, s') = rw (alloc_none s empty, alloc_check) at h in
          ground (arith, z))
      | inr full ↦ elim (Bool-cases (s1.head == 0)) [
        | inl last ↦ absurd (
            let z : none ≡ some (same, s') =
              rw ((alloc_some s full).0, (alloc_some s full).1, alloc_none s1 last, alloc_check) at
                h in
            ground (arith, z))
        | inr more ↦
            (let z =
                rw
                  (
                    (alloc_some s full).0,
                    (alloc_some s full).1,
                    (alloc_some s1 more).0,
                    alloc_check,
                    (alloc_some (free_frame (alloc_frame (alloc_frame s).1).1 s.head) full).0,
                  )
                  at h in
              sym (ap (λ (r : Bool × Frames). r.0) (some_inj z)) ∙ ground arith)
      ]
    ]

module _ (board : Board) where
  IsFresh : Os board → Type 0
  IsFresh k = (k.procs ≡ replicate nproc empty_proc) × (k.cur ≡ 0) × (k.in_idle ≡ false)

  checked-IsFresh : (k k' : Os board) → IsFresh k → checked board k ≡ some k' → IsFresh k'
  unfolding checked IsFresh
  checked-IsFresh k k' h e = elim (Option-cases (alloc_check k.phys)) [
    | inl bad ↦ absurd (let z : none ≡ some k' = rw (bad, checked) at e in ground (arith, z))
    | inr (r, good) ↦ (let z = rw (good, checked) at e in subst IsFresh (some_inj z) h)
  ]

  set_up_memory-IsFresh :
      (k k' : Os board) (l : Linked) → IsFresh k → set_up_memory board k l ≡ some k' → IsFresh k'
  unfolding set_up_memory IsFresh
  set_up_memory-IsFresh k k' l h e = checked-IsFresh _ k' h e

  spawn_all-Booted :
      (progs : List (List ℕ)) (k k' : Os board)
      → Booted board k
      → spawn_all board k progs ≡ some k'
      → Booted board k'
  unfolding spawn_all
  spawn_all-Booted [] k k' h e = subst (Booted board) (some_inj e) h
  spawn_all-Booted (prog ∷ progs) k k' h e = elim (Option-cases (spawn board k prog)) [
    | inl bad ↦ absurd (let z : none ≡ some k' = rw (bad, spawn_all) at e in ground (arith, z))
    | inr (k1, good) ↦
        spawn_all-Booted progs k1 k' (spawned k k1 prog h good) (rw (good, spawn_all) at e)
  ]

  -- With the statics of the processes as they are at boot: `kmain` panics, for want of frames, or
  -- hands the CPU to the scheduler in a state that the kernel's steps start from.
  pub kmain-Reaches :
      (p : Ports) (k : Os board) (s : p.State) (d : board.disk.State) (l : Linked)
      → k.procs ≡ replicate nproc empty_proc
      → k.cur ≡ 0
      → k.in_idle ≡ false
      → (kmain board p k s d l ≡ panic) ⊎ Reaches board (kmain board p k s d l)
  unfolding kmain boot IsFresh set_up_files set_up_devices
  kmain-Reaches p k s d l e c a = elim (Option-cases (set_up_memory board k l)) [
    | inl bad ↦ inl (rw (bad, kmain) refl)
    | inr (k1, good) ↦
        (let k2 : Os board = set_up_files board (set_up_devices board p k1 s).0 d l.prog_d in
          let fresh = set_up_memory-IsFresh k k1 l (e, c, a) good in
          elim (Option-cases (spawn_all board k2 (l.prog_a ∷ l.prog_b ∷ l.prog_sh ∷ []))) [
            | inl bad ↦ inl (rw (good, bad, kmain) refl)
            | inr (k3, spawned_all) ↦
                (let reached : kmain board p k s d l ≡ start board (write_str board k3 sched_text) =
                    rw (good, spawned_all, kmain) refl in
                  inr (
                    subst (Reaches board) (sym reached) (
                      started _ (
                        printed k3 sched_text (
                          spawn_all-Booted (l.prog_a ∷ l.prog_b ∷ l.prog_sh ∷ []) k2 k3
                            (no_procs k2 fresh.0 fresh.1 fresh.2) spawned_all)))))
          ])
  ]
