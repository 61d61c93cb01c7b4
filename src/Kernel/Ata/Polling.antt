-- ===== src/Kernel/Ata/Polling.antt =====
-- The two waits of mik-os-x86/kernel/src/ata.rs, and the registers, on ports that follow the protocol.
use mik_os.Common.{
  ℕ, zero, suc, ◌-◌, ◌≤◌, bit_and, ◌≡◌, refl, sym, ap, subst, ◌∙◌, arith, ◌==◌, Bool, true, false,
  not, inl, inr, Bool-cases,
}
use mik_os.Kernel.Ports.{Ports}
use mik_os.Kernel.Ata.{
  status_port, alt_port, max_spins, ready_loop, read_alt, wait_ready, drq_loop, wait_drq,
}
use mik_os.Kernel.Ata.Protocol.{Drive, wants_data, has_failed, IsAta}

abbrev pub settled : Drive → Drive
settled d = record d { busy = 0 }

module _ (p : Ports) (view : p.State → Drive) (capacity : ℕ) (ata : IsAta p view capacity) where
  -- What a poll leaves of the wait.
  abbrev polled : p.State → p.State
  polled s = (p.inb s status_port).1

  polled-busy : (s : p.State) → (view (polled s)).busy ≤ (view s).busy - 1
  polled-busy s = rw (ap (λ (d : Drive). d.busy) (ata.poll s).2) ((ata.poll s).1)

  polled-settled : (s : p.State) → settled (view (polled s)) ≡ settled (view s)
  polled-settled s = ap settled (ata.poll s).2

  polled_done : (s : p.State) → (view s).busy ≡ 0 → view (polled s) ≡ settled (view s)
  polled_done s h =
      (ata.poll s).2
      ∙ ap (λ (b : ℕ). record (view s) { busy = b })
          (let e : (ata.poll s).0 ≡ 0 = omega (arith, h, (ata.poll s).1) in e)

  -- An answer, and the drive ready behind it with nothing else of it changed.
  abbrev Settles : p.State → Bool → Bool × p.State → Type 0
  Settles s answer r = (r.0 ≡ answer) × (view r.1 ≡ settled (view s))

  ready_loop_clear :
      (left : ℕ) (s : p.State) → (view s).busy ≡ 0 → ready_loop p left s ≡ (true, polled s)
  unfolding ready_loop
  ready_loop_clear zero s h = rw (ata.busy_bit s, h, ready_loop) refl
  ready_loop_clear (suc left) s h = rw (ata.busy_bit s, h, ready_loop) refl

  ready_loop_set :
      (left : ℕ) (s : p.State)
      → ((view s).busy == 0) ≡ false
      → ready_loop p (suc left) s ≡ ready_loop p left (polled s)
  unfolding ready_loop
  ready_loop_set left s h = rw (ata.busy_bit s, h, ready_loop) refl

  ready_loop-Settles :
      (left : ℕ) (s : p.State) → (view s).busy ≤ left → Settles s true (ready_loop p left s)
  ready_loop-Settles zero s h =
      let clear : (view s).busy ≡ 0 = omega (arith, h) in
      subst (Settles s true) (sym (ready_loop_clear zero s clear)) (refl, polled_done s clear)
  ready_loop-Settles (suc left) s h = elim (Bool-cases ((view s).busy == 0)) [
    | inl none_left ↦
        (let clear : (view s).busy ≡ 0 = ground (arith, none_left) in
          subst (Settles s true) (sym (ready_loop_clear (suc left) s clear))
            (refl, polled_done s clear))
    | inr set ↦
        (let rec = ready_loop-Settles left (polled s) (omega (arith, h, polled-busy s)) in
          subst (Settles s true) (sym (ready_loop_set left s set))
            (rec.0, rec.1 ∙ polled-settled s))
  ]

  read_alt-settled :
      (n : ℕ) (s : p.State)
      → ((view (read_alt p n s)).busy ≤ (view s).busy)
        × (settled (view (read_alt p n s)) ≡ settled (view s))
  unfolding read_alt
  read_alt-settled zero s = (omega arith, refl)
  read_alt-settled (suc n) s =
      let rec = read_alt-settled n (p.inb s alt_port).1 in
      let step = ata.alt s in
      (omega (arith, rec.0, step.1, ap (λ (d : Drive). d.busy) step.2), rec.1 ∙ ap settled step.2)

  -- The drive is ready behind `wait_ready`, and nothing else of it has changed.
  pub wait_ready_settles :
      (s : p.State)
      → (view s).busy ≤ max_spins
      → ((wait_ready p s).0 ≡ true) × (view (wait_ready p s).1 ≡ settled (view s))
  unfolding wait_ready
  wait_ready_settles s h =
      let alts = read_alt-settled 4 s in
      let waited = ready_loop-Settles max_spins (read_alt p 4 s) (omega (arith, h, alts.0)) in
      (waited.0, waited.1 ∙ alts.1)

  drq_loop_error :
      (left : ℕ) (s : p.State)
      → (view s).busy ≡ 0
      → has_failed (view s).phase ≡ true
      → drq_loop p left s ≡ (false, polled s)
  unfolding drq_loop
  drq_loop_error zero s h k = rw (ata.error_bit s, h, k, drq_loop) refl
  drq_loop_error (suc left) s h k = rw (ata.error_bit s, h, k, drq_loop) refl

  drq_loop_data :
      (left : ℕ) (s : p.State)
      → (view s).busy ≡ 0
      → has_failed (view s).phase ≡ false
      → wants_data (view s).phase ≡ true
      → drq_loop p left s ≡ (true, polled s)
  unfolding drq_loop
  drq_loop_data zero s h k w = rw (ata.error_bit s, ata.data_bit s, h, k, w, drq_loop) refl
  drq_loop_data (suc left) s h k w =
      let good : (bit_and (p.inb s status_port).0 0x01 == 0) ≡ true =
        ata.error_bit s ∙ rw (h, k) refl in
      let ready : (bit_and (p.inb s status_port).0 0x08 == 0) ≡ false =
        ata.data_bit s ∙ rw (h, w) refl in
      rw (good, ready, drq_loop) refl

  drq_loop_set :
      (left : ℕ) (s : p.State)
      → ((view s).busy == 0) ≡ false
      → drq_loop p (suc left) s ≡ drq_loop p left (polled s)
  unfolding drq_loop
  drq_loop_set left s h =
      let good : (bit_and (p.inb s status_port).0 0x01 == 0) ≡ true = ata.error_bit s ∙ rw h refl in
      let none_yet : (bit_and (p.inb s status_port).0 0x08 == 0) ≡ true =
        ata.data_bit s ∙ rw h refl in
      rw (good, none_yet, drq_loop) refl

  polled-phase : (s : p.State) → (view (polled s)).phase ≡ (view s).phase
  polled-phase s = ap (λ (d : Drive). d.phase) (ata.poll s).2

  -- With a command under way that fails or asks for data, `drq_loop` says which.
  drq_loop_clear :
      (left : ℕ) (s : p.State) (due : Bool)
      → (view s).busy ≡ 0
      → wants_data (view s).phase ≡ due
      → has_failed (view s).phase ≡ not due
      → Settles s due (drq_loop p left s)
  drq_loop_clear left s true h w k =
      subst (Settles s true) (sym (drq_loop_data left s h k w)) (refl, polled_done s h)
  drq_loop_clear left s false h w k =
      subst (Settles s false) (sym (drq_loop_error left s h k)) (refl, polled_done s h)

  drq_loop-Settles :
      (left : ℕ) (s : p.State) (due : Bool)
      → (view s).busy ≤ left
      → wants_data (view s).phase ≡ due
      → has_failed (view s).phase ≡ not due
      → Settles s due (drq_loop p left s)
  drq_loop-Settles zero s due h w k = drq_loop_clear zero s due (omega (arith, h)) w k
  drq_loop-Settles (suc left) s due h w k = elim (Bool-cases ((view s).busy == 0)) [
    | inl clear ↦ drq_loop_clear (suc left) s due (ground (arith, clear)) w k
    | inr set ↦
        (let rec =
            drq_loop-Settles left (polled s) due (omega (arith, h, polled-busy s))
              (ap wants_data (polled-phase s) ∙ w) (ap has_failed (polled-phase s) ∙ k) in
          subst (Settles s due) (sym (drq_loop_set left s set)) (rec.0, rec.1 ∙ polled-settled s))
  ]

  pub wait_drq_settles :
      (s : p.State) (due : Bool)
      → (view s).busy ≤ max_spins
      → wants_data (view s).phase ≡ due
      → has_failed (view s).phase ≡ not due
      → ((wait_drq p s).0 ≡ due) × (view (wait_drq p s).1 ≡ settled (view s))
  unfolding wait_drq
  wait_drq_settles s due h w k = drq_loop-Settles max_spins s due h w k
