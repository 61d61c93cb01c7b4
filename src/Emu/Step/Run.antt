-- ===== src/Emu/Step/Run.antt =====
-- The loop of `run`: fuel is only a bound on it.
use mik_os.Common.{
  ℕ, zero, suc, ◌<◌, ◌≡◌, refl, arith, true, false, Option, some, ◌⊎◌, inl, inr, Bool-cases, List,
  sym, ap, ◌↔◌, ◌∙◌, subst,
}
use mik_os.Emu.Machine.{Machine, Outcome, ok, err, panic, new, load_binary}
use mik_os.Emu.Step.{step, run_loop, run}
use mik_os.Emu.Step.Widths.{IsMachine}
use mik_os.Emu.Step.Invariant.{StepKeeps, step-StepKeeps}

module _ {O : Type 0} (write_all : O → ℕ → Option O) where
  Outcome-cases {ℓ} :
      {A : Type ℓ} (r : Outcome A)
      → ((a : A) × (r ≡ ok a)) ⊎ ((r ≡ panic) ⊎ ((e : _) × (r ≡ err e)))
  Outcome-cases (ok a) = inl (a, refl)
  Outcome-cases panic = inr (inl refl)
  Outcome-cases (err e) = inr (inr (e, refl))

  -- `n` steps, none of them from a halted machine, lead to `m'` and the output `out'`.
  pub data Reaches (m' : Machine) (out' : O) : ℕ → Machine → O → Type 0 where
    here : Reaches m' out' 0 m' out'
    next :
        {n : ℕ} {m m1 : Machine} {out out1 : O}
        → m.halted ≡ false
        → step write_all m out ≡ ok (m1, out1)
        → Reaches m' out' n m1 out1
        → Reaches m' out' (suc n) m out

  step-IsMachine :
      (m m1 : Machine) (out out1 : O)
      → IsMachine m
      → step write_all m out ≡ ok (m1, out1)
      → IsMachine m1
  step-IsMachine m m1 out out1 h e =
      subst (StepKeeps write_all) e (step-StepKeeps write_all m out h)

  -- Every machine that steps lead to from one whose registers, pc, counters and bytes have their
  -- widths and whose `x0` is zero is such a machine again.
  pub Reaches-IsMachine :
      {m' : Machine} {out' : O} {n : ℕ} {m : Machine} {out : O}
      → Reaches m' out' n m out
      → IsMachine m
      → IsMachine m'
  Reaches-IsMachine here h = h
  Reaches-IsMachine (next {m = m} {m1 = m1} {out = out} {out1 = out1} live e r) h =
      Reaches-IsMachine r (step-IsMachine m m1 out out1 h e)

  abbrev pub Halts : ℕ → Machine → O → ℕ × O → Type 0
  Halts fuel m out (code, out') =
      (n : ℕ) × (m' : Machine) × (n < fuel)
      × Reaches m' out' n m out
      × (m'.halted ≡ true)
      × (m'.exit_code ≡ code)

  run_loop_halted :
      (fuel : ℕ) (m : Machine) (out : O)
      → m.halted ≡ true
      → run_loop write_all (suc fuel) m out ≡ some (ok (m.exit_code, out))
  unfolding run_loop
  run_loop_halted fuel m out h = ground arith

  run_loop_next :
      (fuel : ℕ) (m m1 : Machine) (out out1 : O)
      → m.halted ≡ false
      → step write_all m out ≡ ok (m1, out1)
      → run_loop write_all (suc fuel) m out ≡ run_loop write_all fuel m1 out1
  unfolding run_loop
  run_loop_next fuel m m1 out out1 l s = ground arith

  run_loop_stop :
      (fuel : ℕ) (m : Machine) (out : O) (r : ℕ × O)
      → m.halted ≡ false
      → run_loop write_all (suc fuel) m out ≡ some (ok r)
      → (m1 : Machine) × (out1 : O) × (step write_all m out ≡ ok (m1, out1))
  unfolding run_loop
  run_loop_stop fuel m out r l e = elim (Outcome-cases (step write_all m out)) [
    | inl ((m1, out1), s) ↦ (m1, out1, s)
    | inr (inl s) ↦ absurd (ground arith)
    | inr (inr (x, s)) ↦ absurd (ground arith)
  ]

  run_loop-Halts :
      (fuel : ℕ) (m : Machine) (out : O) (code : ℕ) (out' : O)
      → run_loop write_all fuel m out ≡ some (ok (code, out'))
      → Halts fuel m out (code, out')
  run_loop-Halts zero m out code out' e = unfold run_loop in cc
  run_loop-Halts (suc fuel) m out code out' e = elim (Bool-cases m.halted) [
    | inl h ↦
        let same = sym (run_loop_halted fuel m out h) ∙ e in
        let here' : Reaches m out' 0 m out =
          subst (λ o. Reaches m o 0 m out) (let q : out ≡ out' = cc in q) here in
        (0, m, omega arith, here', h, cc)
    | inr l ↦
        let (m1, out1, s) = run_loop_stop fuel m out (code, out') l e in
        let (n, m', lt, r, h, c) =
          run_loop-Halts fuel m1 out1 code out' (sym (run_loop_next fuel m m1 out out1 l s) ∙ e) in
        (suc n, m', omega arith, next l s r, h, c)
  ]

  Reaches-run_loop :
      (fuel : ℕ) {m' : Machine} {out' : O} {n : ℕ} {m : Machine} {out : O}
      → Reaches m' out' n m out
      → m'.halted ≡ true
      → n < fuel
      → run_loop write_all fuel m out ≡ some (ok (m'.exit_code, out'))
  Reaches-run_loop zero r h lt = absurd (omega arith)
  Reaches-run_loop (suc fuel) here h lt = run_loop_halted fuel _ _ h
  Reaches-run_loop (suc fuel) (next l s r) h lt =
      run_loop_next fuel _ _ _ _ l s ∙ Reaches-run_loop fuel r h (omega arith)

  -- `run` on a binary with some fuel returns an exit code exactly when fewer steps than
  -- the fuel lead from the loaded machine to a halted one with that code and output.
  pub run-Halts :
      (fuel : ℕ) (binary : List ℕ) (out : O) (code : ℕ) (out' : O)
      → (run write_all fuel binary out ≡ some (ok (code, out')))
        ↔ Halts fuel (load_binary new binary) out (code, out')
  unfolding run
  run-Halts fuel binary out code out' = (
    run_loop-Halts fuel _ out code out',
    λ (n, m', lt, r, h, c). Reaches-run_loop fuel r h lt ∙ ap (λ x. some (ok (x, out'))) c,
  )
