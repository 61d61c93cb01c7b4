-- ===== src/Emu/Tests.antt =====
-- The theorems on the emulator at concrete machines.
use mik_os.Common.{
  ◌+◌, ◌==◌, if◌then◌else◌, ℕ, ◌-◌, ◌^◌, ◌≡◌, ◌≢◌, ◌↔◌, refl, inr, arith, true, false, Option, some,
  update, IsBytes, List, [], ◌∷◌, ◌++◌, load64, store64,
}
use mik_os.Emu.Word.{Op, Fields, encode, decode, sext44, op_of}
use mik_os.Emu.Word.RoundTrip.{decode-encode}
use mik_os.Emu.Machine.{Machine, Outcome, ok, panic, new, load_binary, flush_tlb, csr_pmode, read64}
use mik_os.Emu.Translate.{
  load, store, fetch, Reply, mapped, fault, translate, walk, leaf, touch, touched, physical,
  permission_fault, hit, read_pte, pte_address,
}
use mik_os.Emu.Translate.Coherence.{
  IsCoherent, seen, flush_tlb-IsCoherent, translate-flush_tlb, Translates, translate-Translates,
}
use mik_os.Emu.Translate.Protection.{Allows, Explains, translate-Allows, translate_fault}
use mik_os.Emu.Step.{Flow, falls_through, execute, step, run, tick, dispatch, fetched, finish}
use mik_os.Emu.Step.Widths.{IsMachine}
use mik_os.Emu.Step.Invariant.{StepKeeps, step-StepKeeps}
use mik_os.Emu.Step.Run.{Reaches, here, next, Reaches-IsMachine, Halts, run-Halts}
use mik_os.Emu.Step.Traps.{trap-eret}

new_enabled : new.int_enabled ≡ true
unfolding new
new_enabled = refl

running : new.halted ≡ false
unfolding new
running = refl

abbrev console : List ℕ → ℕ → Option (List ℕ)
console out b = some (out ++ b ∷ [])

new-IsMachine : IsMachine new
unfolding new
new-IsMachine = record {
  fits = record {
    regs_fit = λ r. ground arith;
    csrs_fit = λ c. omega arith;
    pc_fits = omega arith;
    epc_fits = omega arith;
    counter_fits = omega arith;
    interval_fits = omega arith;
    bytes = λ a. omega arith;
  };
  x0_zero = ground arith;
}

-- The page table at 0x1000 is its own leaf table: its first entry is present, writable and for user
-- mode.
abbrev paged : Machine
paged = flush_tlb (record new {
  mem = λ a. if a == 0x1000 then 0x07 else if a == 0x1001 then 0x10 else 0;
  csrs = λ c. if c == 0 then 0x1000 else if c == 1 then 1 else 0;
})

paged-IsCoherent : IsCoherent paged
paged-IsCoherent = flush_tlb-IsCoherent _

abbrev machine_of : Outcome (Reply × Machine) → Machine
machine_of (ok (r, m)) = m
machine_of _ = new

paged-IsBytes : IsBytes paged.mem
unfolding flush_tlb new
paged-IsBytes a = ground arith

paging : paged.csrs csr_pmode ≢ 0
unfolding flush_tlb new
paging h = ground (arith, h)

paged_answer :
    translate paged 0x10 store ≡ ok (mapped 0x1010, machine_of (translate paged 0x10 store))
unfolding translate flush_tlb new walk leaf touch touched physical permission_fault hit load64
    store64 read_pte pte_address
paged_answer = refl

paged_fault : translate paged (2 ^ 48) fetch ≡ ok (fault (record { code = 4; va = 2 ^ 48 }), paged)
unfolding translate flush_tlb new
paged_fault = refl

abbrev stepped : Outcome (Machine × List ℕ) → Machine
stepped (ok (m, out)) = m
stepped _ = new

-- Zero memory holds HALT.
abbrev after_halt : Machine
after_halt = stepped (step console new [])

halts : Reaches console after_halt [] 1 new []
unfolding step translate new dispatch decode sext44 op_of execute fetched finish tick load64
halts = next refl refl here

decode-encode_example :
    decode (encode 0x0d 0 0 0 (2 ^ 64 - 8))
    ≡ record { opcode = 0x0d; rd = 0; rs1 = 0; rs2 = 0; imm = 2 ^ 64 - 8 }
decode-encode_example =
    decode-encode 0x0d 0 0 0 (2 ^ 64 - 8) (omega arith) (omega arith) (omega arith) (omega arith)
      (inr (omega arith, omega arith))

translate-flush_tlb_example :
    seen (translate paged 0x10 load) ≡ seen (translate (flush_tlb paged) 0x10 load)
translate-flush_tlb_example = translate-flush_tlb paged 0x10 load paged-IsCoherent

translate-Translates_example : Translates paged (translate paged 0x10 store)
translate-Translates_example = translate-Translates paged 0x10 store paged-IsBytes paged-IsCoherent

translate-Allows_example : Allows paged 0x10 store 0x1010
translate-Allows_example =
    translate-Allows paged (machine_of (translate paged 0x10 store)) 0x10 store 0x1010 paging
      paged-IsCoherent paged_answer

translate_fault_example : (paged ≡ paged) × ((2 ^ 48) ≡ 2 ^ 48) × Explains paged (2 ^ 48) fetch 4
translate_fault_example =
    translate_fault paged paged (2 ^ 48) fetch (record { code = 4; va = 2 ^ 48 }) paged_fault

step-StepKeeps_example : StepKeeps console (step console new [])
step-StepKeeps_example = step-StepKeeps console new [] new-IsMachine

Reaches-IsMachine_example : IsMachine after_halt
Reaches-IsMachine_example = Reaches-IsMachine console halts new-IsMachine

run-Halts_example :
    (run console 2 [] [] ≡ some (ok (0, []))) ↔ Halts console 2 (load_binary new []) [] (0, [])
run-Halts_example = run-Halts console 2 [] [] 0 []

abbrev interrupted : Machine
interrupted = record new { pending_interrupt = true }

abbrev trap_3 : Fields
trap_3 = record { opcode = 0x0e; rd = 0; rs1 = 0; rs2 = 0; imm = 3 }

abbrev flowed : Outcome (Flow (List ℕ)) → Machine
flowed (ok (falls_through m out)) = m
flowed _ = new

abbrev trapped : Machine
trapped = flowed (execute console Op.trap new [] 0 trap_3)

trap_3_runs : execute console Op.trap new [] 0 trap_3 ≡ ok (falls_through trapped [])
unfolding execute new read64 load64
trap_3_runs = refl

trap-eret_example :
    (◌≡◌ {A = List ℕ} [] [])
    × (trapped.user_mode ≡ false)
    × (trapped.int_enabled ≡ false)
    × (trapped.pc ≡ load64 new.mem 0x2000)
    × (trapped.regs ≡ update new.regs 10 3)
    × ((h r : Machine) (o o' : List ℕ) (b : ℕ) (j : Fields)
        → h.epc ≡ trapped.epc
        → h.previous_user_mode ≡ trapped.previous_user_mode
        → execute console Op.eret h o b j ≡ ok (falls_through r o')
        → (r.pc ≡ new.pc)
          × (r.user_mode ≡ new.user_mode)
          × (r.int_enabled ≡ true)
          × (r.regs ≡ h.regs)
          × (r.mem ≡ h.mem))
trap-eret_example = trap-eret console new trapped [] [] 0 trap_3 trap_3_runs

abbrev high : Machine
high = record new { regs = λ _. 2 ^ 64 - 4 }

-- A LOAD64 in the last eight bytes of the address space panics.
high_load_panics :
    execute console Op.load64 high [] 0 (record { opcode = 8; rd = 1; rs1 = 2; rs2 = 0; imm = 0 })
    ≡ panic
unfolding execute translate read64 new
high_load_panics = refl

-- A store of x2 at x1 + 8, and a load from there.
abbrev stored : Machine
stored = record new { regs = λ r. if r == 1 then 0x1000 else if r == 2 then 2 ^ 63 + 5 else 0 }

abbrev timed : Machine
timed = record new { timer_interval = 5; timer_counter = 3 }
