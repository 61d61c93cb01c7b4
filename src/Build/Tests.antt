-- ===== src/Build/Tests.antt =====
-- The builder's theorems at concrete programs, and the kernels that it builds.
use mik_os.Common.{
  ℕ, ◌+◌, ◌-◌, ◌*◌, ◌^◌, ◌≤◌, ◌<◌, ◌≡◌, refl, ◌⊎◌, arith, Bool, true, false, Option, none, some,
  List, [], ◌∷◌, ◌++◌, length, get_or,
}
use mik_os.Emu.Word.{encode}
use mik_os.Build.{
  Asm, new, Call, label, emit, jmp_to, beq_to, li_to, call, calls, resolve_all, resolve, word_bytes,
  finalize,
}
use mik_os.Build.Layout.{cur_slot}
use mik_os.Build.Processes.{sched, fork_slot}
use mik_os.Build.Resolve.{AllFixed}
use mik_os.Build.Programs.{AllDefined, resolve-AllFixed}
use mik_os.Build.Kernels.{
  build_common, kernel_binary, kernel_pagefault, kernel_freelist, kernel_user_mode, kernel_timer,
  kernel_os,
}
use mik_os.Build.Images.{IsKernel, kernel_os-IsKernel}

-- A loop that ends when x2 is 0, with a forward and a backward branch and an address.
abbrev countdown : List Call
countdown =
    li_to 15 "done"
    ∷ label "loop"
    ∷ emit (encode 0x03 2 2 0 (2 ^ 64 - 1))
    ∷ beq_to 2 0 "done"
    ∷ jmp_to "loop"
    ∷ label "done"
    ∷ emit (encode 0 0 0 0 0)
    ∷ []

countdown_fits : 0x400000 + length (calls new countdown).code * 8 < 2 ^ 43
unfolding calls call
countdown_fits = omega arith

countdown-AllDefined : AllDefined (calls new countdown).labels (calls new countdown).unresolved
unfolding calls call
countdown-AllDefined = ((4, refl), ((4, refl), ((1, refl), tt)))

resolve-AllFixed_example :
    (a : Asm) × (resolve (calls new countdown) 0x400000 ≡ some a)
    × AllFixed 0x400000
        (calls new countdown).labels
        (calls new countdown).code
        a.code
        (calls new countdown).unresolved
resolve-AllFixed_example = resolve-AllFixed countdown 0x400000 countdown_fits countdown-AllDefined

abbrev init : List ℕ
init = 1 ∷ []

abbrev prog1 : List ℕ
prog1 = 2 ∷ 3 ∷ []

kernel_os-IsKernel_example :
    ((length init ≤ 0x1000)
      × (length prog1 ≤ 0x1000)
      × (words : List ℕ) × (kernel_os init prog1 ≡ some (word_bytes words ++ (1 ∷ 2 ∷ 3 ∷ [])))
      × IsKernel words init prog1)
    ⊎ (((0x1000 < length init) ⊎ (0x1000 < length prog1)) × (kernel_os init prog1 ≡ none))
kernel_os-IsKernel_example = kernel_os-IsKernel init prog1

-- Each of the kernels defines its labels.
abbrev built : Option (List ℕ) → Bool
built none = false
built (some bin) = true

kernels_build :
    (built kernel_binary ≡ true)
    × (built kernel_pagefault ≡ true)
    × (built kernel_freelist ≡ true)
    × (built kernel_user_mode ≡ true)
    × (built kernel_timer ≡ true)
unfolding kernel_binary kernel_pagefault kernel_freelist kernel_user_mode kernel_timer build_common
    calls call finalize resolve resolve_all
kernels_build = (refl, refl, refl, refl, refl)

-- The first words of the scheduler, the last register that it saves and the last that it restores.
sched_words :
    (get_or (calls new sched).code 0 0 ≡ encode 0x08 15 0 0 cur_slot)
    × (get_or (calls new sched).code 1 0 ≡ encode 0x0a 0 15 1 0)
    × (get_or (calls new sched).code 5 0 ≡ encode 0x0a 0 15 5 32)
    × (get_or (calls new sched).code 14 0 ≡ encode 0x0a 0 15 14 104)
    × (get_or (calls new sched).code 45 0 ≡ encode 0x08 14 15 0 104)
unfolding calls call
sched_words = (refl, refl, refl, refl, refl)

fork_words : get_or (calls new fork_slot).code 20 0 ≡ encode 0x0a 0 15 14 104
unfolding calls call
fork_words = refl
