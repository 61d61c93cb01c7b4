-- ===== src/Kernel/Idt.antt =====
-- The interrupt descriptor table, mik-os-x86/kernel/src/idt.rs. The stubs of isr.S are a parameter: their
-- addresses.
use mik_os.Common.{
  ℕ, zero, suc, ◌+◌, ◌*◌, ◌/◌, ◌%◌, ◌^◌, ◌<◌, ◌≡◌, refl, sym, subst, arith, ◌==◌, ltb,
  if◌then◌else◌, Bool, true, false, Option, none, some, update, Bool-cases, inl, inr,
}

pub record IdtEntry : Type 0 where
  pub offset_lo : ℕ
  pub selector : ℕ
  pub ist : ℕ
  pub flags : ℕ
  pub offset_mid : ℕ
  pub offset_hi : ℕ
  pub reserved : ℕ

-- `IdtEntry::new`
unfoldable pub new : ℕ → ℕ → IdtEntry
new handler flags = record {
  offset_lo = handler % 2 ^ 16;
  selector = 0x08;
  ist = 0;
  flags = flags;
  offset_mid = handler / 2 ^ 16 % 2 ^ 16;
  offset_hi = handler / 2 ^ 32 % 2 ^ 32;
  reserved = 0;
}

pub record Stubs : Type 0 where
  pub isr_table : ℕ → ℕ
  pub isr_timer : ℕ
  pub isr_kbd : ℕ
  pub isr_uart : ℕ
  pub isr_syscall : ℕ

abbrev pub gate_int : ℕ
gate_int = 0x8E

abbrev pub gate_int_user : ℕ
gate_int_user = 0xEE

abbrev pub timer_vec : ℕ
timer_vec = 32

abbrev pub kbd_vec : ℕ
kbd_vec = 33

abbrev pub uart_vec : ℕ
uart_vec = 36

abbrev pub syscall_vec : ℕ
syscall_vec = 0x80

abbrev pub Idt : Type 0
Idt = ℕ → IdtEntry

-- The static `IDT` at the start.
abbrev pub empty_idt : Idt
empty_idt v = new 0 0

-- The loop over the first entries.
unfoldable pub fill : ℕ → (ℕ → ℕ) → Idt → Idt
fill zero isr_table idt = idt
fill (suc n) isr_table idt = update (fill n isr_table idt) n (new (isr_table n) gate_int)

unfoldable pub init : Stubs → Idt
init stubs =
    let idt = fill 32 stubs.isr_table empty_idt in
    let idt1 = update idt timer_vec (new stubs.isr_timer gate_int) in
    let idt2 = update idt1 kbd_vec (new stubs.isr_kbd gate_int) in
    let idt3 = update idt2 uart_vec (new stubs.isr_uart gate_int) in
    update idt3 syscall_vec (new stubs.isr_syscall gate_int_user)

-- How the CPU reads a gate: whether it is present, the lowest privilege that may raise it with `int`,
-- and where it goes.
abbrev pub gate_present : IdtEntry → Bool
gate_present e = e.flags / 128 == 1

abbrev pub gate_dpl : IdtEntry → ℕ
gate_dpl e = e.flags / 32 % 4

abbrev pub gate_offset : IdtEntry → ℕ
gate_offset e = e.offset_lo + 2 ^ 16 * e.offset_mid + 2 ^ 32 * e.offset_hi

-- The handler of each vector, and the privilege that may raise it.
abbrev pub handler_of : Stubs → ℕ → Option (ℕ × ℕ)
handler_of stubs v =
    if ltb v 32
    then some (stubs.isr_table v, 0)
    else if v == timer_vec
    then some (stubs.isr_timer, 0)
    else if v == kbd_vec
    then some (stubs.isr_kbd, 0)
    else if v == uart_vec
    then some (stubs.isr_uart, 0)
    else if v == syscall_vec
    then some (stubs.isr_syscall, 3)
    else none

pub record Are64 (stubs : Stubs) : Type 0 where
  pub table : (v : ℕ) → stubs.isr_table v < 2 ^ 64
  pub timer : stubs.isr_timer < 2 ^ 64
  pub kbd : stubs.isr_kbd < 2 ^ 64
  pub uart : stubs.isr_uart < 2 ^ 64
  pub syscall : stubs.isr_syscall < 2 ^ 64

new-gate_offset : (h flags : ℕ) → h < 2 ^ 64 → gate_offset (new h flags) ≡ h
unfolding new
new-gate_offset h flags lt = omega (arith, lt)

-- A gate says what `handler_of` says.
pub Says : IdtEntry → Option (ℕ × ℕ) → Type 0
Says e none = gate_present e ≡ false
Says e (some (handler, dpl)) =
    (gate_present e ≡ true) × (gate_offset e ≡ handler) × (gate_dpl e ≡ dpl)

fill-at :
    (n v : ℕ) (isr_table : ℕ → ℕ) (idt : Idt)
    → fill n isr_table idt v ≡ (if ltb v n then new (isr_table v) gate_int else idt v)
unfolding fill
fill-at zero v t idt = ground arith
fill-at (suc n) v t idt = ground (arith, fill-at n v t idt)

init-at :
    (stubs : Stubs) (v : ℕ)
    → init stubs v ≡ (
        if v == syscall_vec
        then new stubs.isr_syscall gate_int_user
        else if v == uart_vec
        then new stubs.isr_uart gate_int
        else if v == kbd_vec
        then new stubs.isr_kbd gate_int
        else if v == timer_vec
        then new stubs.isr_timer gate_int
        else if ltb v 32
        then new (stubs.isr_table v) gate_int
        else new 0 0)
unfolding init
init-at stubs v = rw (fill-at 32 v stubs.isr_table empty_idt) refl

new-Says :
    (h : ℕ)
    → h < 2 ^ 64
    → Says (new h gate_int) (some (h, 0)) × Says (new h gate_int_user) (some (h, 3))
unfolding new Says
new-Says h lt =
    ((refl, new-gate_offset h gate_int lt, refl), (refl, new-gate_offset h gate_int_user lt, refl))

Says-empty : Says (new 0 0) none
unfolding new Says
Says-empty = refl

-- With stubs at 64-bit addresses: every vector that has a handler has a present gate that leads to it, of
-- privilege 3 for the system call and 0 for all others, and no other vector has one.
pub init-handler_of :
    (stubs : Stubs) (v : ℕ) → Are64 stubs → Says (init stubs v) (handler_of stubs v)
init-handler_of stubs v h =
    subst (λ e. Says e (handler_of stubs v)) (sym (init-at stubs v))
      (elim (Bool-cases (v == syscall_vec)) [
        | inl c4 ↦
            (let low : ltb v 32 ≡ false = ground (arith, c4) in
              let c1 : (v == timer_vec) ≡ false = ground (arith, c4) in
              let c2 : (v == kbd_vec) ≡ false = ground (arith, c4) in
              let c3 : (v == uart_vec) ≡ false = ground (arith, c4) in
              rw (low, c1, c2, c3, c4) ((new-Says stubs.isr_syscall h.syscall).1))
        | inr n4 ↦ elim (Bool-cases (v == uart_vec)) [
          | inl c3 ↦
              (let low : ltb v 32 ≡ false = ground (arith, c3) in
                let c1 : (v == timer_vec) ≡ false = ground (arith, c3) in
                let c2 : (v == kbd_vec) ≡ false = ground (arith, c3) in
                rw (low, c1, c2, c3, n4) ((new-Says stubs.isr_uart h.uart).0))
          | inr n3 ↦ elim (Bool-cases (v == kbd_vec)) [
            | inl c2 ↦
                (let low : ltb v 32 ≡ false = ground (arith, c2) in
                  let c1 : (v == timer_vec) ≡ false = ground (arith, c2) in
                  rw (low, c1, c2, n3, n4) ((new-Says stubs.isr_kbd h.kbd).0))
            | inr n2 ↦ elim (Bool-cases (v == timer_vec)) [
              | inl c1 ↦
                  (let low : ltb v 32 ≡ false = ground (arith, c1) in
                    rw (low, c1, n2, n3, n4) ((new-Says stubs.isr_timer h.timer).0))
              | inr n1 ↦ elim (Bool-cases (ltb v 32)) [
                | inl low ↦ rw (low, n1, n2, n3, n4) ((new-Says (stubs.isr_table v) (h.table v)).0)
                | inr high ↦ rw (high, n1, n2, n3, n4) Says-empty
              ]
            ]
          ]
        ]
      ])
