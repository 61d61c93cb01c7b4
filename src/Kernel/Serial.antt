-- ===== src/Kernel/Serial.antt =====
-- Number output of mik-os-x86/kernel/src/serial.rs. What goes to COM1 is the list of its bytes.
pub mod Digits
use mik_os.Kernel.Ports.{Ports}
use mik_os.Common.{
  ℕ, zero, suc, ◌+◌, ◌-◌, ◌*◌, ◌/◌, ◌%◌, ◌^◌, bit_or, ◌==◌, ltb, if◌then◌else◌, Bool, true, false,
  List, [], ◌∷◌, ◌++◌,
}

-- `write_hexn(v, digits)`: the loop over `(0..digits).rev()`.
unfoldable pub write_hexn : ℕ → ℕ → List ℕ
write_hexn v zero = []
write_hexn v (suc i) =
    let nibble = v / 2 ^ (i * 4) % 16 in
    (if ltb nibble 10 then b'0' + nibble else b'A' + nibble - 10) ∷ write_hexn v i

unfoldable pub write_hex : ℕ → List ℕ
write_hex v = b'0' ∷ b'x' ∷ write_hexn v 16

-- The loop of `write_dec` with `i` free bytes left in `buf`, and the digits from there on. It runs
-- until the number is 0; the array index below 0 would panic.
unfoldable pub write_digits : ℕ → ℕ → List ℕ → List ℕ
write_digits zero v done = done
write_digits (suc i) v done = elim (v / 10 == 0) [
  | true ↦ (b'0' + v % 10) ∷ done
  | false ↦ write_digits i (v / 10) ((b'0' + v % 10) ∷ done)
]

unfoldable pub write_dec : ℕ → List ℕ
write_dec v = write_digits 20 v []

abbrev pub com1 : ℕ
com1 = 0x3F8

-- The receiver's interrupt and the FIFOs.
unfoldable pub enable_rx_irq : (p : Ports) → p.State → p.State
enable_rx_irq p s =
    let s1 = p.outb s (com1 + 2) 0x01 in
    let ier = p.inb s1 (com1 + 1) in p.outb ier.1 (com1 + 1) (bit_or ier.0 0x01)
