-- ===== src/Kernel/Pci.antt =====
pub mod Listing
-- The enumeration of PCI functions, mik-os-x86/kernel/src/pci.rs. What it prints is the list of the bytes.
use mik_os.Common.{
  ℕ, zero, suc, ◌+◌, ◌*◌, ◌/◌, ◌%◌, ◌^◌, bit_and, bit_or, ◌==◌, if◌then◌else◌, Bool, true, false,
  not, List, [], ◌∷◌, ◌++◌,
}
use mik_os.Kernel.Ports.{Ports}
use mik_os.Kernel.Serial.{write_hexn}

abbrev pub addr_port : ℕ
addr_port = 0xCF8

abbrev pub data_port : ℕ
data_port = 0xCFC

unfoldable pub cfg_addr : ℕ → ℕ → ℕ → ℕ → ℕ
cfg_addr bus dev func reg =
    bit_or (bit_or (bit_or (bit_or 0x80000000 (bus * 2 ^ 16)) (dev * 2 ^ 11)) (func * 2 ^ 8))
      (reg * 2 ^ 2)

-- The line of a function, from its first and third config words.
unfoldable pub line : ℕ → ℕ → ℕ → ℕ → ℕ → List ℕ
line bus dev func id class =
    32
    ∷ 32
    ∷ b'p'
    ∷ b'c'
    ∷ b'i'
    ∷ 32
    ∷ (write_hexn bus 2
        ++ b'.'
          ∷ (write_hexn dev 2
              ++ b'.'
                ∷ (write_hexn func 2
                    ++ 32
                      ∷ (write_hexn (id % 2 ^ 16) 4
                          ++ b':'
                            ∷ (write_hexn (id / 2 ^ 16) 4
                                ++ 32
                                  ∷ b'c'
                                  ∷ b'l'
                                  ∷ b'a'
                                  ∷ b's'
                                  ∷ b's'
                                  ∷ 32
                                  ∷ (write_hexn (class / 2 ^ 16) 4 ++ 10 ∷ []))))))

abbrev pub title : List ℕ
title = b'p' ∷ b'c' ∷ b'i' ∷ 32 ∷ b's' ∷ b'c' ∷ b'a' ∷ b'n' ∷ b':' ∷ 10 ∷ []

-- `for i in from..from + n`, over what is printed and the ports.
unfoldable pub for_each : {S : Type 0} → ℕ → ℕ → (ℕ → S → List ℕ × S) → S → List ℕ × S
for_each zero from body s = ([], s)
for_each (suc n) from body s =
    let one = body from s in
    let rest = for_each n (from + 1) body one.1 in (one.0 ++ rest.0, rest.1)

module _ (p : Ports) where
  open p use {State, inl, outl}

  unfoldable pub cfg_read : ℕ → ℕ → ℕ → ℕ → State → ℕ × State
  cfg_read bus dev func reg s = inl (outl s addr_port (cfg_addr bus dev func reg)) data_port

  -- The body of the innermost loop.
  unfoldable pub scan_func : ℕ → ℕ → ℕ → State → List ℕ × State
  scan_func bus dev func s =
      let id = cfg_read bus dev func 0 s in
      if id.0 % 2 ^ 16 == 0xFFFF
      then ([], id.1)
      else let class = cfg_read bus dev func 2 id.1 in (line bus dev func id.0 class.0, class.1)

  unfoldable pub scan_dev : ℕ → ℕ → State → List ℕ × State
  scan_dev bus dev s =
      let id = cfg_read bus dev 0 0 s in
      if id.0 % 2 ^ 16 == 0xFFFF
      then ([], id.1)
      else let header = cfg_read bus dev 0 3 id.1 in
        for_each (if not (bit_and header.0 0x00800000 == 0) then 8 else 1) 0 (scan_func bus dev)
          header.1

  unfoldable pub scan : State → List ℕ × State
  scan s =
      let all = for_each 256 0 (λ bus. for_each 32 0 (scan_dev bus)) s in (title ++ all.0, all.1)
