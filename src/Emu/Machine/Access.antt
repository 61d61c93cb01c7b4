-- ===== src/Emu/Machine/Access.antt =====
-- Reads after writes of physical memory.
use mik_os.Common.{
  ℕ, ◌+◌, ◌^◌, ◌≤◌, ◌<◌, ◌≡◌, ◌⊎◌, arith, load64, store64, load64-store64, load64-store64_apart,
}
use mik_os.Emu.Machine.{
  Machine, ok, err, panic, read64_out_of_bounds, write64_out_of_bounds, read64, write64, ram_size,
}

-- The outcomes of a 64-bit access, each with the addresses that lead to it: a panic in the last
-- eight bytes of the address space, an error elsewhere beyond the memory, success inside; a
-- write and a read take the same one.
pub access64_outcomes :
    (m : Machine) (addr v : ℕ)
    → (2 ^ 64 ≤ addr + 8 → (read64 m addr ≡ panic) × (write64 m addr v ≡ panic))
      × (ram_size < addr + 8
          → addr + 8 < 2 ^ 64
          → (read64 m addr ≡ err (read64_out_of_bounds addr))
            × (write64 m addr v ≡ err (write64_out_of_bounds addr)))
      × (addr + 8 ≤ ram_size
          → (read64 m addr ≡ ok (load64 m.mem addr))
            × (write64 m addr v ≡ ok (record m { mem = store64 m.mem addr v })))
unfolding read64 write64
access64_outcomes m addr v = ground arith

-- Inside the memory a 64-bit write succeeds, is read back by a 64-bit read at its address, and
-- leaves every 64-bit read that does not meet its eight bytes as it was.
pub read64-write64 :
    (m : Machine) (addr v : ℕ)
    → addr + 8 ≤ ram_size
    → v < 2 ^ 64
    → (m' : Machine) × (write64 m addr v ≡ ok m')
      × (read64 m' addr ≡ ok v)
      × ((b : ℕ) → (b + 8 ≤ addr) ⊎ (addr + 8 ≤ b) → read64 m' b ≡ read64 m b)
unfolding read64 write64
read64-write64 m addr v fits h = (
  record m { mem = store64 m.mem addr v },
  ground arith,
  ground (arith, load64-store64 m.mem addr v),
  λ b apart. ground (arith, load64-store64_apart m.mem addr b v),
)
