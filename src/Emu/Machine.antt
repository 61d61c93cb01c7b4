-- ===== src/Emu/Machine.antt =====
pub mod Access
-- The state of a Mik-64 machine (`Machine` and `TlbEntry` of mik-emu/src/lib.rs), its constants,
-- and the accesses to physical memory. Arrays are functions of the index.
use mik_os.Common.{
  ℕ, ◌+◌, ◌-◌, ◌*◌, ◌%◌, ◌^◌, min, ◌==◌, ltb, leb, if◌then◌else◌, Bool, true, false, Option, none,
  some, List, length, take, Memory, update, load64, store64, copy_into,
}

abbrev pub ram_size : ℕ
ram_size = 128 * 1024 * 1024

abbrev pub load_addr : ℕ
load_addr = 0x400000

abbrev pub serial_data : ℕ
serial_data = 0x1000

abbrev pub serial_status : ℕ
serial_status = 0x1001

-- `Result<_, String>`, each message as a constructor. A panic (an index out of range, or an
-- addition that overflows) is an outcome of its own.
pub data Error : Type 0 where
  read8_out_of_bounds read64_out_of_bounds write8_out_of_bounds write64_out_of_bounds : ℕ → Error
  pc_out_of_bounds pc_misaligned illegal_opcode : ℕ → Error
  output_failed : Error

pub data Outcome {ℓ} (A : Type ℓ) : Type ℓ where
  ok : A → Outcome A
  err : Error → Outcome A
  panic : Outcome A

infixl 5 ◌>>=◌
abbrev pub ◌>>=◌ {ℓ κ} : {A : Type ℓ} {B : Type κ} → Outcome A → (A → Outcome B) → Outcome B
ok a >>= f = f a
err e >>= f = err e
panic >>= f = panic

pub record TlbEntry : Type 0 where
  pub valid : Bool
  pub vpn : ℕ
  pub ppn : ℕ
  pub pte_addr : ℕ
  pub writable : Bool
  pub nx : Bool
  pub user : Bool

-- `TlbEntry::empty`
abbrev pub empty_entry : TlbEntry
empty_entry = record {
  valid = false;
  vpn = 0;
  ppn = 0;
  pte_addr = 0;
  writable = false;
  nx = false;
  user = false;
}

pub record Machine : Type 0 where
  pub regs : ℕ → ℕ
  pub pc : ℕ
  pub epc : ℕ
  pub csrs : ℕ → ℕ
  pub tlb : ℕ → TlbEntry
  pub mem : Memory
  pub halted : Bool
  pub exit_code : ℕ
  pub user_mode : Bool
  pub previous_user_mode : Bool
  pub timer_interval : ℕ
  pub timer_counter : ℕ
  pub pending_interrupt : Bool
  pub int_enabled : Bool

abbrev pub csr_ptbr : ℕ
csr_ptbr = 0

abbrev pub csr_pmode : ℕ
csr_pmode = 1

abbrev pub csr_timer : ℕ
csr_timer = 2

abbrev pub csr_epc : ℕ
csr_epc = 3

-- `Machine::new`
unfoldable pub new : Machine
new = record {
  regs = update (λ _. 0) 15 ram_size;
  pc = load_addr;
  epc = 0;
  csrs = λ _. 0;
  tlb = λ _. empty_entry;
  mem = λ _. 0;
  halted = false;
  exit_code = 0;
  user_mode = false;
  previous_user_mode = false;
  timer_interval = 0;
  timer_counter = 0;
  pending_interrupt = false;
  int_enabled = true;
}

unfoldable pub load_binary : Machine → List ℕ → Machine
load_binary m bytes =
    let end = min (load_addr + length bytes) ram_size in
    if ltb load_addr end
    then record m { mem = copy_into m.mem load_addr (take (end - load_addr) bytes) }
    else m

unfoldable pub read8 : Machine → ℕ → Outcome ℕ
read8 m addr =
    if addr == serial_data
    then ok 0
    else if addr == serial_status
    then ok 0xff
    else if ltb addr ram_size
    then ok (m.mem addr)
    else err (read8_out_of_bounds addr)

-- `addr + 8` is an overflow from 2 ^ 64 - 8 on. Without overflow checks it wraps to a number below
-- `RAM_SIZE`, and the slice `mem[addr..addr + 8]` panics in its place.
unfoldable pub read64 : Machine → ℕ → Outcome ℕ
read64 m addr =
    if leb (2 ^ 64) (addr + 8)
    then panic
    else if ltb ram_size (addr + 8)
    then err (read64_out_of_bounds addr)
    else ok (load64 m.mem addr)

unfoldable pub write64 : Machine → ℕ → ℕ → Outcome Machine
write64 m addr value =
    if leb (2 ^ 64) (addr + 8)
    then panic
    else if ltb ram_size (addr + 8)
    then err (write64_out_of_bounds addr)
    else ok (record m { mem = store64 m.mem addr value })

-- The output is a parameter: `write_all` takes a byte, and `none` is its I/O error.
module _ {O : Type 0} (write_all : O → ℕ → Option O) where
  unfoldable pub write8 : Machine → O → ℕ → ℕ → Outcome (Machine × O)
  write8 m out addr value =
      if addr == serial_data
      then (elim (write_all out value) [ none ↦ err output_failed | some out' ↦ ok (m, out') ])
      else if addr == serial_status
      then ok (m, out)
      else if ltb addr ram_size
      then ok (record m { mem = update m.mem addr value }, out)
      else err (write8_out_of_bounds addr)

unfoldable pub flush_tlb : Machine → Machine
flush_tlb m = record m { tlb = λ _. empty_entry }

-- `regs[rd] = v`
abbrev pub set_reg : Machine → ℕ → ℕ → Machine
set_reg m rd v = record m { regs = update m.regs rd v }
