-- ===== src/Kernel/Input.antt =====
-- The input ring of mik-os-x86/kernel/src/input.rs: the statics `BUF`, `HEAD` and `LEN` as a record.
pub mod Queue
use mik_os.Common.{
  ℕ, ◌+◌, ◌-◌, ◌%◌, ◌==◌, ltb, if◌then◌else◌, Option, none, some, List, get_or, set,
}

abbrev pub cap : ℕ
cap = 64

pub record Ring : Type 0 where
  pub buf : List ℕ
  pub head : ℕ
  pub len : ℕ

unfoldable pub push : Ring → ℕ → Ring
push r b =
    if ltb r.len cap
    then record r { buf = set r.buf ((r.head + r.len) % cap) b; len = r.len + 1 }
    else r

unfoldable pub pop : Ring → Option ℕ × Ring
pop r =
    if r.len == 0
    then (none, r)
    else (some (get_or r.buf r.head 0), record r { head = (r.head + 1) % cap; len = r.len - 1 })
