-- ===== src/Kernel/Vga.antt =====
-- The text console of mik-os-x86/kernel/src/vga.rs. The video memory at 0xB8000 is the function
-- `cells`, by byte offset; `cursor` is the static `CURSOR`.
pub mod Screen
use mik_os.Common.{
  ℕ, zero, suc, ◌+◌, ◌-◌, ◌*◌, ◌/◌, ◌%◌, ◌==◌, ltb, leb, if◌then◌else◌, Bool, true, false, ◌&&◌,
  Memory, update,
}

abbrev pub cols : ℕ
cols = 80

abbrev pub rows : ℕ
rows = 25

abbrev pub attr : ℕ
attr = 0x07

pub record Console : Type 0 where
  pub cells : Memory
  pub cursor : ℕ

-- `copy(VGA + COLS * 2, VGA, COLS * (ROWS - 1) * 2)`, then the bottom row is blank.
unfoldable pub scroll : Memory → Memory
scroll cells i =
    if ltb i (cols * (rows - 1) * 2)
    then cells (i + cols * 2)
    else if ltb i (cols * rows * 2)
    then (if i % 2 == 0 then b' ' else attr)
    else cells i

-- The `match b`.
unfoldable pub place : Console → ℕ → Console
place c b =
    if b == 10
    then record c { cursor = (c.cursor / cols + 1) * cols }
    else if b == 13
    then record c { cursor = c.cursor / cols * cols }
    else if b == 0x08
    then (if ltb 0 (c.cursor % cols)
        then record c { cells = update c.cells ((c.cursor - 1) * 2) b' '; cursor = c.cursor - 1 }
        else c)
    else if leb 0x20 b && ltb b 0x7f
    then record c {
      cells = update (update c.cells (c.cursor * 2) b) (c.cursor * 2 + 1) attr;
      cursor = c.cursor + 1;
    }
    else c

-- `while *cur >= COLS * ROWS { scroll(); *cur -= COLS; }`, on fuel.
unfoldable pub scroll_down : ℕ → Console → Console
scroll_down zero c = c
scroll_down (suc fuel) c = elim (leb (cols * rows) c.cursor) [
  | true ↦ scroll_down fuel (record c { cells = scroll c.cells; cursor = c.cursor - cols })
  | false ↦ c
]

-- Every round takes `COLS` off the cursor, so the cursor is fuel enough.
unfoldable pub put_byte : Console → ℕ → Console
put_byte c b = let c' = place c b in scroll_down c'.cursor c'
