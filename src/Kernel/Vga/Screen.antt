-- ===== src/Kernel/Vga/Screen.antt =====
-- The cursor stays on the screen, and where the bytes go.
use mik_os.Common.{
  ℕ, zero, suc, ◌+◌, ◌-◌, ◌*◌, ◌≤◌, ◌<◌, ◌≡◌, refl, ◌∙◌, inl, inr, arith, ltb, leb, if◌then◌else◌,
  Bool-cases,
}
use mik_os.Kernel.Vga.{cols, rows, Console, scroll, place, scroll_down, put_byte}

-- The cursor is on the screen.
abbrev pub OnScreen : Console → Type 0
OnScreen c = c.cursor < cols * rows

-- The loop ends by its test, and takes whole rows.
scroll_down-OnScreen : (fuel : ℕ) (c : Console) → c.cursor ≤ fuel → OnScreen (scroll_down fuel c)
unfolding scroll_down
scroll_down-OnScreen zero c h = omega arith
scroll_down-OnScreen (suc fuel) c h = elim (Bool-cases (leb (cols * rows) c.cursor)) [
  | inl more ↦ rw (more, scroll_down) (scroll_down-OnScreen fuel _ (ground arith))
  | inr done ↦ rw (done, scroll_down) (ground arith)
]

-- Below the end of the screen nothing is scrolled, and one row beyond it one scroll is made.
scroll_down_once :
    (fuel : ℕ) (c : Console)
    → 2 ≤ fuel
    → c.cursor < cols * (rows + 1)
    → scroll_down fuel c ≡ (
        if leb (cols * rows) c.cursor
        then record c { cells = scroll c.cells; cursor = c.cursor - cols }
        else c)
unfolding scroll_down
scroll_down_once (suc (suc fuel)) c h k = ground arith
scroll_down_once zero c h k = absurd (omega arith)
scroll_down_once (suc zero) c h k = absurd (omega arith)

-- Whatever byte is written, the cursor ends on the screen, the loop having ended by its test.
pub put_byte-OnScreen : (c : Console) (b : ℕ) → OnScreen (put_byte c b)
unfolding put_byte
put_byte-OnScreen c b = scroll_down-OnScreen (place c b).cursor (place c b) (omega arith)

place_next_row : (c : Console) (b : ℕ) → OnScreen c → (place c b).cursor < cols * (rows + 1)
unfolding place
place_next_row c b h = ground arith

scroll_down_stays : (fuel : ℕ) (c : Console) → OnScreen c → scroll_down fuel c ≡ c
unfolding scroll_down
scroll_down_stays zero c h = refl
scroll_down_stays (suc fuel) c h = ground arith

-- With the cursor on the screen, a byte makes the screen scroll by one row at most, and exactly
-- when the cursor would leave it; the cursor is then that of `place`, less a row.
pub put_byte_scrolls :
    (c : Console) (b : ℕ)
    → OnScreen c
    → let c' = place c b in
      put_byte c b ≡ (
        if leb (cols * rows) c'.cursor
        then record c' { cells = scroll c'.cells; cursor = c'.cursor - cols }
        else c')
unfolding put_byte
put_byte_scrolls c b h = elim (Bool-cases (ltb (place c b).cursor (cols * rows))) [
  | inl on ↦ scroll_down_stays (place c b).cursor (place c b) (ground arith) ∙ ground arith
  | inr off ↦ scroll_down_once (place c b).cursor (place c b) (ground arith) (place_next_row c b h)
]

-- The character in a cell.
abbrev pub char_at : Console → ℕ → ℕ
char_at c i = c.cells (i * 2)
