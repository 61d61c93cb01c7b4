-- ===== src/Kernel/Pic/Lines.antt =====
-- What mik-os-x86/kernel/src/pic.rs relies on of the two 8259 controllers, and where their lines lead in
-- the table of idt.rs.
use mik_os.Common.{
  ℕ, ◌+◌, ◌<◌, zero, suc, ◌≡◌, ◌≢◌, refl, sym, ap, subst, ◌∙◌, arith, ◌==◌, if◌then◌else◌, false,
  some, true, ◌⊎◌, inl, inr,
}
use mik_os.Common.Bits.{test_bit}
use mik_os.Kernel.Ports.{Ports}
use mik_os.Kernel.Idt.{Stubs, Are64, Says, init, init-handler_of}
use mik_os.Kernel.Pic.{pic1_cmd, pic1_data, pic2_cmd, pic2_data, init_pic}

-- The word that a chip awaits on its data port: ICW2 to ICW4 behind ICW1, or else the mask.
pub data Stage : Type 0 where
  vectors : Stage
  wiring : Stage
  mode : Stage
  masking : Stage

pub record Chip : Type 0 where
  pub stage : Stage
  pub base : ℕ
  pub mask : ℕ

abbrev pub icw1 : Chip → Chip
icw1 c = record c { stage = vectors }

abbrev pub data_word : Stage → ℕ → Chip → Chip
data_word vectors v c = record c { stage = wiring; base = v }
data_word wiring v c = record c { stage = mode }
data_word mode v c = record c { stage = masking }
data_word masking v c = record c { mask = v }

-- The laws: a word for one chip leaves the other, reading the mask changes nothing.
pub record ArePics (p : Ports) (master slave : p.State → Chip) : Type 0 where
  pub start1 :
      (s : p.State)
      → (master (p.outb s pic1_cmd 0x11) ≡ icw1 (master s))
        × (slave (p.outb s pic1_cmd 0x11) ≡ slave s)
  pub start2 :
      (s : p.State)
      → (master (p.outb s pic2_cmd 0x11) ≡ master s)
        × (slave (p.outb s pic2_cmd 0x11) ≡ icw1 (slave s))
  pub word1 :
      (s : p.State) (v : ℕ)
      → (master (p.outb s pic1_data v) ≡ data_word (master s).stage v (master s))
        × (slave (p.outb s pic1_data v) ≡ slave s)
  pub word2 :
      (s : p.State) (v : ℕ)
      → (master (p.outb s pic2_data v) ≡ master s)
        × (slave (p.outb s pic2_data v) ≡ data_word (slave s).stage v (slave s))
  pub mask_read :
      (s : p.State)
      → (master (p.inb s pic1_data).1 ≡ master s) × (slave (p.inb s pic1_data).1 ≡ slave s)

abbrev pub line_handler : Stubs → ℕ → ℕ
line_handler stubs line =
    if line == 0 then stubs.isr_timer else if line == 1 then stubs.isr_kbd else stubs.isr_uart

all_masked : (l : ℕ) → l < 8 → test_bit 0xFF l ≡ true
all_masked zero lt = refl
all_masked (suc zero) lt = refl
all_masked (suc (suc zero)) lt = refl
all_masked (suc (suc (suc zero))) lt = refl
all_masked (suc (suc (suc (suc zero)))) lt = refl
all_masked (suc (suc (suc (suc (suc zero))))) lt = refl
all_masked (suc (suc (suc (suc (suc (suc zero)))))) lt = refl
all_masked (suc (suc (suc (suc (suc (suc (suc zero))))))) lt = refl
all_masked (suc (suc (suc (suc (suc (suc (suc (suc l)))))))) lt = absurd (omega (arith, lt))

-- What an interrupt on a line of the first chip meets: the second chip, wired to line 2, with all of its
-- lines masked, or the gate of the line's handler.
abbrev pub Silent : Chip → ℕ → Type 0
Silent slave line = (line ≡ 2) × ((l : ℕ) → l < 8 → test_bit slave.mask l ≡ true)

abbrev pub Handled : Stubs → Chip → ℕ → Type 0
Handled stubs master line =
    (line ≢ 2) × Says (init stubs (master.base + line)) (some (line_handler stubs line, 0))

lines_handled :
    (stubs : Stubs)
    → Are64 stubs
    → (line : ℕ) → line < 8
    → test_bit 0xE8 line ≡ false
    → Silent (record { stage = masking; base = 40; mask = 0xFF }) line
      ⊎ Handled stubs (record { stage = masking; base = 32; mask = 0xE8 }) line
lines_handled stubs h zero lt unset = inr ((λ e. ground (arith, e)), init-handler_of stubs 32 h)
lines_handled stubs h (suc zero) lt unset =
    inr ((λ e. ground (arith, e)), init-handler_of stubs 33 h)
lines_handled stubs h (suc (suc zero)) lt unset = inl (refl, all_masked)
lines_handled stubs h (suc (suc (suc zero))) lt unset = absurd (ground (arith, unset))
lines_handled stubs h (suc (suc (suc (suc zero)))) lt unset =
    inr ((λ e. ground (arith, e)), init-handler_of stubs 36 h)
lines_handled stubs h (suc (suc (suc (suc (suc zero))))) lt unset = absurd (ground (arith, unset))
lines_handled stubs h (suc (suc (suc (suc (suc (suc zero)))))) lt unset =
    absurd (ground (arith, unset))
lines_handled stubs h (suc (suc (suc (suc (suc (suc (suc zero))))))) lt unset =
    absurd (ground (arith, unset))
lines_handled stubs h (suc (suc (suc (suc (suc (suc (suc (suc line)))))))) lt unset =
    absurd (omega (arith, lt))

module _ (p : Ports) (master slave : p.State → Chip) (pics : ArePics p master slave) where
  -- The pair of the chips.
  abbrev Both : p.State → Chip → Chip → Type 0
  Both s c c' = (master s ≡ c) × (slave s ≡ c')

  after1 :
      (s : p.State) (v : ℕ) (c c' : Chip)
      → Both s c c'
      → Both (p.outb s pic1_data v) (data_word c.stage v c) c'
  after1 s v c c' h =
      ((pics.word1 s v).0 ∙ ap (λ (d : Chip). data_word d.stage v d) h.0, (pics.word1 s v).1 ∙ h.1)

  after2 :
      (s : p.State) (v : ℕ) (c c' : Chip)
      → Both s c c'
      → Both (p.outb s pic2_data v) c (data_word c'.stage v c')
  after2 s v c c' h =
      ((pics.word2 s v).0 ∙ h.0, (pics.word2 s v).1 ∙ ap (λ (d : Chip). data_word d.stage v d) h.1)

  after_read : (s : p.State) (c c' : Chip) → Both s c c' → Both (p.inb s pic1_data).1 c c'
  after_read s c c' h = ((pics.mask_read s).0 ∙ h.0, (pics.mask_read s).1 ∙ h.1)

  -- From any state of the chips, `init_pic` leaves the lines of the first at vectors 32 to 39, those of
  -- the second at 40 to 47, all of the second masked, and of the first all but lines 0, 1, 2
  -- and 4, and no word of the initialization pending.
  pub init_pic_lem :
      (s : p.State)
      → (master (init_pic p s) ≡ record { stage = masking; base = 32; mask = 0xE8 })
        × (slave (init_pic p s) ≡ record { stage = masking; base = 40; mask = 0xFF })
  unfolding init_pic
  init_pic_lem s =
      let c = icw1 (master s) in
      let c' = icw1 (slave s) in
      let s1 = p.outb (p.outb s pic1_cmd 0x11) pic2_cmd 0x11 in
      let b1 : Both s1 c c' = (
        (pics.start2 (p.outb s pic1_cmd 0x11)).0 ∙ (pics.start1 s).0,
        (pics.start2 (p.outb s pic1_cmd 0x11)).1 ∙ ap icw1 (pics.start1 s).1,
      ) in
      let b2 = after2 _ 0x28 _ _ (after1 s1 0x20 c c' b1) in
      let b3 = after2 _ 0x02 _ _ (after1 _ 0x04 _ _ b2) in
      let b4 = after2 _ 0x01 _ _ (after1 _ 0x01 _ _ b3) in
      after2 _ 0xFF _ _ (after1 _ 0xE8 _ _ (after_read _ _ _ b4))

  -- With stubs at 64-bit addresses: behind `idt::init` and `init_pic`, a line of the first chip that
  -- is not masked is line 2, and then all lines of the second chip, which is wired to it, are masked; or it
  -- raises a vector with a present gate of privilege 0 that leads to the handler of the timer, the
  -- keyboard or the UART.
  pub unmasked-Says :
      (s : p.State) (stubs : Stubs) (line : ℕ)
      → Are64 stubs
      → line < 8
      → test_bit (master (init_pic p s)).mask line ≡ false
      → Silent (slave (init_pic p s)) line ⊎ Handled stubs (master (init_pic p s)) line
  unmasked-Says s stubs line h lt =
      let (first, second) = init_pic_lem s in
      subst
        (λ (c : Chip).
          test_bit c.mask line ≡ false → Silent (slave (init_pic p s)) line ⊎ Handled stubs c line)
        (sym first)
        (subst
          (λ (c : Chip).
            test_bit 0xE8 line ≡ false
            → Silent c line
              ⊎ Handled stubs (record { stage = masking; base = 32; mask = 0xE8 }) line)
          (sym second) (lines_handled stubs h line lt))
