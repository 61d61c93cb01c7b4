-- ===== src/Kernel/Pic.antt =====
pub mod Lines
-- The interrupt controllers and the timer, mik-os-x86/kernel/src/pic.rs.
use mik_os.Common.{ℕ, ◌/◌, ◌%◌, ◌^◌}
use mik_os.Kernel.Ports.{Ports}

abbrev pub pic1_cmd : ℕ
pic1_cmd = 0x20

abbrev pub pic1_data : ℕ
pic1_data = 0x21

abbrev pub pic2_cmd : ℕ
pic2_cmd = 0xA0

abbrev pub pic2_data : ℕ
pic2_data = 0xA1

abbrev pub pit_cmd : ℕ
pit_cmd = 0x43

abbrev pub pit_ch0 : ℕ
pit_ch0 = 0x40

abbrev pub divisor : ℕ
divisor = 11932

module _ (p : Ports) where
  open p use {State, inb, outb}

  unfoldable pub eoi : State → State
  eoi s = outb s pic1_cmd 0x20

  unfoldable pub init_pic : State → State
  init_pic s =
      let s1 = outb (outb s pic1_cmd 0x11) pic2_cmd 0x11 in
      let s2 = outb (outb s1 pic1_data 0x20) pic2_data 0x28 in
      let s3 = outb (outb s2 pic1_data 0x04) pic2_data 0x02 in
      let s4 = outb (outb s3 pic1_data 0x01) pic2_data 0x01 in
      let s5 = (inb s4 pic1_data).1 in outb (outb s5 pic1_data 0xE8) pic2_data 0xFF

  unfoldable pub init_pit : State → State
  init_pit s = outb (outb (outb s pit_cmd 0x36) pit_ch0 (divisor % 2 ^ 8)) pit_ch0 (divisor / 2 ^ 8)
