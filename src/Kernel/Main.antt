-- ===== src/Kernel/Main.antt =====
mod Tests
pub mod Boots
-- `kmain`, mik-os-x86/kernel/src/main.rs: the order in which the parts of the kernel are set up. What
-- `idt::init` and `seg::init` load does not depend on the state: see Kernel/Idt and Kernel/Seg.
use mik_os.Common.{ℕ, if◌then◌else◌, Bool, ◌==◌, Option, none, some, List, [], ◌∷◌, ◌++◌, Memory}
use mik_os.Kernel.Ports.{Ports}
use mik_os.Kernel.Disk.{Disk}
use mik_os.Kernel.Serial.{write_dec, enable_rx_irq}
use mik_os.Kernel.Mem.{Frames, alloc_frame, free_frame}
use mik_os.Kernel.E820
use mik_os.Kernel.Identity.{extend_identity_map}
use mik_os.Kernel.Pic.{init_pic, init_pit}
use mik_os.Kernel.Pci.{scan}
use mik_os.Kernel.Fs
use mik_os.Kernel.Proc.{Board, Os, Outcome, panic}
use mik_os.Kernel.Process.{spawn}
use mik_os.Kernel.Sched.{start}
use mik_os.Kernel.System.{write_str}

abbrev pub newline : List ℕ
newline = 10 ∷ []

-- What the linker places: the end of `.bss`, the table `pml4` and the programs.
pub record Linked : Type 0 where
  pub bss_end : ℕ
  pub pml4 : ℕ
  pub prog_a : List ℕ
  pub prog_b : List ℕ
  pub prog_d : List ℕ
  pub prog_sh : List ℕ

-- The check of the free list: whether the frame that is freed comes back.
unfoldable pub alloc_check : Frames → Option (Bool × Frames)
alloc_check s =
    let one = alloc_frame s in
    elim one.0 [
      | none ↦ none
      | some a ↦
          let two = alloc_frame one.1 in
          elim two.0 [
            | none ↦ none
            | some b ↦
                let three = alloc_frame (free_frame two.1 a) in
                elim three.0 [ none ↦ none | some c ↦ some (c == a, three.1) ]
          ]
    ]

-- The texts of `kmain`.
abbrev banner_text : List ℕ
banner_text =
    b'M' ∷ b'i' ∷ b'k' ∷ b'-' ∷ b'6' ∷ b'4' ∷ 32 ∷ b'-' ∷ b'>' ∷ 32 ∷ b'x' ∷ b'8' ∷ b'6' ∷ b'-'
    ∷ b'6' ∷ b'4' ∷ 32 ∷ b'l' ∷ b'o' ∷ b'n' ∷ b'g' ∷ 32 ∷ b'm' ∷ b'o' ∷ b'd' ∷ b'e' ∷ 10 ∷ []

abbrev mapped_text : List ℕ
mapped_text =
    b'i' ∷ b'd' ∷ b'e' ∷ b'n' ∷ b't' ∷ b'i' ∷ b't' ∷ b'y' ∷ 32 ∷ b'm' ∷ b'a' ∷ b'p' ∷ b':' ∷ 32
    ∷ b'1' ∷ 32 ∷ b'G' ∷ b'i' ∷ b'B' ∷ 10 ∷ []

abbrev frames_text : List ℕ
frames_text =
    b'u' ∷ b's' ∷ b'a' ∷ b'b' ∷ b'l' ∷ b'e' ∷ 32 ∷ b'f' ∷ b'r' ∷ b'a' ∷ b'm' ∷ b'e' ∷ b's' ∷ b'='
    ∷ []

abbrev check_ok_text : List ℕ
check_ok_text =
    b'a' ∷ b'l' ∷ b'l' ∷ b'o' ∷ b'c' ∷ b'/' ∷ b'f' ∷ b'r' ∷ b'e' ∷ b'e' ∷ 32 ∷ b'o' ∷ b'k' ∷ 10 ∷ []

abbrev check_bad_text : List ℕ
check_bad_text =
    b'a' ∷ b'l' ∷ b'l' ∷ b'o' ∷ b'c' ∷ b'/' ∷ b'f' ∷ b'r' ∷ b'e' ∷ b'e' ∷ 32 ∷ b'B' ∷ b'A' ∷ b'D'
    ∷ 10 ∷ []

abbrev plumbing_text : List ℕ
plumbing_text =
    b'g' ∷ b'd' ∷ b't' ∷ b'/' ∷ b't' ∷ b's' ∷ b's' ∷ b'/' ∷ b'p' ∷ b'i' ∷ b'c' ∷ b'/' ∷ b'k' ∷ b'b'
    ∷ b'd' ∷ b'/' ∷ b'u' ∷ b'a' ∷ b'r' ∷ b't' ∷ 32 ∷ b'o' ∷ b'k' ∷ 10 ∷ []

abbrev ata_ok_text : List ℕ
ata_ok_text = b'a' ∷ b't' ∷ b'a' ∷ 32 ∷ b'o' ∷ b'k' ∷ 10 ∷ []

abbrev ata_none_text : List ℕ
ata_none_text =
    b'a' ∷ b't' ∷ b'a' ∷ b':' ∷ 32 ∷ b'n' ∷ b'o' ∷ 32 ∷ b'd' ∷ b'i' ∷ b's' ∷ b'k' ∷ 10 ∷ []

abbrev fs_text : List ℕ
fs_text = b'f' ∷ b's' ∷ b':' ∷ 32 ∷ []

abbrev files_text : List ℕ
files_text = 32 ∷ b'f' ∷ b'i' ∷ b'l' ∷ b'e' ∷ b's' ∷ 10 ∷ []

abbrev sched_text : List ℕ
sched_text =
    b's' ∷ b'c' ∷ b'h' ∷ b'e' ∷ b'd' ∷ b':' ∷ 32 ∷ b'3' ∷ 32 ∷ b'p' ∷ b'r' ∷ b'o' ∷ b'c' ∷ b's' ∷ 10
    ∷ []

module _ (board : Board) where
  -- The check of the free list, and what it prints.
  unfoldable pub checked : Os board → Option (Os board)
  checked k = elim (alloc_check k.phys) [
    | none ↦ none
    | some (same, s) ↦
        some
          (write_str board (record k { phys = s }) (if same then check_ok_text else check_bad_text))
  ]

  -- Up to this check.
  unfoldable pub set_up_memory : Os board → Linked → Option (Os board)
  set_up_memory k l =
      let k1 = write_str board k banner_text in
      let mapped = extend_identity_map k1.phys.mem board.pd in
      let k2 : Os board =
        write_str board (record k1 { phys = record k1.phys { mem = mapped }; cr3 = l.pml4 })
          mapped_text in
      let seeded = E820.init k2.phys l.bss_end in
      let k3 : Os board =
        write_str board (record k2 { phys = seeded.0 })
          (frames_text ++ (write_dec seeded.1 ++ newline)) in
      checked k3

  -- The interrupt controllers, the UART and the PCI bus.
  unfoldable pub set_up_devices : (p : Ports) → Os board → p.State → Os board × p.State
  set_up_devices p k s =
      let scanned = scan p (enable_rx_irq p (init_pic p s)) in
      (write_str board (write_str board k scanned.0) plumbing_text, scanned.1)

  -- The disk `d` as `ata::init` leaves it, and the file system.
  unfoldable pub set_up_files : Os board → board.disk.State → List ℕ → Os board
  set_up_files k d prog_d =
      let k1 : Os board =
        write_str board k (if board.disk.present d then ata_ok_text else ata_none_text) in
      let (files, fs) = Fs.init board.disk d prog_d in
      write_str board (record k1 { fs = fs })
        (Fs.init_text board.disk d ++ (fs_text ++ (write_dec files ++ files_text)))

  unfoldable pub spawn_all : Os board → List (List ℕ) → Option (Os board)
  spawn_all k [] = some k
  spawn_all k (prog ∷ progs) = elim (spawn board k prog) [
    | none ↦ none
    | some k' ↦ spawn_all k' progs
  ]

  -- `kmain`, and what it has done to the ports. `none` is the panic of an `expect`.
  unfoldable pub boot :
      (p : Ports) → Os board → p.State → board.disk.State → Linked → Option (Os board × p.State)
  boot p k s d l = elim (set_up_memory k l) [
    | none ↦ none
    | some k1 ↦
        let devices = set_up_devices p k1 s in
        let k2 = set_up_files devices.0 d l.prog_d in
        elim (spawn_all k2 (l.prog_a ∷ l.prog_b ∷ l.prog_sh ∷ [])) [
          | none ↦ none
          | some k3 ↦ some (write_str board k3 sched_text, init_pit p devices.1)
        ]
  ]

  unfoldable pub kmain :
      (p : Ports) → Os board → p.State → board.disk.State → Linked → Outcome board
  kmain p k s d l = elim (boot p k s d l) [ none ↦ panic | some (k', s') ↦ start board k' ]
