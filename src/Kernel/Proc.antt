-- ===== src/Kernel/Proc.antt =====
-- The process table and the saved frames of mik-os-x86/kernel/src/sched.rs, with the rest of the
-- kernel's state: the statics of sched.rs, mem.rs, input.rs, fs.rs and vga.rs as one record.
use mik_os.Common.{
  ℕ, ◌+◌, Bool, false, List, [], ◌∷◌, ◌++◌, get_or, set, replicate, Memory, load64, store64,
}
use mik_os.Kernel.Disk.{Disk}
use mik_os.Kernel.Mem.{Frames}
use mik_os.Kernel.Input.{Ring}
use mik_os.Kernel.Vga.{Console, put_byte}
use mik_os.Kernel.Fs.{Fs}

abbrev pub empty_state : ℕ
empty_state = 0

abbrev pub ready : ℕ
ready = 1

abbrev pub waiting : ℕ
waiting = 3

pub record Fd : Type 0 where
  pub used : Bool
  pub dir : ℕ
  pub pos : ℕ
  pub write : Bool

abbrev pub empty_fd : Fd
empty_fd = record { used = false; dir = 0; pos = 0; write = false }

pub record Proc : Type 0 where
  pub pml4 : ℕ
  pub kstack_top : ℕ
  pub frame : ℕ
  pub state : ℕ
  pub brk : ℕ
  pub fds : List Fd

abbrev pub nproc : ℕ
nproc = 4

abbrev pub empty_proc : Proc
empty_proc = record {
  pml4 = 0;
  kstack_top = 0;
  frame = 0;
  state = empty_state;
  brk = 0;
  fds = replicate 4 empty_fd;
}

abbrev pub user_code_va : ℕ
user_code_va = 0x40000000

abbrev pub user_stack_va : ℕ
user_stack_va = 0x40001000

abbrev pub user_data_va : ℕ
user_data_va = 0x40002000

abbrev pub brk_max : ℕ
brk_max = user_data_va + 0x10000

abbrev pub user_region_end : ℕ
user_region_end = 0x80000000

-- Offsets in `IrqFrame`, which is `repr(C)`.
abbrev pub frame_size : ℕ
frame_size = 160

abbrev pub rdi_at : ℕ
rdi_at = 72

abbrev pub rsi_at : ℕ
rsi_at = 80

abbrev pub rdx_at : ℕ
rdx_at = 88

abbrev pub rax_at : ℕ
rax_at = 112

abbrev pub rip_at : ℕ
rip_at = 120

-- `USER_CODE_VA`, `UCODE`, the flags, the top of the user stack and `UDATA` behind fifteen zeros.
unfoldable pub write_entry_frame : Memory → ℕ → Memory
write_entry_frame mem fp =
    store_words (store_words mem fp (replicate 15 0)) (fp + 120)
      (user_code_va ∷ 0x23 ∷ 0x202 ∷ (user_stack_va + 0x1000) ∷ 0x1b ∷ [])
  where
    store_words : Memory → ℕ → List ℕ → Memory
    store_words mem a [] = mem
    store_words mem a (w ∷ ws) = store_words (store64 mem a w) (a + 8) ws

-- What the kernel is linked with and runs on: the disk, the address of the page directory `pd`, the
-- embedded image `prog_c`, and the physical address at which the CPU finds a virtual one under the
-- page table in CR3.
pub record Board : Type 1 where
  pub disk : Disk
  pub pd : ℕ
  pub prog_c : List ℕ
  pub physical : Memory → ℕ → ℕ → ℕ

module _ (board : Board) where
  pub record Os : Type 0 where
    pub phys : Frames
    pub procs : List Proc
    pub cur : ℕ
    pub sched_active : Bool
    pub in_idle : Bool
    -- `TSS.rsp0` and CR3.
    pub rsp0 : ℕ
    pub cr3 : ℕ
    pub input : Ring
    pub fs : Fs board.disk
    pub screen : Console
    -- The bytes sent to COM1.
    pub com1 : List ℕ

  abbrev pub proc_at : Os → ℕ → Proc
  proc_at k i = get_or k.procs i empty_proc

  abbrev pub current : Os → Proc
  current k = proc_at k k.cur

  abbrev pub set_proc : Os → ℕ → Proc → Os
  set_proc k i p = record k { procs = set k.procs i p }

  -- A field of the frame at an address.
  abbrev pub field : Os → ℕ → ℕ → ℕ
  field k frame at = load64 k.phys.mem (frame + at)

  abbrev pub set_field : Os → ℕ → ℕ → ℕ → Os
  set_field k frame at v = record k {
    phys = record k.phys { mem = store64 k.phys.mem (frame + at) v };
  }

  -- To both consoles.
  abbrev pub print_byte : Os → ℕ → Os
  print_byte k b = record k { com1 = k.com1 ++ b ∷ []; screen = put_byte k.screen b }

  -- What a handler does: it returns a frame to resume, idles until an interrupt, halts for good with
  -- no process left, or panics.
  pub data Outcome : Type 0 where
    resume : ℕ → Os → Outcome
    idle : Os → Outcome
    dead : Os → Outcome
    panic : Outcome
