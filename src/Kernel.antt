-- ===== src/Kernel.antt =====
-- The x86-64 kernel, mik-os-x86/kernel/src.
pub mod Input
pub mod Kbd
pub mod Vga
pub mod Serial
pub mod Mem
pub mod E820
pub mod Paging
pub mod Proc
pub mod Sched
pub mod Process
pub mod Files
pub mod Fault
pub mod Syscall
pub mod System
pub mod Disk
pub mod Ports
pub mod Ata
pub mod Idt
pub mod Seg
pub mod Pic
pub mod Pci
pub mod Identity
pub mod Main
pub mod Fs
mod Tests
