-- ===== src/Lib.antt =====
-- Mik OS: the Mik-64 emulator and its assembler, and parts of the x86-64 kernel.
--
-- Emu is mik-emu/src/lib.rs. Emu/Word has the instruction words (`encode`, `sext44` and the decoding
-- in `Machine::step`), Emu/Machine the state and the accesses to physical memory, Emu/Translate
-- `Machine::translate` with its TLB, and Emu/Step the instructions, traps, interrupts, the timer and
-- `run`. Physical addresses come from Emu/Translate, and Emu/Step goes through it for each fetch,
-- load and store. Memory, registers, CSRs and the TLB are functions of the address or index. A `u64`
-- is a number whose wrap-around is written out, an `i64` its bit pattern. `Result<_, String>` is
-- `Outcome`, in which a panic is a case of its own; arithmetic overflow panics, as in a build with
-- overflow checks. The output stream is a parameter: a function that takes a byte or fails.
-- `run` has a fuel argument, which bounds the steps: `run-Halts` says that the fuel decides nothing
-- but how long the loop may go on.
--
-- Asm is mik-asm/src/lib.rs: Asm/Source has the first pass and `assemble`, Asm the operands and
-- `encode_instruction`, Asm/Item the layout, the second pass and the string literals, Asm/Tokens,
-- Asm/Statements and Asm/Rendering compare the first pass with text that is written from statements,
-- Asm/Words and Asm/Jump the words with Emu. Source text is ASCII, tokens are lists of bytes, error messages are
-- dropped, and the number parsers of the standard library are a parameter. The overflow of an address
-- beyond 2 ^ 64 is not modelled.
--
-- Build is mik-os/src/lib.rs, which builds the Mik-64 kernels: Build has the assembler `Asm` with
-- its labels and fixups, Build/Boot, Build/Routines and Build/Processes the program of
-- `build_common` as lists of calls of the builder, and Build/Kernels the six kernels. `kernel_os`
-- takes the binaries of its two user programs, which mik-asm assembles, as arguments.
-- Build/Resolve and Build/Programs compare the fixups with the branches of Emu; Build/Patches has the
-- words that get addresses and lengths later, and Build/Images the image of `kernel_os`.
--
-- Kernel is mik-os-x86/kernel/src: Kernel/Input (input.rs), Kernel/Kbd (the decoder of kbd.rs),
-- Kernel/Vga (vga.rs), Kernel/Serial (the number output of serial.rs), Kernel/Mem and Kernel/E820
-- (the frame allocator and the memory map that seeds it, mem.rs and e820.rs), Kernel/Paging with
-- Kernel/Paging/Clone (the page tables of mem.rs) and Kernel/Fs (fs.rs), whose disk is the interface
-- Kernel/Disk. Statics are records that are passed in and out; a
-- function that runs with interrupts off is one step. Mik-FS adds 32-bit sector numbers without
-- overflow, which the theorems bound where it matters. The loops have structural fuel: the cursor in
-- Kernel/Vga, the end of the region in Kernel/Mem, the file length in Kernel/Fs, the length of the
-- range in `ustr_ok`, which has at most as many pages as bytes, and one more.
--
-- The processes of sched.rs stand on these parts: Kernel/Proc has the process table and the kernel's whole
-- state `Os`, Kernel/Sched `schedule`, its idle loop and the interrupt handlers (with those of
-- serial.rs and kbd.rs), Kernel/Process `spawn`, `exec_image` and fork, Kernel/Files and
-- Kernel/Syscall the system calls, Kernel/Fault `ustr_ok` and the page-fault handler. A handler
-- returns an `Outcome`: the frame that it resumes, idling, the halt with no process left, or a panic, which a
-- fatal page fault counts as. Saved frames are 20 words in physical memory. A Board is what the
-- kernel is linked with and runs on: the disk, the kernel's page directory, the embedded program, and
-- the translation of user addresses by the CPU, which reads the name that a system call is given.
-- Kernel/System puts the handlers together: Booted, Step and Reaches say which states the kernel
-- can get into, where user code may leave any memory behind.
--
-- The devices stand behind Kernel/Ports, a record of port accesses that is a parameter. Kernel/Ata is
-- the driver ata.rs: Kernel/Ata/Protocol states what it relies on of a drive (the LBA28 commands of
-- the ATA protocol, with BSY clear in time, and ERR and DRQ clear while BSY is set) and
-- Kernel/Ata/Store fills Kernel/Disk with it. Its polls have the source's own bound as fuel. The
-- addresses have 28 bits, which the theorems on Mik-FS ask of the sectors in use. Kernel/Idt,
-- Kernel/Seg, Kernel/Pic and Kernel/Pci are idt.rs, seg.rs, pic.rs and pci.rs, with the 8259
-- controllers and the configuration space as hypotheses of the same form, Kernel/Identity the identity
-- map of mem.rs, and Kernel/Main `kmain` of main.rs, from the statics at boot to `start`.
--
-- Image is mik-os-x86/src/lib.rs: the sections of the kernel's ELF file and the disk image that
-- `build_image` makes of them. The test for UTF-8 is a parameter.
--
-- Common has the lists, Boolean tests, bit operations and byte-addressed memory that they share.
-- The modules called Tests apply the theorems at concrete states.
--
-- Not modelled: the instructions that load the tables of seg.rs and idt.rs and what a read leaves of
-- the ports behind Mik-FS, the assembly files and the command-line entry points, the text that a
-- fatal page fault prints, and the embedded user programs.
pub mod Asm
pub mod Build
pub mod Common
pub mod Emu
pub mod Image
pub mod Kernel
