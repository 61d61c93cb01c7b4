-- ===== src/Emu.antt =====
-- The Mik-64 emulator, mik-emu/src/lib.rs.
pub mod Word
pub mod Machine
pub mod Translate
pub mod Step
mod Tests
