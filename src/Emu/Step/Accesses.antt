-- ===== src/Emu/Step/Accesses.antt =====
-- STORE64 and LOAD64 of `Machine::step`, with paging off.
use mik_os.Emu.Machine.{Machine}
