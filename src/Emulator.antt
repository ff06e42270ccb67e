-- ===== src/Emulator.antt =====
-- emulator.c: one child for each part of the machine, in the order of the file.
pub mod Machine
pub mod Memory
pub mod Exception
pub mod Flags
pub mod Mmu
pub mod Mmio
pub mod Access
pub mod Device
pub mod Decode
pub mod Alu
pub mod Execute
pub mod Run
pub mod Loader
pub mod Disasm
pub mod Keeps
pub mod Tests
