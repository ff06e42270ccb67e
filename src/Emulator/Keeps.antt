-- ===== src/Emulator/Keeps.antt =====
-- What every part of the machine keeps: the widths of the C types, and the memory of the process
-- behind the array `mem`. The children prove it of each component, up to a whole round and the loop.
pub mod Invariant
pub mod Alu
pub mod Trap
pub mod Mmu
pub mod Mmio
pub mod Command
pub mod Access
pub mod Execute
pub mod Step
pub mod Run
