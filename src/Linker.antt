-- ===== src/Linker.antt =====
-- linker.c.
pub mod Object
pub mod Load
pub mod Layout
pub mod Reloc
pub mod Symbols
pub mod Resolve
pub mod Output
pub mod Link
mod Tests
