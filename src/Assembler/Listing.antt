-- ===== src/Assembler/Listing.antt =====
-- What the emulator's disassembler prints, as the assembler reads it.
pub mod Lex
pub mod Number
pub mod Word
pub mod Rows
pub mod Tokens
pub mod Words
pub mod Registers
pub mod Operands
pub mod RoundTrip
mod Tests
