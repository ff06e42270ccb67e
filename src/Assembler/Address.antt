-- ===== src/Assembler/Address.antt =====
-- The addresses of the two passes of assembler.c.
pub mod Arrives
pub mod Emit
pub mod Size
pub mod Encoded
pub mod Statement
pub mod Line
pub mod Program
