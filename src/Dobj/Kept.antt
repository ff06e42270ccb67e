-- ===== src/Dobj/Kept.antt =====
-- Whatever the source text, what the assembler holds fits into the object file.
pub mod State
pub mod Tokens
pub mod Statement
pub mod Program
pub mod Main
