-- ===== src/Assembler.antt =====
-- assembler.c.
pub mod Token
pub mod Lexer
pub mod Parse
pub mod Parser
pub mod State
pub mod Expr
pub mod Opcodes
pub mod Operands
pub mod Encode
pub mod Directive
pub mod Passes
pub mod Lines
pub mod Dobj
pub mod Main
pub mod Address
pub mod Listing
mod Tests
