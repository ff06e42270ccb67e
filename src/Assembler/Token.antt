-- ===== src/Assembler/Token.antt =====
-- `Token`: each type with the fields that the code reads of it.
use cputwo.Base.{ℕ, List}
use cputwo.Base.Int.{ℤ}

-- TOK_IDENT, TOK_INT, and so on; a `colon` is a name with a colon behind it. The end of a line is
-- the end of a list, and TOK_NEWLINE is never made.
pub data Token : Type 0 where
  ident : List ℕ → Token
  int : ℤ → Token
  string : List ℕ → Token
  comma lbracket rbracket plus minus rshift : Token
  colon : List ℕ → Token
  dot_ident : List ℕ → Token
