-- ===== src/Assembler/Operands.antt =====
-- The operands of an instruction: `parse_register`, `parse_mem_operand`, `peek_sym_ref`, and the
-- checks of one token that `assemble_line` repeats.
use cputwo.Base.{ℕ, Bool, ◌||◌, Option, none, some, List, [], ◌∷◌, leb, ◌==◌, if◌then◌else◌}
use cputwo.Base.Int.{ℤ, pos, ◌-ℤ◌, low_bits}
use cputwo.Base.Text.{bytes_of, same_nocase, read_digits, entry}
use cputwo.Assembler.Token.{Token, ident, int, comma, lbracket, rbracket, plus, minus}
use cputwo.Assembler.Parse.{Parse, ok, bad}
use cputwo.Assembler.Parser.{Parser, pure, ◌>>=◌, ◌>>◌, lift}
use cputwo.Assembler.State.{Symbol, find_sym_index}
use cputwo.Assembler.Expr.{Pass, checked, eval_expr}

-- `r0` to `r15`, in decimal.
unfoldable pub numbered_register : List ℕ → Option ℕ
numbered_register [] = none
numbered_register (c ∷ []) = none
numbered_register (c ∷ d ∷ cs) =
    if c == b'r' || c == b'R' then in_range (read_digits 10 0 (d ∷ cs)) else none
  where
    in_range : ℕ × List ℕ → Option ℕ
    in_range (n, []) = if leb n 15 then some n else none
    in_range (n, x ∷ rest) = none

unfoldable pub parse_register : List ℕ → Option ℕ
parse_register s = elim (numbered_register s) [
  | some n ↦ some n
  | none ↦
      if same_nocase s (bytes_of "sp")
      then some 13
      else if same_nocase s (bytes_of "lr")
      then some 14
      else if same_nocase s (bytes_of "pc")
      then some 15
      else none
]

unfoldable pub register_named : List ℕ → Parse ℕ
register_named name = elim (parse_register name) [ some n ↦ ok n | none ↦ bad ]

-- `toks[i]` is a register; then it is a comma, a bracket, a plus.
unfoldable pub register : Parser ℕ
register (ident name ∷ rest) = lift (register_named name) rest
register ts = bad

unfoldable pub expect_comma : Parser (Unit {0})
expect_comma (comma ∷ rest) = ok (tt, rest)
expect_comma ts = bad

unfoldable pub expect_lbracket : Parser (Unit {0})
expect_lbracket (lbracket ∷ rest) = ok (tt, rest)
expect_lbracket ts = bad

unfoldable pub expect_rbracket : Parser (Unit {0})
expect_rbracket (rbracket ∷ rest) = ok (tt, rest)
expect_rbracket ts = bad

unfoldable pub expression : Pass → List Symbol → Parser ℤ
expression pass syms ts = eval_expr pass syms ts

-- The offset behind the register of a memory operand in brackets.
unfoldable pub bracket_offset : Pass → List Symbol → Parser ℤ
bracket_offset pass syms (plus ∷ rest) = expression pass syms rest
bracket_offset pass syms (minus ∷ rest) =
    (do imm ← expression pass syms; lift (checked (pos 0 -ℤ imm))) rest
bracket_offset pass syms ts = ok (pos 0, ts)

-- The offset behind the register without brackets.
unfoldable pub comma_offset : Pass → List Symbol → Parser ℤ
comma_offset pass syms (comma ∷ rest) = expression pass syms rest
comma_offset pass syms ts = ok (pos 0, ts)

unfoldable pub parse_mem_operand : Pass → List Symbol → Parser (ℕ × ℤ)
parse_mem_operand pass syms (lbracket ∷ rest) =
    (do rs1 ← register; imm ← bracket_offset pass syms; expect_rbracket; pure (rs1, imm)) rest
parse_mem_operand pass syms ts =
    (do rs1 ← register; imm ← comma_offset pass syms; pure (rs1, imm)) ts

-- The index register of an indexed memory operand.
unfoldable pub index_register : Parser ℕ
index_register (plus ∷ rest) = register rest
index_register ts = ok (0, ts)

-- The constant behind a symbol, as the `int32_t` that a relocation holds: the low 32 digits are the
-- same where the negation of the least `int64_t` overflows.
unfoldable pub peek_addend : List Token → ℕ
peek_addend (plus ∷ int v ∷ rest) = low_bits 32 v
peek_addend (minus ∷ int v ∷ rest) = low_bits 32 (pos 0 -ℤ v)
peek_addend ts = 0

-- A symbol by its name, when it is a label or external: its index, and whether it is external.
unfoldable pub relocatable : List Symbol → List ℕ → Option (ℕ × Bool)
relocatable syms name = elim (find_sym_index 0 syms name) [
  | none ↦ none
  | some i ↦ elim (entry syms i) [
    | none ↦ none
    | some s ↦ if s.is_extern || s.is_label then some (i, s.is_extern) else none
  ]
]

unfoldable pub with_addend : ℕ → Option (ℕ × Bool) → Option (ℕ × Bool × ℕ)
with_addend addend none = none
with_addend addend (some (i, ext)) = some (i, ext, addend)

unfoldable pub peek_sym_ref : List Symbol → List Token → Option (ℕ × Bool × ℕ)
peek_sym_ref syms (ident name ∷ rest) = elim (parse_register name) [
  | some r ↦ none
  | none ↦ with_addend (peek_addend rest) (relocatable syms name)
]
peek_sym_ref syms ts = none
