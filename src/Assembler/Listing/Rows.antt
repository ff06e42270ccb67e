-- ===== src/Assembler/Listing/Rows.antt =====
-- The rows of the disassembler's table, and its names of the branches, in the assembler's table.
use cputwo.Base.{
  ℕ, zero, suc, ◌-◌, ◌<◌, ◌≡◌, ◌⊎◌, inl, inr, refl, Bool, true, false, some, List, [], ◌∷◌, ◌++◌,
  ◌==◌, if◌then◌else◌, length, get_or, arith,
}
use cputwo.Base.Text.{is_digit, is_alpha, is_alnum, take, same_nocase, to_upper}
use cputwo.Assembler.Token.{ident}
use cputwo.Assembler.Lexer.{token, skip_ws, scan_word, next_token}
use cputwo.Assembler.Opcodes.{
  InstrFmt, fmt_r3, fmt_r2, fmt_rshift, fmt_i_signed, fmt_i_unsigned, fmt_i_shift, fmt_mem,
  fmt_branch, fmt_jump, fmt_movi, fmt_movhi, fmt_none, fmt_cmp, fmt_cmpi, fmt_mem_idx, OpcodeEntry,
  find_row, find_opcode,
}
use cputwo.Emulator.Disasm.{
  Shape, regs3, regs2, regs_cmp, shift5, mem, idx, cond_target, rd_target, rd_hex, no_operands,
  signed_imm, unsigned_imm, shift_imm, cmp_imm, unknown, row_of, cond_names, pad_to,
}
use cputwo.Assembler.Listing.Word.{is_word, NoColon, word_token, AllBelow, below}

-- The format that the assembler knows an instruction by.
abbrev pub fmt_of : ℕ → Shape → InstrFmt
fmt_of op regs3 = fmt_r3
fmt_of op regs2 = fmt_r2
fmt_of op regs_cmp = fmt_cmp
fmt_of op shift5 = fmt_rshift
fmt_of op mem = fmt_mem
fmt_of op idx = fmt_mem_idx
fmt_of op cond_target = fmt_branch
fmt_of op rd_target = fmt_jump
fmt_of op rd_hex = if op == 0x13 then fmt_movhi else fmt_movi
fmt_of op no_operands = fmt_none
fmt_of op signed_imm = fmt_i_signed
fmt_of op unsigned_imm = fmt_i_unsigned
fmt_of op shift_imm = fmt_i_shift
fmt_of op cmp_imm = fmt_cmpi
fmt_of op unknown = fmt_none

abbrev pub entry_of : List ℕ → ℕ → InstrFmt → ℕ → OpcodeEntry
entry_of name op fmt cond = record { mnemonic = name; opcode = op; fmt = fmt; cond = cond }

abbrev pub spaces : ℕ → List ℕ
spaces zero = []
spaces (suc k) = b' ' ∷ spaces k

abbrev pub name_of : ℕ → List ℕ
name_of op = (scan_word (row_of op).text).0

abbrev pub gap_of : ℕ → ℕ
gap_of op = length (scan_word (row_of op).text).1

-- The operands follow the mnemonic of the table.
abbrev pub is_regular : Shape → Bool
is_regular cond_target = false
is_regular unknown = false
is_regular s = true

-- The one instruction of its format.
abbrev pub jump_code : ℕ → Shape → Bool
jump_code op rd_target = op == 0x0e
jump_code op s = true

abbrev pub Listed : ℕ → Type 0
Listed op =
    (find_opcode (name_of op) ≡ some (entry_of (name_of op) op (fmt_of op (row_of op).shape) 0))
    × (is_regular (row_of op).shape ≡ true)
    × (jump_code op (row_of op).shape ≡ true)
    × ((row_of op).text ≡ name_of op ++ spaces (gap_of op))
    × (is_word (name_of op) ≡ true)
    × (take 255 (name_of op) ≡ name_of op)
    × ((0 < gap_of op) ⊎ ((row_of op).shape ≡ no_operands))

abbrev Known : ℕ → Type 0
Known op = (op ≡ 0x0d) ⊎ Listed op

all_listed : AllBelow Known 0x3f
unfolding row_of find_opcode find_row scan_word is_alpha is_alnum is_digit take same_nocase to_upper
all_listed = search (inl, inr, arith)

-- Every opcode but that of the branches and the last has the row of its name in the assembler.
pub row_of-Listed : (op : ℕ) → op < 0x3f → (op ≡ 0x0d) ⊎ Listed op
row_of-Listed op h = below Known 0x3f op all_listed h

abbrev pub Branch : ℕ → Type 0
Branch c =
    let name = get_or cond_names c [] in
    (find_opcode name ≡ some (entry_of name 0x0d fmt_branch c))
    × (pad_to 4 name ≡ name ++ spaces (4 - length name))
    × (is_word name ≡ true)
    × (take 255 name ≡ name)

all_branches : AllBelow Branch 11
unfolding find_opcode find_row pad_to is_alpha is_alnum is_digit take same_nocase to_upper
all_branches = search

pub cond_names-Branch : (c : ℕ) → c < 11 → Branch c
cond_names-Branch c h = below Branch 11 c all_branches h

-- Operands begin with a letter or a digit.
abbrev pub Starts : List ℕ → Type 0
Starts [] = Unit {0}
Starts (c ∷ cs) = is_alnum c ≡ true

skip_ws-spaces : (k : ℕ) (cs : List ℕ) → Starts cs → skip_ws (spaces k ++ cs) ≡ cs
unfolding skip_ws is_alnum is_alpha is_digit
skip_ws-spaces zero [] s = refl
skip_ws-spaces zero (c ∷ cs) s = ground arith
skip_ws-spaces (suc k) cs s = skip_ws-spaces k cs s

Starts-NoColon : (cs : List ℕ) → Starts cs → NoColon cs
unfolding is_alnum is_alpha is_digit
Starts-NoColon [] s = tt
Starts-NoColon (c ∷ cs) s = ground arith

-- A mnemonic with blanks behind it.
pub mnemonic_token :
    (name : List ℕ) (k : ℕ) (cs : List ℕ)
    → is_word name ≡ true
    → take 255 name ≡ name
    → Starts cs
    → (0 < k) ⊎ (cs ≡ [])
    → next_token (name ++ (spaces k ++ cs)) ≡ token (ident name) cs
unfolding scan_word is_alnum is_alpha is_digit
mnemonic_token name (suc k) cs w fits s gap =
    word_token name (spaces (suc k) ++ cs) cs w fits refl (skip_ws-spaces (suc k) cs s)
      (Starts-NoColon cs s)
mnemonic_token name zero [] w fits s gap =
    word_token name [] [] w fits refl (skip_ws-spaces 0 [] s) tt
mnemonic_token name zero (c ∷ cs) w fits s gap = ground arith
