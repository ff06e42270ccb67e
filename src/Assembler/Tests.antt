-- ===== src/Assembler/Tests.antt =====
-- The theorems on assembler.c at a small program and at operands.
use cputwo.Base.{ℕ, ◌+◌, ◌≤◌, ◌<◌, ◌⊎◌, ◌≡◌, true, false, some, List, [], ◌∷◌, ◌++◌, refl, arith}
use cputwo.Base.Int.{pos, negsuc, low_bits}
use cputwo.Base.Text.{
  bytes_of, same_name, to_upper, same_nocase, is_digit, is_alpha, is_alnum, digit_value,
  read_digits, entry, take,
}
use cputwo.Emulator.Decode.{decode, opcode_of, jmp, movi, movhi}
use cputwo.Emulator.Run.{execute}
use cputwo.Emulator.Tests.{blank, idle}
use cputwo.Linker.Reloc.{out_of_range, reloc_jump20, patch}
use cputwo.Assembler.Token.{ident, int, comma, minus}
use cputwo.Assembler.Parse.{ok}
use cputwo.Assembler.Lexer.{
  skip_ws, scan_word, read_number, number_token, name_token, dot_token, token_at, next_token,
  tokenize, tokenize_line,
}
use cputwo.Assembler.State.{
  Asm, find_symbol, find_sym_index, change_symbol, new_symbol, with_symbol, put_byte, advance,
  emit_byte, emit_word,
}
use cputwo.Assembler.Expr.{
  second, is_second, fits64, checked, symbol_value, operand, first_operand, eval_tail, eval_expr,
}
use cputwo.Assembler.Opcodes.{
  OpcodeEntry, fmt_call, fmt_movi32, fmt_i_signed, find_row, find_opcode, instr_size,
}
use cputwo.Assembler.Operands.{
  numbered_register, parse_register, register_named, register, expect_comma, expression,
  peek_addend, relocatable, with_addend, peek_sym_ref,
}
use cputwo.Assembler.Encode.{
  word, reloc, enc_j, in_range, check_range, one_word, two_words, encode_relative, encode_target,
  encode_halves, encode_movi32, encode,
}
use cputwo.Assembler.Encode.Immediate.{decode-encode_immediate}
use cputwo.Assembler.Encode.Target.{
  execute-encode_call, execute-encode_movi32, execute-patch-encode_call,
}
use cputwo.Assembler.Encode.Fields.{DecodedI}
use cputwo.Assembler.Encode.Range.{assemble_instruction_immediate}
use cputwo.Assembler.Directive.{
  directive, with_value, word_value, process_word, run_directive, process_directive, emit_items,
  fmt_size, finish_instruction, assemble_instruction, skip_labels, assemble_statement,
  assemble_line,
}
use cputwo.Assembler.Passes.{
  report, define_label, define_labels, data_size, sized, directive_size, pass1_directive,
  pass1_statement, pass1_line, pass2_line, pass1_lines, pass2_lines, pass1, pass2, reset, assemble,
}
use cputwo.Assembler.Address.Program.{AllOneLabel, between, assemble_addresses}

abbrev code_lines : List (List ℕ)
code_lines = bytes_of "start: movi32 r1, tab" ∷ bytes_of " call start ; again" ∷ []

abbrev data_lines : List (List ℕ)
data_lines = bytes_of "tab: .word 7" ∷ []

one_label : AllOneLabel (code_lines ++ data_lines)
unfolding tokenize_line tokenize next_token token_at skip_ws scan_word read_number read_digits
    digit_value name_token number_token dot_token is_digit is_alpha is_alnum take
one_label = (tt, (tt, (tt, tt)))

no_error :
    ((assemble false (code_lines ++ data_lines)).error_count ≡ 0)
    × ((assemble false (code_lines ++ data_lines)).went_wrong ≡ false)
unfolding tokenize_line tokenize next_token token_at skip_ws scan_word read_number read_digits
    digit_value name_token number_token dot_token is_digit is_alpha is_alnum take same_name
    same_nocase to_upper assemble pass1 pass2 pass1_lines pass2_lines pass1_line pass2_line report
    define_labels define_label with_symbol find_symbol change_symbol pass1_statement pass1_directive
    directive directive_size sized data_size instr_size skip_labels advance assemble_line
    assemble_statement assemble_instruction find_opcode find_row finish_instruction fmt_size encode
    encode_movi32 encode_target encode_relative encode_halves register register_named parse_register
    numbered_register expect_comma expression eval_expr first_operand operand eval_tail symbol_value
    checked fits64 check_range in_range is_second one_word two_words enc_j emit_items emit_word
    emit_byte put_byte process_directive run_directive process_word with_value word_value
no_error = (refl, refl)

-- The data stand at address 12 in both passes.
assemble_addresses_example :
    let here = pass2_lines code_lines (between false (code_lines ++ data_lines)) in
    let address = (pass1_lines code_lines (reset false)).org_addr in
    (here.org_addr ≡ address) × (here.write_pos ≡ address)
assemble_addresses_example =
    assemble_addresses false code_lines data_lines one_label no_error.0 no_error.1

abbrev addi : OpcodeEntry
addi = record { mnemonic = bytes_of "ADDI"; opcode = 0x14; fmt = fmt_i_signed; cond = 0 }

registers : (parse_register (bytes_of "r1") ≡ some 1) × (parse_register (bytes_of "SP") ≡ some 13)
unfolding parse_register numbered_register same_nocase to_upper read_digits digit_value is_digit
registers = (refl, refl)

minus_four :
    (eval_expr second [] (minus ∷ int (pos 4) ∷ []) ≡ ok (negsuc 3, []))
    × (in_range 32768 32767 (negsuc 3) ≡ true)
unfolding eval_expr first_operand operand eval_tail checked fits64 in_range
minus_four = (refl, refl)

decode-encode_immediate_example :
    (w : ℕ) × (encode
        (reset false)
        second
        addi
        fmt_i_signed
        (ident (bytes_of "r1") ∷ comma ∷ ident (bytes_of "SP") ∷ comma ∷ minus ∷ int (pos 4) ∷ [])
      ≡ ok (word w ∷ [], []))
    × ((decode w).op ≡ 0x14)
    × ((decode w).rd ≡ 1)
    × ((decode w).rs1 ≡ 13)
    × ((decode w).simm ≡ low_bits 32 (negsuc 3))
decode-encode_immediate_example =
    decode-encode_immediate (reset false) addi (bytes_of "r1") (bytes_of "SP") 1 13
      (minus ∷ int (pos 4) ∷ []) [] (negsuc 3) (omega arith) registers.0 registers.1 minus_four.0
      minus_four.1

abbrev call : OpcodeEntry
call = record { mnemonic = bytes_of "CALL"; opcode = 0x0e; fmt = fmt_call; cond = 0 }

number :
    (eval_expr second [] (int (pos 0x100) ∷ []) ≡ ok (pos 0x100, []))
    × (out_of_range 0x100 0 ≡ false)
unfolding eval_expr first_operand operand eval_tail out_of_range
number = (refl, refl)

execute-encode_call_example :
    (w : ℕ) × (encode (reset false) second call fmt_call (int (pos 0x100) ∷ [])
      ≡ ok (word w ∷ [], []))
    × (opcode_of (decode w).op ≡ jmp)
    × ((execute idle jmp (decode w) 0 blank).cpu.r 15 ≡ 0x100)
    × ((execute idle jmp (decode w) 0 blank).cpu.r 14 ≡ blank.cpu.r 15)
execute-encode_call_example =
    execute-encode_call (reset false) call (int (pos 0x100) ∷ []) [] 0x100 idle blank refl number.0
      (omega arith) (omega arith) number.1

abbrev movi32 : OpcodeEntry
movi32 = record { mnemonic = bytes_of "MOVI32"; opcode = 0x0f; fmt = fmt_movi32; cond = 0 }

execute-encode_movi32_example :
    (w w2 : ℕ) × (encode
        (reset false)
        second
        movi32
        fmt_movi32
        (ident (bytes_of "r1") ∷ comma ∷ minus ∷ int (pos 4) ∷ [])
      ≡ ok (word w ∷ word w2 ∷ [], []))
    × (opcode_of (decode w).op ≡ movi)
    × (opcode_of (decode w2).op ≡ movhi)
    × ((execute idle movhi (decode w2) 8 (execute idle movi (decode w) 4 blank)).cpu.r 1
        ≡ low_bits 32 (negsuc 3))
execute-encode_movi32_example =
    execute-encode_movi32 (reset false) movi32 (bytes_of "r1") 1 (minus ∷ int (pos 4) ∷ []) []
      (negsuc 3) idle blank 4 8 refl registers.0 minus_four.0

-- An object file that knows the external symbol `puts`.
abbrev with_puts : Asm
with_puts = record (reset true) {
  symtab = record (new_symbol (bytes_of "puts")) { is_extern = true } ∷ [];
}

puts : peek_sym_ref with_puts.symtab (ident (bytes_of "puts") ∷ []) ≡ some (0, true, 0)
unfolding peek_sym_ref parse_register numbered_register same_nocase to_upper read_digits digit_value
    is_digit peek_addend relocatable with_addend find_sym_index same_name entry
puts = refl

execute-patch-encode_call_example :
    (w w' : ℕ) × (encode with_puts second call fmt_call (ident (bytes_of "puts") ∷ [])
      ≡ ok (reloc reloc_jump20 0 0 ∷ word w ∷ [], ident (bytes_of "puts") ∷ []))
    × (patch reloc_jump20 w 0x100 0 ≡ some w')
    × (opcode_of (decode w').op ≡ jmp)
    × ((execute idle jmp (decode w') 0 blank).cpu.r 15 ≡ 0x100)
    × ((execute idle jmp (decode w') 0 blank).cpu.r 14 ≡ blank.cpu.r 15)
execute-patch-encode_call_example =
    execute-patch-encode_call with_puts call (ident (bytes_of "puts") ∷ []) 0 0 0x100 0 idle blank
      refl puts (omega arith) (omega arith) number.1

addi_found : find_opcode (bytes_of "addi") ≡ some addi
unfolding find_opcode find_row same_nocase to_upper
addi_found = refl

large : eval_expr second [] (int (pos 40000) ∷ []) ≡ ok (pos 40000, [])
unfolding eval_expr first_operand operand eval_tail
large = refl

-- 40000 is too large.
assemble_instruction_immediate_example :
    let next =
      assemble_instruction second
        (bytes_of "addi")
        (ident (bytes_of "r1") ∷ comma ∷ ident (bytes_of "SP") ∷ comma ∷ int (pos 40000) ∷ [])
        (reset false) in
    (0 ≤ 32768
      → 40000 ≤ 32767
      → (w : ℕ) × (next ≡ emit_word w (reset false))
        × DecodedI w 0x14 1 13 (low_bits 16 (pos 40000)))
    × ((32768 < 0) ⊎ (32767 < 40000)
        → next ≡ record (reset false) { error_count = (reset false).error_count + 1 })
assemble_instruction_immediate_example =
    assemble_instruction_immediate (reset false) (bytes_of "addi") (bytes_of "r1") (bytes_of "SP")
      addi 32768 32767 1 13 (int (pos 40000) ∷ []) [] (pos 40000) addi_found refl (omega arith)
      registers.0 registers.1 large
