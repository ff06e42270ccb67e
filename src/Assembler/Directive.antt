-- ===== src/Assembler/Directive.antt =====
-- `process_directive`, `directive_size` and `assemble_line`.
use cputwo.Base.{
  ℕ, ◌-◌, true, ◌&&◌, none, some, List, [], ◌∷◌, ltb, length, if◌then◌else◌, bit_and, u32, add32,
  sub32, not32, ◌++◌,
}
use cputwo.Base.Int.{ℤ, pos, low_bits}
use cputwo.Base.Text.{bytes_of, same_nocase, c_string}
use cputwo.Assembler.Token.{Token, ident, int, string, comma, colon, dot_ident}
use cputwo.Assembler.Parse.{Parse, ok, bad, undefined}
use cputwo.Assembler.State.{
  Asm, asm_error, go_wrong, with_symbol, emit_reloc, advance, emit_byte, emit_word, emit_zeros,
  emit_bytes,
}
use cputwo.Assembler.Expr.{Pass, first, second, is_second, eval_expr}
use cputwo.Assembler.Opcodes.{InstrFmt, fmt_movi32, fmt_push, fmt_pop, find_opcode}
use cputwo.Assembler.Operands.{peek_sym_ref}
use cputwo.Assembler.Encode.{Item, word, reloc, complain, encode}
use cputwo.Linker.Reloc.{reloc_abs32}

-- The directives, by their names.
pub data Dir : Type 0 where
  dir_org dir_extern dir_section dir_global dir_word dir_byte dir_space : Dir
  dir_ascii dir_asciiz dir_align dir_equ dir_unknown : Dir

unfoldable pub directive : List ℕ → Dir
directive dir =
    if same_nocase dir (bytes_of ".org")
    then dir_org
    else if same_nocase dir (bytes_of ".extern")
    then dir_extern
    else if same_nocase dir (bytes_of ".section")
    then dir_section
    else if same_nocase dir (bytes_of ".global")
    then dir_global
    else if same_nocase dir (bytes_of ".word")
    then dir_word
    else if same_nocase dir (bytes_of ".byte")
    then dir_byte
    else if same_nocase dir (bytes_of ".space")
    then dir_space
    else if same_nocase dir (bytes_of ".ascii")
    then dir_ascii
    else if same_nocase dir (bytes_of ".asciiz")
    then dir_asciiz
    else if same_nocase dir (bytes_of ".align")
    then dir_align
    else if same_nocase dir (bytes_of ".equ")
    then dir_equ
    else dir_unknown

-- The address that a multiple of `align_val` rounds up to.
unfoldable pub aligned : ℕ → ℕ → ℕ
aligned align_val addr =
    if ltb 1 align_val then bit_and (add32 addr (align_val - 1)) (not32 (align_val - 1)) else addr

-- `.org` fills up to the new address, which must not lie behind.
unfoldable pub fill_to : ℕ → Asm → Asm
fill_to new_addr st =
    if ltb st.org_addr new_addr
    then emit_zeros (new_addr - st.org_addr) st
    else if ltb new_addr st.org_addr
    then asm_error st
    else st

unfoldable pub process_org : Pass → ℕ → Asm → Asm
process_org first new_addr st = record st { org_addr = new_addr }
process_org second new_addr st = record (fill_to new_addr st) {
  org_addr = new_addr;
  write_pos = new_addr;
}

-- `if (pass == 2) emit …; else org_addr += n;`
unfoldable pub emit_or_advance : Pass → List ℕ → Asm → Asm
emit_or_advance first bytes st = advance (u32 (length bytes)) st
emit_or_advance second bytes st = emit_bytes bytes st

-- The value of an argument, 0 after an error that has been reported.
unfoldable pub with_value : Parse (ℤ × List Token) → Asm → (ℤ → Asm → Asm) → Asm
with_value (ok (v, rest)) st use_it = use_it v st
with_value bad st use_it = use_it (pos 0) (asm_error st)
with_value undefined st use_it = go_wrong st

unfoldable pub word_value : Pass → ℤ → Asm → Asm
word_value first v st = advance 4 st
word_value second v st = emit_word (low_bits 32 v) st

unfoldable pub byte_value : Pass → ℤ → Asm → Asm
byte_value first v st = advance 1 st
byte_value second v st = emit_byte (low_bits 8 v) st

-- `.word` of a symbol in an object file is a relocation.
unfoldable pub process_word : Pass → List Token → Asm → Asm
process_word pass [] st = asm_error st
process_word pass (t ∷ ts) st =
    let plain = with_value (eval_expr pass st.symtab (t ∷ ts)) st (word_value pass) in
    if st.object_mode && is_second pass
    then elim (peek_sym_ref st.symtab (t ∷ ts)) [
      | some (i, ext, addend) ↦ emit_word 0 (emit_reloc reloc_abs32 i addend st)
      | none ↦ plain
    ]
    else plain

unfoldable pub process_byte : Pass → List Token → Asm → Asm
process_byte pass [] st = asm_error st
process_byte pass (t ∷ ts) st = with_value (eval_expr pass st.symtab (t ∷ ts)) st (byte_value pass)

unfoldable pub process_space : Pass → ℕ → Asm → Asm
process_space first n st = advance n st
process_space second n st = emit_zeros n st

unfoldable pub process_align : Pass → ℕ → Asm → Asm
process_align first align_val st = record st { org_addr = aligned align_val st.org_addr }
process_align second align_val st =
    emit_zeros (sub32 (aligned align_val st.org_addr) st.org_addr) st

-- The symbol is set only when the value has been found.
unfoldable pub set_value : List ℕ → Parse (ℤ × List Token) → Asm → Asm
set_value name (ok (v, rest)) st =
    with_symbol (λ s. record s { addr = low_bits 32 v; defined = true }) name st
set_value name bad st = asm_error st
set_value name undefined st = go_wrong st

unfoldable pub run_directive : Pass → Dir → List Token → Asm → Asm
run_directive pass dir_org (int v ∷ ts) st = process_org pass (low_bits 32 v) st
run_directive pass dir_org ts st = asm_error st
run_directive pass dir_extern ts st = st
run_directive pass dir_section ts st = st
run_directive pass dir_global (ident name ∷ ts) st =
    with_symbol (λ s. record s { is_global = true }) name st
run_directive pass dir_global ts st = st
run_directive pass dir_word ts st = process_word pass ts st
run_directive pass dir_byte ts st = process_byte pass ts st
run_directive pass dir_space (int v ∷ ts) st = process_space pass (low_bits 32 v) st
run_directive pass dir_space ts st = asm_error st
run_directive pass dir_ascii (string s ∷ ts) st = emit_or_advance pass (c_string s) st
run_directive pass dir_ascii ts st = asm_error st
run_directive pass dir_asciiz (string s ∷ ts) st = emit_or_advance pass (c_string s ++ 0 ∷ []) st
run_directive pass dir_asciiz ts st = asm_error st
run_directive pass dir_align (int v ∷ ts) st = process_align pass (low_bits 32 v) st
run_directive pass dir_align ts st = asm_error st
run_directive pass dir_equ (ident name ∷ comma ∷ ts) st =
    set_value name (eval_expr pass st.symtab ts) st
run_directive pass dir_equ ts st = asm_error st
run_directive pass dir_unknown ts st = asm_error st

unfoldable pub process_directive : Pass → List ℕ → List Token → Asm → Asm
process_directive pass dir ts st = run_directive pass (directive dir) ts st

-- What pass 2 emits for an instruction.
unfoldable pub emit_items : List Item → Asm → Asm
emit_items [] st = st
emit_items (word w ∷ items) st = emit_items items (emit_word w st)
emit_items (reloc kind i addend ∷ items) st = emit_items items (emit_reloc kind i addend st)
emit_items (complain ∷ items) st = emit_items items (asm_error st)

-- The 4 or 8 bytes by which pass 1 advances, also after an error.
unfoldable pub fmt_size : InstrFmt → ℕ
fmt_size fmt_movi32 = 8
fmt_size fmt_push = 8
fmt_size fmt_pop = 8
fmt_size fmt = 4

unfoldable pub finish_instruction : Pass → ℕ → Parse (List Item × List Token) → Asm → Asm
finish_instruction second size (ok (items, rest)) st = emit_items items st
finish_instruction second size bad st = asm_error st
finish_instruction second size undefined st = go_wrong st
finish_instruction first size (ok (items, rest)) st = advance size st
finish_instruction first size bad st = advance size (asm_error st)
finish_instruction first size undefined st = go_wrong st

unfoldable pub assemble_instruction : Pass → List ℕ → List Token → Asm → Asm
assemble_instruction pass mnem ts st = elim (find_opcode mnem) [
  | some e ↦ finish_instruction pass (fmt_size e.fmt) (encode st pass e e.fmt ts) st
  | none ↦ asm_error st
]

unfoldable pub skip_labels : List Token → List Token
skip_labels (colon name ∷ ts) = skip_labels ts
skip_labels ts = ts

unfoldable pub assemble_statement : Pass → List Token → Asm → Asm
assemble_statement pass [] st = st
assemble_statement pass (dot_ident dir ∷ ts) st = process_directive pass dir ts st
assemble_statement pass (ident mnem ∷ ts) st = assemble_instruction pass mnem ts st
assemble_statement pass ts st = asm_error st

unfoldable pub assemble_line : Pass → List Token → Asm → Asm
assemble_line pass ts st = assemble_statement pass (skip_labels ts) st
