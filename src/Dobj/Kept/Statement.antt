-- ===== src/Dobj/Kept/Statement.antt =====
-- The statements of both passes.
use cputwo.Base.{
  ℕ, ◌-◌, refl, Bool, ◌&&◌, Option, some, none, List, [], ◌∷◌, ◌++◌, ltb, if_intro, sub32,
}
use cputwo.Base.Int.{ℤ, pos, low_bits}
use cputwo.Base.Text.{c_string}
use cputwo.Assembler.Token.{Token, ident, int, string, comma, dot_ident}
use cputwo.Assembler.Parse.{Parse, ok, bad, undefined}
use cputwo.Assembler.State.{Asm, asm_error, emit_reloc, emit_word}
use cputwo.Assembler.Expr.{second, is_second, eval_expr}
use cputwo.Assembler.Opcodes.{OpcodeEntry, find_opcode}
use cputwo.Assembler.Operands.{peek_sym_ref}
use cputwo.Assembler.Encode.{Item, word, reloc, complain, encode}
use cputwo.Assembler.Directive.{
  Dir, dir_org, dir_extern, dir_section, dir_global, dir_word, dir_byte, dir_space, dir_ascii,
  dir_asciiz, dir_align, dir_equ, directive, aligned, with_value, word_value, byte_value, fill_to,
  process_org, process_word, process_byte, process_space, process_align, emit_or_advance, set_value,
  run_directive, process_directive, emit_items, fmt_size, finish_instruction, assemble_instruction,
  assemble_statement,
}
use cputwo.Dobj.Fields.{NoZero}
use cputwo.Dobj.Section.{Fits}
use cputwo.Dobj.Kept.State.{
  with_symbol-Fits, asm_error-Fits, go_wrong-Fits, emit_reloc-Fits, emit_byte-Fits, emit_word-Fits,
  emit_zeros-Fits, emit_bytes-Fits,
}
use cputwo.Dobj.Kept.Tokens.{AllNamed}

-- The second pass.
emit_items-Fits : (items : List Item) (st : Asm) → Fits st → Fits (emit_items items st)
unfolding emit_items
emit_items-Fits [] st fits = fits
emit_items-Fits (word w ∷ items) st fits =
    emit_items-Fits items (emit_word w st) (emit_word-Fits w st fits)
emit_items-Fits (reloc kind i addend ∷ items) st fits =
    emit_items-Fits items (emit_reloc kind i addend st) (emit_reloc-Fits kind i addend st fits)
emit_items-Fits (complain ∷ items) st fits =
    emit_items-Fits items (asm_error st) (asm_error-Fits st fits)

finish-Fits :
    (n : ℕ) (r : Parse (List Item × List Token)) (st : Asm)
    → Fits st
    → Fits (finish_instruction second n r st)
unfolding finish_instruction
finish-Fits n (ok (items, rest)) st fits = emit_items-Fits items st fits
finish-Fits n bad st fits = asm_error-Fits st fits
finish-Fits n undefined st fits = go_wrong-Fits st fits

assemble_instruction-Fits :
    (mnem : List ℕ) (ts : List Token) (st : Asm)
    → Fits st
    → Fits (assemble_instruction second mnem ts st)
unfolding assemble_instruction
assemble_instruction-Fits mnem ts st fits = by_row (find_opcode mnem)
  where
    by_row :
        (found : Option OpcodeEntry)
        → Fits (elim found [
          | some e ↦ finish_instruction second (fmt_size e.fmt) (encode st second e e.fmt ts) st
          | none ↦ asm_error st
        ])
    by_row (some e) = finish-Fits (fmt_size e.fmt) (encode st second e e.fmt ts) st fits
    by_row none = asm_error-Fits st fits

-- A value that is used, or the error of its expression.
with_value-Fits :
    (r : Parse (ℤ × List Token)) (st : Asm) (use_it : ℤ → Asm → Asm)
    → ((v : ℤ) (s : Asm) → Fits s → Fits (use_it v s))
    → Fits st
    → Fits (with_value r st use_it)
unfolding with_value
with_value-Fits (ok (v, rest)) st use_it keeps fits = keeps v st fits
with_value-Fits bad st use_it keeps fits = keeps (pos 0) (asm_error st) (asm_error-Fits st fits)
with_value-Fits undefined st use_it keeps fits = go_wrong-Fits st fits

process_word-Fits : (ts : List Token) (st : Asm) → Fits st → Fits (process_word second ts st)
unfolding process_word word_value
process_word-Fits [] st fits = asm_error-Fits st fits
process_word-Fits (t ∷ ts) st fits =
    let plain =
      with_value-Fits (eval_expr second st.symtab (t ∷ ts)) st (word_value second)
        (λ v s f. emit_word-Fits (low_bits 32 v) s f) fits in
    if_intro Fits (st.object_mode && is_second second)
      (λ e. by_symbol (peek_sym_ref st.symtab (t ∷ ts)) _ plain) (λ e. plain)
  where
    by_symbol :
        (o : Option (ℕ × Bool × ℕ)) (other : Asm)
        → Fits other
        → Fits (elim o [
          | some (i, ext, addend) ↦ emit_word 0 (emit_reloc 1 i addend st)
          | none ↦ other
        ])
    by_symbol (some (i, ext, addend)) other p =
        emit_word-Fits 0 (emit_reloc 1 i addend st) (emit_reloc-Fits 1 i addend st fits)
    by_symbol none other p = p

process_byte-Fits : (ts : List Token) (st : Asm) → Fits st → Fits (process_byte second ts st)
unfolding process_byte byte_value
process_byte-Fits [] st fits = asm_error-Fits st fits
process_byte-Fits (t ∷ ts) st fits =
    with_value-Fits (eval_expr second st.symtab (t ∷ ts)) st (byte_value second)
      (λ v s f. emit_byte-Fits (low_bits 8 v) s f) fits

process_org-Fits : (new_addr : ℕ) (st : Asm) → Fits st → Fits (process_org second new_addr st)
unfolding process_org fill_to
process_org-Fits new_addr st fits =
    if_intro Fits (ltb st.org_addr new_addr) (λ e. emit_zeros-Fits (new_addr - st.org_addr) st fits)
      λ e. if_intro Fits (ltb new_addr st.org_addr) (λ e'. asm_error-Fits st fits) (λ e'. fits)

set_value-Fits :
    (name : List ℕ) (r : Parse (ℤ × List Token)) (st : Asm)
    → NoZero name
    → Fits st
    → Fits (set_value name r st)
unfolding set_value
set_value-Fits name (ok (v, rest)) st named fits = with_symbol-Fits _ name st (λ s. refl) named fits
set_value-Fits name bad st named fits = asm_error-Fits st fits
set_value-Fits name undefined st named fits = go_wrong-Fits st fits

run_directive-Fits :
    (d : Dir) (ts : List Token) (st : Asm)
    → AllNamed ts
    → Fits st
    → Fits (run_directive second d ts st)
unfolding run_directive process_space process_align emit_or_advance
run_directive-Fits dir_org (int v ∷ ts) st named fits = process_org-Fits (low_bits 32 v) st fits
run_directive-Fits dir_extern ts st named fits = fits
run_directive-Fits dir_section ts st named fits = fits
run_directive-Fits dir_global (ident name ∷ ts) st named fits =
    with_symbol-Fits _ name st (λ s. refl) named.0 fits
run_directive-Fits dir_global ts st named fits = fits
run_directive-Fits dir_word ts st named fits = process_word-Fits ts st fits
run_directive-Fits dir_byte ts st named fits = process_byte-Fits ts st fits
run_directive-Fits dir_space (int v ∷ ts) st named fits = emit_zeros-Fits (low_bits 32 v) st fits
run_directive-Fits dir_ascii (string s ∷ ts) st named fits = emit_bytes-Fits (c_string s) st fits
run_directive-Fits dir_asciiz (string s ∷ ts) st named fits =
    emit_bytes-Fits (c_string s ++ 0 ∷ []) st fits
run_directive-Fits dir_align (int v ∷ ts) st named fits =
    emit_zeros-Fits (sub32 (aligned (low_bits 32 v) st.org_addr) st.org_addr) st fits
run_directive-Fits dir_equ (ident name ∷ comma ∷ ts) st named fits =
    set_value-Fits name (eval_expr second st.symtab ts) st named.0 fits
run_directive-Fits d ts st named fits = asm_error-Fits st fits

pub assemble_statement-Fits :
    (ts : List Token) (st : Asm) → AllNamed ts → Fits st → Fits (assemble_statement second ts st)
unfolding assemble_statement process_directive
assemble_statement-Fits [] st named fits = fits
assemble_statement-Fits (dot_ident dir ∷ ts) st named fits =
    run_directive-Fits (directive dir) ts st named.1 fits
assemble_statement-Fits (ident mnem ∷ ts) st named fits = assemble_instruction-Fits mnem ts st fits
assemble_statement-Fits (t ∷ ts) st named fits = asm_error-Fits st fits
