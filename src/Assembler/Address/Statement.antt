-- ===== src/Assembler/Address/Statement.antt =====
-- The parts of a statement in the second pass.
use cputwo.Base.{
  ℕ, ◌-◌, ◌^◌, ◌<◌, ◌≡◌, Bool, ◌&&◌, Option, none, some, List, [], ◌∷◌, ltb, if_intro, add32, sub32,
  not32, refl, sym, arith, ap,
}
use cputwo.Base.Bits.{bit_and-le}
use cputwo.Base.Int.{ℤ}
use cputwo.Assembler.Token.{Token}
use cputwo.Assembler.Parse.{Parse, ok, bad, undefined}
use cputwo.Assembler.State.{Asm, asm_error, emit_reloc, emit_word}
use cputwo.Assembler.Expr.{second, is_second, eval_expr}
use cputwo.Assembler.Opcodes.{OpcodeEntry, find_opcode, instr_size}
use cputwo.Assembler.Operands.{peek_sym_ref}
use cputwo.Assembler.Encode.{Item, word, reloc, complain, encode}
use cputwo.Assembler.Directive.{
  aligned, with_value, word_value, byte_value, fill_to, process_org, process_word, process_byte,
  process_align, set_value, emit_items, fmt_size, finish_instruction, assemble_instruction,
}
use cputwo.Assembler.Address.Arrives.{
  Later, Arrives, Later-refl, Arrives-at, Arrives-refl, asm_error-Arrives, go_wrong-Arrives,
  after_error,
}
use cputwo.Assembler.Address.Emit.{
  move, then_move, emit_byte-Arrives, emit_word-Arrives, emit_zeros-Arrives, emit_reloc-Arrives,
  emit_reloc-SameOrg, with_symbol-Arrives,
}
use cputwo.Assembler.Address.Size.{instr_size-find_opcode}
use cputwo.Assembler.Address.Encoded.{item_bytes, Emits, encode-Emits}

emit_items-Arrives :
    (items : List Item) (st : Asm)
    → st.org_addr < 2 ^ 32
    → Arrives (add32 st.org_addr (item_bytes items)) st (emit_items items st)
unfolding emit_items
emit_items-Arrives [] st h = Arrives-at (omega arith) (Arrives-refl st)
emit_items-Arrives (word w ∷ items) st h =
    let p = emit_word-Arrives w st in
    move 4 (item_bytes items) p (emit_items-Arrives items (emit_word w st) (p.in_word h))
emit_items-Arrives (reloc kind i addend ∷ items) st h =
    let p = emit_reloc-Arrives kind i addend st in
    then_move (item_bytes items) (emit_reloc-SameOrg kind i addend st) p
      (emit_items-Arrives items (emit_reloc kind i addend st) (p.in_word h))
emit_items-Arrives (complain ∷ items) st h =
    let p = asm_error-Arrives (asm_error st).org_addr st in
    after_error _ (emit_items-Arrives items (asm_error st) (p.in_word h))

-- An instruction advances by the size that its name has in pass 1.
finish-Arrives :
    (n : ℕ) (r : Parse (List Item × List Token)) (st : Asm)
    → st.org_addr < 2 ^ 32
    → Emits n r
    → Arrives (add32 st.org_addr n) st (finish_instruction second n r st)
unfolding finish_instruction
finish-Arrives n (ok (items, rest)) st h e =
    Arrives-at (ap (add32 st.org_addr) e) (emit_items-Arrives items st h)
finish-Arrives n bad st h e = asm_error-Arrives _ st
finish-Arrives n undefined st h e = go_wrong-Arrives _ st

pub assemble_instruction-Arrives :
    (mnem : List ℕ) (ts : List Token) (st : Asm)
    → st.org_addr < 2 ^ 32
    → Arrives (add32 st.org_addr (instr_size mnem)) st (assemble_instruction second mnem ts st)
unfolding assemble_instruction
assemble_instruction-Arrives mnem ts st h = by_row (find_opcode mnem) refl
  where
    by_row :
        (found : Option OpcodeEntry)
        → find_opcode mnem ≡ found
        → Arrives (add32 st.org_addr (instr_size mnem)) st (elim found [
          | some e ↦ finish_instruction second (fmt_size e.fmt) (encode st second e e.fmt ts) st
          | none ↦ asm_error st
        ])
    by_row (some e) f =
        Arrives-at (ap (add32 st.org_addr) (sym (instr_size-find_opcode mnem e f)))
          (finish-Arrives (fmt_size e.fmt) _ st h (encode-Emits st second e e.fmt ts))
    by_row none f = asm_error-Arrives _ st

word-Arrives :
    (r : Parse (ℤ × List Token)) (st : Asm)
    → Arrives (add32 st.org_addr 4) st (with_value r st (word_value second))
unfolding with_value word_value
word-Arrives (ok (v, rest)) st = emit_word-Arrives _ st
word-Arrives bad st = after_error _ (emit_word-Arrives _ (asm_error st))
word-Arrives undefined st = go_wrong-Arrives _ st

byte-Arrives :
    (r : Parse (ℤ × List Token)) (st : Asm)
    → Arrives (add32 st.org_addr 1) st (with_value r st (byte_value second))
unfolding with_value byte_value
byte-Arrives (ok (v, rest)) st = emit_byte-Arrives _ st
byte-Arrives bad st = after_error _ (emit_byte-Arrives _ (asm_error st))
byte-Arrives undefined st = go_wrong-Arrives _ st

pub process_word-Arrives :
    (ts : List Token) (st : Asm) → Arrives (add32 st.org_addr 4) st (process_word second ts st)
unfolding process_word
process_word-Arrives [] st = asm_error-Arrives _ st
process_word-Arrives (t ∷ ts) st =
    let plain = word-Arrives (eval_expr second st.symtab (t ∷ ts)) st in
    if_intro (Arrives (add32 st.org_addr 4) st) (st.object_mode && is_second second)
      (λ e. by_symbol (peek_sym_ref st.symtab (t ∷ ts)) plain) (λ e. plain)
  where
    by_symbol :
        (o : Option (ℕ × Bool × ℕ)) {other : Asm}
        → Arrives (add32 st.org_addr 4) st other
        → Arrives (add32 st.org_addr 4) st (elim o [
          | some (i, ext, addend) ↦ emit_word 0 (emit_reloc 1 i addend st)
          | none ↦ other
        ])
    by_symbol (some (i, ext, addend)) p =
        then_move 4 (emit_reloc-SameOrg 1 i addend st) (emit_reloc-Arrives 1 i addend st)
          (emit_word-Arrives 0 _)
    by_symbol none p = p

pub process_byte-Arrives :
    (ts : List Token) (st : Asm) → Arrives (add32 st.org_addr 1) st (process_byte second ts st)
unfolding process_byte
process_byte-Arrives [] st = asm_error-Arrives _ st
process_byte-Arrives (t ∷ ts) st = byte-Arrives (eval_expr second st.symtab (t ∷ ts)) st

aligned-lt : (a addr : ℕ) → addr < 2 ^ 32 → aligned a addr < 2 ^ 32
unfolding aligned
aligned-lt a addr h =
    if_intro (λ x. x < 2 ^ 32) (ltb 1 a)
      (λ e.
        omega (
          arith,
          bit_and-le (add32 addr (a - 1)) (add32 addr (a - 1)) (not32 (a - 1)) (omega arith),
        ))
      (λ e. h)

pub process_align-Arrives :
    (a : ℕ) (st : Asm)
    → st.org_addr < 2 ^ 32
    → Arrives (aligned a st.org_addr) st (process_align second a st)
unfolding process_align
process_align-Arrives a st h =
    let top = aligned-lt a st.org_addr h in
    Arrives-at (omega arith) (emit_zeros-Arrives (sub32 (aligned a st.org_addr) st.org_addr) st h)

fill_to-Later : (new_addr : ℕ) (st : Asm) → st.org_addr < 2 ^ 32 → Later st (fill_to new_addr st)
unfolding fill_to
fill_to-Later new_addr st h =
    if_intro (Later st) (ltb st.org_addr new_addr)
      (λ e. (emit_zeros-Arrives (new_addr - st.org_addr) st h).later)
      λ e.
        if_intro (Later st) (ltb new_addr st.org_addr) (λ e'. (asm_error-Arrives 0 st).later)
          (λ e'. Later-refl st)

pub process_org-Arrives :
    (new_addr : ℕ) (st : Asm)
    → st.org_addr < 2 ^ 32
    → new_addr < 2 ^ 32
    → Arrives new_addr st (process_org second new_addr st)
unfolding process_org
process_org-Arrives new_addr st h k =
    let l = fill_to-Later new_addr st h in
    record {
      later = record { errors = l.errors; wrong = l.wrong };
      org = λ c. refl;
      pos = λ c e. refl;
      in_word = λ i. k;
    }

pub set_value-Arrives :
    (name : List ℕ) (r : Parse (ℤ × List Token)) (st : Asm)
    → Arrives st.org_addr st (set_value name r st)
unfolding set_value
set_value-Arrives name (ok (v, rest)) st = with_symbol-Arrives _ name st
set_value-Arrives name bad st = asm_error-Arrives _ st
set_value-Arrives name undefined st = go_wrong-Arrives _ st
