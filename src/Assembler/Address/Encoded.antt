-- ===== src/Assembler/Address/Encoded.antt =====
-- The words that `assemble_line` emits for an instruction take the size of its format.
use cputwo.Base.{
  ℕ, ◌+◌, ◌≡◌, Bool, true, false, ◌&&◌, not, Option, none, some, List, [], ◌∷◌, if◌then◌else◌,
  if_intro, refl,
}
use cputwo.Base.Int.{ℤ}
use cputwo.Assembler.Token.{Token}
use cputwo.Assembler.Parse
use cputwo.Assembler.Parse.{Parse, ok, bad, undefined}
use cputwo.Assembler.Parser.{Parser}
use cputwo.Assembler.State.{Asm}
use cputwo.Assembler.Expr.{Pass, is_second}
use cputwo.Assembler.Opcodes.{
  InstrFmt, fmt_r3, fmt_r2, fmt_rshift, fmt_i_signed, fmt_i_unsigned, fmt_i_shift, fmt_mem,
  fmt_branch, fmt_jump, fmt_movi, fmt_movhi, fmt_none, fmt_movi32, fmt_cmp, fmt_cmpi, fmt_ret,
  fmt_br, fmt_call, fmt_push, fmt_pop, fmt_mem_idx, OpcodeEntry,
}
use cputwo.Assembler.Operands.{
  register, expect_comma, expect_lbracket, expect_rbracket, expression, parse_mem_operand,
  index_register, peek_sym_ref,
}
use cputwo.Assembler.Encode.{
  Item, word, reloc, complain, in_range, check_range, check_always, one_word, two_words, encode_imm,
  encode_movi, encode_relative, encode_target, encode_halves, encode_movi32, cmpi_items, encode,
  enc_j,
}
use cputwo.Assembler.Directive.{fmt_size}
use cputwo.Linker.Reloc.{reloc_movi32_lo, reloc_movi32_hi}

-- The bytes of the words among the items.
abbrev pub item_bytes : List Item → ℕ
item_bytes [] = 0
item_bytes (word w ∷ items) = 4 + item_bytes items
item_bytes (reloc kind i addend ∷ items) = item_bytes items
item_bytes (complain ∷ items) = item_bytes items

-- Items of so many bytes, where there are any.
abbrev pub Emits : ℕ → Parse (List Item × List Token) → Type 0
Emits n (ok (items, rest)) = item_bytes items ≡ n
Emits n bad = Unit {0}
Emits n undefined = Unit {0}

-- Whatever is parsed first, what follows decides.
bind-Emits {ℓ} :
    {A : Type ℓ} (n : ℕ) (p : Parse (A × List Token)) (f : A → Parser (List Item))
    → ((a : A) (ts : List Token) → Emits n (f a ts))
    → Emits n (Parse.◌>>=◌ p λ (a, rest). f a rest)
bind-Emits n (ok (a, rest)) f h = h a rest
bind-Emits n bad f h = tt
bind-Emits n undefined f h = tt

encode_imm-Emits :
    (st : Asm) (pass : Pass) (opcode low high : ℕ) (ts : List Token)
    → Emits 4 (encode_imm st pass opcode low high ts)
unfolding encode_imm one_word
encode_imm-Emits st pass opcode low high ts = bind-Emits 4 (register ts) _ λ rd t1.
    bind-Emits 4 (expect_comma t1) _ λ u t2. bind-Emits 4 (register t2) _ λ rs1 t3.
      bind-Emits 4 (expect_comma t3) _ λ u' t4.
        bind-Emits 4 (expression pass st.symtab t4) _
          λ imm t5. bind-Emits 4 (check_range pass low high imm t5) _ λ u'' t6. refl

-- A register and a comma, and what follows.
first_register :
    (n : ℕ) (f : ℕ → Parser (List Item)) (ts : List Token)
    → ((rd : ℕ) (rest : List Token) → Emits n (f rd rest))
    → Emits n
        (Parse.◌>>=◌ (register ts) λ (rd, t1). Parse.◌>>=◌ (expect_comma t1) λ (u, rest). f rd rest)
first_register n f ts h =
    bind-Emits n (register ts) _ λ rd t1. bind-Emits n (expect_comma t1) _ λ u rest. h rd rest

encode_movi-Emits :
    (st : Asm) (pass : Pass) (opcode : ℕ) (ts : List Token)
    → Emits 4 (encode_movi st pass opcode ts)
unfolding encode_movi one_word
encode_movi-Emits st pass opcode ts = first_register 4 _ ts λ rd t2.
    bind-Emits 4 (expression pass st.symtab t2) _
      λ imm t3. bind-Emits 4 (check_range pass 0 65535 imm t3) _ λ u t4. refl

encode_relative-Emits :
    (st : Asm) (pass : Pass) (opcode rd : ℕ) (ts : List Token)
    → Emits 4 (encode_relative st pass opcode rd ts)
unfolding encode_relative one_word
encode_relative-Emits st pass opcode rd ts =
    bind-Emits 4 (expression pass st.symtab ts) _ λ target t1.
      bind-Emits 4 _ _
        λ offset t2. bind-Emits 4 (check_range pass 524288 524287 offset t2) _ λ u t3. refl

encode_halves-Emits :
    (st : Asm) (pass : Pass) (rd : ℕ) (ts : List Token) → Emits 8 (encode_halves st pass rd ts)
unfolding encode_halves two_words
encode_halves-Emits st pass rd ts = bind-Emits 8 (expression pass st.symtab ts) _ λ v t1. refl

encode_target-Emits :
    (st : Asm) (pass : Pass) (kind opcode rd : ℕ) (ts : List Token)
    → Emits 4 (encode_target st pass kind opcode rd ts)
unfolding encode_target
encode_target-Emits st pass kind opcode rd ts =
    if_intro (Emits 4) (st.object_mode && is_second pass)
      (λ e. by_symbol (peek_sym_ref st.symtab ts)) (λ e. encode_relative-Emits st pass opcode rd ts)
  where
    by_symbol :
        (o : Option (ℕ × Bool × ℕ))
        → Emits 4 (elim o [
          | some (i, ext, addend) ↦
              if ext
              then ok (reloc kind i addend ∷ word (enc_j opcode rd 0) ∷ [], ts)
              else encode_relative st pass opcode rd ts
          | none ↦ encode_relative st pass opcode rd ts
        ])
    by_symbol (some (i, true, addend)) = refl
    by_symbol (some (i, false, addend)) = encode_relative-Emits st pass opcode rd ts
    by_symbol none = encode_relative-Emits st pass opcode rd ts

encode_movi32-Emits :
    (st : Asm) (pass : Pass) (rd : ℕ) (ts : List Token) → Emits 8 (encode_movi32 st pass rd ts)
unfolding encode_movi32
encode_movi32-Emits st pass rd ts =
    if_intro (Emits 8) (st.object_mode && is_second pass)
      (λ e. by_symbol (peek_sym_ref st.symtab ts)) (λ e. encode_halves-Emits st pass rd ts)
  where
    by_symbol :
        (o : Option (ℕ × Bool × ℕ))
        → Emits 8 (elim o [
          | some (i, ext, addend) ↦ ok (
            reloc reloc_movi32_lo i addend
                ∷ word (enc_j 0x0f rd 0)
                ∷ reloc reloc_movi32_hi i addend
                ∷ word (enc_j 0x13 rd 0)
                ∷ [],
            ts,
          )
          | none ↦ encode_halves st pass rd ts
        ])
    by_symbol (some (i, ext, addend)) = refl
    by_symbol none = encode_halves-Emits st pass rd ts

cmpi-Emits :
    (pass : Pass) (w : ℕ) (imm : ℤ) (ts : List Token) → Emits 4 (ok (cmpi_items pass w imm, ts))
unfolding cmpi_items
cmpi-Emits pass w imm ts =
    if_intro (λ items. item_bytes items ≡ 4) (is_second pass && not (in_range 0 65535 imm))
      (λ e. refl) (λ e. refl)

-- Every format, in both passes.
pub encode-Emits :
    (st : Asm) (pass : Pass) (e : OpcodeEntry) (fmt : InstrFmt) (ts : List Token)
    → Emits (fmt_size fmt) (encode st pass e fmt ts)
unfolding encode one_word two_words fmt_size
encode-Emits st pass e fmt_none ts = refl
encode-Emits st pass e fmt_r3 ts =
    first_register 4 _ ts
      λ rd t1. first_register 4 _ t1 λ rs1 t2. bind-Emits 4 (register t2) _ λ rs2 t3. refl
encode-Emits st pass e fmt_r2 ts =
    first_register 4 _ ts λ rd t1. bind-Emits 4 (register t1) _ λ rs1 t2. refl
encode-Emits st pass e fmt_rshift ts = first_register 4 _ ts λ rd t1.
    first_register 4 _ t1 λ rs1 t2.
      bind-Emits 4 (expression pass st.symtab t2) _
        λ v t3. bind-Emits 4 (check_always 0 31 v t3) _ λ u t4. refl
encode-Emits st pass e fmt_i_signed ts = encode_imm-Emits st pass e.opcode 32768 32767 ts
encode-Emits st pass e fmt_i_unsigned ts = encode_imm-Emits st pass e.opcode 0 65535 ts
encode-Emits st pass e fmt_i_shift ts = encode_imm-Emits st pass e.opcode 0 31 ts
encode-Emits st pass e fmt_movi ts = encode_movi-Emits st pass e.opcode ts
encode-Emits st pass e fmt_movhi ts = encode_movi-Emits st pass e.opcode ts
encode-Emits st pass e fmt_mem ts =
    first_register 4 _ ts λ rd t1. bind-Emits 4 (parse_mem_operand pass st.symtab t1) _ λ p t2. refl
encode-Emits st pass e fmt_branch ts = encode_target-Emits st pass _ _ _ ts
encode-Emits st pass e fmt_jump ts =
    first_register 4 _ ts λ rd t1. encode_target-Emits st pass _ _ rd t1
encode-Emits st pass e fmt_call ts = encode_target-Emits st pass _ _ _ ts
encode-Emits st pass e fmt_movi32 ts =
    first_register 8 _ ts λ rd t1. encode_movi32-Emits st pass rd t1
encode-Emits st pass e fmt_cmp ts =
    first_register 4 _ ts λ rs1 t1. bind-Emits 4 (register t1) _ λ rs2 t2. refl
encode-Emits st pass e fmt_cmpi ts =
    first_register 4 _ ts
      λ rs1 t1. bind-Emits 4 (expression pass st.symtab t1) _ λ imm t2. cmpi-Emits pass _ imm t2
encode-Emits st pass e fmt_ret ts = refl
encode-Emits st pass e fmt_br ts = bind-Emits 4 (register ts) _ λ rs1 t1. refl
encode-Emits st pass e fmt_push ts = bind-Emits 8 (register ts) _ λ rd t1. refl
encode-Emits st pass e fmt_pop ts = bind-Emits 8 (register ts) _ λ rd t1. refl
encode-Emits st pass e fmt_mem_idx ts = first_register 4 _ ts λ rd t1.
    bind-Emits 4 (expect_lbracket t1) _ λ u t2. bind-Emits 4 (register t2) _ λ rs1 t3.
      bind-Emits 4 (index_register t3) _ λ rs2 t4. bind-Emits 4 (expect_rbracket t4) _ λ u' t5. refl
