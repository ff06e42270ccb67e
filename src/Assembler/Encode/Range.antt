-- ===== src/Assembler/Encode/Range.antt =====
-- The immediates that ADDI, ANDI, LSLI and their like take in the second pass.
use cputwo.Base.{
  ℕ, ◌+◌, ◌≤◌, ◌<◌, ◌≡◌, ◌⊎◌, refl, ap, ◌∙◌, Option, none, some, true, false, List, [], ◌∷◌, arith,
}
use cputwo.Base.Int.{ℤ, pos, negsuc, pos_part, neg_part, low_bits, low_bits-lt}
use mathlib.Core.Option.{some_inj}
use cputwo.Assembler.Token.{Token, ident, comma}
use cputwo.Assembler.Parse.{Parse, ok, bad}
use cputwo.Assembler.State.{Asm, asm_error, emit_word}
use cputwo.Assembler.Expr.{second, is_second, eval_expr}
use cputwo.Assembler.Opcodes.{
  InstrFmt, OpcodeEntry, fmt_i_signed, fmt_i_unsigned, fmt_i_shift, find_opcode,
}
use cputwo.Assembler.Operands.{parse_register, expect_comma, expression}
use cputwo.Assembler.Encode.{Item, word, enc_i, in_range, check_range, one_word, encode_imm, encode}
use cputwo.Assembler.Encode.Fields.{DecodedI, decode-enc_i}
use cputwo.Assembler.Encode.Immediate.{parse_register-le, register_lem}
use cputwo.Assembler.Directive.{fmt_size, emit_items, finish_instruction, assemble_instruction}

-- How far below and above zero an immediate of a format may lie.
abbrev pub limits : InstrFmt → Option (ℕ × ℕ)
limits fmt_i_signed = some (32768, 32767)
limits fmt_i_unsigned = some (0, 65535)
limits fmt_i_shift = some (0, 31)
limits fmt = none

near :
    (low high : ℕ) (imm : ℤ)
    → neg_part imm ≤ low
    → pos_part imm ≤ high
    → in_range low high imm ≡ true
unfolding in_range
near low high (pos n) below above = ground arith
near low high (negsuc n) below above = ground arith

far :
    (low high : ℕ) (imm : ℤ)
    → (low < neg_part imm) ⊎ (high < pos_part imm)
    → in_range low high imm ≡ false
unfolding in_range
far low high (pos n) out = ground arith
far low high (negsuc n) out = ground arith

-- The three formats differ in their limits alone, and take four bytes.
module _ (st : Asm) (e : OpcodeEntry) (low high : ℕ) where
  abbrev Limited : InstrFmt → Type 0
  Limited fmt =
      (encode st second e fmt ≡ encode_imm st second e.opcode low high) × (fmt_size fmt ≡ 4)

  with_limits :
      (fmt : InstrFmt) (low' high' : ℕ)
      → encode st second e fmt ≡ encode_imm st second e.opcode low' high'
      → fmt_size fmt ≡ 4
      → ◌≡◌ {A = Option (ℕ × ℕ)} (some (low', high')) (some (low, high))
      → Limited fmt
  with_limits fmt low' high' same size h =
      let p : ◌≡◌ {A = ℕ × ℕ} (low', high') (low, high) = some_inj.0 h in
      (same ∙ ap (λ (l : ℕ × ℕ). encode_imm st second e.opcode (l.0) (l.1)) p, size)

  encode_limits : (fmt : InstrFmt) → limits fmt ≡ some (low, high) → Limited fmt
  unfolding encode fmt_size
  encode_limits fmt_i_signed h = with_limits fmt_i_signed 32768 32767 refl refl h
  encode_limits fmt_i_unsigned h = with_limits fmt_i_unsigned 0 65535 refl refl h
  encode_limits fmt_i_shift h = with_limits fmt_i_shift 0 31 refl refl h
  encode_limits fmt h = absurd (ground arith)

module _ (st : Asm) (a b : List ℕ) (rd rs1 : ℕ) (ts rest : List Token) (imm : ℤ)
    (pa : parse_register a ≡ some rd) (pb : parse_register b ≡ some rs1)
    (value : eval_expr second st.symtab ts ≡ ok (imm, rest)) (opcode low high : ℕ) where
  abbrev operands : List Token
  operands = ident a ∷ comma ∷ ident b ∷ comma ∷ ts

  encode_imm_near :
      in_range low high imm ≡ true
      → encode_imm st second opcode low high operands
        ≡ ok (word (enc_i opcode rd rs1 (low_bits 16 imm)) ∷ [], rest)
  unfolding encode_imm expect_comma expression check_range one_word is_second
  encode_imm_near fits = rw (register_lem a rd _ pa, register_lem b rs1 _ pb, value, fits) refl

  encode_imm_far :
      in_range low high imm ≡ false → encode_imm st second opcode low high operands ≡ bad
  unfolding encode_imm expect_comma expression check_range one_word is_second
  encode_imm_far out = rw (register_lem a rd _ pa, register_lem b rs1 _ pb, value, out) refl

-- The instruction's lookup, and what its encoder returns.
looked_up :
    (st : Asm) (mnem : List ℕ) (toks : List Token) (e : OpcodeEntry) (low high : ℕ)
    (result : Parse (List Item × List Token))
    → find_opcode mnem ≡ some e
    → limits e.fmt ≡ some (low, high)
    → encode_imm st second e.opcode low high toks ≡ result
    → assemble_instruction second mnem toks st ≡ finish_instruction second 4 result st
unfolding assemble_instruction
looked_up st mnem toks e low high result found lim encoded =
    let (same, size) = encode_limits st e low high e.fmt lim in
    rw (assemble_instruction, found, size, same, encoded) refl

-- In the second pass, for a known instruction of one of the three formats of two registers and an
-- immediate, with limits from -32768 to 32767 (as ADDI), from 0 to 65535 (as ANDI) or from 0 to 31
-- (as LSLI): where the operands are two registers and an expression with a value, a value within the
-- limits, both of them included, gives one word, of which the emulator decodes the opcode, the
-- registers and the 16 low bits of the value; a value outside them changes nothing but the count of
-- errors, by one.
pub assemble_instruction_immediate :
    (st : Asm) (mnem a b : List ℕ) (e : OpcodeEntry) (low high rd rs1 : ℕ) (ts rest : List Token)
    (imm : ℤ)
    → find_opcode mnem ≡ some e
    → limits e.fmt ≡ some (low, high)
    → e.opcode < 256
    → parse_register a ≡ some rd
    → parse_register b ≡ some rs1
    → eval_expr second st.symtab ts ≡ ok (imm, rest)
    → let next = assemble_instruction second mnem (ident a ∷ comma ∷ ident b ∷ comma ∷ ts) st in
      (neg_part imm ≤ low
        → pos_part imm ≤ high
        → (w : ℕ) × (next ≡ emit_word w st) × DecodedI w e.opcode rd rs1 (low_bits 16 imm))
      × ((low < neg_part imm) ⊎ (high < pos_part imm)
          → next ≡ record st { error_count = st.error_count + 1 })
unfolding finish_instruction emit_items asm_error
assemble_instruction_immediate st mnem a b e low high rd rs1 ts rest imm found lim ho pa pb value =
    let toks = ident a ∷ comma ∷ ident b ∷ comma ∷ ts in
    (
      λ below above. (
        enc_i e.opcode rd rs1 (low_bits 16 imm),
        looked_up st mnem toks e low high _ found lim (
            encode_imm_near st a b rd rs1 ts rest imm pa pb value e.opcode low high
              (near low high imm below above)),
        decode-enc_i e.opcode rd ho (parse_register-le a rd pa) rs1 (low_bits 16 imm)
            (parse_register-le b rs1 pb) (low_bits-lt 16 imm (omega arith)),
      ),
      λ out. looked_up st mnem toks e low high bad found lim (
          encode_imm_far st a b rd rs1 ts rest imm pa pb value e.opcode low high
            (far low high imm out)),
    )
