-- ===== src/Assembler/Encode/Immediate.antt =====
-- FMT_I_SIGNED: from the operands to the fields that the emulator reads.
use cputwo.Base.{ℕ, ◌<◌, ◌≡◌, refl, ◌∙◌, true, some, List, [], ◌∷◌, arith}
use cputwo.Base.Int.{low_bits-lt, ℤ, pos, negsuc, low_bits}
use cputwo.Assembler.Token.{Token, ident, comma}
use cputwo.Assembler.Parse.{ok}
use cputwo.Assembler.State.{Asm}
use cputwo.Assembler.Expr.{second, is_second, eval_expr}
use cputwo.Assembler.Opcodes.{OpcodeEntry, fmt_i_signed}
use cputwo.Assembler.Operands.{
  numbered_register, parse_register, register_named, register, expect_comma, expression,
}
use cputwo.Assembler.Encode.{word, enc_i, in_range, check_range, one_word, encode_imm, encode}
use cputwo.Assembler.Encode.Fields.{decode-enc_i}
use cputwo.Emulator.Decode.{decode, sext16}

-- A register is one of sixteen.
numbered_register-le : (s : List ℕ) (n : ℕ) → numbered_register s ≡ some n → n < 16
unfolding numbered_register
numbered_register-le [] n e = ground arith
numbered_register-le (c ∷ []) n e = ground arith
numbered_register-le (c ∷ d ∷ cs) n e = grind arith

pub parse_register-le : (s : List ℕ) (n : ℕ) → parse_register s ≡ some n → n < 16
unfolding parse_register
parse_register-le s n e = ground (arith, numbered_register-le s n)

-- The 16 low digits of an immediate in range, with the sign extended, are its 32-bit pattern.
sext16-low_bits :
    (imm : ℤ) → in_range 32768 32767 imm ≡ true → sext16 (low_bits 16 imm) ≡ low_bits 32 imm
unfolding sext16 in_range
sext16-low_bits (pos n) h = ground arith
sext16-low_bits (negsuc n) h = ground arith

pub register_lem :
    (name : List ℕ) (n : ℕ) (ts : List Token)
    → parse_register name ≡ some n
    → register (ident name ∷ ts) ≡ ok (n, ts)
unfolding register register_named
register_lem name n ts e = rw (register_named, e) refl

-- In the second pass, an instruction of the format of ADDI with two registers and an immediate from
-- -32768 to 32767 gives one word, and the emulator decodes of it the opcode, the two registers, and,
-- with its sign extended, the 32-bit pattern of the immediate.
pub decode-encode_immediate :
    (st : Asm) (e : OpcodeEntry) (a b : List ℕ) (rd rs1 : ℕ) (ts rest : List Token) (imm : ℤ)
    → e.opcode < 256
    → parse_register a ≡ some rd
    → parse_register b ≡ some rs1
    → eval_expr second st.symtab ts ≡ ok (imm, rest)
    → in_range 32768 32767 imm ≡ true
    → (w : ℕ) × (encode st second e fmt_i_signed (ident a ∷ comma ∷ ident b ∷ comma ∷ ts)
        ≡ ok (word w ∷ [], rest))
      × ((decode w).op ≡ e.opcode)
      × ((decode w).rd ≡ rd)
      × ((decode w).rs1 ≡ rs1)
      × ((decode w).simm ≡ low_bits 32 imm)
unfolding encode encode_imm expect_comma expression check_range one_word is_second
decode-encode_immediate st e a b rd rs1 ts rest imm ho pa pb value fits =
    let d =
      decode-enc_i e.opcode rd ho (parse_register-le a rd pa) rs1 (low_bits 16 imm)
        (parse_register-le b rs1 pb) (low_bits-lt 16 imm (omega arith)) in
    (
      enc_i e.opcode rd rs1 (low_bits 16 imm),
      rw (register_lem a rd _ pa, register_lem b rs1 _ pb, value, fits) refl,
      d.op,
      d.rd,
      d.rs1,
      d.simm ∙ sext16-low_bits imm fits,
    )
