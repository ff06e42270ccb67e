-- ===== src/Assembler/Listing/Operands.antt =====
-- What the assembler encodes for printed immediates and targets, and for every format.
use cputwo.Base.{
  ℕ, ◌%◌, ◌^◌, ◌<◌, ◌≡◌, refl, sym, ◌∙◌, true, false, List, [], ◌∷◌, ◌==◌, if_intro, bit_and, add32,
  arith, lt→ltb,
}
use cputwo.Base.Bits.{bit_and_mask}
use cputwo.Base.Int.{pos}
use cputwo.Assembler.Token.{Token, int, comma}
use cputwo.Assembler.Parse.{ok}
use cputwo.Assembler.State.{Asm}
use cputwo.Assembler.Expr.{second, is_second, operand, first_operand, eval_tail, eval_expr}
use cputwo.Assembler.Opcodes.{InstrFmt, fmt_branch}
use cputwo.Assembler.Operands.{expect_comma, expression}
use cputwo.Assembler.Encode.{
  word, in_range, check_range, one_word, encode_imm, encode_movi, encode_relative, encode_target,
  cmpi_items, encode,
}
use cputwo.Linker.Reloc.{reloc_branch20, reloc_jump20}
use cputwo.Emulator.Decode.{decode}
use cputwo.Emulator.Disasm.{
  Shape, regs3, regs2, regs_cmp, shift5, mem, idx, cond_target, rd_target, rd_hex, no_operands,
  signed_imm, unsigned_imm, shift_imm, cmp_imm, unknown,
}
use cputwo.Assembler.Listing.Rows.{entry_of, is_regular, jump_code}
use cputwo.Assembler.Listing.Tokens.{reg, operands, decode-Fits}
use cputwo.Assembler.Listing.Words.{
  Near, Canonical, register-reg, low_bits-signed16, in_range-signed16, signed_end, in_bounds,
  low_small, relative_lem, word_cmpi, word_movi, word_none, word_i,
}
use cputwo.Assembler.Listing.Registers.{
  Encodes, Encodes-regs3, Encodes-regs2, Encodes-regs_cmp, Encodes-shift5, Encodes-mem, Encodes-idx,
}

target_flat :
    (st : Asm) (kind op rd : ℕ) (ts : List Token)
    → st.object_mode ≡ false
    → encode_target st second kind op rd ts ≡ encode_relative st second op rd ts
unfolding encode_target
target_flat st kind op rd ts flat = ground arith

module _ (name : List ℕ) (st : Asm) (w : ℕ) (h : w < 2 ^ 32) where
  encodes_imm16 :
      (low high : ℕ)
      → in_range low high (pos (decode w).imm16) ≡ true
      → encode_imm st second
          (decode w).op
          low
          high
          (reg (decode w).rd ∷ comma ∷ reg (decode w).rs1 ∷ comma ∷ int (pos (decode w).imm16) ∷ [])
        ≡ ok (word w ∷ [], [])
  unfolding encode_imm expect_comma one_word expression eval_expr eval_tail first_operand operand
      check_range is_second
  encodes_imm16 low high e =
      let f = decode-Fits w in
      rw
        (
          register-reg (decode w).rd _ f.rd,
          register-reg (decode w).rs1 _ f.rs1,
          e,
          low_small 16 (decode w).imm16 f.imm16,
          word_i w h,
        )
        refl

  Encodes-unsigned_imm : Encodes unsigned_imm name st w
  unfolding encode in_range
  Encodes-unsigned_imm =
      let f = decode-Fits w in
      encodes_imm16 0 65535 (in_bounds 65535 (decode w).imm16 (omega (arith, f.imm16)))

  Encodes-shift_imm : (decode w).imm16 < 32 → Encodes shift_imm name st w
  unfolding encode in_range
  Encodes-shift_imm small =
      let same : bit_and (decode w).imm16 0x1f ≡ (decode w).imm16 =
        bit_and_mask 5 (decode w).imm16 ∙ low_small 5 (decode w).imm16 small in
      rw same (encodes_imm16 0 31 (in_bounds 31 (decode w).imm16 (omega arith)))

  Encodes-signed_imm : Encodes signed_imm name st w
  unfolding encode encode_imm expect_comma one_word expression check_range is_second
  Encodes-signed_imm =
      let f = decode-Fits w in
      rw
        (
          register-reg (decode w).rd _ f.rd,
          register-reg (decode w).rs1 _ f.rs1,
          signed_end st.symtab (decode w).imm16 f.imm16,
          in_range-signed16 (decode w).imm16 f.imm16,
          low_bits-signed16 (decode w).imm16 f.imm16,
          word_i w h,
        )
        refl

  Encodes-cmp_imm : (decode w).rd ≡ 0 → (decode w).imm16 < 2 ^ 15 → Encodes cmp_imm name st w
  unfolding encode cmpi_items expect_comma expression eval_expr eval_tail first_operand operand
      in_range is_second
  Encodes-cmp_imm no_rd small =
      let f = decode-Fits w in
      rw
        (
          lt→ltb (decode w).imm16 (2 ^ 15) small,
          register-reg (decode w).rs1 _ f.rs1,
          in_bounds 65535 (decode w).imm16 (omega arith),
          low_small 16 (decode w).imm16 f.imm16,
          word_cmpi w h no_rd,
        )
        refl

  Encodes-rd_hex : (decode w).rs1 ≡ 0 → Encodes rd_hex name st w
  unfolding encode encode_movi expect_comma one_word expression eval_expr eval_tail first_operand
      operand check_range in_range is_second
  Encodes-rd_hex no_rs1 = if_intro at_fmt ((decode w).op == 0x13) (λ e. encoded) (λ e. encoded)
    where
      at_fmt : InstrFmt → Type 0
      at_fmt fmt =
          encode st second (entry_of name (decode w).op fmt 0) fmt
            (operands rd_hex st.org_addr (decode w))
          ≡ ok (word w ∷ [], [])

      encoded :
          encode_movi st second
            (decode w).op
            (reg (decode w).rd ∷ comma ∷ int (pos (decode w).imm16) ∷ [])
          ≡ ok (word w ∷ [], [])
      encoded =
          let f = decode-Fits w in
          rw
            (
              register-reg (decode w).rd _ f.rd,
              in_bounds 65535 (decode w).imm16 (omega (arith, f.imm16)),
              low_small 16 (decode w).imm16 f.imm16,
              word_movi w h no_rs1,
            )
            refl

  Encodes-no_operands : w % 2 ^ 24 ≡ 0 → Encodes no_operands name st w
  unfolding encode one_word
  Encodes-no_operands low = rw (word_none w h low) refl

  Encodes-rd_target :
      st.object_mode ≡ false
      → st.org_addr < 2 ^ 32
      → (decode w).op ≡ 0x0e
      → Near st.org_addr (decode w).soff
      → Encodes rd_target name st w
  unfolding encode expect_comma
  Encodes-rd_target flat ha code near =
      let f = decode-Fits w in
      rw (register-reg (decode w).rd _ f.rd)
        (target_flat st reloc_jump20 0x0e (decode w).rd _ flat ∙ reached)
    where
      reached :
          encode_relative st second 0x0e
            (decode w).rd
            (int (pos (add32 st.org_addr (decode w).soff)) ∷ [])
          ≡ ok (word w ∷ [], [])
      reached = rw (sym code) (relative_lem st w h ha near)

  pub encodes_branch :
      st.object_mode ≡ false
      → st.org_addr < 2 ^ 32
      → (decode w).op ≡ 0x0d
      → Near st.org_addr (decode w).soff
      → encode st second
          (entry_of name 0x0d fmt_branch (decode w).rd)
          fmt_branch
          (operands cond_target st.org_addr (decode w))
        ≡ ok (word w ∷ [], [])
  unfolding encode
  encodes_branch flat ha code near =
      target_flat st reloc_branch20 0x0d (decode w).rd _ flat
      ∙ rw (sym code) (relative_lem st w h ha near)

-- An instruction with its operands behind the mnemonic.
pub encode_listing :
    (s : Shape) (name : List ℕ) (st : Asm) (w : ℕ)
    → w < 2 ^ 32
    → st.object_mode ≡ false
    → st.org_addr < 2 ^ 32
    → is_regular s ≡ true
    → jump_code (decode w).op s ≡ true
    → Canonical s st.org_addr w
    → Encodes s name st w
encode_listing regs3 name st w h flat ha r j c = Encodes-regs3 name st w h c
encode_listing regs2 name st w h flat ha r j c = Encodes-regs2 name st w h c
encode_listing regs_cmp name st w h flat ha r j c = Encodes-regs_cmp name st w h c.0 c.1
encode_listing shift5 name st w h flat ha r j c = Encodes-shift5 name st w h c.0 c.1
encode_listing mem name st w h flat ha r j c = Encodes-mem name st w h
encode_listing idx name st w h flat ha r j c = Encodes-idx name st w h c
encode_listing cond_target name st w h flat ha r j c = absurd (cc)
encode_listing rd_target name st w h flat ha r j c =
    Encodes-rd_target name st w h flat ha (ground arith) c
encode_listing rd_hex name st w h flat ha r j c = Encodes-rd_hex name st w h c
encode_listing no_operands name st w h flat ha r j c = Encodes-no_operands name st w h c
encode_listing signed_imm name st w h flat ha r j c = Encodes-signed_imm name st w h
encode_listing unsigned_imm name st w h flat ha r j c = Encodes-unsigned_imm name st w h
encode_listing shift_imm name st w h flat ha r j c = Encodes-shift_imm name st w h c
encode_listing cmp_imm name st w h flat ha r j c = Encodes-cmp_imm name st w h c.0 c.1
encode_listing unknown name st w h flat ha r j c = absurd (cc)
